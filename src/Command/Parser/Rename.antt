-- ===== src/Command/Parser/Rename.antt =====
-- core/command.cpp: `RenameCommandParser`, and `RenameCommand`, which does its work in three steps
-- where the two keys belong to different slots.
pub mod Steps
use redis_cerberus.Prelude.{
  ℕ, ◌+◌, Bool, true, false, not, ◌||◌, List, [], ◌∷◌, ◌++◌, Bytes, codes, slice, get_or, ◌==◌,
  bytes_eq, if◌then◌else◌,
}
use redis_cerberus.SlotCalc.{KeySlotCalc, reset, next_bytes, get_slot}
use redis_cerberus.Message.Outcome.{Outcome, ok, ◌>>=◌}
use redis_cerberus.Message.Scan.{length_of_cr_lf}
use redis_cerberus.Command.Group.{Group, direct, single, rename, rsp_ok_str}
use redis_cerberus.Command.Parser.Range.{range}

-- `key_slot[0]` and `key_slot[1]` are the fields `src_slot` and `dst_slot`.
pub record RenameParser : Type 0 where
  pub command_begin : ℕ
  pub split_points : List ℕ
  pub src_slot : KeySlotCalc
  pub dst_slot : KeySlotCalc
  pub slot_index : ℕ
  pub bad : Bool

abbrev pub rename_parser : ℕ → ℕ → RenameParser
rename_parser cmd_begin arg_begin = record {
  command_begin = cmd_begin;
  split_points = arg_begin ∷ [];
  src_slot = reset;
  dst_slot = reset;
  slot_index = 0;
  bad = false;
}

-- `this->key_slot[this->slot_index].next_byte(..)`.
abbrev feed_key : Bytes → RenameParser → RenameParser
feed_key key p =
    if p.slot_index == 0
    then record p { src_slot = next_bytes p.src_slot key }
    else record p { dst_slot = next_bytes p.dst_slot key }

unfoldable pub rename_on_str : Bytes → ℕ → ℕ → RenameParser → Outcome RenameParser
unfolding range next_bytes
rename_on_str buf begin last p =
    if p.slot_index == 2
    then ok (record p { bad = true })
    else (range buf begin last >>= λ key. ok (record (feed_key key p) {
      split_points = p.split_points ++ (last + length_of_cr_lf) ∷ [];
      slot_index = p.slot_index + 1;
    }))

unfoldable pub rename_spawn : Bytes → RenameParser → Group
unfolding get_slot
rename_spawn buf p =
    let src = get_slot p.src_slot in
    let dst = get_slot p.dst_slot in
    let point = get_or p.split_points in
    if not (p.slot_index == 2) || p.bad
    then direct (codes "-ERR wrong number of arguments for 'rename' command\r\n")
    else if src == dst
    then single (record { buffer = slice buf p.command_begin (point 2 0); key_slot = src })
    else rename (slice buf (point 0 0) (point 1 0)) (slice buf (point 1 0) (point 2 0)) src dst

-- The step that `on_rsp` stands for: an answer to GET, to SET or to DEL is awaited.
pub data RenameStep : Type 0 where
  awaiting_get awaiting_set awaiting_del : RenameStep

-- `RenameCommand`, and whether `responsed` was called: then `buffer` is the answer to the client.
pub record RenameCommand : Type 0 where
  pub buffer : Bytes
  pub current_key_slot : ℕ
  pub on_rsp : RenameStep
  pub old_key : Bytes
  pub new_key : Bytes
  pub old_key_slot : ℕ
  pub new_key_slot : ℕ
  pub responsed : Bool

abbrev pub rename_command : Bytes → Bytes → ℕ → ℕ → RenameCommand
rename_command old_key new_key old_slot new_slot = record {
  buffer = codes "*2\r\n$3\r\nGET\r\n" ++ old_key;
  current_key_slot = old_slot;
  on_rsp = awaiting_get;
  old_key = old_key;
  new_key = new_key;
  old_key_slot = old_slot;
  new_key_slot = new_slot;
  responsed = false;
}

abbrev answer : Bytes → RenameCommand → RenameCommand
answer rsp c = record c { buffer = rsp; responsed = true }

-- `rsp_get`: the value that GET returned is sent on as it came, behind the new key.
rsp_get : Bytes → Bool → RenameCommand → RenameCommand
rsp_get rsp error c =
    if error
    then answer rsp c
    else if bytes_eq rsp (codes "$-1\r\n")
    then answer (codes "-ERR no such key\r\n") c
    else record c {
      buffer = codes "*3\r\n$3\r\nSET\r\n" ++ (c.new_key ++ rsp);
      current_key_slot = c.new_key_slot;
      on_rsp = awaiting_set;
    }

-- The lambda that waits for SET, with `rsp_set`.
rsp_set : Bytes → Bool → RenameCommand → RenameCommand
rsp_set rsp error c = if error then answer rsp c else record c {
  buffer = codes "*2\r\n$3\r\nDEL\r\n" ++ c.old_key;
  current_key_slot = c.old_key_slot;
  on_rsp = awaiting_del;
}

dispatch : RenameStep → Bytes → Bool → RenameCommand → RenameCommand
unfolding rsp_get rsp_set
dispatch awaiting_get rsp error c = rsp_get rsp error c
dispatch awaiting_set rsp error c = rsp_set rsp error c
dispatch awaiting_del rsp error c = answer rsp_ok_str c

-- `on_remote_responsed`.
unfoldable pub on_remote_responsed : Bytes → Bool → RenameCommand → RenameCommand
unfolding dispatch bytes_eq
on_remote_responsed rsp error c = dispatch c.on_rsp rsp error c
