-- ===== src/Tests/Answers.antt =====
-- The theorems on numbers, on requests that are written, and on the answers of several servers, at
-- concrete inputs.
use redis_cerberus.Prelude.{
  ℕ, ◌+◌, ◌==◌, true, false, [], ◌∷◌, ◌++◌, Bytes, codes, length, some, if◌then◌else◌, ◌≡◌, refl,
  arith,
}
use redis_cerberus.Prelude.Int.{pos, negsuc}
use redis_cerberus.Text.Decimal.{str}
use redis_cerberus.Text.HostPort.{int_str}
use redis_cerberus.Text.Compare.{to_upper}
use redis_cerberus.Message.Outcome.{ok}
use redis_cerberus.Message.Scan.{btoi}
use redis_cerberus.Message.Number.Bounds.{keeps_rint, btoi-int_str}
use redis_cerberus.Message.Format.{format_command}
use redis_cerberus.Message.Reply.{put}
use redis_cerberus.Command.Group.{mget_group, del_group}
use redis_cerberus.Command.Parser.Keys.{EachKey}
use redis_cerberus.Command.Parser.Rename.Steps.{Got, get_message, renaming}
use redis_cerberus.Command.Table.{contains, find, standard_table, special_table}
use redis_cerberus.Command.Request.{Request, group_of}
use redis_cerberus.Command.Request.Format.{split_client_command-format_command}
use redis_cerberus.Command.Splitter.{Environment, split_client_command}
use redis_cerberus.State.{
  GroupState, single, multi_steps, multiple, Gathering, Proxy, set_group, update,
}
use redis_cerberus.State.Queues.{get_server_by_slot}
use redis_cerberus.Server.{bytes_of}
use redis_cerberus.Client.Responses.{append_buffers, group_responsed}
use redis_cerberus.Client.Gather.{gather_each, answers_from, AllAnswered}
use redis_cerberus.Client.Answers.{
  answer_each, answer_each-mget, answer_each-del, del_reply, keys_there,
}
use redis_cerberus.Client.Queued.{only}
use redis_cerberus.Client.Renames.{Renames, on_remote_responsed-Renames}
use redis_cerberus.Tests.Thread.{thread}

btoi-int_str_example :
    (btoi (codes ":-45\r\n") 1 ≡ ok (negsuc 44, 1 + length (int_str (negsuc 44)) + 2))
    × (keeps_rint (pos 0) (str 45 ++ b'\r' ∷ b'\n' ∷ []) ≡ true)
unfolding int_str str
btoi-int_str_example = btoi-int_str (negsuc 44) (codes ":-45\r\n") 1 [] (omega arith) refl

-- A proxy that serves writes, and an MGET of two keys.
abbrev environment : Environment
environment = record { writes = true; unset = pos 0; random_slot = 0; stats = [] }

abbrev two_keys : Request
two_keys = Request.each_key EachKey.mget (codes "MGET") (codes "a" ∷ codes "{a}b" ∷ [])

split_client_command-format_command_example :
    split_client_command environment (format_command (codes "MGET") (codes "a" ∷ codes "{a}b" ∷ []))
    ≡ ok (group_of two_keys ∷ [], [], [])
unfolding contains find to_upper standard_table special_table
split_client_command-format_command_example =
    split_client_command-format_command environment two_keys (codes "MGET")
      (codes "a" ∷ codes "{a}b" ∷ []) refl ((ground arith, (refl, refl)), tt)
      (omega arith, (omega arith, (omega arith, tt)))

-- Two commands of a group, of which the second is answered first.
abbrev two_commands : Gathering
two_commands = record {
  arr_payload = [];
  commands = (record { buffer = []; key_slot = 1 }) ∷ (record { buffer = []; key_slot = 2 }) ∷ [];
  awaiting_count = 2;
  complete = false;
}

abbrev with_group : GroupState → Proxy
with_group s = record thread { groups = λ _. record { client = 0; state = s } }

abbrev answer_at : ℕ → Bytes
answer_at k = if k == 0 then codes "$1\r\na\r\n" else codes "$-1\r\n"

answer_each-mget_example :
    let p = with_group (multiple mget_group two_commands) in
    let all = gather_each (1 ∷ 0 ∷ []) answer_at two_commands in
    (answer_each 0 answer_at (λ _. false) (1 ∷ 0 ∷ []) p
      ≡ group_responsed 0 (set_group 0 (multiple mget_group all) p))
    × (all.complete ≡ true)
    × (append_buffers (multiple mget_group all)
        ≡ codes "*2\r\n" ∷ codes "$1\r\na\r\n" ∷ codes "$-1\r\n" ∷ [])
unfolding AllAnswered redis_cerberus.State.contains answers_from str
answer_each-mget_example =
    answer_each-mget 0 answer_at (λ _. false) (1 ∷ 0 ∷ []) 1 two_commands
      (with_group (multiple mget_group two_commands)) refl refl (refl, (refl, tt)) refl

-- The first key was there.
answer_each-del_example :
    let p = with_group (multiple del_group two_commands) in
    let all = gather_each (1 ∷ 0 ∷ []) (λ i. del_reply (i == 0)) two_commands in
    (answer_each 0 (λ i. del_reply (i == 0)) (λ _. false) (1 ∷ 0 ∷ []) p
      ≡ group_responsed 0 (set_group 0 (multiple del_group all) p))
    × (append_buffers (multiple del_group all) ≡ codes ":1\r\n" ∷ [])
unfolding AllAnswered redis_cerberus.State.contains keys_there put str
answer_each-del_example =
    answer_each-del 0 (λ i. i == 0) (λ _. false) (1 ∷ 0 ∷ []) 1 two_commands
      (with_group (multiple del_group two_commands)) refl refl (refl, (refl, tt)) refl

-- RENAME of "a", whose slot server 0 has, to "b", whose slot server 1 has.
abbrev renaming_thread : Proxy
renaming_thread = record thread {
  groups = λ _. record {
    client = 0;
    state = single (multi_steps (renaming (codes "a") (codes "b") 15495 3300)) false;
  };
  server_map = λ slot. if slot == 3300 then some 1 else some 0;
}

on_remote_responsed-Renames_example :
    (bytes_of renaming_thread (only 0) ≡ get_message (codes "a"))
    × Renames 0 0 1
        (codes "a")
        (codes "b")
        15495
        3300
        (Got.found (codes "v"))
        (codes "+OK\r\n")
        false
        (codes ":1\r\n", false)
        renaming_thread
unfolding get_server_by_slot
on_remote_responsed-Renames_example =
    on_remote_responsed-Renames 0 0 1 (codes "a") (codes "b") 15495 3300 (Got.found (codes "v"))
      (codes "+OK\r\n") false (codes ":1\r\n", false) renaming_thread refl refl refl
