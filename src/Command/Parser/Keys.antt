-- ===== src/Command/Parser/Keys.antt =====
-- core/command.cpp: `EachKeyCommandParser` with MGET and DEL, and `MSetCommandParser`.
use redis_cerberus.Prelude.{
  ℕ, ◌+◌, Bool, true, false, not, ◌||◌, List, [], ◌∷◌, ◌++◌, Bytes, codes, slice, if◌then◌else◌,
}
use redis_cerberus.SlotCalc.{slot_of}
use redis_cerberus.Message.Outcome.{Outcome, ok, ◌>>=◌}
use redis_cerberus.Message.Scan.{length_of_cr_lf}
use redis_cerberus.Command.Group.{
  OneSlotCommand, Multiple, mget_group, del_group, mset_group, Group, direct, multiple,
}
use redis_cerberus.Command.Parser.Range.{range}

-- The two classes that derive from `EachKeyCommandParser`.
pub data EachKey : Type 0 where
  mget del : EachKey

abbrev pub command_name : EachKey → Bytes
command_name mget = codes "mget"
command_name del = codes "del"

abbrev pub command_header : EachKey → Bytes
command_header mget = codes "*2\r\n$3\r\nGET\r\n"
command_header del = codes "*2\r\n$3\r\nDEL\r\n"

abbrev pub make_group : EachKey → Multiple
make_group mget = mget_group
make_group del = del_group

abbrev pub wrong_arguments : Bytes → Bytes
wrong_arguments name =
    codes "-ERR wrong number of arguments for '" ++ (name ++ codes "' command\r\n")

pub record EachKeyParser : Type 0 where
  pub kind : EachKey
  pub keys_split_points : List ℕ
  pub keys_slots : List ℕ

abbrev pub each_key_parser : EachKey → ℕ → EachKeyParser
each_key_parser kind arg_begin = record {
  kind = kind;
  keys_split_points = arg_begin ∷ [];
  keys_slots = [];
}

unfoldable pub each_key_on_str : Bytes → ℕ → ℕ → EachKeyParser → Outcome EachKeyParser
unfolding range slot_of
each_key_on_str buf begin last p = do
  key ← range buf begin last
  ok (record p {
    keys_split_points = p.keys_split_points ++ (last + length_of_cr_lf) ∷ [];
    keys_slots = p.keys_slots ++ slot_of key ∷ [];
  })

-- The loop over the slots: command `i` takes the bytes between the split points `i` and `i + 1`.
unfoldable pub each_key_commands : Bytes → Bytes → List ℕ → List ℕ → List OneSlotCommand
each_key_commands buf header (p ∷ q ∷ points) (s ∷ slots) =
    (record { buffer = header ++ slice buf p q; key_slot = s })
    ∷ each_key_commands buf header (q ∷ points) slots
each_key_commands buf header _ _ = []

abbrev pub is_nil {ℓ} : {A : Type ℓ} → List A → Bool
is_nil [] = true
is_nil (_ ∷ _) = false

unfoldable pub each_key_spawn : Bytes → EachKeyParser → Group
unfolding each_key_commands
each_key_spawn buf p =
    if is_nil p.keys_slots
    then direct (wrong_arguments (command_name p.kind))
    else multiple (make_group p.kind)
        (each_key_commands buf (command_header p.kind) p.keys_split_points p.keys_slots)

pub record MSetParser : Type 0 where
  pub kv_split_points : List ℕ
  pub keys_slots : List ℕ
  pub current_is_key : Bool

abbrev pub mset_parser : ℕ → MSetParser
mset_parser arg_begin = record {
  kv_split_points = arg_begin ∷ [];
  keys_slots = [];
  current_is_key = true;
}

-- Of a value only the end is looked at.
unfoldable pub mset_key_slots : Bytes → ℕ → ℕ → MSetParser → Outcome (List ℕ)
unfolding range slot_of
mset_key_slots buf begin last p =
    if p.current_is_key
    then (range buf begin last >>= λ key. ok (p.keys_slots ++ slot_of key ∷ []))
    else ok p.keys_slots

unfoldable pub mset_on_str : Bytes → ℕ → ℕ → MSetParser → Outcome MSetParser
unfolding mset_key_slots
mset_on_str buf begin last p = do
  slots ← mset_key_slots buf begin last p
  ok (record {
    kv_split_points = p.kv_split_points ++ (last + length_of_cr_lf) ∷ [];
    keys_slots = slots;
    current_is_key = not p.current_is_key;
  })

abbrev pub mset_header : Bytes
mset_header = codes "*3\r\n$3\r\nSET\r\n"

-- Command `i` takes the bytes between the split points `i * 2` and `i * 2 + 2`.
unfoldable pub mset_commands : Bytes → List ℕ → List ℕ → List OneSlotCommand
mset_commands buf (p ∷ q ∷ r ∷ points) (s ∷ slots) =
    (record { buffer = mset_header ++ slice buf p r; key_slot = s })
    ∷ mset_commands buf (r ∷ points) slots
mset_commands buf _ _ = []

unfoldable pub mset_spawn : Bytes → MSetParser → Group
unfolding mset_commands
mset_spawn buf p =
    if is_nil p.keys_slots || not p.current_is_key
    then direct (codes "-ERR wrong number of arguments for 'mset' command\r\n")
    else multiple mset_group (mset_commands buf p.kv_split_points p.keys_slots)
