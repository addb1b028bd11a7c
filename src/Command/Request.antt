-- ===== src/Command/Request.antt =====
-- What each request asks for, told by its arguments alone: the group that it becomes, with no
-- position in a buffer. The names are those of the tables of core/command.cpp.
pub mod Serve
pub mod Stream
pub mod Format
pub mod Pairs
pub mod Texts
use redis_cerberus.Prelude.{
  ℕ, suc, ◌+◌, ◌<◌, ◌≤◌, Bool, true, false, List, [], ◌∷◌, ◌++◌, map, Bytes, codes, length, Option,
  none, some, ◌≡◌,
}
use redis_cerberus.SlotCalc.{slot_of}
use redis_cerberus.Text.Compare.{to_upper}
use redis_cerberus.Message.Reply.{bulk, put}
use redis_cerberus.Message.Request.{request}
use redis_cerberus.Command.Group.{Group, OneSlotCommand, direct, single, multiple, mset_group}
use redis_cerberus.Command.Table.{Special, contains, find, standard_table, special_table}
use redis_cerberus.Command.Parser.Keys.{
  EachKey, command_header, command_name, make_group, mset_header, wrong_arguments,
}

abbrev pub each_key_command : EachKey → Bytes → OneSlotCommand
each_key_command kind key = record {
  buffer = command_header kind ++ put (bulk key) [];
  key_slot = slot_of key;
}

-- A key of MSET and its value.
abbrev pub Pair : Type 0
Pair = Bytes × Bytes

abbrev pub key_of : Pair → ℕ
key_of (k, v) = slot_of k

abbrev pub flat : List Pair → List Bytes
flat [] = []
flat ((k, v) ∷ kvs) = k ∷ v ∷ flat kvs

abbrev pub set_command : Pair → OneSlotCommand
set_command (k, v) = record {
  buffer = mset_header ++ put (bulk k) (put (bulk v) []);
  key_slot = slot_of k;
}

-- A request: the name as it was sent, and the arguments behind it.
pub data Request : Type 0 where
  -- A command of the standard table.
  standard : Bytes → List Bytes → Request
  -- A name in neither table.
  unknown : Bytes → List Bytes → Request
  -- MGET or DEL.
  each_key : EachKey → Bytes → List Bytes → Request
  -- MSET of keys and values.
  mset : Bytes → List Pair → Request

abbrev pub args_of : Request → List Bytes
args_of (standard name args) = name ∷ args
args_of (unknown name args) = name ∷ args
args_of (each_key kind name keys) = name ∷ keys
args_of (mset name kvs) = name ∷ flat kvs

abbrev pub special_name : EachKey → Special
special_name EachKey.mget = Special.mget
special_name EachKey.del = Special.del

-- The tables that a request's name is in, and the length that a request may have.
abbrev pub InTables : Bool → Request → Type 0
InTables writes (standard name args) = contains (standard_table writes) (map to_upper name) ≡ true
InTables writes (unknown name args) =
    (contains (standard_table writes) (map to_upper name) ≡ false)
    × (find (special_table writes) (map to_upper name) ≡ none)
InTables writes (each_key kind name keys) =
    (contains (standard_table writes) (map to_upper name) ≡ false)
    × (find (special_table writes) (map to_upper name) ≡ some (special_name kind))
InTables writes (mset name kvs) =
    (contains (standard_table writes) (map to_upper name) ≡ false)
    × (find (special_table writes) (map to_upper name) ≡ some Special.mset)

abbrev pub IsRequest : Bool → Request → Type 0
IsRequest writes r = (length (args_of r) ≤ 1048576) × InTables writes r

abbrev pub AreRequests : Bool → List Request → Type 0
AreRequests writes [] = Unit
AreRequests writes (r ∷ rs) = IsRequest writes r × AreRequests writes rs

abbrev pub key_not_specified : Bytes
key_not_specified = codes "-ERR Unknown command or command key not specified\r\n"

-- The group.
abbrev pub group_of : Request → Group
group_of (standard name []) = direct key_not_specified
group_of (standard name (key ∷ args)) =
    single (record { buffer = put (request (name ∷ key ∷ args)) []; key_slot = slot_of key })
group_of (unknown name args) = direct key_not_specified
group_of (each_key kind name []) = direct (wrong_arguments (command_name kind))
group_of (each_key kind name (key ∷ keys)) =
    multiple (make_group kind) (map (each_key_command kind) (key ∷ keys))
group_of (mset name []) = direct (codes "-ERR wrong number of arguments for 'mset' command\r\n")
group_of (mset name (kv ∷ kvs)) = multiple mset_group (map set_command (kv ∷ kvs))
