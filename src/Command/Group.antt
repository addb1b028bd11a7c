-- ===== src/Command/Group.antt =====
-- core/command.hpp and command.cpp: the groups of commands that a client's request becomes.
use redis_cerberus.Prelude.{
  ℕ, ◌+◌, Bool, true, false, List, [], ◌∷◌, ◌++◌, Bytes, codes, ◌==◌, if◌then◌else◌,
}

-- `OneSlotCommand`: its buffer, and the slot by which its server is selected.
pub record OneSlotCommand : Type 0 where
  pub buffer : Bytes
  pub key_slot : ℕ

-- `MultipleCommandsGroup`, and `DelCommandGroup` and `MSetCommandGroup` that derive from it.
pub data Multiple : Type 0 where
  mget_group del_group mset_group : Multiple

-- `DirectCommandGroup`; `SingleCommandGroup` of a `OneSlotCommand` or of a `RenameCommand`, with
-- the two keys as they were sent and their slots; the multiple groups; and the two groups that
-- derive from `LongCommandGroup`, `Subscribe` and `BlockedPop`.
pub data Group : Type 0 where
  direct : Bytes → Group
  single : OneSlotCommand → Group
  rename : Bytes → Bytes → ℕ → ℕ → Group
  multiple : Multiple → List OneSlotCommand → Group
  subscribe : Bytes → Group
  blocked_pop : Bytes → ℕ → Group

abbrev pub long_connection : Group → Bool
long_connection (subscribe _) = true
long_connection (blocked_pop _ _) = true
long_connection _ = false

-- `StatsCommandGroup` waits for a server.
abbrev pub wait_remote : Group → Bool
wait_remote (single _) = true
wait_remote (rename _ _ _ _) = true
wait_remote (multiple _ _) = true
wait_remote _ = false

-- `RSP_OK_STR`.
abbrev pub rsp_ok_str : Bytes
rsp_ok_str = codes "+OK\r\n"

-- `std::find(.., '1') == end ? 0 : 1`.
unfoldable pub has_one : Bytes → ℕ
has_one [] = 0
has_one (c ∷ cs) = if c == b'1' then 1 else has_one cs

unfoldable pub deleted : List Bytes → ℕ
unfolding has_one
deleted [] = 0
deleted (b ∷ bs) = has_one b + deleted bs

unfoldable pub concat : List Bytes → Bytes
concat [] = []
concat (b ∷ bs) = b ++ concat bs
