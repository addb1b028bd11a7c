-- ===== src/Command/Parser/Single.antt =====
-- core/command.cpp: the parsers of commands that are sent on whole: SUBSCRIBE and PSUBSCRIBE,
-- BLPOP and BRPOP, EVAL, PUBLISH, and KEYSINSLOT, which is sent under another name.
use redis_cerberus.Prelude.{
  ℕ, zero, suc, ◌+◌, ◌-◌, ◌^◌, Bool, true, false, not, ◌||◌, ◌++◌, Bytes, codes, slice, ltb, leb,
  ◌==◌, if◌then◌else◌,
}
use redis_cerberus.Prelude.Int.{ℤ, pos, negsuc}
use redis_cerberus.SlotCalc.{KeySlotCalc, reset, next_bytes, get_slot}
use redis_cerberus.Text.Atoi.{atoi}
use redis_cerberus.Message.Outcome.{Outcome, ok, ◌>>=◌}
use redis_cerberus.Command.Group.{Group, direct, single, subscribe, blocked_pop}
use redis_cerberus.Command.Parser.Range.{range}

pub record SubscribeParser : Type 0 where
  pub begin : ℕ
  pub no_arg : Bool

abbrev pub subscribe_parser : ℕ → SubscribeParser
subscribe_parser begin = record { begin = begin; no_arg = true }

abbrev pub subscribe_on_str : SubscribeParser → SubscribeParser
subscribe_on_str p = record p { no_arg = false }

unfoldable pub subscribe_spawn : Bytes → ℕ → SubscribeParser → Group
subscribe_spawn buf end p =
    if p.no_arg
    then direct (codes "-ERR wrong number of arguments for 'subscribe' command\r\n")
    else subscribe (slice buf p.begin end)

pub record BlockedListPopParser : Type 0 where
  pub cmd_begin : ℕ
  pub slot_calc : KeySlotCalc
  pub args_count : ℕ

abbrev pub blocked_list_pop_parser : ℕ → BlockedListPopParser
blocked_list_pop_parser begin = record { cmd_begin = begin; slot_calc = reset; args_count = 0 }

-- Every argument is fed to the one calculator, the timeout behind the key too.
unfoldable pub blocked_list_pop_on_str :
    Bytes → ℕ → ℕ → BlockedListPopParser → Outcome BlockedListPopParser
unfolding range next_bytes
blocked_list_pop_on_str buf begin last p = do
  arg ← range buf begin last
  ok (record p { slot_calc = next_bytes p.slot_calc arg; args_count = p.args_count + 1 })

unfoldable pub blocked_list_pop_spawn : Bytes → ℕ → BlockedListPopParser → Group
unfolding get_slot
blocked_list_pop_spawn buf end p =
    if not (p.args_count == 2)
    then direct (codes "-ERR BLPOP/BRPOP takes exactly 2 arguments KEY TIMEOUT in proxy\r\n")
    else blocked_pop (slice buf p.cmd_begin end) (get_slot p.slot_calc)

pub record EvalParser : Type 0 where
  pub cmd_begin : ℕ
  pub slot_calc : KeySlotCalc
  pub arg_count : ℕ
  pub key_count : ℤ

abbrev pub eval_parser : ℕ → EvalParser
eval_parser begin = record {
  cmd_begin = begin;
  slot_calc = reset;
  arg_count = 0;
  key_count = pos 0;
}

-- The switch on the number of the argument, which the caller has counted up already.
eval_arg : ℤ → Bytes → ℕ → ℕ → ℕ → EvalParser → Outcome EvalParser
unfolding atoi range next_bytes
eval_arg unset buf begin last zero p = ok p
eval_arg unset buf begin last (suc zero) p = do
  text ← range buf begin last
  n ← atoi unset text
  ok (record p { key_count = n })
eval_arg unset buf begin last (suc (suc zero)) p = do
  key ← range buf begin last
  ok (record p { slot_calc = next_bytes p.slot_calc key })
eval_arg unset buf begin last (suc (suc (suc n))) p = ok p

unfoldable pub eval_on_str : ℤ → Bytes → ℕ → ℕ → EvalParser → Outcome EvalParser
unfolding eval_arg
eval_on_str unset buf begin last p =
    eval_arg unset buf begin last p.arg_count (record p { arg_count = p.arg_count + 1 })

abbrev is_one_ℤ : ℤ → Bool
is_one_ℤ (pos n) = n == 1
is_one_ℤ (negsuc n) = false

unfoldable pub eval_spawn : Bytes → ℕ → EvalParser → Group
unfolding get_slot
eval_spawn buf end p =
    if ltb p.arg_count 3 || not (is_one_ℤ p.key_count)
    then direct (codes "-ERR wrong number of arguments for 'eval' command\r\n")
    else single (record { buffer = slice buf p.cmd_begin end; key_slot = get_slot p.slot_calc })

pub record PublishParser : Type 0 where
  pub begin : ℕ
  pub arg_count : ℕ

abbrev pub publish_parser : ℕ → PublishParser
publish_parser begin = record { begin = begin; arg_count = 0 }

abbrev pub publish_on_str : PublishParser → PublishParser
publish_on_str p = record p { arg_count = p.arg_count + 1 }

-- `random_slot` is what `util::randint(0, CLUSTER_SLOT_COUNT)` returns.
unfoldable pub publish_spawn : ℕ → Bytes → ℕ → PublishParser → Group
publish_spawn random_slot buf end p =
    if not (p.arg_count == 2)
    then direct (codes "-ERR wrong number of arguments for 'publish' command\r\n")
    else single (record { buffer = slice buf p.begin end; key_slot = random_slot })

-- `CLUSTER_SLOT_COUNT`.
abbrev pub cluster_slot_count : ℕ
cluster_slot_count = 16384

-- An `int` turned into a `slot`, which is unsigned.
abbrev pub to_slot : ℤ → ℕ
to_slot (pos n) = n
to_slot (negsuc n) = 2 ^ 32 - suc n

pub record KeysInSlotParser : Type 0 where
  pub arg_start : ℕ
  pub arg_count : ℕ
  pub slot : ℕ

abbrev pub keys_in_slot_parser : ℕ → KeysInSlotParser
keys_in_slot_parser arg_start = record { arg_start = arg_start; arg_count = 0; slot = 0 }

unfoldable pub keys_in_slot_slot : ℤ → Bytes → ℕ → ℕ → KeysInSlotParser → Outcome ℕ
unfolding atoi range
keys_in_slot_slot unset buf begin last p =
    if p.arg_count == 0
    then (do text ← range buf begin last; n ← atoi unset text; ok (to_slot n))
    else ok p.slot

unfoldable pub keys_in_slot_on_str : ℤ → Bytes → ℕ → ℕ → KeysInSlotParser → Outcome KeysInSlotParser
unfolding keys_in_slot_slot
keys_in_slot_on_str unset buf begin last p = do
  s ← keys_in_slot_slot unset buf begin last p
  ok (record p { slot = s; arg_count = p.arg_count + 1 })

unfoldable pub keys_in_slot_spawn : Bytes → ℕ → KeysInSlotParser → Group
keys_in_slot_spawn buf end p =
    if not (p.arg_count == 2) || leb cluster_slot_count p.slot
    then direct (codes "-ERR wrong arguments for 'keysinslot' command\r\n")
    else single (record {
      buffer = codes "*4\r\n$7\r\nCLUSTER\r\n$13\r\nGETKEYSINSLOT\r\n" ++ slice buf p.arg_start end;
      key_slot = p.slot;
    })
