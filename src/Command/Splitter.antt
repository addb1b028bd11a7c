-- ===== src/Command/Splitter.antt =====
-- core/command.cpp: `ClientCommandSplitter` and `split_client_command`.
use redis_cerberus.Prelude.{
  ℕ, suc, ◌+◌, Bool, true, false, List, [], ◌∷◌, ◌++◌, map, Bytes, codes, length, drop, slice,
  Option, none, some, if◌then◌else◌,
}
use redis_cerberus.Prelude.Int.{ℤ, pos, ltb_ℤ}
use redis_cerberus.SlotCalc.{KeySlotCalc, reset, next_bytes, get_slot}
use redis_cerberus.Text.Compare.{to_upper}
use redis_cerberus.Message.Outcome.{Outcome, ok, bad_redis_message, ◌>>=◌}
use redis_cerberus.Message.Scan.{length_of_cr_lf}
use redis_cerberus.Message.Splitter.{Final, finished, interrupt_point, split_by}
use redis_cerberus.Command.Group.{Group, direct, single}
use redis_cerberus.Command.Table.{Special, contains, find, standard_table, special_table}
use redis_cerberus.Command.Parser.Range.{range}
use redis_cerberus.Command.Parser.Keys
use redis_cerberus.Command.Parser.Keys.{
  EachKeyParser, MSetParser, each_key_parser, each_key_on_str, each_key_spawn, mset_parser,
  mset_on_str, mset_spawn,
}
use redis_cerberus.Command.Parser.Rename.{RenameParser, rename_parser, rename_on_str, rename_spawn}
use redis_cerberus.Command.Parser.Single.{
  SubscribeParser, subscribe_parser, subscribe_on_str, subscribe_spawn, BlockedListPopParser,
  blocked_list_pop_parser, blocked_list_pop_on_str, blocked_list_pop_spawn, EvalParser, eval_parser,
  eval_on_str, eval_spawn, PublishParser, publish_parser, publish_on_str, publish_spawn,
  KeysInSlotParser, keys_in_slot_parser, keys_in_slot_on_str, keys_in_slot_spawn,
}
use redis_cerberus.Command.Parser.Admin.{
  Effect, ping_on_str, ping_spawn, proxy_stats_spawn, update_slot_map_spawn, SetRemotesParser,
  set_remotes_parser, set_remotes_on_str, set_remotes_spawn,
}

-- What comes from outside of the splitter: whether `allow_write_commands` was called, the value of
-- an `int` that is not set, the next random slot and the text of the statistics.
pub record Environment : Type 0 where
  pub writes : Bool
  pub unset : ℤ
  pub random_slot : ℕ
  pub stats : Bytes

-- An object of a class that derives from `SpecialCommandParser`.
pub data SpecialParser : Type 0 where
  ping_parser : Bytes → SpecialParser
  proxy_stats_parser : SpecialParser
  update_slot_map_parser : SpecialParser
  remotes_parser : SetRemotesParser → SpecialParser
  each_parser : EachKeyParser → SpecialParser
  pairs_parser : MSetParser → SpecialParser
  renaming_parser : RenameParser → SpecialParser
  subscription_parser : SubscribeParser → SpecialParser
  pop_parser : BlockedListPopParser → SpecialParser
  script_parser : EvalParser → SpecialParser
  publishing_parser : PublishParser → SpecialParser
  listing_parser : KeysInSlotParser → SpecialParser

-- The functions of `SPECIAL_RSP`, from where the command begins and where its arguments do.
unfoldable pub make_parser : Special → ℕ → ℕ → SpecialParser
make_parser Special.ping cmd arg = ping_parser []
make_parser Special.info cmd arg = proxy_stats_parser
make_parser Special.proxy cmd arg = proxy_stats_parser
make_parser Special.updateslotmap cmd arg = update_slot_map_parser
make_parser Special.setremotes cmd arg = remotes_parser set_remotes_parser
make_parser Special.mget cmd arg = each_parser (each_key_parser Keys.mget arg)
make_parser Special.subscribe cmd arg = subscription_parser (subscribe_parser cmd)
make_parser Special.psubscribe cmd arg = subscription_parser (subscribe_parser cmd)
make_parser Special.del cmd arg = each_parser (each_key_parser Keys.del arg)
make_parser Special.mset cmd arg = pairs_parser (mset_parser arg)
make_parser Special.rename cmd arg = renaming_parser (rename_parser cmd arg)
make_parser Special.publish cmd arg = publishing_parser (publish_parser cmd)
make_parser Special.keysinslot cmd arg = listing_parser (keys_in_slot_parser arg)
make_parser Special.blpop cmd arg = pop_parser (blocked_list_pop_parser cmd)
make_parser Special.brpop cmd arg = pop_parser (blocked_list_pop_parser cmd)
make_parser Special.eval cmd arg = script_parser (eval_parser cmd)

module _ (env : Environment) (buf : Bytes) where
  unfoldable pub parser_on_str : ℕ → ℕ → SpecialParser → Outcome SpecialParser
  parser_on_str b e (ping_parser msg) = ping_on_str buf b e >>= λ m. ok (ping_parser m)
  parser_on_str b e proxy_stats_parser = ok proxy_stats_parser
  parser_on_str b e update_slot_map_parser = ok update_slot_map_parser
  parser_on_str b e (remotes_parser p) =
      set_remotes_on_str env.unset buf b e p >>= λ q. ok (remotes_parser q)
  parser_on_str b e (each_parser p) = each_key_on_str buf b e p >>= λ q. ok (each_parser q)
  parser_on_str b e (pairs_parser p) = mset_on_str buf b e p >>= λ q. ok (pairs_parser q)
  parser_on_str b e (renaming_parser p) = rename_on_str buf b e p >>= λ q. ok (renaming_parser q)
  parser_on_str b e (subscription_parser p) = ok (subscription_parser (subscribe_on_str p))
  parser_on_str b e (pop_parser p) = blocked_list_pop_on_str buf b e p >>= λ q. ok (pop_parser q)
  parser_on_str b e (script_parser p) =
      eval_on_str env.unset buf b e p >>= λ q. ok (script_parser q)
  parser_on_str b e (publishing_parser p) = ok (publishing_parser (publish_on_str p))
  parser_on_str b e (listing_parser p) =
      keys_in_slot_on_str env.unset buf b e p >>= λ q. ok (listing_parser q)

  -- `spawn_commands`, and what it does to the proxies.
  unfoldable pub spawn_commands : ℕ → SpecialParser → Group × List Effect
  spawn_commands end (ping_parser msg) = (ping_spawn msg, [])
  spawn_commands end proxy_stats_parser = (proxy_stats_spawn env.stats, [])
  spawn_commands end update_slot_map_parser = update_slot_map_spawn
  spawn_commands end (remotes_parser p) = set_remotes_spawn p
  spawn_commands end (each_parser p) = (each_key_spawn buf p, [])
  spawn_commands end (pairs_parser p) = (mset_spawn buf p, [])
  spawn_commands end (renaming_parser p) = (rename_spawn buf p, [])
  spawn_commands end (subscription_parser p) = (subscribe_spawn buf end p, [])
  spawn_commands end (pop_parser p) = (blocked_list_pop_spawn buf end p, [])
  spawn_commands end (script_parser p) = (eval_spawn buf end p, [])
  spawn_commands end (publishing_parser p) = (publish_spawn env.random_slot buf end p, [])
  spawn_commands end (listing_parser p) = (keys_in_slot_spawn buf end p, [])

-- The function that `_on_str` points to.
pub data OnStr : Type 0 where
  on_command_head on_command_key on_string_nop special_parser_on_str : OnStr

-- The fields beside those of the base. `groups` are those pushed to the client, in order, and
-- `effects` what was done to the proxies.
pub record ClientCommands : Type 0 where
  pub on_str : OnStr
  pub last_command_begin : ℕ
  pub slot_calc : KeySlotCalc
  pub last_command_is_bad : Bool
  pub special_parser : Option SpecialParser
  pub groups : List Group
  pub effects : List Effect

abbrev pub client_commands : ℕ → ClientCommands
client_commands begin = record {
  on_str = on_command_head;
  last_command_begin = begin;
  slot_calc = reset;
  last_command_is_bad = false;
  special_parser = none;
  groups = [];
  effects = [];
}

-- `1024 * 1024`.
abbrev pub max_request_size : ℕ
max_request_size = 1048576

unfoldable pub on_array : ℤ → List ℤ → ClientCommands → Outcome ClientCommands
on_array size [] f = if ltb_ℤ (pos max_request_size) size then bad_redis_message else ok f
on_array size (_ ∷ _) f = bad_redis_message

module _ (env : Environment) (buf : Bytes) where
  -- `select_command_parser`, given the name in upper case and the end of its range.
  unfoldable pub select_command_parser : Bytes → ℕ → ClientCommands → ClientCommands
  select_command_parser cmd last f =
      if contains (standard_table env.writes) cmd
      then record f { last_command_is_bad = true; on_str = on_command_key }
      else (elim (find (special_table env.writes) cmd) [
        | some s ↦ record f {
          special_parser = some (make_parser s f.last_command_begin (last + length_of_cr_lf));
          on_str = special_parser_on_str;
        }
        | none ↦ record f { last_command_is_bad = true; on_str = on_string_nop }
      ])

  unfoldable pub command_head : ℕ → ℕ → ClientCommands → Outcome ClientCommands
  command_head begin last f =
      range buf begin last >>= λ name. ok (select_command_parser (map to_upper name) last f)

  unfoldable pub command_key : ℕ → ℕ → ClientCommands → Outcome ClientCommands
  command_key begin last f = range buf begin last >>= λ key. ok (record f {
    last_command_is_bad = false;
    on_str = on_string_nop;
    slot_calc = next_bytes f.slot_calc key;
  })

  unfoldable pub special_on_str :
      ℕ → ℕ → ClientCommands → Option SpecialParser → Outcome ClientCommands
  special_on_str begin last f none = ok f
  special_on_str begin last f (some p) =
      parser_on_str env buf begin last p >>= λ q. ok (record f { special_parser = some q })

  unfoldable pub on_string_by : OnStr → ℕ → ℕ → ClientCommands → Outcome ClientCommands
  on_string_by on_command_head begin last f = command_head begin last f
  on_string_by on_command_key begin last f = command_key begin last f
  on_string_by on_string_nop begin last f = ok f
  on_string_by special_parser_on_str begin last f = special_on_str begin last f f.special_parser

  -- The group that the command becomes at its end.
  unfoldable pub command_group : ℕ → ClientCommands → Option SpecialParser → Group × List Effect
  command_group i f p =
      if f.last_command_is_bad
      then (direct (codes "-ERR Unknown command or command key not specified\r\n"), [])
      else (elim p [
        | none ↦ (
          single (record {
            buffer = slice buf f.last_command_begin i;
            key_slot = get_slot f.slot_calc;
          }),
          [],
        )
        | some q ↦ spawn_commands env buf i q
      ])

  -- A bad command leaves the special parser be; else it is used up.
  abbrev pub parser_left : Bool → Option SpecialParser → Option SpecialParser
  parser_left true p = p
  parser_left false p = none

  unfoldable pub on_split_point : ℕ → ClientCommands → ClientCommands
  unfolding command_group
  on_split_point i f =
      let (g, es) = command_group i f f.special_parser in
      record {
        on_str = on_command_head;
        last_command_begin = i;
        slot_calc = reset;
        last_command_is_bad = false;
        special_parser = parser_left f.last_command_is_bad f.special_parser;
        groups = f.groups ++ g ∷ [];
        effects = f.effects ++ es;
      }

  -- `on_error` is that of the base.
  unfoldable pub client_splitter : Final ClientCommands
  client_splitter = record {
    on_error = λ _ _ f. f;
    on_string = λ begin last f. on_string_by f.on_str begin last f;
    on_split_point = λ _ next f. on_split_point next f;
    on_array = on_array;
  }

  -- What is pushed to the client, done to the proxies, and left in the buffer. Where an exception
  -- is thrown the client is closed.
  unfoldable pub split_client_command : Outcome (List Group × List Effect × Bytes)
  split_client_command =
      split_by client_splitter buf (suc (length buf)) (length buf) (client_commands 0) >>= λ s.
      ok (s.final.groups, s.final.effects, if finished s then [] else drop (interrupt_point s) buf)
