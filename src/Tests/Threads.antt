-- ===== src/Tests/Threads.antt =====
-- Several threads, and the statistics, at concrete states.
use redis_cerberus.Prelude.{ℕ, ◌+◌, true, [], ◌∷◌, map, ◌≡◌, refl}
use redis_cerberus.Prelude.Int.{pos}
use redis_cerberus.State.{Proxy}
use redis_cerberus.Command.Parser.Admin.{set_remotes, update_slot_map}
use redis_cerberus.Threads.{Globals, apply_effects}
use redis_cerberus.Statistics.{ThreadStats, total_commands, stat_proccessed}
use redis_cerberus.Tests.Thread.{thread, idle_server}

abbrev two_threads : Globals
two_threads = record { remote_addrs = []; all_threads = thread ∷ thread ∷ [] }

-- SETREMOTES, and then the slot map of each thread is out of date.
all_expire :
    map
      (λ (p : Proxy). p.slot_map_expired)
      (apply_effects
        (set_remotes (idle_server.addr ∷ []) ∷ update_slot_map ∷ [])
        two_threads).all_threads
    ≡ true ∷ true ∷ []
unfolding apply_effects
all_expire = refl

abbrev no_stats : ThreadStats ℕ
no_stats = record {
  clients_count = pos 0;
  accepting = true;
  long_conns_count = pos 0;
  total_cmd = 4;
  total_cmd_elapse = 10;
  total_remote_cost = 7;
  last_cmd_elapse = 2;
  last_remote_cost = 1;
  buffer_allocated = 0;
}

one_more : (stat_proccessed 0 ◌+◌ (λ _. []) 3 2 no_stats).total_cmd_elapse ≡ 13
unfolding stat_proccessed
one_more = refl

commands_of_two : total_commands 0 ◌+◌ (λ _. []) (no_stats ∷ no_stats ∷ []) 0 ≡ 8
unfolding total_commands
commands_of_two = refl
