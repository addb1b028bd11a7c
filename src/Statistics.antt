-- ===== src/Statistics.antt =====
-- core/stats.cpp and proxy.cpp: the counters of a thread and the text of the statistics. Times are of a type
-- `D` of floating-point numbers, whose sum and text are arguments.
use redis_cerberus.Prelude.{ℕ, ◌+◌, Bool, true, false, List, [], ◌∷◌, map, Bytes, codes, length}
use redis_cerberus.Prelude.Int.{ℤ}
use redis_cerberus.Text.Address.{Address}
use redis_cerberus.Text.Decimal.{str}
use redis_cerberus.Text.HostPort.{int_str, address_str}
use redis_cerberus.Text.Split.{join}

-- What is read of a thread: the counts of its proxy and of its buffers.
pub record ThreadStats (D : Type 0) : Type 0 where
  pub clients_count : ℤ
  pub accepting : Bool
  pub long_conns_count : ℤ
  pub total_cmd : ℕ
  pub total_cmd_elapse : D
  pub total_remote_cost : D
  pub last_cmd_elapse : D
  pub last_remote_cost : D
  pub buffer_allocated : ℕ

-- What the statistics hold beside that of the threads.
pub record Facts (D : Type 0) : Type 0 where
  pub version : Bytes
  pub cluster_ok : Bool
  pub read_slave : Bool
  pub used_cpu_sys : D
  pub used_cpu_user : D
  pub remotes : List Address

abbrev pub digit : Bool → Bytes
digit true = codes "1"
digit false = codes "0"

abbrev pub commas : List Bytes → Bytes
commas texts = join (codes ",") texts

module _ {D : Type 0} (zero_time : D) (add : D → D → D) (show : D → Bytes) where
  -- `Proxy::stat_proccessed`.
  unfoldable pub stat_proccessed : D → D → ThreadStats D → ThreadStats D
  stat_proccessed cmd_elapse remote_cost t = record t {
    total_cmd_elapse = add t.total_cmd_elapse cmd_elapse;
    total_cmd = t.total_cmd + 1;
    last_cmd_elapse = cmd_elapse;
    total_remote_cost = add t.total_remote_cost remote_cost;
    last_remote_cost = remote_cost;
  }

  -- The sums of the loop over the threads.
  unfoldable pub total_commands : List (ThreadStats D) → ℕ → ℕ
  total_commands [] n = n
  total_commands (t ∷ ts) n = total_commands ts (n + t.total_cmd)

  unfoldable pub total_time : (ThreadStats D → D) → List (ThreadStats D) → D → D
  total_time of_thread [] d = d
  total_time of_thread (t ∷ ts) d = total_time of_thread ts (add d (of_thread t))

  -- `stats_all`.
  unfoldable pub stats_all : Facts D → List (ThreadStats D) → Bytes
  unfolding join int_str address_str total_commands total_time
  stats_all facts threads = join [] (
      codes "version:"
      ∷ facts.version
      ∷ codes "\nthreads:"
      ∷ str (length threads)
      ∷ codes "\ncluster_ok:"
      ∷ digit facts.cluster_ok
      ∷ codes "\nread_slave:"
      ∷ digit facts.read_slave
      ∷ codes "\nclients_count:"
      ∷ commas (map (λ t. int_str t.clients_count) threads)
      ∷ codes "\naccepting:"
      ∷ commas (map (λ t. digit t.accepting) threads)
      ∷ codes "\nlong_connections_count:"
      ∷ commas (map (λ t. int_str t.long_conns_count) threads)
      ∷ codes "\nused_cpu_sys:"
      ∷ show facts.used_cpu_sys
      ∷ codes "\nused_cpu_user:"
      ∷ show facts.used_cpu_user
      ∷ codes "\nmem_buffer_alloc:"
      ∷ commas (map (λ t. str t.buffer_allocated) threads)
      ∷ codes "\ncompleted_commands:"
      ∷ str (total_commands threads 0)
      ∷ codes "\ntotal_process_elapse:"
      ∷ show (total_time (λ t. t.total_cmd_elapse) threads zero_time)
      ∷ codes "\ntotal_remote_cost:"
      ∷ show (total_time (λ t. t.total_remote_cost) threads zero_time)
      ∷ codes "\nlast_command_elapse:"
      ∷ commas (map (λ t. show t.last_cmd_elapse) threads)
      ∷ codes "\nlast_remote_cost:"
      ∷ commas (map (λ t. show t.last_remote_cost) threads)
      ∷ codes "\nremotes:"
      ∷ commas (map address_str facts.remotes)
      ∷ [])
