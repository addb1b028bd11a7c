-- ===== src/Idle/Long.antt =====
-- core/subscription.cpp: the handlers of long connections leave closed servers without commands.
use redis_cerberus.Prelude.{
  ℕ, Bool, true, false, not, ◌||◌, ◌&&◌, List, [], ◌∷◌, ◌++◌, Bytes, if◌then◌else◌, if-both,
}
use redis_cerberus.Buffer.{Answer, Status, complete, later, threw, exhausted}
use redis_cerberus.Buffer.Flush.{flush_mem}
use redis_cerberus.Command.Parser.Keys.{is_nil}
use redis_cerberus.Message.Outcome.{Outcome, ok}
use redis_cerberus.Response.{Response, nil_str, get_buffer, server_moved, split_server_response}
use redis_cerberus.State.{Proxy}
use redis_cerberus.Client.{Input, Events, Handled}
use redis_cerberus.Server.{After, goes_on, returns, throws}
use redis_cerberus.Subscription.{
  set_long, close_long, close_server_conn, program_ends, unexpected_write, read_client, read_open,
  on_client_events, after_flush, write_client, ended, read_published, on_subscription_events,
  hand_over, restore_client, on_pop_error, keep_rest, respond_pop, read_popped, on_pop_events,
}
use redis_cerberus.Proxy.{new_client}
use redis_cerberus.Idle.{IsIdle}

abbrev pub Stays : Handled → Type 0
Stays h = IsIdle h.0

unexpected_write-IsIdle :
    (error : Proxy → Handled) (writable : Bool) (p : Proxy) (after : After)
    → ((q : Proxy) → IsIdle q → Stays (error q))
    → IsIdle p
    → Stays (unexpected_write error writable p after)
unexpected_write-IsIdle error true p goes_on closes idle = closes p idle
unexpected_write-IsIdle error false p goes_on closes idle = idle
unexpected_write-IsIdle error writable p returns closes idle = idle
unexpected_write-IsIdle error writable p throws closes idle = idle

-- A handler that reads, and takes an event to write for an error.
handler-IsIdle :
    (events : Events) (hung : Handled) (error : Proxy → Handled) (read : Proxy × After) (p : Proxy)
    → Stays hung
    → ((q : Proxy) → IsIdle q → Stays (error q))
    → IsIdle read.0
    → IsIdle p
    → (let r = if events.readable then read else (p, goes_on) in
        let h : Handled =
          if events.hup then hung else unexpected_write error events.writable r.0 r.1 in
        Stays h)
handler-IsIdle events hung error read p on_hup closes after_reading idle =
    let r : Proxy × After = if events.readable then read else (p, goes_on) in
    if-both Stays events.hup hung (unexpected_write error events.writable r.0 r.1) on_hup (
      unexpected_write-IsIdle error events.writable r.0 r.1 closes (
        if-both (λ (r : Proxy × After). IsIdle r.0) events.readable read (p, goes_on) after_reading
          idle))

read_open-IsIdle : (n : ℕ) (input : Input) (p : Proxy) → IsIdle p → IsIdle (read_open n input p).0
unfolding read_open
read_open-IsIdle n Input.fails p idle = idle
read_open-IsIdle n (Input.bytes []) p idle = idle
read_open-IsIdle n (Input.bytes (b ∷ bs)) p idle = idle

pub on_client_events-IsIdle :
    (n : ℕ) (events : Events) (input : Input) (p : Proxy)
    → IsIdle p
    → Stays (on_client_events n events input p)
unfolding on_client_events read_client
on_client_events-IsIdle n events input p idle =
    handler-IsIdle events (close_long n p, false) (λ r. (close_long n r, false))
      (read_client n input p) p idle (λ q kept. kept)
      (if-both (λ (r : Proxy × After). IsIdle r.0) (p.long_connections n).closed
        (program_ends p, returns) (read_open n input p) idle (read_open-IsIdle n input p idle))
      idle

pub after_flush-IsIdle : (s : Status) (p : Proxy) → IsIdle p → Stays (after_flush s p)
after_flush-IsIdle complete p idle = idle
after_flush-IsIdle later p idle = idle
after_flush-IsIdle threw p idle = idle
after_flush-IsIdle exhausted p idle = idle

write_client-IsIdle :
    (n : ℕ) (rsp : Bytes) (answers : List Answer) (p : Proxy)
    → IsIdle p
    → Stays (write_client n rsp answers p)
unfolding write_client
write_client-IsIdle n rsp answers p idle =
    let l = p.long_connections n in
    let f = flush_mem rsp answers in
    let q = set_long n (record l { written = l.written ++ f.sent }) p in
    if-both Stays (l.closed && not (is_nil rsp)) (program_ends p, false) (after_flush f.status q)
      idle (after_flush-IsIdle f.status q idle)

ended-IsIdle : (h : Handled) → Stays h → IsIdle (ended h).0
ended-IsIdle (q, true) idle = idle
ended-IsIdle (q, false) idle = idle

read_published-IsIdle :
    (n : ℕ) (input : Input) (answers : List Answer) (p : Proxy)
    → IsIdle p
    → IsIdle (read_published n input answers p).0
unfolding read_published
read_published-IsIdle n Input.fails answers p idle = idle
read_published-IsIdle n (Input.bytes []) answers p idle = idle
read_published-IsIdle n (Input.bytes (b ∷ bs)) answers p idle =
    ended-IsIdle (write_client n (b ∷ bs) answers p) (write_client-IsIdle n (b ∷ bs) answers p idle)

pub on_subscription_events-IsIdle :
    (n : ℕ) (events : Events) (input : Input) (answers : List Answer) (p : Proxy)
    → IsIdle p
    → Stays (on_subscription_events n events input answers p)
unfolding on_subscription_events
on_subscription_events-IsIdle n events input answers p idle =
    handler-IsIdle events (close_server_conn n p, false) (λ r. (close_server_conn n r, false))
      (read_published n input answers p) p idle (λ q kept. kept)
      (read_published-IsIdle n input answers p idle) idle

module _ (n c : ℕ) (answers : List Answer) where
  restore_client-IsIdle :
      (rsp : Bytes) (moved : Bool) (p : Proxy)
      → IsIdle p
      → Stays (restore_client n c rsp moved answers p)
  unfolding restore_client new_client
  restore_client-IsIdle rsp moved p idle =
      let h = write_client n rsp answers p in
      let kept = write_client-IsIdle n rsp answers p idle in
      let rest : Handled =
        if h.1 || h.0.blocked then (h.0, h.1) else (hand_over n c moved h.0, false) in
      if-both Stays (p.long_connections n).closed (p, false) rest idle
        (if-both Stays (h.1 || h.0.blocked) (h.0, h.1) (hand_over n c moved h.0, false) kept kept)

  pub on_pop_error-IsIdle : (p : Proxy) → IsIdle p → Stays (on_pop_error n c answers p)
  unfolding on_pop_error
  on_pop_error-IsIdle p idle = restore_client-IsIdle nil_str true (close_server_conn n p) idle

  respond_pop-IsIdle :
      (o : Outcome (List Response × Bytes)) (p : Proxy)
      → IsIdle p
      → IsIdle (respond_pop n c o answers p).0
  unfolding respond_pop
  respond_pop-IsIdle (ok ([], rest)) p idle = idle
  respond_pop-IsIdle (ok (r ∷ rs, rest)) p idle =
      let rsp = if server_moved r then nil_str else get_buffer r in
      ended-IsIdle (restore_client n c rsp (server_moved r) answers (keep_rest n rest p))
        (restore_client-IsIdle rsp (server_moved r) (keep_rest n rest p) idle)
  respond_pop-IsIdle other p idle = idle

  read_popped-IsIdle :
      (input : Input) (p : Proxy) → IsIdle p → IsIdle (read_popped n c input answers p).0
  unfolding read_popped
  read_popped-IsIdle Input.fails p idle = idle
  read_popped-IsIdle (Input.bytes []) p idle = on_pop_error-IsIdle p idle
  read_popped-IsIdle (Input.bytes (b ∷ bs)) p idle =
      respond_pop-IsIdle (split_server_response ((p.long_connections n).buffer ++ b ∷ bs)) p idle

  pub on_pop_events-IsIdle :
      (events : Events) (input : Input) (p : Proxy)
      → IsIdle p
      → Stays (on_pop_events n c events input answers p)
  unfolding on_pop_events
  on_pop_events-IsIdle events input p idle =
      handler-IsIdle events (on_pop_error n c answers p) (on_pop_error n c answers)
        (read_popped n c input answers p) p (on_pop_error-IsIdle p idle) on_pop_error-IsIdle
        (read_popped-IsIdle input p idle) idle
