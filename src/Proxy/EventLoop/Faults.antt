-- ===== src/Proxy/EventLoop/Faults.antt =====
-- core/proxy.cpp and subscription.cpp: rounds of the event loop in which the source goes to a descriptor or
-- to memory that was given up in the same round.
use redis_cerberus.Prelude.{ℕ, ◌≤◌, true, false, List, [], ◌∷◌, ◌++◌, Bytes, length, ◌≡◌, refl, ap}
use redis_cerberus.Buffer.{Answer}
use redis_cerberus.Buffer.Calm.{NoFails}
use redis_cerberus.Buffer.Flush.Ends.{rounds}
use redis_cerberus.Message.Reply.{Reply, IsReply, put}
use redis_cerberus.Response.Stream.{respond}
use redis_cerberus.State.{LongConnection, Proxy}
use redis_cerberus.Client.{Input, Events, Handled}
use redis_cerberus.Client.Frame.{update-same}
use redis_cerberus.Subscription.{
  close_long, program_ends, read_client, on_client_events, write_client, read_published,
  on_subscription_events, on_pop_events, on_pop_error,
}
use redis_cerberus.Subscription.Served.{told, on_pop_events-Served}
use redis_cerberus.Proxy.{Settings}
use redis_cerberus.Proxy.EventLoop.{
  Event, long_event, subscription_event, pop_event, on_event, on_each_event, on_error, or_ends,
  has_connection,
}

abbrev pub hung : Events
hung = record { hup = true; readable = false; writable = false }

abbrev pub readable : Events
readable = record { hup = false; readable = true; writable = false }

-- The state of the thread behind the loop over the events.
abbrev pub behind : Settings → List Event → Proxy → Proxy
behind settings events p = (on_each_event settings [] [] events p).0

-- Two events that leave no exception.
pub behind-two :
    (settings : Settings) (e f : Event) (p q r : Proxy)
    → on_event settings e p ≡ (q, false)
    → on_event settings f q ≡ (r, false)
    → behind settings (e ∷ f ∷ []) p ≡ r
unfolding on_each_event has_connection
behind-two settings e f p q r first second = rw (first, second) refl

publish_closed :
    (n b : ℕ) (bs : Bytes) (answers : List Answer) (p : Proxy)
    → (p.long_connections n).closed ≡ true
    → on_subscription_events n readable (Input.bytes (b ∷ bs)) answers p ≡ (program_ends p, false)
unfolding on_subscription_events read_published write_client
publish_closed n b bs answers p gone = rw (write_client, gone) refl

pub closed_long : (n : ℕ) (p : Proxy) → ((close_long n p).long_connections n).closed ≡ true
closed_long n p =
    ap (λ (t : LongConnection). t.closed)
      (update-same p.long_connections n (record (p.long_connections n) { closed = true }))

-- Where a subscriber hangs up and its server publishes in one round, the subscriber's event first, the
-- program ends: the message is written to the descriptor that was closed.
pub on_each_event-published :
    (settings : Settings) (n b : ℕ) (bs : Bytes) (input : Input) (answers : List Answer) (p : Proxy)
    → (behind settings
        (long_event n hung input
          ∷ subscription_event n readable (Input.bytes (b ∷ bs)) answers
          ∷ [])
        p).terminated
      ≡ true
unfolding on_each_event on_event on_client_events
on_each_event-published settings n b bs input answers p =
    rw (publish_closed n b bs answers (close_long n p) (closed_long n p)) refl

pop_fine :
    (settings : Settings) (n c : ℕ) (input : Input) (answers second : List Answer) (p : Proxy)
    → (on_pop_events n c readable input answers p).1 ≡ false
    → on_event settings (pop_event n c readable input answers second) p
      ≡ ((on_pop_events n c readable input answers p).0, false)
unfolding on_event
pop_fine settings n c input answers second p fine =
    no_error (λ q. or_ends (on_pop_error n c second q)) (on_pop_events n c readable input answers p)
      fine
  where
    no_error : (f : Proxy → Proxy) (h : Handled) → h.1 ≡ false → on_error f h ≡ (h.0, false)
    no_error f (q, true) e = absurd (cc)
    no_error f (q, false) e = refl

read_given_up :
    (n : ℕ) (input : Input) (p : Proxy)
    → (p.long_connections n).closed ≡ true
    → on_client_events n readable input p ≡ (program_ends p, false)
unfolding on_client_events read_client
read_given_up n input p gone = rw (read_client, gone) refl

-- Where a blocked pop is answered and its client sends something in one round, the answer first, the
-- program ends: the event of the client is given to the long connection, which has no
-- descriptor any more.
pub on_each_event-served :
    (settings : Settings) (n c : ℕ) (r : Reply) (b : ℕ) (bs : Bytes) (answers second : List Answer)
    (input : Input) (p : Proxy)
    → (p.long_connections n).closed ≡ false
    → p.blocked ≡ false
    → IsReply r
    → (p.long_connections n).buffer ++ b ∷ bs ≡ put r []
    → NoFails answers
    → length (told (respond r)) ≤ rounds answers
    → (behind settings
        (pop_event n c readable (Input.bytes (b ∷ bs)) answers second
          ∷ long_event n readable input
          ∷ [])
        p).terminated
      ≡ true
unfolding on_event
on_each_event-served settings n c r b bs answers second input p here free w whole calm enough =
    let h = on_pop_events n c readable (Input.bytes (b ∷ bs)) answers p in
    let (fine, served) = on_pop_events-Served n c r b bs answers p here free w whole calm enough in
    let first = pop_fine settings n c (Input.bytes (b ∷ bs)) answers second p fine in
    let then_read : on_event settings (long_event n readable input) h.0
        ≡ (program_ends h.0, false) =
      ap (on_error (close_long n)) (read_given_up n input h.0 served.given_up) in
    ap (λ (t : Proxy). t.terminated)
      (behind-two settings (pop_event n c readable (Input.bytes (b ∷ bs)) answers second)
        (long_event n readable input) p h.0 (program_ends h.0) first then_read)
