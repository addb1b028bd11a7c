-- ===== src/Subscription/Served.antt =====
-- core/subscription.cpp: a blocked pop whose server answers.
use redis_cerberus.Prelude.{
  ℕ, ◌≤◌, Bool, true, false, ◌||◌, ◌==◌, arith, List, [], ◌∷◌, ◌++◌, Bytes, length, if◌then◌else◌,
  ◌≡◌, refl, ap, ◌∙◌,
}
use redis_cerberus.Buffer.{Answer}
use redis_cerberus.Buffer.Calm.{NoFails}
use redis_cerberus.Buffer.Flush.Ends.{rounds, flush_mem-Writes}
use redis_cerberus.Message.Outcome.{ok}
use redis_cerberus.Message.Reply.{Reply, IsReply, none_left, more, put}
use redis_cerberus.Response.{Response, nil_str, get_buffer, server_moved, split_server_response}
use redis_cerberus.Response.Stream.{respond, respond_all, split_server_response-put_all}
use redis_cerberus.State.{LongConnection, Proxy}
use redis_cerberus.Client.{Input}
use redis_cerberus.Client.Frame.{update-same}
use redis_cerberus.Server.{goes_on}
use redis_cerberus.Proxy.{fresh_client, new_client}
use redis_cerberus.Subscription.{
  set_long, ended, hand_over, write_client, restore_client, keep_rest, respond_pop, read_popped,
  on_pop_events,
}

-- What the client is told: the response of the server, or nil where the slot is elsewhere.
abbrev pub told : Response → Bytes
told r = if server_moved r then nil_str else get_buffer r

split_one :
    (r : Reply) (buf : Bytes)
    → IsReply r
    → buf ≡ put r []
    → split_server_response buf ≡ ok (respond r ∷ [], [])
unfolding put respond_all IsReply
split_one r buf w e =
    ap split_server_response e ∙ split_server_response-put_all (more r none_left) (w, tt)

-- A long connection that wrote to its client.
abbrev wrote : ℕ → Bytes → Proxy → Proxy
wrote n rsp p =
    let l = p.long_connections n in set_long n (record l { written = l.written ++ rsp }) p

module _ (n c : ℕ) (answers : List Answer) where
  write_client-wrote :
      (rsp : Bytes) (p : Proxy)
      → (p.long_connections n).closed ≡ false
      → NoFails answers
      → length rsp ≤ rounds answers
      → write_client n rsp answers p ≡ (wrote n rsp p, false)
  unfolding write_client
  write_client-wrote rsp p here calm enough =
      let (done, sent) = flush_mem-Writes rsp answers calm enough in
      rw (write_client, here, done, sent) refl

  restore_client-wrote :
      (rsp : Bytes) (moved : Bool) (p : Proxy)
      → (p.long_connections n).closed ≡ false
      → p.blocked ≡ false
      → NoFails answers
      → length rsp ≤ rounds answers
      → restore_client n c rsp moved answers p ≡ (hand_over n c moved (wrote n rsp p), false)
  unfolding restore_client
  restore_client-wrote rsp moved p here free calm enough =
      rw (restore_client, write_client-wrote rsp p here calm enough, here, free) refl

  respond_pop-wrote :
      (r : Response) (p : Proxy)
      → (p.long_connections n).closed ≡ false
      → p.blocked ≡ false
      → NoFails answers
      → length (told r) ≤ rounds answers
      → respond_pop n c (ok (r ∷ [], [])) answers p
        ≡ (hand_over n c (server_moved r) (wrote n (told r) (keep_rest n [] p)), goes_on)
  unfolding respond_pop
  respond_pop-wrote r p here free calm enough =
      let q = keep_rest n [] p in
      let l : LongConnection = record (p.long_connections n) { buffer = [] } in
      let open_still =
        ap (λ (t : LongConnection). t.closed) (update-same p.long_connections n l) ∙ here in
      ap ended (restore_client-wrote (told r) (server_moved r) q open_still free calm enough)

-- The client was told the answer, its descriptor is that of a new client that starts anew, the
-- slot map is asked for again where the slot is elsewhere, and nothing else of the long connection is
-- changed: it stays with its server, and keeps its own connection to it.
pub record Served (n c : ℕ) (r : Response) (p q : Proxy) : Type 0 where
  pub answered : (q.long_connections n).written ≡ (p.long_connections n).written ++ told r
  pub given_up : (q.long_connections n).closed ≡ true
  pub restored : q.clients c ≡ fresh_client
  pub asks : q.slot_map_expired ≡ (server_moved r || p.slot_map_expired)
  pub kept : (q.long_connections n).server_closed ≡ (p.long_connections n).server_closed
  pub attached : q.servers ≡ p.servers

module _ (n c : ℕ) (r : Response) (p : Proxy) where
  restored_proxy : Proxy
  restored_proxy = hand_over n c (server_moved r) (wrote n (told r) (keep_rest n [] p))

  at_n : restored_proxy.long_connections n ≡ record (p.long_connections n) {
    buffer = [];
    written = (p.long_connections n).written ++ told r;
    closed = true;
  }
  unfolding restored_proxy new_client
  at_n = let same : (n == n) ≡ true = ground arith in rw same refl

  restored-Served : Served n c r p restored_proxy
  unfolding restored_proxy new_client
  restored-Served = record {
    answered = ap (λ (t : LongConnection). t.written) at_n;
    given_up = ap (λ (t : LongConnection). t.closed) at_n;
    restored = update-same p.clients c fresh_client;
    asks = refl;
    kept = ap (λ (t : LongConnection). t.server_closed) at_n;
    attached = refl;
  }

-- A blocked pop that still has its client's descriptor, in a thread that does not wait in a loop. Its
-- server's connection is readable and nothing else, and what is read makes a whole reply with the bytes
-- that had come before. Where no call on the client's socket fails, and it has room as often as the
-- answer has bytes, no exception is thrown, the client gets this reply once, or nil where the slot is
-- elsewhere, and is an ordinary client again. But the connection to the server is kept.
pub on_pop_events-Served :
    (n c : ℕ) (r : Reply) (b : ℕ) (bs : Bytes) (answers : List Answer) (p : Proxy)
    → (p.long_connections n).closed ≡ false
    → p.blocked ≡ false
    → IsReply r
    → (p.long_connections n).buffer ++ b ∷ bs ≡ put r []
    → NoFails answers
    → length (told (respond r)) ≤ rounds answers
    → (let h =
          on_pop_events n c
            (record { hup = false; readable = true; writable = false })
            (Input.bytes (b ∷ bs))
            answers
            p in
        (h.1 ≡ false) × Served n c (respond r) p h.0)
unfolding on_pop_events read_popped restored_proxy
on_pop_events-Served n c r b bs answers p here free w whole calm enough =
    let buf = (p.long_connections n).buffer ++ b ∷ bs in
    let run =
      ap (λ o. respond_pop n c o answers p) (split_one r buf w whole)
      ∙ respond_pop-wrote n c answers (respond r) p here free calm enough in
    rw run (refl, restored-Served n c (respond r) p)
