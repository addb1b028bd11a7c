-- ===== src/Subscription/Pop.antt =====
-- core/subscription.cpp: what a blocked pop does to its client.
use redis_cerberus.Prelude.{
  ℕ, Bool, true, false, List, [], ◌∷◌, ◌++◌, Bytes, if◌then◌else◌, ◌≡◌, refl, ap, ◌∙◌, if-both,
}
use redis_cerberus.Buffer.{Answer}
use redis_cerberus.Message.Outcome.{Outcome, ok}
use redis_cerberus.Response.{Response, nil_str, get_buffer, server_moved, split_server_response}
use redis_cerberus.State.{LongConnection, Proxy}
use redis_cerberus.Client.{Input, Events, Handled}
use redis_cerberus.Client.Frame.{update-same}
use redis_cerberus.Server.{After, goes_on, returns, throws}
use redis_cerberus.Subscription.{
  set_long, close_server_conn, unexpected_write, restore_client, on_pop_error, keep_rest,
  respond_pop, read_popped, on_pop_events,
}

-- The client of a long connection gets nothing from it, and its descriptor stays given up.
abbrev pub Silent : ℕ → Proxy → Proxy → Type 0
Silent n p q =
    ((q.long_connections n).closed ≡ (p.long_connections n).closed)
    × ((q.long_connections n).written ≡ (p.long_connections n).written)
    × (q.clients ≡ p.clients)
    × (q.clients_count ≡ p.clients_count)

Silent-trans : (n : ℕ) (p q r : Proxy) → Silent n p q → Silent n q r → Silent n p r
Silent-trans n p q r (a, b, d, e) (a', b', d', e') = (a' ∙ a, b' ∙ b, d' ∙ d, e' ∙ e)

module _ (n c : ℕ) (answers : List Answer) where
  set_long-Silent :
      (l : LongConnection) (p : Proxy)
      → l.closed ≡ (p.long_connections n).closed
      → l.written ≡ (p.long_connections n).written
      → Silent n p (set_long n l p)
  set_long-Silent l p e f =
      let same = update-same p.long_connections n l in
      (
        ap (λ (t : LongConnection). t.closed) same ∙ e,
        ap (λ (t : LongConnection). t.written) same ∙ f,
        refl,
        refl,
      )

  abbrev Gone : Proxy → Type 0
  Gone p = (p.long_connections n).closed ≡ true

  restore_client-closed :
      (rsp : Bytes) (moved : Bool) (p : Proxy)
      → Gone p
      → restore_client n c rsp moved answers p ≡ (p, false)
  unfolding restore_client
  restore_client-closed rsp moved p gone = rw (restore_client, gone) refl

  on_pop_error-Silent : (p : Proxy) → Gone p → Silent n p (on_pop_error n c answers p).0
  unfolding on_pop_error
  on_pop_error-Silent p gone =
      let q = close_server_conn n p in
      let s =
        set_long-Silent (record (p.long_connections n) { server_closed = true }) p refl refl in
      rw (restore_client-closed nil_str true q (s.0 ∙ gone)) s

  respond_pop-Silent :
      (o : Outcome (List Response × Bytes)) (p : Proxy)
      → Gone p
      → Silent n p (respond_pop n c o answers p).0
  unfolding respond_pop
  respond_pop-Silent (ok ([], rest)) p gone =
      set_long-Silent (record (p.long_connections n) { buffer = rest }) p refl refl
  respond_pop-Silent (ok (r ∷ rs, rest)) p gone =
      let q = keep_rest n rest p in
      let s = set_long-Silent (record (p.long_connections n) { buffer = rest }) p refl refl in
      rw
        (restore_client-closed (if server_moved r then nil_str else get_buffer r) (server_moved r) q
          (s.0 ∙ gone))
        s
  respond_pop-Silent other p gone = (refl, refl, refl, refl)

  read_popped-Silent :
      (input : Input) (p : Proxy) → Gone p → Silent n p (read_popped n c input answers p).0
  unfolding read_popped
  read_popped-Silent Input.fails p gone = (refl, refl, refl, refl)
  read_popped-Silent (Input.bytes []) p gone = on_pop_error-Silent p gone
  read_popped-Silent (Input.bytes (b ∷ bs)) p gone =
      respond_pop-Silent (split_server_response ((p.long_connections n).buffer ++ b ∷ bs)) p gone

  behind_read :
      (writable : Bool) (p q : Proxy) (after : After)
      → Gone p
      → Silent n p q
      → Silent n p (unexpected_write (on_pop_error n c answers) writable q after).0
  behind_read true p q goes_on gone s =
      Silent-trans n p q (on_pop_error n c answers q).0 s (on_pop_error-Silent q (s.0 ∙ gone))
  behind_read false p q goes_on gone s = s
  behind_read writable p q returns gone s = s
  behind_read writable p q throws gone s = s

  -- Whether the connection is read, and how that goes on.
  read_where : Bool → Input → Proxy → Proxy × After
  read_where readable input p = if readable then read_popped n c input answers p else (p, goes_on)

  read_where-Silent :
      (readable : Bool) (input : Input) (p : Proxy)
      → Gone p
      → Silent n p (read_where readable input p).0
  unfolding read_where
  read_where-Silent true input p gone = read_popped-Silent input p gone
  read_where-Silent false input p gone = (refl, refl, refl, refl)

  -- A blocked pop that gave its client's descriptor up, since it was answered or since the client left,
  -- tells the client nothing more and makes no second client of the descriptor, whatever its
  -- server still sends and however that connection ends.
  pub on_pop_events-Silent :
      (events : Events) (input : Input) (p : Proxy)
      → (p.long_connections n).closed ≡ true
      → Silent n p (on_pop_events n c events input answers p).0
  unfolding on_pop_events read_where
  on_pop_events-Silent events input p gone =
      let (q, after) = read_where events.readable input p in
      if-both (λ (h : Handled). Silent n p h.0) events.hup (on_pop_error n c answers p)
        (unexpected_write (on_pop_error n c answers) events.writable q after)
        (on_pop_error-Silent p gone)
        (behind_read events.writable p q after gone
          (read_where-Silent events.readable input p gone))
