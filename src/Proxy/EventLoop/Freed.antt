-- ===== src/Proxy/EventLoop/Freed.antt =====
-- core/server.cpp, proxy.cpp and subscription.cpp: a long connection that is freed while it is among those to be
-- closed.
use mathlib.Core.List.{Memᴰ}
use mathlib.Core.List.Memᴰ
use redis_cerberus.Prelude.{
  ℕ, Bool, true, false, ◌||◌, ◌==◌, List, [], ◌∷◌, ◌++◌, ◌≡◌, refl, sym, ap, subst, ◌∙◌, arith,
  Bool-cases, inl, inr,
}
use redis_cerberus.Buffer.{Answer}
use redis_cerberus.State.{server_connection, long_connection, Proxy}
use redis_cerberus.Client.{Input}
use redis_cerberus.Server
use redis_cerberus.Server.{close_conn, erase_if}
use redis_cerberus.Subscription.{close_long, on_client_events, delete_long}
use redis_cerberus.Proxy.{Settings}
use redis_cerberus.Proxy.EventLoop.{
  long_event, server_event, on_event, has_connection, close_inactive, after_events, after_each,
}
use redis_cerberus.Proxy.EventLoop.Faults.{hung, behind, behind-two, closed_long}

close_inactive-still :
    (ns : List ℕ) (p : Proxy) → p.faulted ≡ true → (close_inactive ns p).faulted ≡ true
unfolding close_inactive
close_inactive-still [] p h = h
close_inactive-still (n ∷ ns) p h =
    close_inactive-still ns _
      (ap (λ b. (p.long_connections n).deleted || b) h ∙ or_true (p.long_connections n).deleted)
  where
    or_true : (b : Bool) → (b || true) ≡ true
    or_true true = refl
    or_true false = refl

close_long-deleted :
    (n m : ℕ) (p : Proxy)
    → ((close_long m p).long_connections n).deleted ≡ (p.long_connections n).deleted
close_long-deleted n m p = elim (Bool-cases (m == n)) [
  | inl t ↦ rw t (let e : m ≡ n = ground arith in ap (λ k. (p.long_connections k).deleted) e)
  | inr t ↦ rw t refl
]

close_inactive-freed :
    (n : ℕ) (ns : List ℕ) (p : Proxy)
    → Memᴰ n ns
    → (p.long_connections n).deleted ≡ true
    → (close_inactive ns p).faulted ≡ true
unfolding close_inactive
close_inactive-freed n [] p w gone = elim w [ ]
close_inactive-freed n (m ∷ ns) p (Memᴰ.head e) gone =
    close_inactive-still ns _
      (ap (λ b. b || p.faulted) (ap (λ k. (p.long_connections k).deleted) (sym e) ∙ gone))
close_inactive-freed n (m ∷ ns) p (Memᴰ.tail w) gone =
    close_inactive-freed n ns _ w (close_long-deleted n m p ∙ gone)

server_hung :
    (settings : Settings) (s : ℕ) (input : Input) (answers : List Answer) (p : Proxy)
    → (p.servers s).closed ≡ false
    → on_event settings (server_event s hung input answers) p ≡ (close_conn s p, false)
unfolding on_event Server.on_events
server_hung settings s input answers p open_still = rw (Server.on_events, open_still) refl

client_hung :
    (settings : Settings) (n : ℕ) (input : Input) (p : Proxy)
    → on_event settings (long_event n hung input) p ≡ (close_long n p, false)
unfolding on_event on_client_events
client_hung settings n input p = refl

close_conn-inactive :
    (s : ℕ) (p : Proxy)
    → (p.servers s).closed ≡ false
    → (close_conn s p).inactive_long_connections
      ≡ p.inactive_long_connections ++ (p.servers s).long_connections
unfolding close_conn
close_conn-inactive s p open_still = rw (close_conn, open_still) refl

-- A long connection that is closed is deleted behind the events, and stays where it is to be closed.
abbrev Freed : ℕ → List ℕ → Proxy → Type 0
Freed n ns q = ((q.long_connections n).deleted ≡ true) × (q.inactive_long_connections ≡ ns)

delete_long-Freed : (n : ℕ) (p : Proxy) → Freed n p.inactive_long_connections (delete_long n p)
unfolding delete_long
delete_long-Freed n p =
    let same : (n == n) ≡ true = ground arith in rw (delete_long, same) (refl, refl)

after_both :
    (s n : ℕ) (p : Proxy)
    → (p.long_connections n).closed ≡ true
    → Freed n p.inactive_long_connections
        (after_each [] (server_connection s ∷ long_connection n ∷ []) p)
unfolding after_each after_events has_connection
after_both s n p gone = elim (Bool-cases (p.servers s).closed) [
  | inl t ↦ rw (t, gone) (delete_long-Freed n (record p { slot_map_expired = true }))
  | inr t ↦ rw (t, gone) (delete_long-Freed n p)
]

-- Where a server hangs up, and the client of a long connection that is attached to it does in the same
-- round, the next round begins with a call on memory that was freed: the long connection
-- was deleted, but is still among those that are to be closed.
pub close_inactive-faulted :
    (settings : Settings) (s n : ℕ) (input input' : Input) (answers : List Answer) (p : Proxy)
    → (p.servers s).closed ≡ false
    → Memᴰ n (p.servers s).long_connections
    → (let q =
          behind settings (server_event s hung input answers ∷ long_event n hung input' ∷ []) p in
        let r = after_each [] (server_connection s ∷ long_connection n ∷ []) q in
        (close_inactive r.inactive_long_connections r).faulted ≡ true)
close_inactive-faulted settings s n input input' answers p open_still attached =
    let q = close_long n (close_conn s p) in
    let round : behind settings (server_event s hung input answers ∷ long_event n hung input' ∷ [])
          p
        ≡ q =
      behind-two settings (server_event s hung input answers) (long_event n hung input') p
        (close_conn s p) q (server_hung settings s input answers p open_still)
        (client_hung settings n input' (close_conn s p)) in
    let r = after_each [] (server_connection s ∷ long_connection n ∷ []) q in
    let (gone, kept) = after_both s n q (closed_long n (close_conn s p)) in
    let there : Memᴰ n r.inactive_long_connections =
      subst (Memᴰ n) (sym (kept ∙ close_conn-inactive s p open_still))
        (Memᴰ.append_right _ attached) in
    rw round (close_inactive-freed n r.inactive_long_connections r there gone)
