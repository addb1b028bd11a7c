-- ===== src/Proxy/EventLoop/Long.antt =====
-- core/proxy.cpp and subscription.cpp: the deletion of long connections by the loop over `active_conns`.
use redis_cerberus.Prelude.{
  ℕ, Bool, true, false, ◌||◌, ◌==◌, List, [], ◌∷◌, ◌++◌, ◌⊎◌, inl, inr, ◌≡◌, refl, ap, ◌∙◌,
  Bool-cases, if-both,
}
use redis_cerberus.State.{
  Connection, client_connection, server_connection, long_connection, long_server, slots_map_updater,
  acceptor, is_connection, Proxy,
}
use redis_cerberus.Server.{
  pop_from_server, pop_from_servers, pop_client, destroy_client, after_client_events,
}
use redis_cerberus.Subscription.{delete_long}
use redis_cerberus.Proxy.EventLoop.{
  has_connection, after_server_events, after_events, erased_by, after_each,
}

-- The object of a half of a long connection was not freed.
abbrev pub IsLive : Connection → Proxy → Type 0
IsLive (long_connection n) p = (p.long_connections n).deleted ≡ false
IsLive (long_server n) p = (p.long_connections n).deleted ≡ false
IsLive (client_connection n) p = Unit
IsLive (server_connection n) p = Unit
IsLive (slots_map_updater n) p = Unit
IsLive acceptor p = Unit

abbrev pub AllLive : List Connection → Proxy → Type 0
AllLive [] p = Unit
AllLive (c ∷ cs) p = IsLive c p × AllLive cs p

-- No connection is there twice, as in a `std::set`.
abbrev pub AllOther : Connection → List Connection → Type 0
AllOther c [] = Unit
AllOther c (d ∷ ds) = (is_connection c d ≡ false) × AllOther c ds

abbrev pub AllOnce : List Connection → Type 0
AllOnce [] = Unit
AllOnce (c ∷ cs) = AllOther c cs × AllOnce cs

abbrev Same : Proxy → Proxy → Type 0
Same p q = (q.long_connections ≡ p.long_connections) × (q.faulted ≡ p.faulted)

pop_from_servers-Same : (cli : ℕ) (ss : List ℕ) (p : Proxy) → Same p (pop_from_servers cli ss p)
unfolding pop_from_servers pop_from_server
pop_from_servers-Same cli [] p = (refl, refl)
pop_from_servers-Same cli (s ∷ ss) p = pop_from_servers-Same cli ss (pop_from_server cli s p)

after_client_events-Same : (cli : ℕ) (p : Proxy) → Same p (after_client_events cli p)
unfolding destroy_client pop_client after_client_events
after_client_events-Same cli p =
    if-both (Same p) (p.clients cli).closed (destroy_client cli p) p
      (pop_from_servers-Same cli (p.clients cli).peers p) (refl, refl)

after_server_events-Same : (s : ℕ) (p : Proxy) → Same p (after_server_events s p)
after_server_events-Same s p =
    if-both (Same p) (p.servers s).closed (record p { slot_map_expired = true }) p (refl, refl)
      (refl, refl)

-- A connection of the set that was taken out of it, or whose object is there.
abbrev Safe : List Connection → Connection → Proxy → Type 0
Safe erased d p = (has_connection erased d ≡ true) ⊎ IsLive d p

has_connection-append :
    (xs ys : List Connection) (d : Connection)
    → has_connection (xs ++ ys) d ≡ (has_connection xs d || has_connection ys d)
unfolding has_connection
has_connection-append [] ys d = refl
has_connection-append (x ∷ xs) ys d =
    ap (λ b. is_connection x d || b) (has_connection-append xs ys d)
    ∙ or_assoc (is_connection x d) (has_connection xs d) (has_connection ys d)
  where
    or_assoc : (a b c : Bool) → (a || (b || c)) ≡ ((a || b) || c)
    or_assoc true b c = refl
    or_assoc false b c = refl

still_erased :
    (xs ys : List Connection) (d : Connection)
    → has_connection xs d ≡ true
    → has_connection (xs ++ ys) d ≡ true
still_erased xs ys d h = has_connection-append xs ys d ∙ ap (λ b. b || has_connection ys d) h

now_erased :
    (xs ys : List Connection) (d : Connection)
    → has_connection ys d ≡ true
    → has_connection (xs ++ ys) d ≡ true
now_erased xs ys d h =
    has_connection-append xs ys d
    ∙ ap (λ b. has_connection xs d || b) h
    ∙ or_true (has_connection xs d)
  where
    or_true : (b : Bool) → (b || true) ≡ true
    or_true true = refl
    or_true false = refl

IsLive-Same : (d : Connection) (p q : Proxy) → Same p q → IsLive d p → IsLive d q
IsLive-Same (long_connection n) p q (e, f) h = ap (λ g. (g n).deleted) e ∙ h
IsLive-Same (long_server n) p q (e, f) h = ap (λ g. (g n).deleted) e ∙ h
IsLive-Same (client_connection n) p q e h = tt
IsLive-Same (server_connection n) p q e h = tt
IsLive-Same (slots_map_updater n) p q e h = tt
IsLive-Same acceptor p q e h = tt

-- One half is deleted with the whole; the other half is erased.
delete_long-live :
    (n m : ℕ) (p : Proxy)
    → (n == m) ≡ false
    → (p.long_connections m).deleted ≡ false
    → ((delete_long n p).long_connections m).deleted ≡ false
unfolding delete_long
delete_long-live n m p other h = rw (delete_long, other) h

delete_long-faulted :
    (n : ℕ) (p : Proxy)
    → (p.long_connections n).deleted ≡ false
    → (delete_long n p).faulted ≡ p.faulted
unfolding delete_long
delete_long-faulted n p h = rw (delete_long, h) refl

-- A half of the long connection `m` after the long connection `n` was deleted, where it is in the list
-- of what is erased if `m` is `n`.
half-Safe :
    (n m : ℕ) (erased ys : List Connection) (d : Connection) (p : Proxy)
    → ((((delete_long n p).long_connections m).deleted ≡ false) → IsLive d (delete_long n p))
    → has_connection ys d ≡ ((n == m) || false)
    → (p.long_connections m).deleted ≡ false
    → Safe (erased ++ ys) d (delete_long n p)
half-Safe n m erased ys d p live e h = elim (Bool-cases (n == m)) [
  | inl t ↦ inl (now_erased erased ys d (e ∙ ap (λ b. b || false) t))
  | inr t ↦ inr (live (delete_long-live n m p t h))
]

delete_long-Safe :
    (n : ℕ) (erased : List Connection) (d : Connection) (p : Proxy)
    → is_connection (long_connection n) d ≡ false
    → IsLive d p
    → Safe (erased ++ long_server n ∷ []) d (delete_long n p)
unfolding has_connection
delete_long-Safe n erased (long_connection m) p other h = inr (delete_long-live n m p other h)
delete_long-Safe n erased (long_server m) p other h =
    half-Safe n m erased (long_server n ∷ []) (long_server m) p (λ x. x) refl h
delete_long-Safe n erased (client_connection m) p other h = inr tt
delete_long-Safe n erased (server_connection m) p other h = inr tt
delete_long-Safe n erased (slots_map_updater m) p other h = inr tt
delete_long-Safe n erased acceptor p other h = inr tt

delete_server-Safe :
    (n : ℕ) (erased : List Connection) (d : Connection) (p : Proxy)
    → is_connection (long_server n) d ≡ false
    → IsLive d p
    → Safe (erased ++ long_connection n ∷ []) d (delete_long n p)
unfolding has_connection
delete_server-Safe n erased (long_server m) p other h = inr (delete_long-live n m p other h)
delete_server-Safe n erased (long_connection m) p other h =
    half-Safe n m erased (long_connection n ∷ []) (long_connection m) p (λ x. x) refl h
delete_server-Safe n erased (client_connection m) p other h = inr tt
delete_server-Safe n erased (server_connection m) p other h = inr tt
delete_server-Safe n erased (slots_map_updater m) p other h = inr tt
delete_server-Safe n erased acceptor p other h = inr tt

after_events-Safe :
    (c d : Connection) (erased : List Connection) (p : Proxy)
    → is_connection c d ≡ false
    → IsLive d p
    → Safe (erased ++ erased_by c p) d (after_events c p)
unfolding after_events
after_events-Safe (client_connection cli) d erased p other h =
    inr (IsLive-Same d p (after_client_events cli p) (after_client_events-Same cli p) h)
after_events-Safe (server_connection s) d erased p other h =
    inr (IsLive-Same d p (after_server_events s p) (after_server_events-Same s p) h)
after_events-Safe (long_connection n) d erased p other h =
    elim (Bool-cases (p.long_connections n).closed) [
      | inl t ↦ rw t (delete_long-Safe n erased d p other h)
      | inr t ↦ rw t (inr h)
    ]
after_events-Safe (long_server n) d erased p other h =
    elim (Bool-cases (p.long_connections n).server_closed) [
      | inl t ↦ rw t (delete_server-Safe n erased d p other h)
      | inr t ↦ rw t (inr h)
    ]
after_events-Safe (slots_map_updater n) d erased p other h = inr h
after_events-Safe acceptor d erased p other h = inr h

after_events-faulted :
    (c : Connection) (p : Proxy) → IsLive c p → (after_events c p).faulted ≡ p.faulted
unfolding after_events
after_events-faulted (client_connection cli) p h = (after_client_events-Same cli p).1
after_events-faulted (server_connection s) p h = (after_server_events-Same s p).1
after_events-faulted (long_connection n) p h =
    if-both (λ (q : Proxy). q.faulted ≡ p.faulted) (p.long_connections n).closed (delete_long n p) p
      (delete_long-faulted n p h) refl
after_events-faulted (long_server n) p h =
    if-both (λ (q : Proxy). q.faulted ≡ p.faulted) (p.long_connections n).server_closed
      (delete_long n p) p (delete_long-faulted n p h) refl
after_events-faulted (slots_map_updater n) p h = refl
after_events-faulted acceptor p h = refl

abbrev AllSafe : List Connection → List Connection → Proxy → Type 0
AllSafe erased [] p = Unit
AllSafe erased (c ∷ cs) p = Safe erased c p × AllSafe erased cs p

tail-Safe :
    (c : Connection) (cs erased : List Connection) (p : Proxy)
    → AllOther c cs
    → AllSafe erased cs p
    → AllSafe (erased ++ erased_by c p) cs (after_events c p)
tail-Safe c [] erased p once safe = tt
tail-Safe c (d ∷ ds) erased p (other, once) (inl e, safe) =
    (inl (still_erased erased (erased_by c p) d e), tail-Safe c ds erased p once safe)
tail-Safe c (d ∷ ds) erased p (other, once) (inr live, safe) =
    (after_events-Safe c d erased p other live, tail-Safe c ds erased p once safe)

Safe-IsLive :
    (c : Connection) (erased : List Connection) (p : Proxy)
    → has_connection erased c ≡ false
    → Safe erased c p
    → IsLive c p
Safe-IsLive c erased p h (inl e) = absurd (cc)
Safe-IsLive c erased p h (inr live) = live

after_each-erased :
    (cs erased : List Connection) (p : Proxy)
    → AllOnce cs
    → AllSafe erased cs p
    → (after_each erased cs p).faulted ≡ p.faulted
unfolding after_each
after_each-erased [] erased p once safe = refl
after_each-erased (c ∷ cs) erased p (new, once) (s, safe) =
    elim (Bool-cases (has_connection erased c)) [
      | inl t ↦ rw (after_each, t) (after_each-erased cs erased p once safe)
      | inr t ↦
          rw (after_each, t)
            (after_each-erased cs (erased ++ erased_by c p) (after_events c p) once
                (tail-Safe c cs erased p new safe)
              ∙ after_events-faulted c p (Safe-IsLive c erased p t s))
    ]

all-Safe : (cs : List Connection) (p : Proxy) → AllLive cs p → AllSafe [] cs p
all-Safe [] p h = tt
all-Safe (c ∷ cs) p (h, hs) = (inr h, all-Safe cs p hs)

-- The loop that deletes what was closed frees no long connection twice, whichever of its two halves come,
-- in whatever order, among the other connections, if it was not freed before: a half that is
-- deleted with the other is taken out of the set.
pub after_each-faulted :
    (active : List Connection) (p : Proxy)
    → AllOnce active
    → AllLive active p
    → (after_each [] active p).faulted ≡ p.faulted
after_each-faulted active p once live = after_each-erased active [] p once (all-Safe active p live)
