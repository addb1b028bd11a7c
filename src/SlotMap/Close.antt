-- ===== src/SlotMap/Close.antt =====
-- core/slot_map.cpp: closing servers, in `SlotMap::clear`.
use redis_cerberus.Prelude.{
  ℕ, zero, suc, ◌<◌, true, ◌||◌, ◌==◌, List, [], ◌∷◌, ◌++◌, Option, none, some, ◌≡◌, refl, sym, ap,
  subst, ◌∙◌, arith, Bool-cases, inl, inr,
}
use redis_cerberus.Command.Parser.Single.{cluster_slot_count}
use redis_cerberus.State.{Proxy, contains, insert}
use redis_cerberus.Server.{close_conn}
use redis_cerberus.Server.Waits.{Waits, close_conn-Waits}
use redis_cerberus.State.{CommandRef}
use redis_cerberus.SlotMap.{close_all, mapped_servers, insert_some, clear}

abbrev pub IsClosed : ℕ → Proxy → Type 0
IsClosed s p = (p.servers s).closed ≡ true

close_conn-IsClosed : (s : ℕ) (p : Proxy) → IsClosed s (close_conn s p)
unfolding close_conn
close_conn-IsClosed s p =
    let same : (s == s) ≡ true = ground arith in
    elim (Bool-cases (p.servers s).closed) [
      | inl t ↦ rw (close_conn, t) t
      | inr t ↦ rw (close_conn, t, same) refl
    ]

-- Closing a connection opens none.
pub close_conn-IsClosed_other : (s t : ℕ) (p : Proxy) → IsClosed t p → IsClosed t (close_conn s p)
unfolding close_conn
close_conn-IsClosed_other s t p h = elim (Bool-cases (p.servers s).closed) [
  | inl e ↦ rw (close_conn, e) h
  | inr e ↦ elim (Bool-cases (s == t)) [
    | inl i ↦ rw (close_conn, e, i) refl
    | inr i ↦ rw (close_conn, e, i) h
  ]
]

close_all-IsClosed_other :
    (ss : List ℕ) (t : ℕ) (p : Proxy) → IsClosed t p → IsClosed t (close_all ss p)
unfolding close_all
close_all-IsClosed_other [] t p h = h
close_all-IsClosed_other (s ∷ ss) t p h =
    close_all-IsClosed_other ss t (close_conn s p) (close_conn-IsClosed_other s t p h)

pub close_all-IsClosed :
    (ss : List ℕ) (t : ℕ) (p : Proxy) → contains ss t ≡ true → IsClosed t (close_all ss p)
unfolding close_all contains
close_all-IsClosed [] t p h = absurd (ground arith)
close_all-IsClosed (s ∷ ss) t p h = elim (Bool-cases (s == t)) [
  | inl e ↦
      let same : s ≡ t = ground arith in
      close_all-IsClosed_other ss t (close_conn s p)
        (subst (λ i. IsClosed i (close_conn s p)) same (close_conn-IsClosed s p))
  | inr e ↦ close_all-IsClosed ss t (close_conn s p) (ap (λ b. b || contains ss t) (sym e) ∙ h)
]

pub close_all-Waits :
    (cmd : CommandRef) (ss : List ℕ) (p : Proxy) → Waits cmd p → Waits cmd (close_all ss p)
unfolding close_all
close_all-Waits cmd [] p h = h
close_all-Waits cmd (s ∷ ss) p h =
    close_all-Waits cmd ss (close_conn s p) (close_conn-Waits cmd s p h)

contains-append : (xs : List ℕ) (a b : ℕ) → contains (xs ++ b ∷ []) a ≡ contains xs a || (b == a)
unfolding contains
contains-append [] a b = ground arith
contains-append (x ∷ xs) a b = elim (Bool-cases (x == a)) [
  | inl e ↦ rw e refl
  | inr e ↦ rw e (contains-append xs a b)
]

contains-insert : (a : ℕ) (xs : List ℕ) → contains (insert a xs) a ≡ true
contains-insert a xs =
    let same : (a == a) ≡ true = ground arith in
    elim (Bool-cases (contains xs a)) [
      | inl e ↦ rw (e, e) refl
      | inr e ↦ rw (e, contains-append xs a a, e, same) refl
    ]

contains-insert_other :
    (a b : ℕ) (xs : List ℕ) → contains xs a ≡ true → contains (insert b xs) a ≡ true
contains-insert_other a b xs h = elim (Bool-cases (contains xs b)) [
  | inl e ↦ rw (e, h) refl
  | inr e ↦ rw (e, contains-append xs a b, h) refl
]

contains-insert_some :
    (o : Option ℕ) (a : ℕ) (xs : List ℕ)
    → contains xs a ≡ true
    → contains (insert_some o xs) a ≡ true
contains-insert_some none a xs h = h
contains-insert_some (some b) a xs h = contains-insert_other a b xs h

-- Every server of a slot is among those that are closed.
pub mapped_servers-contains :
    (n : ℕ) (f : ℕ → Option ℕ) (slot s : ℕ)
    → slot < n
    → f slot ≡ some s
    → contains (mapped_servers n f) s ≡ true
unfolding mapped_servers
mapped_servers-contains zero f slot s h e = absurd (omega arith)
mapped_servers-contains (suc n) f slot s h e = elim (Bool-cases (slot == n)) [
  | inl t ↦
      let same : slot ≡ n = ground arith in
      let last : f n ≡ some s = ap f (sym same) ∙ e in
      rw last (contains-insert s (mapped_servers n f))
  | inr t ↦
      contains-insert_some (f n) s (mapped_servers n f)
        (mapped_servers-contains n f slot s (ground arith) e)
]

-- No slot is left, and each server that had one is closed.
pub clear-IsClosed :
    (slot s : ℕ) (p : Proxy)
    → slot < cluster_slot_count
    → p.server_map slot ≡ some s
    → IsClosed s (clear p)
unfolding clear
clear-IsClosed slot s p h e =
    close_all-IsClosed (mapped_servers cluster_slot_count p.server_map) s p
      (mapped_servers-contains cluster_slot_count p.server_map slot s h e)
