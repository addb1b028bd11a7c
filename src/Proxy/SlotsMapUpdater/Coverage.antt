-- ===== src/Proxy/SlotsMapUpdater/Coverage.antt =====
-- core/proxy.cpp: which slots an updater counts as covered, and when that is all of them.
use redis_cerberus.Prelude.{
  ℕ, zero, suc, ◌-◌, ◌≤◌, ◌<◌, Bool, true, false, ◌&&◌, ◌||◌, not, ◌==◌, List, [], ◌∷◌, ◌++◌,
  length, inl, inr, if◌then◌else◌, ◌≡◌, refl, sym, ap, ◌∙◌, arith, Bool-cases,
}
use redis_cerberus.Command.Parser.Keys.{is_nil}
use redis_cerberus.State.{Updater, contains, insert}
use redis_cerberus.SlotMap.Node.{Range, RedisNode}
use redis_cerberus.SlotMap.Mapped.{covers, in_range, among, among-suc, among-zero, among-range}
use redis_cerberus.Proxy.SlotsMapUpdater.{cover_range, cover_ranges, note_node, note_nodes}

-- Whether one of the nodes that have a host has the slot.
unfoldable pub named_covers : List RedisNode → ℕ → Bool
unfolding covers
named_covers [] slot = false
named_covers (node ∷ nodes) slot =
    (not (is_nil node.addr.host) && covers node.slot_ranges slot) || named_covers nodes slot

-- No slot is counted twice.
unfoldable pub Distinct : List ℕ → Type 0
Distinct [] = Unit
Distinct (x ∷ xs) = (contains xs x ≡ false) × Distinct xs

contains-same : (xs : List ℕ) (a b : ℕ) → (a == b) ≡ true → contains xs a ≡ contains xs b
unfolding contains
contains-same [] a b h = refl
contains-same (x ∷ xs) a b h = ground (arith, contains-same xs a b h)

contains-append : (xs : List ℕ) (a b : ℕ) → contains (xs ++ a ∷ []) b ≡ ((a == b) || contains xs b)
unfolding contains
contains-append [] a b = refl
contains-append (x ∷ xs) a b = ground (arith, contains-append xs a b)

contains-insert : (xs : List ℕ) (a b : ℕ) → contains (insert a xs) b ≡ ((a == b) || contains xs b)
contains-insert xs a b = elim (Bool-cases (contains xs a)) [
  | inl t ↦ ground (arith, contains-same xs a b)
  | inr t ↦ rw t (contains-append xs a b)
]

Distinct-append :
    (xs : List ℕ) (a : ℕ) → contains xs a ≡ false → Distinct xs → Distinct (xs ++ a ∷ [])
unfolding Distinct contains
Distinct-append [] a h d = (refl, tt)
Distinct-append (x ∷ xs) a h (new, d) =
    (ground (arith, contains-append xs a x), Distinct-append xs a (ground arith) d)

insert-Distinct : (xs : List ℕ) (a : ℕ) → Distinct xs → Distinct (insert a xs)
insert-Distinct xs a d = elim (Bool-cases (contains xs a)) [
  | inl t ↦ rw t d
  | inr t ↦ rw t (Distinct-append xs a t d)
]

or_swap : (a b c : Bool) → (a || (b || c)) ≡ ((b || a) || c)
or_swap true true c = refl
or_swap true false c = refl
or_swap false true c = refl
or_swap false false c = refl

cover_range-contains :
    (n first : ℕ) (xs : List ℕ) (slot : ℕ)
    → contains (cover_range first n xs) slot ≡ (among first n slot || contains xs slot)
unfolding cover_range
cover_range-contains zero first xs slot = rw (among-zero first slot) refl
cover_range-contains (suc n) first xs slot =
    cover_range-contains n (suc first) (insert first xs) slot
    ∙ ap (λ b. among (suc first) n slot || b) (contains-insert xs first slot)
    ∙ or_swap (among (suc first) n slot) (first == slot) (contains xs slot)
    ∙ ap (λ b. b || contains xs slot) (sym (among-suc first n slot))

cover_range-Distinct : (n first : ℕ) (xs : List ℕ) → Distinct xs → Distinct (cover_range first n xs)
unfolding cover_range
cover_range-Distinct zero first xs d = d
cover_range-Distinct (suc n) first xs d =
    cover_range-Distinct n (suc first) (insert first xs) (insert-Distinct xs first d)

cover_ranges-contains :
    (ranges : List Range) (xs : List ℕ) (slot : ℕ)
    → contains (cover_ranges ranges xs) slot ≡ (covers ranges slot || contains xs slot)
unfolding cover_ranges covers
cover_ranges-contains [] xs slot = refl
cover_ranges-contains ((first, last) ∷ ranges) xs slot =
    cover_ranges-contains ranges (cover_range first (suc last - first) xs) slot
    ∙ ap (λ b. covers ranges slot || b)
        (cover_range-contains (suc last - first) first xs slot
          ∙ ap (λ b. b || contains xs slot) (among-range first last slot))
    ∙ or_swap (covers ranges slot) (in_range (first, last) slot) (contains xs slot)

cover_ranges-Distinct :
    (ranges : List Range) (xs : List ℕ) → Distinct xs → Distinct (cover_ranges ranges xs)
unfolding cover_ranges
cover_ranges-Distinct [] xs d = d
cover_ranges-Distinct ((first, last) ∷ ranges) xs d =
    cover_ranges-Distinct ranges (cover_range first (suc last - first) xs)
      (cover_range-Distinct (suc last - first) first xs d)

note_node-contains :
    (nil : Bool) (node : RedisNode) (u : Updater) (slot : ℕ)
    → contains (note_node nil node u).covered slot
      ≡ ((not nil && covers node.slot_ranges slot) || contains u.covered slot)
unfolding note_node
note_node-contains true node u slot = refl
note_node-contains false node u slot = cover_ranges-contains node.slot_ranges u.covered slot

note_node-Distinct :
    (nil : Bool) (node : RedisNode) (u : Updater)
    → Distinct u.covered
    → Distinct (note_node nil node u).covered
unfolding note_node
note_node-Distinct true node u d = d
note_node-Distinct false node u d = cover_ranges-Distinct node.slot_ranges u.covered d

pub note_nodes-contains :
    (nodes : List RedisNode) (u : Updater) (slot : ℕ)
    → contains (note_nodes nodes u).covered slot
      ≡ (named_covers nodes slot || contains u.covered slot)
unfolding note_nodes named_covers
note_nodes-contains [] u slot = refl
note_nodes-contains (node ∷ nodes) u slot =
    let nil = is_nil node.addr.host in
    note_nodes-contains nodes (note_node nil node u) slot
    ∙ ap (λ b. named_covers nodes slot || b) (note_node-contains nil node u slot)
    ∙ or_swap (named_covers nodes slot) (not nil && covers node.slot_ranges slot)
        (contains u.covered slot)

pub note_nodes-Distinct :
    (nodes : List RedisNode) (u : Updater)
    → Distinct u.covered
    → Distinct (note_nodes nodes u).covered
unfolding note_nodes
note_nodes-Distinct [] u d = d
note_nodes-Distinct (node ∷ nodes) u d =
    let nil = is_nil node.addr.host in
    note_nodes-Distinct nodes (note_node nil node u) (note_node-Distinct nil node u d)

unfoldable pub without : ℕ → List ℕ → List ℕ
without n [] = []
without n (x ∷ xs) = if x == n then without n xs else x ∷ without n xs

without-contains :
    (n : ℕ) (xs : List ℕ) (a : ℕ) → contains (without n xs) a ≡ (not (n == a) && contains xs a)
unfolding without contains
without-contains n [] a = ground arith
without-contains n (x ∷ xs) a = ground (arith, without-contains n xs a)

without-le : (n : ℕ) (xs : List ℕ) → length (without n xs) ≤ length xs
unfolding without
without-le n [] = omega arith
without-le n (x ∷ xs) = ground (arith, without-le n xs)

without-less : (n : ℕ) (xs : List ℕ) → contains xs n ≡ true → length (without n xs) < length xs
unfolding without contains
without-less n [] h = cc
without-less n (x ∷ xs) h = ground (arith, without-le n xs, without-less n xs)

-- A list that holds all numbers below a bound is as long.
pub length-full : (n : ℕ) (xs : List ℕ) → ((k : ℕ) → k < n → contains xs k ≡ true) → n ≤ length xs
length-full zero xs all = omega arith
length-full (suc n) xs all =
    let rest =
      length-full n (without n xs) (λ k h. ground (arith, without-contains n xs k, all k)) in
    omega (arith, rest, without-less n xs (all n (omega arith)))

without-same : (n : ℕ) (xs : List ℕ) → contains xs n ≡ false → without n xs ≡ xs
unfolding without contains
without-same n [] h = refl
without-same n (x ∷ xs) h = ground (arith, without-same n xs)

without-Distinct : (n : ℕ) (xs : List ℕ) → Distinct xs → Distinct (without n xs)
unfolding without Distinct
without-Distinct n [] d = tt
without-Distinct n (x ∷ xs) (new, d) = elim (Bool-cases (x == n)) [
  | inl t ↦ rw t (without-Distinct n xs d)
  | inr t ↦ rw t (ground (arith, without-contains n xs x), without-Distinct n xs d)
]

without-once : (n : ℕ) (xs : List ℕ) → Distinct xs → length xs ≤ suc (length (without n xs))
unfolding without Distinct
without-once n [] d = omega arith
without-once n (x ∷ xs) (new, d) = elim (Bool-cases (x == n)) [
  | inl t ↦ rw t (ground (arith, contains-same xs x n t, without-same n xs))
  | inr t ↦ rw t (omega (arith, without-once n xs d))
]

-- A list of distinct numbers below a bound is no longer.
length-bounded :
    (n : ℕ) (xs : List ℕ) → Distinct xs → ((k : ℕ) → contains xs k ≡ true → k < n) → length xs ≤ n
unfolding contains
length-bounded zero [] d below = omega arith
length-bounded zero (x ∷ xs) d below = absurd (ground (arith, below x))
length-bounded (suc n) xs d below =
    let rest =
      length-bounded n (without n xs) (without-Distinct n xs d)
        (λ k h. ground (arith, without-contains n xs k, below k)) in
    omega (arith, rest, without-once n xs d)

-- One that leaves out a number below the bound is shorter.
pub length-partial :
    (n : ℕ) (xs : List ℕ) (k : ℕ)
    → Distinct xs
    → ((j : ℕ) → contains xs j ≡ true → j < n)
    → k < n
    → contains xs k ≡ false
    → length xs < n
unfolding Distinct contains
length-partial n xs k d below h missing =
    length-bounded n (k ∷ xs) (missing, d) (λ j e. ground (arith, below j))
