-- ===== src/SlotMap/Mapped.antt =====
-- core/slot_map.cpp: which slots the loops over the ranges of a node give to its server.
use redis_cerberus.Prelude.{
  ℕ, zero, suc, ◌+◌, ◌-◌, Bool, true, false, ◌||◌, ◌&&◌, ltb, leb, ◌==◌, List, [], ◌∷◌, Option,
  some, if◌then◌else◌, ◌≡◌, refl, sym, ap, ◌∙◌, arith,
}
use redis_cerberus.SlotMap.{Mapping, map_slot, map_range, map_ranges}
use redis_cerberus.SlotMap.Node.{Range}

abbrev pub in_range : Range → ℕ → Bool
in_range rg slot = leb rg.0 slot && leb slot rg.1

-- Whether a slot is in one of the ranges.
unfoldable pub covers : List Range → ℕ → Bool
covers [] slot = false
covers (rg ∷ rgs) slot = in_range rg slot || covers rgs slot

-- The slots from `first` on, so many.
abbrev pub among : ℕ → ℕ → ℕ → Bool
among first n slot = leb first slot && ltb slot (first + n)

pub among-suc :
    (first n slot : ℕ) → among first (suc n) slot ≡ ((first == slot) || among (suc first) n slot)
among-suc first n slot = ground arith

pub among-zero : (first slot : ℕ) → among first 0 slot ≡ false
among-zero first slot = ground arith

if-or :
    (o : Option ℕ) (s : ℕ) (a b : Bool)
    → (if a then some s else (if b then some s else o)) ≡ (if b || a then some s else o)
if-or o s true true = refl
if-or o s true false = refl
if-or o s false true = refl
if-or o s false false = refl

map_range-server_map :
    (s first n : ℕ) (m : Mapping) (slot : ℕ)
    → (map_range s first n m).proxy.server_map slot
      ≡ (if among first n slot then some s else m.proxy.server_map slot)
unfolding map_range map_slot
map_range-server_map s first zero m slot = rw (among-zero first slot) refl
map_range-server_map s first (suc n) m slot =
    map_range-server_map s (suc first) n (map_slot s first m) slot
    ∙ if-or (m.proxy.server_map slot) s (among (suc first) n slot) (first == slot)
    ∙ ap (λ b. if b then some s else m.proxy.server_map slot) (sym (among-suc first n slot))

pub among-range :
    (first last slot : ℕ) → among first (suc last - first) slot ≡ in_range (first, last) slot
among-range first last slot = ground arith

-- The slots of the ranges of a node belong to its server afterwards, and every other slot to the server
-- that it belonged to.
pub map_ranges-server_map :
    (s : ℕ) (ranges : List Range) (m : Mapping) (slot : ℕ)
    → (map_ranges s ranges m).proxy.server_map slot
      ≡ (if covers ranges slot then some s else m.proxy.server_map slot)
unfolding map_ranges covers
map_ranges-server_map s [] m slot = refl
map_ranges-server_map s ((first, last) ∷ ranges) m slot =
    let m' = map_range s first (suc last - first) m in
    map_ranges-server_map s ranges m' slot
    ∙ ap (λ o. if covers ranges slot then some s else o)
        (map_range-server_map s first (suc last - first) m slot
          ∙ ap (λ b. if b then some s else m.proxy.server_map slot) (among-range first last slot))
    ∙ if-or (m.proxy.server_map slot) s (covers ranges slot) (in_range (first, last) slot)
