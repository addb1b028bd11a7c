-- ===== src/Text/Split/Pieces.antt =====
-- utils/string.cpp: what `util::split_str` gives, told without positions, and that it takes apart what
-- `util::join` put together.
use redis_cerberus.Prelude.{
  ℕ, zero, suc, ◌+◌, ◌-◌, ◌≤◌, ◌<◌, Bool, true, false, List, [], ◌∷◌, ◌++◌, Bytes, length, take,
  drop, slice, drop-drop, length-drop, append-nil, Option, none, some, Option-cases, Bool-cases,
  inl, inr, ◌==◌, if◌then◌else◌, ◌≡◌, refl, sym, ap, subst, ◌∙◌, arith,
}
use redis_cerberus.Text.Split.{
  has, index_of, find_first_of, push_piece, split_loop, split_str, join_rest, join,
}

-- The bytes between the delimiters, empty ones too.
abbrev put_front : ℕ → List Bytes → List Bytes
put_front c [] = (c ∷ []) ∷ []
put_front c (p ∷ ps) = (c ∷ p) ∷ ps

unfoldable pub pieces : Bytes → Bytes → List Bytes
pieces delims [] = [] ∷ []
pieces delims (c ∷ cs) =
    let rest = pieces delims cs in if has delims c then [] ∷ rest else put_front c rest

-- Without the empty ones, where these are trimmed.
unfoldable pub trimmed : Bool → List Bytes → List Bytes
trimmed trim [] = []
trimmed trim (p ∷ ps) = push_piece trim p (trimmed trim ps)

-- The first piece, by where it ends.
by_index : Bytes → Bytes → Option ℕ → List Bytes
unfolding pieces
by_index delims xs none = xs ∷ []
by_index delims xs (some i) = take i xs ∷ pieces delims (drop (suc i) xs)

put_front-by_index :
    (delims : Bytes) (c : ℕ) (xs : Bytes) (o : Option ℕ)
    → put_front c (by_index delims xs o)
      ≡ by_index delims (c ∷ xs) (elim o [ none ↦ none | some i ↦ some (suc i) ])
unfolding by_index
put_front-by_index delims c xs none = refl
put_front-by_index delims c xs (some i) = refl

pieces-by_index : (delims xs : Bytes) → pieces delims xs ≡ by_index delims xs (index_of delims xs)
unfolding pieces index_of by_index
pieces-by_index delims [] = refl
pieces-by_index delims (c ∷ cs) = elim (Bool-cases (has delims c)) [
  | inl t ↦ rw t refl
  | inr t ↦ rw t (
      ap (put_front c) (pieces-by_index delims cs)
      ∙ put_front-by_index delims c cs (index_of delims cs))
]

index_of-lt : (delims xs : Bytes) (i : ℕ) → index_of delims xs ≡ some i → i < length xs
unfolding index_of
index_of-lt delims [] i h = absurd (ground arith)
index_of-lt delims (c ∷ cs) i h = elim (Bool-cases (has delims c)) [
  | inl t ↦ first (subst (λ b. chosen b (index_of delims cs) ≡ some i) t h)
  | inr t ↦
      later (index_of delims cs) (index_of-lt delims cs)
        (subst (λ b. chosen b (index_of delims cs) ≡ some i) t h)
]
  where
    chosen : Bool → Option ℕ → Option ℕ
    chosen b o = if b then some 0 else (elim o [ none ↦ none | some j ↦ some (suc j) ])

    first : some 0 ≡ some i → i < suc (length cs)
    first e = ground arith

    later :
        (o : Option ℕ)
        → ((j : ℕ) → o ≡ some j → j < length cs)
        → chosen false o ≡ some i
        → i < suc (length cs)
    later none below e = absurd (ground arith)
    later (some j) below e = let bound = below j refl in ground arith

take-length : (xs : Bytes) → take (length xs) xs ≡ xs
take-length [] = refl
take-length (x ∷ xs) = ap (◌∷◌ x) (take-length xs)

-- The loop at a position gives the pieces of what is behind it.
split_loop-pieces :
    (fuel : ℕ) (str delims : Bytes) (trim : Bool) (p : ℕ)
    → p ≤ length str
    → length str - p < fuel
    → split_loop fuel str delims trim p ≡ trimmed trim (pieces delims (drop p str))
unfolding split_loop find_first_of trimmed by_index
split_loop-pieces zero str delims trim p h k = absurd (omega arith)
split_loop-pieces (suc fuel) str delims trim p h k =
    let rest = drop p str in
    let size : length rest ≡ length str - p = length-drop p str in
    elim (Option-cases (index_of delims rest)) [
      | inl e ↦
          let all : slice str p (length str) ≡ rest =
            ap (λ n. take n rest) (sym size) ∙ take-length rest in
          let told : pieces delims rest ≡ rest ∷ [] =
            pieces-by_index delims rest ∙ ap (by_index delims rest) e in
          rw (split_loop, find_first_of, e, all, told) refl
      | inr (i, e) ↦
          let bound = index_of-lt delims rest i e in
          let told : pieces delims rest ≡ take i rest ∷ pieces delims (drop (suc i) rest) =
            pieces-by_index delims rest ∙ ap (by_index delims rest) e in
          let width : p + i - p ≡ i = omega arith in
          let next : p + suc i ≡ p + i + 1 = omega arith in
          let below =
            split_loop-pieces fuel str delims trim (p + i + 1) (omega arith) (omega arith) in
          let behind : drop (p + i + 1) str ≡ drop (suc i) rest =
            ap (λ n. drop n str) (sym next) ∙ sym (drop-drop p (suc i) str) in
          rw (split_loop, find_first_of, e, told, width)
            (ap (push_piece trim (take i rest))
              (below ∙ ap (λ x. trimmed trim (pieces delims x)) behind))
    ]

-- `split_str` gives the pieces between the delimiters, in order, and leaves out the empty ones if it is
-- to trim.
pub split_str-pieces :
    (str delims : Bytes) (trim : Bool)
    → split_str str delims trim ≡ trimmed trim (pieces delims str)
unfolding split_str
split_str-pieces str delims trim =
    split_loop-pieces (suc (length str)) str delims trim 0 (omega arith) (omega arith)

-- No byte is one of the delimiters.
unfoldable pub Lacks : Bytes → Bytes → Type 0
Lacks delims [] = Unit
Lacks delims (c ∷ cs) = (has delims c ≡ false) × Lacks delims cs

unfoldable pub AllLack : Bytes → List Bytes → Type 0
AllLack delims [] = Unit
AllLack delims (x ∷ xs) = Lacks delims x × AllLack delims xs

pieces-text : (delims x : Bytes) → Lacks delims x → pieces delims x ≡ x ∷ []
unfolding pieces Lacks
pieces-text delims [] h = refl
pieces-text delims (c ∷ cs) (h, hs) = rw (h, pieces-text delims cs hs) refl

pieces-append :
    (d : ℕ) (x rest : Bytes)
    → Lacks (d ∷ []) x
    → pieces (d ∷ []) (x ++ d ∷ rest) ≡ x ∷ pieces (d ∷ []) rest
unfolding pieces Lacks has
pieces-append d [] rest h = let same : (d == d) ≡ true = ground arith in rw same refl
pieces-append d (c ∷ cs) rest (h, hs) = rw (h, pieces-append d cs rest hs) refl

pieces-join :
    (d : ℕ) (v : Bytes) (vs : List Bytes)
    → Lacks (d ∷ []) v
    → AllLack (d ∷ []) vs
    → pieces (d ∷ []) (v ++ join_rest (d ∷ []) vs) ≡ v ∷ vs
unfolding AllLack
pieces-join d v [] h hs = ap (pieces (d ∷ [])) (append-nil v) ∙ pieces-text (d ∷ []) v h
pieces-join d v (w ∷ ws) h (k, ks) =
    pieces-append d v (w ++ join_rest (d ∷ []) ws) h ∙ ap (◌∷◌ v) (pieces-join d w ws k ks)

trimmed-false : (ps : List Bytes) → trimmed false ps ≡ ps
unfolding trimmed
trimmed-false [] = refl
trimmed-false (p ∷ ps) = ap (◌∷◌ p) (trimmed-false ps)

-- Splitting takes apart what `join` put together with a separator of one byte, where there is a text at
-- least and the byte is in none of them.
pub split_str-join :
    (d : ℕ) (v : Bytes) (vs : List Bytes)
    → AllLack (d ∷ []) (v ∷ vs)
    → split_str (join (d ∷ []) (v ∷ vs)) (d ∷ []) false ≡ v ∷ vs
unfolding join AllLack
split_str-join d v vs (h, hs) =
    split_str-pieces (join (d ∷ []) (v ∷ vs)) (d ∷ []) false
    ∙ ap (trimmed false) (pieces-join d v vs h hs)
    ∙ trimmed-false (v ∷ vs)
