-- ===== src/Text/Decimal.antt =====
-- utils/string.cpp: `util::str` on a non-negative integer, which a stream prints in decimal.
use redis_cerberus.Prelude.{
  ℕ, zero, suc, ◌+◌, ◌/◌, ◌%◌, ◌<◌, [], ◌∷◌, ◌++◌, Bytes, ltb, if◌then◌else◌, ◌≡◌, refl, inl, inr,
  arith, Bool-cases,
}

decimal_on : ℕ → ℕ → Bytes
decimal_on zero n = []
decimal_on (suc fuel) n =
    let front = decimal_on fuel (n / 10) in
    if ltb n 10 then (b'0' + n) ∷ [] else front ++ (b'0' + n % 10) ∷ []

-- A number has fewer digits than `n + 1`, so the fuel is enough.
unfoldable pub str : ℕ → Bytes
unfolding decimal_on
str n = decimal_on (suc n) n

module _ {ℓ} (P : ℕ → Bytes → Type ℓ) where
  decimal_on_ind :
      ((n : ℕ) → n < 10 → P n ((b'0' + n) ∷ []))
      → ((n : ℕ) (ds : Bytes) → P (n / 10) ds → P n (ds ++ (b'0' + n % 10) ∷ []))
      → (fuel n : ℕ) → n < fuel
      → P n (decimal_on fuel n)
  unfolding decimal_on
  decimal_on_ind one more zero n h = absurd (omega arith)
  decimal_on_ind one more (suc fuel) n h = elim (Bool-cases (ltb n 10)) [
    | inl small ↦ rw small (one n (ground arith))
    | inr large ↦ rw large (more n _ (decimal_on_ind one more fuel (n / 10) (ground arith)))
  ]

  -- Induction on the digits, the last one first.
  pub str_ind :
      ((n : ℕ) → n < 10 → P n ((b'0' + n) ∷ []))
      → ((n : ℕ) (ds : Bytes) → P (n / 10) ds → P n (ds ++ (b'0' + n % 10) ∷ []))
      → (n : ℕ) → P n (str n)
  unfolding str
  str_ind one more n = decimal_on_ind one more (suc n) n (omega arith)

-- What is printed begins with a digit.
pub str_digit : (n : ℕ) → (d : ℕ) × (ds : Bytes) × (d < 10) × (str n ≡ (b'0' + d) ∷ ds)
str_digit =
    str_ind (λ n ds. (d : ℕ) × (es : Bytes) × (d < 10) × (ds ≡ (b'0' + d) ∷ es))
      (λ n h. (n, [], h, refl)) (λ n ds (d, es, h, e). (d, es ++ (b'0' + n % 10) ∷ [], h, rw e))
