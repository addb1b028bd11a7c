-- ===== src/Message/Splitter.antt =====
-- core/message.hpp: `MessageSplitterBase`, the recursive `parse` and `split_by`. The class that
-- derives from the base is the record `Final` of its overrides over a state of its own.
use redis_cerberus.Prelude.{
  ℕ, zero, suc, ◌+◌, ◌-◌, Bool, true, false, not, List, [], ◌∷◌, Bytes, drop, length, ltb, ◌==◌,
  if◌then◌else◌,
}
use redis_cerberus.Prelude.Int.{ℤ, pos, negsuc, ◌+ℤ◌}
use redis_cerberus.Message.Outcome.{
  Outcome, ok, message_interrupted, bad_redis_message, fault, exhausted,
}
use redis_cerberus.Message.Scan.{btou, btoi, parse_simple_str, parse_str, pass_nil, length_of_cr_lf}

-- `on_string` and `on_array` may throw; the other overrides return. `on_split_point` is also
-- given `_split_points.back()`, and `on_array` the stack of counts, which overrides read.
pub record Final {ℓ} (F : Type ℓ) : Type ℓ where
  pub on_error : ℕ → ℕ → F → F
  pub on_string : ℕ → ℕ → F → Outcome F
  pub on_split_point : ℕ → ℕ → F → F
  pub on_array : ℤ → List ℤ → F → Outcome F

-- `split_points` holds the vector `_split_points` with its back first, and `nested` the stack of
-- the elements that each open array still waits for, its top first.
pub record Splitter {ℓ} (F : Type ℓ) : Type ℓ where
  pub interrupted : Bool
  pub split_points : List ℕ
  pub nested : List ℤ
  pub final : F

-- `_split_points.back()`. The vector is never empty: the constructor pushes the buffer's begin.
abbrev pub back : List ℕ → ℕ
back [] = 0
back (p ∷ _) = p

abbrev pub is_zero_ℤ : ℤ → Bool
is_zero_ℤ (pos n) = n == 0
is_zero_ℤ (negsuc n) = false

module _ {ℓ} {F : Type ℓ} where
  -- The constructor.
  abbrev pub split_from : ℕ → F → Splitter F
  split_from begin f = record {
    interrupted = false;
    split_points = begin ∷ [];
    nested = [];
    final = f;
  }

  unfoldable pub finished : Splitter F → Bool
  finished s = elim s.nested [ [] ↦ not s.interrupted | _ ∷ _ ↦ false ]

  abbrev pub interrupt_point : Splitter F → ℕ
  interrupt_point s = back s.split_points

  abbrev pub interrupt : Splitter F → Splitter F
  interrupt s = record s { interrupted = true }

-- A method may throw: the outcome, with the object as it is left behind.
abbrev pub Method {ℓ} : Type ℓ → Type ℓ → Type ℓ
Method F A = Splitter F → Outcome A × Splitter F

abbrev pub after {ℓ} :
    {F A B : Type ℓ} → Outcome A × Splitter F → (A → Method F B) → Outcome B × Splitter F
after (ok a, s) f = f a s
after (message_interrupted, s) f = (message_interrupted, s)
after (bad_redis_message, s) f = (bad_redis_message, s)
after (fault, s) f = (fault, s)
after (exhausted, s) f = (exhausted, s)

infixl 5 ◌>>=◌
abbrev pub ◌>>=◌ {ℓ} : {F A B : Type ℓ} → Method F A → (A → Method F B) → Method F B
◌>>=◌ m f s = after (m s) f

-- `next - LENGTH_OF_CR_LF`.
abbrev pub before_cr_lf : ℕ → Outcome ℕ
before_cr_lf next = if ltb next length_of_cr_lf then fault else ok (next - length_of_cr_lf)

abbrev pub lift : {F A : Type 0} → Outcome A → Method F A
lift r s = (r, s)

-- `buffer_begin != buffer_end && *buffer_begin == '-'`.
abbrev pub is_minus : Bytes → Bool
is_minus [] = false
is_minus (b ∷ _) = b == b'-'

-- How often `for (int i = 0; i < size && ..; ++i)` may go round.
abbrev pub rounds : ℤ → ℕ
rounds (pos n) = n
rounds (negsuc n) = 0

module _ {F : Type 0} (v : Final F) where
  -- What an override leaves behind when it throws is not looked at again: the state is kept.
  abbrev pub set_final : Splitter F → Outcome F → Outcome (Unit {0}) × Splitter F
  set_final s (ok f) = (ok tt, record s { final = f })
  set_final s message_interrupted = (message_interrupted, s)
  set_final s bad_redis_message = (bad_redis_message, s)
  set_final s fault = (fault, s)
  set_final s exhausted = (exhausted, s)

  abbrev pub call_on_string : ℕ → ℕ → Method F (Unit {0})
  call_on_string begin last s = set_final s (v.on_string begin last s.final)

  abbrev pub call_on_array : ℤ → Method F (Unit {0})
  call_on_array size s = set_final s (v.on_array size s.nested s.final)

  -- `on_element`, by the stack: a count that falls to zero is popped, and its array is an element.
  unfoldable pub on_element_at : List ℤ → ℕ → Splitter F → Splitter F
  on_element_at [] next s = record s {
    split_points = next ∷ s.split_points;
    nested = [];
    final = v.on_split_point (back s.split_points) next s.final;
  }
  on_element_at (t ∷ ts) next s =
      let popped = on_element_at ts next s in
      let left = t +ℤ negsuc 0 in if is_zero_ℤ left then popped else record s { nested = left ∷ ts }

  unfoldable pub on_element : ℕ → Splitter F → Splitter F
  unfolding on_element_at
  on_element next s = on_element_at s.nested next s

  abbrev element : ℕ → Method F ℕ
  element next s = (ok next, on_element next s)

  -- `on_int` ignores the number; `on_nil` has the same body.
  unfoldable pub on_int : ℕ → Method F ℕ
  unfolding on_element
  on_int next = element next

  unfoldable pub on_nil : ℕ → Method F ℕ
  unfolding on_element
  on_nil next = element next

  unfoldable pub on_arr : ℤ → ℕ → Method F (Unit {0})
  unfolding on_element
  on_arr size next = do
    _ ← call_on_array size
    λ s.
        (ok tt, if is_zero_ℤ size then on_element next s else record s { nested = size ∷ s.nested })

  module _ (buf : Bytes) where
    unfoldable pub on_sstr : ℕ → Method F ℕ
    unfolding on_element
    on_sstr begin = do
      next ← lift (parse_simple_str buf begin)
      last ← lift (before_cr_lf next)
      _ ← call_on_string begin last
      element next

    unfoldable pub on_lstr : ℤ → ℕ → Method F ℕ
    unfolding on_element
    on_lstr size begin = do
      next ← lift (parse_str buf size begin)
      last ← lift (before_cr_lf next)
      _ ← call_on_string begin last
      element next

    unfoldable pub on_err : ℕ → Method F ℕ
    unfolding on_element
    on_err begin = do
      next ← lift (parse_simple_str buf begin)
      last ← lift (before_cr_lf next)
      _ ← λ s. (ok tt, record s { final = v.on_error begin last s.final })
      element next

    -- The loop over the elements of an array; `go` is the recursive call of `parse`.
    unfoldable pub elements : (ℕ → Method F ℕ) → ℕ → ℕ → Method F ℕ
    elements go zero p s = (ok p, s)
    elements go (suc n) p s = elim (ltb p (length buf)) [
      | true ↦ (go p >>= λ q. elements go n q) s
      | false ↦ (ok p, s)
    ]

    -- The switch on the first byte; `p` is behind it and `rest` is what follows.
    parse_case : (ℕ → Method F ℕ) → ℕ → ℕ → Bytes → Method F ℕ
    parse_case go b p rest =
        if b == b':'
        then (lift (btoi buf p) >>= λ (_, q). on_int q)
        else if b == b'+'
        then on_sstr p
        else if b == b'$'
        then (if is_minus rest
            then (lift (pass_nil buf (p + 1)) >>= λ q. on_nil q)
            else (lift (btou buf p) >>= λ (size, q). on_lstr size q))
        else if b == b'*'
        then (if is_minus rest
            then (lift (pass_nil buf (p + 1)) >>= λ q. on_nil q)
            else (do (size, q) ← lift (btou buf p); _ ← on_arr size q; elements go (rounds size) q))
        else if b == b'-'
        then on_err p
        else lift bad_redis_message

    parse_at : (ℕ → Method F ℕ) → ℕ → Bytes → Method F ℕ
    parse_at go p [] = lift (ok (length buf))
    parse_at go p (b ∷ rest) = parse_case go b (p + 1) rest

    -- The fuel is spent on the nesting of arrays.
    unfoldable pub parse : ℕ → ℕ → Method F ℕ
    unfolding parse_at parse_case elements
    parse zero p = lift exhausted
    parse (suc fuel) p = parse_at (parse fuel) p (drop p buf)

    -- The loop of `split_by`, on fuel of its own; `depth` is that of `parse`.
    unfoldable pub split_loop : ℕ → ℕ → ℕ → Method F ℕ
    split_loop depth zero p s = elim (ltb p (length buf)) [
      | true ↦ (exhausted, s)
      | false ↦ (ok p, s)
    ]
    split_loop depth (suc fuel) p s = elim (ltb p (length buf)) [
      | true ↦ (parse depth p >>= λ q. split_loop depth fuel q) s
      | false ↦ (ok p, s)
    ]

    -- `MessageInterrupted` is caught and marked; what else is thrown goes through.
    abbrev pub caught : Outcome ℕ × Splitter F → Outcome (Splitter F)
    caught (ok _, s) = ok s
    caught (message_interrupted, s) = ok (interrupt s)
    caught (bad_redis_message, s) = bad_redis_message
    caught (fault, s) = fault
    caught (exhausted, s) = exhausted

    unfoldable pub split_by : ℕ → ℕ → F → Outcome (Splitter F)
    unfolding split_loop parse
    split_by depth fuel f = caught (split_loop depth fuel 0 (split_from 0 f))
