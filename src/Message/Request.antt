-- ===== src/Message/Request.antt =====
-- A client's request: an array of texts. The scan tells the derived class its texts one by one, and
-- then that an element ends.
use redis_cerberus.Prelude.{
  ℕ, suc, ◌+◌, ◌<◌, List, [], ◌∷◌, Bytes, length, ◌≡◌, refl, ap, ◌∙◌, arith,
}
use redis_cerberus.Prelude.Int.{ℤ, pos}
use redis_cerberus.Text.Decimal.{str}
use redis_cerberus.Message.Outcome.{ok}
use redis_cerberus.Message.Splitter.{Final, Splitter, after, on_arr, on_element}
use redis_cerberus.Message.Split.{on_element-last, on_element-more, suc_not_zero}
use redis_cerberus.Message.Reply.{
  Reply, Replies, bulk, array, none_left, more, count, width, width_all, visit, visit_all,
}

abbrev pub bulks : List Bytes → Replies
bulks [] = none_left
bulks (b ∷ bs) = more (bulk b) (bulks bs)

abbrev pub request : List Bytes → Reply
request args = array (bulks args)

pub count-bulks : (bs : List Bytes) → count (bulks bs) ≡ length bs
count-bulks [] = refl
count-bulks (b ∷ bs) = ap suc (count-bulks bs)

-- Where the text of the argument at `p` begins, and where the next argument is.
abbrev pub text_begin : ℕ → Bytes → ℕ
text_begin p b = p + (length (str (length b)) + 3)

-- Where the arguments of a request begin.
abbrev pub args_begin : ℕ → List Bytes → ℕ
args_begin p args = p + (length (str (count (bulks args))) + 3)

width_one : (p : ℕ) (r : Reply) → p + width r ≡ p + width_all (more r none_left)
unfolding width
width_one p r = omega arith

width_more :
    (p : ℕ) (r : Reply) (rs : Replies) → p + width r + width_all rs ≡ p + width_all (more r rs)
unfolding width
width_more p r rs = omega arith

width_array :
    (p : ℕ) (rs : Replies) → p + (length (str (count rs)) + 3) + width_all rs ≡ p + width (array rs)
unfolding width
width_array p rs = omega arith

module _ {F : Type 0} (v : Final F) where
  visit_all-cons :
      (p : ℕ) (b : Bytes) (rs : Replies) (s : Splitter F)
      → visit_all v p (more (bulk b) rs) s
        ≡ after (visit v p (bulk b) s) (λ _. visit_all v (p + width (bulk b)) rs)
  unfolding visit
  visit_all-cons p b rs s = refl

  visit_all-none_left : (p : ℕ) (s : Splitter F) → visit_all v p none_left s ≡ (ok tt, s)
  unfolding visit
  visit_all-none_left p s = refl

  -- The calls of `on_string` for texts that start at `p` take the derived state from `f` to `g`.
  abbrev pub Reads : ℕ → List Bytes → F → F → Type 0
  Reads p [] f g = f ≡ g
  Reads p (b ∷ bs) f g =
      (h : F) × (v.on_string (text_begin p b) (text_begin p b + length b) f ≡ ok h)
      × Reads (p + width (bulk b)) bs h g

  visit-bulk :
      (p : ℕ) (b : Bytes) (s : Splitter F) (g : F)
      → v.on_string (text_begin p b) (text_begin p b + length b) s.final ≡ ok g
      → visit v p (bulk b) s ≡ (ok tt, on_element v (p + width (bulk b)) (record s { final = g }))
  unfolding visit
  visit-bulk p b s g e = rw e

  visit_all-more :
      (p : ℕ) (b : Bytes) (rs : Replies) (s : Splitter F) (g : F)
      → v.on_string (text_begin p b) (text_begin p b + length b) s.final ≡ ok g
      → visit_all v p (more (bulk b) rs) s
        ≡ visit_all v
            (p + width (bulk b))
            rs
            (on_element v (p + width (bulk b)) (record s { final = g }))
  visit_all-more p b rs s g e =
      visit_all-cons p b rs s
      ∙ ap (λ x. after x (λ _. visit_all v (p + width (bulk b)) rs)) (visit-bulk p b s g e)

  visit_all-bulks :
      (bs : List Bytes) (p : ℕ) (ts : List ℤ) (s : Splitter F) (g : F)
      → 0 < length bs
      → Reads p bs s.final g
      → visit_all v p (bulks bs) (record s { nested = pos (count (bulks bs)) ∷ ts })
        ≡ (ok tt, on_element v (p + width_all (bulks bs)) (record s { nested = ts; final = g }))
  visit_all-bulks [] p ts s g h e = absurd (omega arith)
  visit_all-bulks (b ∷ []) p ts s g h (f, first, last) = rw (← last) (
      visit_all-more p b none_left (record s { nested = pos 1 ∷ ts }) f first
      ∙ visit_all-none_left (p + width (bulk b)) _
      ∙ ap (λ t. (ok tt, t))
          (on_element-last v (p + width (bulk b)) ts (record s { final = f })
            ∙ ap (λ q. on_element v q (record s { nested = ts; final = f }))
                (width_one p (bulk b))))
  visit_all-bulks (b ∷ c ∷ bs) p ts s g h (f, first, others) =
      visit_all-more p b (bulks (c ∷ bs))
        (record s { nested = pos (suc (suc (count (bulks bs)))) ∷ ts }) f first
      ∙ ap (visit_all v (p + width (bulk b)) (bulks (c ∷ bs)))
          (on_element-more v (count (bulks bs)) (p + width (bulk b)) ts (record s { final = f }))
      ∙ visit_all-bulks (c ∷ bs) (p + width (bulk b)) ts (record s { final = f }) g (omega arith)
          others
      ∙ ap (λ q. (ok tt, on_element v q (record s { nested = ts; final = g })))
          (width_more p (bulk b) (bulks (c ∷ bs)))

  on_arr_opens :
      (n q : ℕ) (s : Splitter F)
      → v.on_array (pos (suc n)) [] s.final ≡ ok s.final
      → on_arr v (pos (suc n)) q (record s { nested = [] })
        ≡ (ok tt, record s { nested = pos (suc n) ∷ [] })
  unfolding on_arr
  on_arr_opens n q s a = rw (a, suc_not_zero n)

  visit-array :
      (p : ℕ) (rs : Replies) (s : Splitter F)
      → visit v p (array rs) s
        ≡ after
            (on_arr v (pos (count rs)) (p + (length (str (count rs)) + 3)) s)
            (λ _. visit_all v (p + (length (str (count rs)) + 3)) rs)
  unfolding visit
  visit-array p rs s = refl

  -- A request outside of every array.
  pub visit-request :
      (args : List Bytes) (p : ℕ) (s : Splitter F) (g : F)
      → 0 < length args
      → v.on_array (pos (count (bulks args))) [] s.final ≡ ok s.final
      → Reads (args_begin p args) args s.final g
      → visit v p (request args) (record s { nested = [] })
        ≡ (ok tt, on_element v (p + width (request args)) (record s { nested = []; final = g }))
  visit-request [] p s g h a e = absurd (omega arith)
  visit-request (b ∷ bs) p s g h a e =
      visit-array p (bulks (b ∷ bs)) _
      ∙ ap (λ x. after x (λ _. visit_all v (args_begin p (b ∷ bs)) (bulks (b ∷ bs))))
          (on_arr_opens (count (bulks bs)) (args_begin p (b ∷ bs)) s a)
      ∙ visit_all-bulks (b ∷ bs) (args_begin p (b ∷ bs)) [] s g (omega arith) e
      ∙ ap (λ q. (ok tt, on_element v q (record s { nested = []; final = g })))
          (width_array p (bulks (b ∷ bs)))
