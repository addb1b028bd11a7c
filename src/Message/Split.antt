-- ===== src/Message/Split.antt =====
-- core/message.hpp: `split_by` over a sequence of whole messages, for a derived class whose
-- `on_string` and `on_array` do nothing, as those of the base.
use redis_cerberus.Prelude.{
  ℕ, zero, suc, ◌+◌, ◌-◌, ◌≤◌, ◌<◌, true, false, List, [], ◌∷◌, Bytes, length, drop, ltb,
  if◌then◌else◌, ◌≡◌, refl, sym, ap, ◌∙◌, arith,
}
use redis_cerberus.Prelude.Int.{ℤ, pos, negsuc, ◌+ℤ◌}
use redis_cerberus.Text.Decimal.{str}
use redis_cerberus.Message.Outcome.{ok}
use redis_cerberus.Message.Splitter.{
  split_loop, split_by, caught, parse, Final, Splitter, ◌>>=◌, is_zero_ℤ, on_element, on_element_at,
  on_arr,
}
use redis_cerberus.Message.Reply.Visit.{parse-visit, drop-put, put_cons, inside, fits}
use redis_cerberus.Message.Reply.{
  put, put_all, depth, depth_all, IsReply, AreReplies, Reply, Replies, status, error, integer, bulk,
  nil_bulk, nil_array, array, none_left, more, count, width, width_all, visit, visit_all,
}

one_less : (n : ℕ) → pos (suc n) +ℤ negsuc 0 ≡ pos n
unfolding ◌+ℤ◌
one_less n = ground arith

pub suc_not_zero : (n : ℕ) → is_zero_ℤ (pos (suc n)) ≡ false
suc_not_zero n = ground arith

module _ {F : Type 0} (v : Final F) where
  -- What the errors inside a message that starts at `p` leave in the derived state.
  unfoldable mutual
    pub noted : ℕ → Reply → F → F
    noted p (error b) f = v.on_error (p + 1) (p + 1 + length b) f
    noted p (array rs) f = noted_all (p + (length (str (count rs)) + 3)) rs f
    noted p _ f = f

    pub noted_all : ℕ → Replies → F → F
    noted_all p none_left f = f
    noted_all p (more r rs) f = noted_all (p + width r) rs (noted p r f)

  -- The whole effect of a message.
  abbrev pub effect : ℕ → Reply → Splitter F → Splitter F
  effect p r s = on_element v (p + width r) (record s { final = noted p r s.final })

  -- The stack that the state holds is written anew.
  on_element_at-nested :
      (ts xs : List ℤ) (q : ℕ) (s : Splitter F)
      → on_element_at v ts q (record s { nested = xs }) ≡ on_element_at v ts q s
  unfolding on_element_at
  on_element_at-nested [] xs q s = refl
  on_element_at-nested (t ∷ ts) xs q s =
      ap
        (λ popped.
          if is_zero_ℤ (t +ℤ negsuc 0) then popped else record s { nested = (t +ℤ negsuc 0) ∷ ts })
        (on_element_at-nested ts xs q s)

  -- An element of an open array.
  pub on_element-last :
      (q : ℕ) (ts : List ℤ) (s : Splitter F)
      → on_element v q (record s { nested = pos 1 ∷ ts })
        ≡ on_element v q (record s { nested = ts })
  unfolding on_element
  on_element-last q ts s =
      rw (one_less 0)
        (on_element_at-nested ts (pos 1 ∷ ts) q s ∙ sym (on_element_at-nested ts ts q s))

  pub on_element-more :
      (n q : ℕ) (ts : List ℤ) (s : Splitter F)
      → on_element v q (record s { nested = pos (suc (suc n)) ∷ ts })
        ≡ record s { nested = pos (suc n) ∷ ts }
  unfolding on_element
  on_element-more n q ts s = rw (one_less (suc n), suc_not_zero n)

  module _ (quiet_string : (b e : ℕ) (f : F) → v.on_string b e f ≡ ok f)
      (quiet_array : (n : ℤ) (st : List ℤ) (f : F) → v.on_array n st f ≡ ok f) where
    on_arr-none : (p : ℕ) (s : Splitter F) → on_arr v (pos 0) p s ≡ (ok tt, on_element v p s)
    unfolding on_arr
    on_arr-none p s = rw (quiet_array (pos 0) s.nested s.final)

    on_arr-some :
        (n p : ℕ) (s : Splitter F)
        → on_arr v (pos (suc n)) p s ≡ (ok tt, record s { nested = pos (suc n) ∷ s.nested })
    unfolding on_arr
    on_arr-some n p s = rw (quiet_array (pos (suc n)) s.nested s.final, suc_not_zero n)

    -- A message has one effect: an element ends, with the errors inside it noted.
    mutual
      unfolding visit noted width

      visit-effect : (r : Reply) (p : ℕ) (s : Splitter F) → visit v p r s ≡ (ok tt, effect p r s)
      visit-effect (status b) p s = rw (quiet_string (p + 1) (p + 1 + length b) s.final)
      visit-effect (error b) p s = refl
      visit-effect (integer true n) p s = refl
      visit-effect (integer false n) p s = refl
      visit-effect (bulk b) p s = rw (quiet_string (p + (length (str (length b)) + 3)) _ s.final)
      visit-effect nil_bulk p s = refl
      visit-effect nil_array p s = refl
      visit-effect (array none_left) p s =
          let head = length (str 0) + 3 in
          let place : p + (head + 0) ≡ p + head = omega arith in
          rw (on_arr-none (p + head) s, place)
      visit-effect (array (more r rs)) p s =
          let head = length (str (suc (count rs))) + 3 in
          let place : p + (head + (width r + width_all rs)) ≡ p + head + (width r + width_all rs) =
            omega arith in
          rw (on_arr-some (count rs) (p + head) s, place)
            (visit_all-effect (more r rs) (p + head) s.nested s (omega arith))

      -- The elements of an open array that waits for just these.
      visit_all-effect :
          (rs : Replies) (p : ℕ) (ts : List ℤ) (s : Splitter F)
          → 0 < count rs
          → visit_all v p rs (record s { nested = pos (count rs) ∷ ts }) ≡ (
            ok tt,
            on_element v
                (p + width_all rs)
                (record s { nested = ts; final = noted_all p rs s.final }),
          )
      visit_all-effect none_left p ts s h = absurd (omega arith)
      visit_all-effect (more r none_left) p ts s h =
          let place : p + (width r + 0) ≡ p + width r = omega arith in
          rw (visit-effect r p (record s { nested = pos 1 ∷ ts }), place)
            (ap (λ t. (ok tt, t))
              (on_element-last (p + width r) ts (record s { final = noted p r s.final })))
      visit_all-effect (more r (more r' rs)) p ts s h =
          let s' = record s { final = noted p r s.final } in
          let place : p + (width r + width_all (more r' rs))
              ≡ p + width r + width_all (more r' rs) =
            omega arith in
          rw
            (
              visit-effect r p (record s { nested = pos (suc (suc (count rs))) ∷ ts }),
              on_element-more (count rs) (p + width r) ts s',
              place,
            )
            (visit_all-effect (more r' rs) (p + width r) ts s' (omega arith))

    -- A message outside of every array is split off.
    effect_top :
        (r : Reply) (p : ℕ) (points : List ℕ) (f : F)
        → effect p r
            (record { interrupted = false; split_points = p ∷ points; nested = []; final = f })
          ≡ record {
            interrupted = false;
            split_points = (p + width r) ∷ p ∷ points;
            nested = [];
            final = v.on_split_point p (p + width r) (noted p r f);
          }
    unfolding on_element
    effect_top r p points f = refl

-- The split points behind messages that start at `p`, in front of older ones, the last one first.
abbrev pub ends_after : ℕ → Replies → List ℕ → List ℕ
ends_after p none_left points = points
ends_after p (more r rs) points = ends_after (p + width r) rs ((p + width r) ∷ points)

-- What the derived class holds behind these messages: its override of `on_split_point` is called
-- with the ends of each, after the errors inside it were noted.
abbrev pub finals : {F : Type 0} (v : Final F) → ℕ → Replies → F → F
finals v p none_left f = f
finals v p (more r rs) f =
    finals v (p + width r) rs (v.on_split_point p (p + width r) (noted v p r f))

module _ {F : Type 0} (v : Final F) (buf : Bytes) where
  pub split_loop-end :
      (d fuel p : ℕ) (s : Splitter F) → drop p buf ≡ [] → split_loop v buf d fuel p s ≡ (ok p, s)
  unfolding split_loop
  split_loop-end d zero p s e =
      let outside : ltb p (length buf) ≡ false = ground (arith, fits p buf [] [] e) in
      rw (outside, split_loop)
  split_loop-end d (suc fuel) p s e =
      let outside : ltb p (length buf) ≡ false = ground (arith, fits p buf [] [] e) in
      rw (outside, split_loop)

  pub split_loop-suc :
      (d fuel p : ℕ) (s : Splitter F)
      → ltb p (length buf) ≡ true
      → split_loop v buf d (suc fuel) p s ≡ (parse v buf d p >>= λ q. split_loop v buf d fuel q) s
  unfolding split_loop
  split_loop-suc d fuel p s h = rw (h, split_loop)

module _ {F : Type 0} (v : Final F) (quiet_string : (b e : ℕ) (f : F) → v.on_string b e f ≡ ok f)
    (quiet_array : (n : ℤ) (st : List ℤ) (f : F) → v.on_array n st f ≡ ok f) (buf : Bytes) where
  stop :
      (d fuel p : ℕ) (points : List ℕ) (f : F)
      → drop p buf ≡ []
      → split_loop v buf
          (suc d)
          fuel
          p
          (record { interrupted = false; split_points = p ∷ points; nested = []; final = f })
        ≡ (
          ok (p + 0),
          record { interrupted = false; split_points = p ∷ points; nested = []; final = f },
        )
  stop d fuel p points f e =
      let place : p + 0 ≡ p = omega arith in rw place (split_loop-end v buf (suc d) fuel p _ e)

  split_loop-put_all :
      (rs : Replies) (d fuel p : ℕ) (points : List ℕ) (f : F)
      → count rs ≤ fuel
      → depth_all rs ≤ d
      → AreReplies rs
      → drop p buf ≡ put_all rs []
      → split_loop v buf
          (suc d)
          fuel
          p
          (record { interrupted = false; split_points = p ∷ points; nested = []; final = f })
        ≡ (
          ok (p + width_all rs),
          record {
            interrupted = false;
            split_points = ends_after p rs (p ∷ points);
            nested = [];
            final = finals v p rs f;
          },
        )
  unfolding put width depth IsReply
  split_loop-put_all none_left d zero p points f h k w e = stop d zero p points f e
  split_loop-put_all none_left d (suc fuel) p points f h k w e = stop d (suc fuel) p points f e
  split_loop-put_all (more r rs) d zero p points f h k w e = absurd (omega arith)
  split_loop-put_all (more r rs) d (suc fuel) p points f h k w e =
      let (b, bs, c) = put_cons r (put_all rs []) in
      let place : p + (width r + width_all rs) ≡ p + width r + width_all rs = omega arith in
      let s : Splitter F = record {
        interrupted = false;
        split_points = p ∷ points;
        nested = [];
        final = f;
      } in
      split_loop-suc v buf (suc d) fuel p s (inside v buf p b bs (e ∙ c))
      ∙ rw
          (
            parse-visit v buf r d p (put_all rs []) s (omega arith) w.0 e,
            visit-effect v quiet_string quiet_array r p s,
            effect_top v quiet_string quiet_array r p points f,
            place,
          )
          (split_loop-put_all rs d fuel (p + width r) (p ∷ points) _ (omega arith) (omega arith) w.1
            (drop-put r buf p (put_all rs []) e))

  -- For a derived class whose `on_string` and `on_array` change nothing, splitting a buffer of whole
  -- messages ends outside of every array, is not interrupted, and has a split point behind each
  -- message; the derived state is that of the errors and split points in their order. It takes one
  -- round of the loop for each message, and a level more than arrays are nested.
  pub split_by-put_all :
      (rs : Replies) (d fuel : ℕ) (f : F)
      → count rs ≤ fuel
      → depth_all rs < d
      → AreReplies rs
      → buf ≡ put_all rs []
      → split_by v buf d fuel f
        ≡ ok (record {
          interrupted = false;
          split_points = ends_after 0 rs (0 ∷ []);
          nested = [];
          final = finals v 0 rs f;
        })
  unfolding split_by
  split_by-put_all rs d fuel f h k w e =
      let deep : suc (d - 1) ≡ d = omega arith in
      let run = split_loop-put_all rs (d - 1) fuel 0 [] f h (omega arith) w e in
      let run' = rw deep at run in ap (caught v buf) run'
