-- ===== src/Message/Reply/Visit.antt =====
-- core/message.hpp: `parse` over the written bytes of a message.
use redis_cerberus.Prelude.{
  ℕ, suc, ◌+◌, ◌-◌, length-append, ◌≤◌, ◌<◌, Bool, true, false, [], ◌∷◌, ◌++◌, Bytes, length, drop,
  drop_past, length-drop, ltb, ◌==◌, ◌≡◌, refl, sym, ap, ◌∙◌, arith,
}
use redis_cerberus.Prelude.Int.{ℤ, neg, pos, ◌+ℤ◌}
use redis_cerberus.Text.Decimal.{str}
use redis_cerberus.Message.Number.{btou-str, btoi-str, btoi-minus_str, is_minus-str}
use redis_cerberus.Message.Outcome.{
  Outcome, ok, message_interrupted, bad_redis_message, fault, exhausted,
}
use redis_cerberus.Message.Scan.{btoi, parse_simple_str, parse_str, pass_nil, simple_str_from}
use redis_cerberus.Message.Splitter.{
  Final, Splitter, Method, after, ◌>>=◌, before_cr_lf, call_on_string, on_element, on_arr, on_sstr,
  on_lstr, on_err, on_nil, on_int, elements, parse,
}
use redis_cerberus.Message.Reply.{
  Reply, Replies, status, error, integer, bulk, nil_bulk, nil_array, array, none_left, more, count,
  crlf, put, put_all, width, width_all, IsLine, IsReply, AreReplies, depth, depth_all, visit,
  visit_all, element_end,
}

-- The scans of one line or text, each from the bytes that stand at `p`.
simple_str_from-line :
    (b rest : Bytes) (p : ℕ) → IsLine b → simple_str_from p (b ++ crlf rest) ≡ ok (p + length b + 2)
unfolding simple_str_from
simple_str_from-line [] rest p h = ap ok {x = p + 1 + 1} {y = p + 0 + 2} (omega arith)
simple_str_from-line (c ∷ cs) rest p h =
    let no_cr : (c == b'\r') ≡ false = ground arith in
    let place : p + 1 + length cs + 2 ≡ p + suc (length cs) + 2 = omega arith in
    rw no_cr (simple_str_from-line cs rest (p + 1) h.1 ∙ rw place)

before_cr_lf-add : (p : ℕ) → before_cr_lf (p + 2) ≡ ok p
before_cr_lf-add p = ground arith

-- What stands at `p` lies inside the buffer.
pub fits :
    (p : ℕ) (buf b rest : Bytes) → drop p buf ≡ b ++ rest → length b + length rest ≡ length buf - p
fits p buf b rest e = omega (arith, length-append b rest, length-drop p buf, ap length e)

module _ {F : Type 0} (v : Final F) (buf : Bytes) where
  abbrev element : ℕ → Method F ℕ
  element q s = (ok q, on_element v q s)

  on_sstr-line :
      (p : ℕ) (b rest : Bytes) (s : Splitter F)
      → IsLine b
      → drop p buf ≡ b ++ crlf rest
      → on_sstr v buf p s
        ≡ (call_on_string v p (p + length b) >>= λ _. element (p + length b + 2)) s
  unfolding on_sstr parse_simple_str
  on_sstr-line p b rest s h e =
      rw (e, simple_str_from-line b rest p h, before_cr_lf-add (p + length b))

  on_err-line :
      (p : ℕ) (b rest : Bytes) (s : Splitter F)
      → IsLine b
      → drop p buf ≡ b ++ crlf rest
      → on_err v buf p s
        ≡ element (p + length b + 2) (record s { final = v.on_error p (p + length b) s.final })
  unfolding on_err parse_simple_str
  on_err-line p b rest s h e =
      rw (e, simple_str_from-line b rest p h, before_cr_lf-add (p + length b))

  parse_str-text :
      (p : ℕ) (b rest : Bytes)
      → drop p buf ≡ b ++ crlf rest
      → parse_str buf (pos (length b)) p ≡ ok (p + length b + 2)
  unfolding parse_str ◌+ℤ◌
  parse_str-text p b rest e =
      let room : length b + suc (suc (length rest)) ≡ length buf - p = fits p buf b (crlf rest) e in
      ground arith

  on_lstr-text :
      (p : ℕ) (b rest : Bytes) (s : Splitter F)
      → drop p buf ≡ b ++ crlf rest
      → on_lstr v buf (pos (length b)) p s
        ≡ (call_on_string v p (p + length b) >>= λ _. element (p + length b + 2)) s
  unfolding on_lstr
  on_lstr-text p b rest s e = rw (parse_str-text p b rest e, before_cr_lf-add (p + length b))

  pass_nil-minus :
      (p : ℕ) (rest : Bytes) → drop p buf ≡ b'1' ∷ crlf rest → pass_nil buf p ≡ ok (p + 3)
  unfolding pass_nil
  pass_nil-minus p rest e = let place : p + 1 + 1 + 1 ≡ p + 3 = omega arith in rw e (ap ok place)

pub line_past :
    (buf : Bytes) (p w : ℕ) (xs rest : Bytes)
    → length xs + 2 ≡ w
    → drop p buf ≡ xs ++ crlf rest
    → drop (p + w) buf ≡ rest
line_past buf p w xs rest n e =
    let place : p + length xs + 2 ≡ p + w = omega arith in
    rw (← place)
      (drop_past (p + length xs) buf (b'\r' ∷ b'\n' ∷ []) rest (drop_past p buf xs (crlf rest) e))

-- Behind a message stands what was written behind it.
mutual
  unfolding put width

  pub drop-put :
      (r : Reply) (buf : Bytes) (p : ℕ) (rest : Bytes)
      → drop p buf ≡ put r rest
      → drop (p + width r) buf ≡ rest
  drop-put (status b) buf p rest = line_past buf p _ (b'+' ∷ b) rest (omega arith)
  drop-put (error b) buf p rest = line_past buf p _ (b'-' ∷ b) rest (omega arith)
  drop-put (integer true n) buf p rest = line_past buf p _ (b':' ∷ b'-' ∷ str n) rest (omega arith)
  drop-put (integer false n) buf p rest = line_past buf p _ (b':' ∷ str n) rest (omega arith)
  drop-put (bulk b) buf p rest = λ e.
      let head = length (str (length b)) + 3 in
      let place : p + head + (length b + 2) ≡ p + (head + (length b + 2)) = omega arith in
      rw (← place) (
        line_past buf (p + head) _ b rest refl
          (line_past buf p head (b'$' ∷ str (length b)) (b ++ crlf rest) (omega arith) e))
  drop-put nil_bulk buf p rest = line_past buf p 5 (b'$' ∷ b'-' ∷ b'1' ∷ []) rest (omega arith)
  drop-put nil_array buf p rest = line_past buf p 5 (b'*' ∷ b'-' ∷ b'1' ∷ []) rest (omega arith)
  drop-put (array rs) buf p rest = λ e.
      let head = length (str (count rs)) + 3 in
      let place : p + head + width_all rs ≡ p + (head + width_all rs) = omega arith in
      rw (← place) (
        drop-put_all rs buf (p + head) rest
          (line_past buf p head (b'*' ∷ str (count rs)) (put_all rs rest) (omega arith) e))

  pub drop-put_all :
      (rs : Replies) (buf : Bytes) (p : ℕ) (rest : Bytes)
      → drop p buf ≡ put_all rs rest
      → drop (p + width_all rs) buf ≡ rest
  drop-put_all none_left buf p rest = λ e. let place : p + 0 ≡ p = omega arith in rw place e
  drop-put_all (more r rs) buf p rest = λ e.
      let place : p + width r + width_all rs ≡ p + (width r + width_all rs) = omega arith in
      rw (← place) (drop-put_all rs buf (p + width r) rest (drop-put r buf p (put_all rs rest) e))

-- A message takes at least one byte.
pub put_cons : (r : Reply) (rest : Bytes) → (b : ℕ) × (bs : Bytes) × (put r rest ≡ b ∷ bs)
unfolding put
put_cons (status b) rest = (_, _, refl)
put_cons (error b) rest = (_, _, refl)
put_cons (integer true n) rest = (_, _, refl)
put_cons (integer false n) rest = (_, _, refl)
put_cons (bulk b) rest = (_, _, refl)
put_cons nil_bulk rest = (_, _, refl)
put_cons nil_array rest = (_, _, refl)
put_cons (array rs) rest = (_, _, refl)

module _ {F : Type 0} (v : Final F) (buf : Bytes) where
  -- The position that `parse` returns behind the events.
  abbrev pub ends : ℕ → Unit {0} → Method F ℕ
  ends q _ s = (ok q, s)

  after-element :
      (x : Outcome (Unit {0}) × Splitter F) (q : ℕ)
      → after x (λ _. element v buf q) ≡ after (after x (λ _. element_end v q)) (ends q)
  after-element (ok _, s) q = refl
  after-element (message_interrupted, s) q = refl
  after-element (bad_redis_message, s) q = refl
  after-element (fault, s) q = refl
  after-element (exhausted, s) q = refl

  after-after :
      {A B C : Type 0} (x : Outcome A × Splitter F) (f : A → Method F B) (g : B → Method F C)
      → after (after x f) g ≡ after x (λ a. f a >>= g)
  after-after (ok _, s) f g = refl
  after-after (message_interrupted, s) f g = refl
  after-after (bad_redis_message, s) f g = refl
  after-after (fault, s) f g = refl
  after-after (exhausted, s) f g = refl

  text_before :
      (p q begin last : ℕ) (r : Reply) (s : Splitter F)
      → q ≡ p + width r
      → (call_on_string v begin last >>= λ _. element v buf q) s
        ≡ after
            ((call_on_string v begin last >>= λ _. element_end v (p + width r)) s)
            (ends (p + width r))
  text_before p q begin last r s e =
      rw e (after-element (call_on_string v begin last s) (p + width r))

  one_on : (p : ℕ) (b : ℕ) (rest : Bytes) → drop p buf ≡ b ∷ rest → drop (p + 1) buf ≡ rest
  one_on p b rest = drop_past p buf (b ∷ []) rest

  two_on :
      (p : ℕ) (b c : ℕ) (rest : Bytes) → drop p buf ≡ b ∷ c ∷ rest → drop (p + 1 + 1) buf ≡ rest
  two_on p b c rest e = one_on (p + 1) c rest (one_on p b (c ∷ rest) e)

  parse-status :
      (f p : ℕ) (b rest : Bytes) (s : Splitter F)
      → IsLine b
      → drop p buf ≡ put (status b) rest
      → parse v buf (suc f) p s ≡ (visit v p (status b) >>= ends (p + width (status b))) s
  unfolding parse put width visit
  parse-status f p b rest s h e = rw e (
      on_sstr-line v buf (p + 1) b rest s h (one_on p b'+' _ e)
      ∙ text_before p _ _ _ (status b) s (omega arith))

  parse-error :
      (f p : ℕ) (b rest : Bytes) (s : Splitter F)
      → IsLine b
      → drop p buf ≡ put (error b) rest
      → parse v buf (suc f) p s ≡ (visit v p (error b) >>= ends (p + width (error b))) s
  unfolding parse put width visit
  parse-error f p b rest s h e =
      let place : p + 1 + length b + 2 ≡ p + (length b + 3) = omega arith in
      rw e (on_err-line v buf (p + 1) b rest s h (one_on p b'-' _ e) ∙ rw place)

  parse-bulk :
      (f p : ℕ) (b rest : Bytes) (s : Splitter F)
      → drop p buf ≡ put (bulk b) rest
      → parse v buf (suc f) p s ≡ (visit v p (bulk b) >>= ends (p + width (bulk b))) s
  unfolding parse put width visit
  parse-bulk f p b rest s e =
      let head = length (str (length b)) + 3 in
      let begin : p + 1 + length (str (length b)) + 2 ≡ p + head = omega arith in
      rw
        (
          e,
          is_minus-str (length b) (crlf (b ++ crlf rest)),
          btou-str buf (p + 1) (length b) (b ++ crlf rest) (one_on p b'$' _ e),
          begin,
        )
        (on_lstr-text v buf (p + head) b rest s
            (line_past buf p head (b'$' ∷ str (length b)) (b ++ crlf rest) (omega arith) e)
          ∙ text_before p _ _ _ (bulk b) s (omega arith))

  parse-nil_bulk :
      (f p : ℕ) (rest : Bytes) (s : Splitter F)
      → drop p buf ≡ put nil_bulk rest
      → parse v buf (suc f) p s ≡ (visit v p nil_bulk >>= ends (p + width nil_bulk)) s
  unfolding parse put width visit on_nil on_element
  parse-nil_bulk f p rest s e =
      let place : p + 1 + 1 + 3 ≡ p + 5 = omega arith in
      rw (e, pass_nil-minus v buf (p + 1 + 1) rest (two_on p b'$' b'-' _ e), place)

  parse-nil_array :
      (f p : ℕ) (rest : Bytes) (s : Splitter F)
      → drop p buf ≡ put nil_array rest
      → parse v buf (suc f) p s ≡ (visit v p nil_array >>= ends (p + width nil_array)) s
  unfolding parse put width visit on_nil on_element
  parse-nil_array f p rest s e =
      let place : p + 1 + 1 + 3 ≡ p + 5 = omega arith in
      rw (e, pass_nil-minus v buf (p + 1 + 1) rest (two_on p b'*' b'-' _ e), place)

  btoi-integer :
      (m : Bool) (n p : ℕ) (rest : Bytes)
      → drop p buf ≡ put (integer m n) rest
      → (i : ℤ) × (btoi buf (p + 1) ≡ ok (i, p + width (integer m n)))
  unfolding put width
  btoi-integer true n p rest e =
      let place : p + 1 + 1 + length (str n) + 2 ≡ p + (length (str n) + 4) = omega arith in
      (neg (pos n), btoi-minus_str buf (p + 1) n rest (one_on p b':' _ e) ∙ rw place)
  btoi-integer false n p rest e =
      let place : p + 1 + length (str n) + 2 ≡ p + (length (str n) + 3) = omega arith in
      (pos n, btoi-str buf (p + 1) n rest (one_on p b':' _ e) ∙ rw place)

  put-integer :
      (m : Bool) (n : ℕ) (rest : Bytes) → (bs : Bytes) × (put (integer m n) rest ≡ b':' ∷ bs)
  unfolding put
  put-integer true n rest = (_, refl)
  put-integer false n rest = (_, refl)

  parse-integer :
      (f p : ℕ) (m : Bool) (n : ℕ) (rest : Bytes) (s : Splitter F)
      → drop p buf ≡ put (integer m n) rest
      → parse v buf (suc f) p s ≡ (visit v p (integer m n) >>= ends (p + width (integer m n))) s
  unfolding parse visit on_int on_element
  parse-integer f p m n rest s e =
      let (bs, first) = put-integer m n rest in
      let (i, scan) = btoi-integer m n p rest e in rw (e ∙ first, scan)

  -- Inside the buffer the loop over the elements goes on.
  pub inside : (p b : ℕ) (bs : Bytes) → drop p buf ≡ b ∷ bs → ltb p (length buf) ≡ true
  inside p b bs e = let room = fits p buf (b ∷ []) bs e in ground arith

  -- The scan of an array's elements, from the scan of its head.
  parse-array :
      (f p : ℕ) (rs : Replies) (rest : Bytes) (s : Splitter F)
      → drop p buf ≡ put (array rs) rest
      → parse v buf (suc f) p s
        ≡ (on_arr v (pos (count rs)) (p + (length (str (count rs)) + 3)) >>= λ _.
              elements v buf (parse v buf f) (count rs) (p + (length (str (count rs)) + 3)))
            s
  unfolding parse put
  parse-array f p rs rest s e =
      let head = length (str (count rs)) + 3 in
      let begin : p + 1 + length (str (count rs)) + 2 ≡ p + head = omega arith in
      rw (
        e,
        is_minus-str (count rs) (crlf (put_all rs rest)),
        btou-str buf (p + 1) (count rs) (put_all rs rest) (one_on p b'*' _ e),
        begin,
      )

  elements-suc :
      (go : ℕ → Method F ℕ) (n p : ℕ) (s : Splitter F)
      → ltb p (length buf) ≡ true
      → elements v buf go (suc n) p s ≡ (go p >>= λ q. elements v buf go n q) s
  unfolding elements
  elements-suc go n p s h = rw (h, elements)

  -- The first element, then the others.
  elements-more :
      (n f p : ℕ) (r : Reply) (rs : Replies) (rest : Bytes) (s : Splitter F)
      → parse v buf f p s ≡ (visit v p r >>= ends (p + width r)) s
      → drop p buf ≡ put r (put_all rs rest)
      → ((t : Splitter F)
          → elements v buf (parse v buf f) n (p + width r) t
            ≡ (visit_all v (p + width r) rs >>= ends (p + width r + width_all rs)) t)
      → elements v buf (parse v buf f) (suc n) p s
        ≡ (visit_all v p (more r rs) >>= ends (p + width_all (more r rs))) s
  unfolding visit width
  elements-more n f p r rs rest s first e others =
      let (b, bs, c) = put_cons r (put_all rs rest) in
      let place : p + (width r + width_all rs) ≡ p + width r + width_all rs = omega arith in
      elements-suc (parse v buf f) n p s (inside p b bs (e ∙ c))
      ∙ rw (first, place)
          (after-after (visit v p r s) (ends (p + width r))
              (λ q. elements v buf (parse v buf f) n q)
            ∙ ap (after (visit v p r s)) (λ i u t. others t i)
            ∙ sym (after-after (visit v p r s) _ _))

  elements-none_left :
      (go : ℕ → Method F ℕ) (p : ℕ) (s : Splitter F)
      → elements v buf go 0 p s ≡ (visit_all v p none_left >>= ends (p + width_all none_left)) s
  unfolding elements visit width
  elements-none_left go p s = let place : p + 0 ≡ p = omega arith in rw place

  array_from :
      (f p : ℕ) (rs : Replies) (rest : Bytes) (s : Splitter F)
      → 0 < f
      → drop p buf ≡ put (array rs) rest
      → ((t : Splitter F)
          → elements v buf
              (parse v buf (suc (f - 1)))
              (count rs)
              (p + (length (str (count rs)) + 3))
              t
            ≡ (visit_all v (p + (length (str (count rs)) + 3)) rs
                  >>= ends (p + (length (str (count rs)) + 3) + width_all rs))
                t)
      → parse v buf (suc f) p s ≡ (visit v p (array rs) >>= ends (p + width (array rs))) s
  unfolding visit width
  array_from f p rs rest s h e inner =
      let head = length (str (count rs)) + 3 in
      let fuel : suc (f - 1) ≡ f = omega arith in
      let place : p + (head + width_all rs) ≡ p + head + width_all rs = omega arith in
      let inner' = rw fuel at inner in
      parse-array f p rs rest s e
      ∙ rw place (
          ap (after (on_arr v (pos (count rs)) (p + head) s)) (λ i u t. inner' t i)
          ∙ sym (after-after (on_arr v (pos (count rs)) (p + head) s) _ _))

  mutual
    unfolding depth IsReply put

    parse-visit_step :
        (r : Reply) (f p : ℕ) (rest : Bytes) (s : Splitter F)
        → depth r ≤ f
        → IsReply r
        → drop p buf ≡ put r rest
        → parse v buf (suc f) p s ≡ (visit v p r >>= ends (p + width r)) s
    parse-visit_step (status b) f p rest s h w e = parse-status f p b rest s w e
    parse-visit_step (error b) f p rest s h w e = parse-error f p b rest s w e
    parse-visit_step (integer m n) f p rest s h w e = parse-integer f p m n rest s e
    parse-visit_step (bulk b) f p rest s h w e = parse-bulk f p b rest s e
    parse-visit_step nil_bulk f p rest s h w e = parse-nil_bulk f p rest s e
    parse-visit_step nil_array f p rest s h w e = parse-nil_array f p rest s e
    parse-visit_step (array rs) f p rest s h w e = array_from f p rs rest s (omega arith) e (λ t.
        elements-visit_all rs (f - 1) (p + (length (str (count rs)) + 3)) rest t (omega arith) w
          (line_past buf p _ (b'*' ∷ str (count rs)) (put_all rs rest) (omega arith) e))

    pub elements-visit_all :
        (rs : Replies) (f p : ℕ) (rest : Bytes) (s : Splitter F)
        → depth_all rs ≤ f
        → AreReplies rs
        → drop p buf ≡ put_all rs rest
        → elements v buf (parse v buf (suc f)) (count rs) p s
          ≡ (visit_all v p rs >>= ends (p + width_all rs)) s
    elements-visit_all none_left f p rest s h w e = elements-none_left _ p s
    elements-visit_all (more r rs) f p rest s h w e =
        elements-more (count rs) (suc f) p r rs rest s
          (parse-visit_step r f p (put_all rs rest) s (omega arith) w.0 e) e
          (λ t.
            elements-visit_all rs f (p + width r) rest t (omega arith) w.1
              (drop-put r buf p (put_all rs rest) e))

  -- Where the bytes of a message begin, `parse` makes the events of that message, in their order,
  -- and gives the position behind it, or ends as the first event that fails. The levels of
  -- recursion have to be more than its arrays are nested, and its lines hold no carriage return.
  pub parse-visit :
      (r : Reply) (f p : ℕ) (rest : Bytes) (s : Splitter F)
      → depth r ≤ f
      → IsReply r
      → drop p buf ≡ put r rest
      → parse v buf (suc f) p s ≡ (visit v p r >>= ends (p + width r)) s
  parse-visit r f p rest s h w e = parse-visit_step r f p rest s h w e
