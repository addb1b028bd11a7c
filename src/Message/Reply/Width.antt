-- ===== src/Message/Reply/Width.antt =====
-- The written bytes of a message: their number, and how they stand in front of others.
use redis_cerberus.Prelude.{
  suc, ◌+◌, ◌≤◌, true, false, ◌∷◌, ◌++◌, append_assoc, Bytes, length, length-append, ◌≡◌, refl, sym,
  ap, ◌∙◌, arith,
}
use redis_cerberus.Text.Decimal.{str}
use redis_cerberus.Message.Reply.{
  Reply, Replies, status, error, integer, bulk, nil_bulk, nil_array, array, none_left, more, count,
  crlf, put, put_all, width, width_all, depth, depth_all,
}

line_append : (b xs ys : Bytes) → b ++ crlf (xs ++ ys) ≡ (b ++ crlf xs) ++ ys
line_append b xs ys = sym (append_assoc b (crlf xs) ys)

mutual
  unfolding put

  pub put-append : (r : Reply) (xs ys : Bytes) → put r (xs ++ ys) ≡ put r xs ++ ys
  put-append (status b) xs ys = ap (◌∷◌ b'+') (line_append b xs ys)
  put-append (error b) xs ys = ap (◌∷◌ b'-') (line_append b xs ys)
  put-append (integer true n) xs ys = ap (λ t. b':' ∷ b'-' ∷ t) (line_append (str n) xs ys)
  put-append (integer false n) xs ys = ap (◌∷◌ b':') (line_append (str n) xs ys)
  put-append (bulk b) xs ys = ap (◌∷◌ b'$') (
      ap (λ t. str (length b) ++ crlf t) (line_append b xs ys)
      ∙ line_append (str (length b)) (b ++ crlf xs) ys)
  put-append nil_bulk xs ys = refl
  put-append nil_array xs ys = refl
  put-append (array rs) xs ys = ap (◌∷◌ b'*') (
      ap (λ t. str (count rs) ++ crlf t) (put_all-append rs xs ys)
      ∙ line_append (str (count rs)) (put_all rs xs) ys)

  put_all-append : (rs : Replies) (xs ys : Bytes) → put_all rs (xs ++ ys) ≡ put_all rs xs ++ ys
  put_all-append none_left xs ys = refl
  put_all-append (more r rs) xs ys =
      ap (put r) (put_all-append rs xs ys) ∙ put-append r (put_all rs xs) ys

mutual
  unfolding put width

  pub length-put : (r : Reply) (rest : Bytes) → length (put r rest) ≡ width r + length rest
  length-put (status b) rest = omega (arith, length-append b (crlf rest))
  length-put (error b) rest = omega (arith, length-append b (crlf rest))
  length-put (integer true n) rest = omega (arith, length-append (str n) (crlf rest))
  length-put (integer false n) rest = omega (arith, length-append (str n) (crlf rest))
  length-put (bulk b) rest =
      omega
        (arith, length-append (str (length b)) (crlf (b ++ crlf rest)), length-append b (crlf rest))
  length-put nil_bulk rest = omega arith
  length-put nil_array rest = omega arith
  length-put (array rs) rest =
      omega (arith, length-append (str (count rs)) (crlf (put_all rs rest)), length-put_all rs rest)

  pub length-put_all :
      (rs : Replies) (rest : Bytes) → length (put_all rs rest) ≡ width_all rs + length rest
  length-put_all none_left rest = omega arith
  length-put_all (more r rs) rest =
      omega (arith, length-put r (put_all rs rest), length-put_all rs rest)

-- Neither the number of messages nor their nesting is more than the bytes they take.
mutual
  unfolding width depth

  pub depth-le-width : (r : Reply) → suc (depth r) ≤ width r
  depth-le-width (array rs) = omega (arith, depth_all-le-width_all rs)
  depth-le-width (status b) = omega arith
  depth-le-width (error b) = omega arith
  depth-le-width (integer true n) = omega arith
  depth-le-width (integer false n) = omega arith
  depth-le-width (bulk b) = omega arith
  depth-le-width nil_bulk = omega arith
  depth-le-width nil_array = omega arith

  pub depth_all-le-width_all :
      (rs : Replies) → (depth_all rs ≤ width_all rs) × (count rs ≤ width_all rs)
  depth_all-le-width_all none_left = omega arith
  depth_all-le-width_all (more r rs) = omega (arith, depth-le-width r, depth_all-le-width_all rs)
