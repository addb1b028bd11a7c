-- ===== src/Buffer/Progress.antt =====
-- core/buffer.cpp: `BufferSet::writev` writes all where the socket takes some bytes at each call.
use redis_cerberus.Prelude.{
  ℕ, zero, suc, ◌+◌, ◌-◌, min, ◌≤◌, ◌<◌, false, List, [], ◌∷◌, ◌++◌, append-nil, Bytes, length,
  drop, length-append, length-drop, take-length_append, drop-length_append, ltb, ◌==◌, Bool-cases,
  inl, inr, ◌≡◌, refl, sym, ap, subst, arith,
}
use redis_cerberus.Buffer.{
  Answer, room, eagain, fails, complete, Written, Writing, write_single, pass, vec_loop, write_vec,
  next_group_to_write, after_vec, writev,
}
use redis_cerberus.Buffer.Account.{pending, SettlesAt, Settles}
use redis_cerberus.Buffer.Writev.{
  next_group_to_write-takes, write_vec-Settles, concat-append, pending-zero,
}
use redis_cerberus.Command.Group.{concat}

-- The socket takes a byte at least at each call.
unfoldable pub AllRoom : List Answer → Type 0
AllRoom [] = Unit
AllRoom (room k ∷ answers) = (0 < k) × AllRoom answers
AllRoom (eagain ∷ answers) = ⊥
AllRoom (fails ∷ answers) = ⊥

-- All is written, with so many calls at most.
abbrev Completes : ℕ → List Answer → Written → Type 0
Completes m answers w =
    (w.status ≡ complete) × AllRoom w.answers × (length answers ≤ length w.answers + m)

min-positive : (k n : ℕ) → 0 < k → 0 < n → 0 < min k n
min-positive k n h i = ground arith

write_single-Completes :
    (b : Bytes) (offset : ℕ) (answers : List Answer)
    → AllRoom answers
    → length b - offset ≤ length answers
    → Completes (length b - offset) answers (write_single b offset answers)
unfolding write_single AllRoom
write_single-Completes b offset [] h few = elim (Bool-cases (ltb offset (length b))) [
  | inl t ↦ absurd (ground arith)
  | inr t ↦ rw t (refl, tt, omega arith)
]
write_single-Completes b offset (room k ∷ answers) (h, hs) few =
    elim (Bool-cases (ltb offset (length b))) [
      | inl t ↦
          let n = min k (length b - offset) in
          let some_bytes : 0 < n = min-positive k (length b - offset) h (ground arith) in
          let (e, rs, used) = write_single-Completes b (offset + n) answers hs (omega arith) in
          rw t (e, rs, omega arith)
      | inr t ↦ rw t (refl, (h, hs), omega arith)
    ]
write_single-Completes b offset (eagain ∷ answers) h few = absurd h
write_single-Completes b offset (fails ∷ answers) h few = absurd h

vec_loop-Completes :
    (iovcnt : ℕ) (iov : List Bytes) (total written offset : ℕ) (answers : List Answer)
    → AllRoom answers
    → total < length answers
    → Completes (suc total) answers (vec_loop iovcnt iov total written offset answers)
unfolding vec_loop AllRoom
vec_loop-Completes iovcnt iov total written offset [] h few = absurd (omega arith)
vec_loop-Completes iovcnt iov total written offset (room k ∷ answers) (h, hs) few =
    let n = min k total in
    elim (Bool-cases (n == total)) [
      | inl t ↦ rw t (refl, hs, omega arith)
      | inr t ↦
          let left : 0 < total = ground arith in
          let some_bytes = min-positive k total h left in
          let goes : (n == 0) ≡ false = ground arith in
          let p = pass iov n written offset in
          let (e, rs, used) =
            vec_loop-Completes iovcnt p.0 (total - n) p.1 p.2 answers hs (omega arith) in
          rw (t, goes) (e, rs, omega arith)
    ]
vec_loop-Completes iovcnt iov total written offset (eagain ∷ answers) h few = absurd h
vec_loop-Completes iovcnt iov total written offset (fails ∷ answers) h few = absurd h

write_vec-Completes :
    (b : Bytes) (bs : List Bytes) (total offset : ℕ) (answers : List Answer)
    → total ≡ length (drop offset b ++ concat bs)
    → AllRoom answers
    → total < length answers
    → Completes (suc total) answers (write_vec (b ∷ bs) total offset answers)
unfolding write_vec concat
write_vec-Completes b [] total offset answers e h few =
    let size = length-drop offset b in
    let whole = ap length (append-nil (drop offset b)) in
    let (done, rs, used) = write_single-Completes b offset answers h (omega arith) in
    (done, rs, omega arith)
write_vec-Completes b (c ∷ iov) total offset answers e h few =
    vec_loop-Completes (length (b ∷ c ∷ iov)) (drop offset b ∷ c ∷ iov) total 0 offset answers h few

-- A group that was written whole, before the others.
after_vec-completes :
    (b : Bytes) (bs others : List Bytes) (whole : Bytes) (w : Written) (rest : Writing)
    → Settles (b ∷ bs) whole w
    → w.status ≡ complete
    → (w.count ≡ suc (length bs) → rest.status ≡ complete)
    → (after_vec (suc (length bs)) (b ∷ bs ++ others) w rest w.status).status ≡ complete
unfolding SettlesAt after_vec
after_vec-completes b bs others whole w rest settles e next =
    let (sent, count) =
      subst (λ st. SettlesAt (b ∷ bs) whole st w.count w.offset w.sent) e settles in
    let every : ltb w.count (suc (length bs)) ≡ false = ground arith in
    subst (λ st. (after_vec (suc (length bs)) (b ∷ bs ++ others) w rest st).status ≡ complete)
      (sym e) (rw every (next count))

writev-round :
    (iov_max fuel : ℕ) (b : Bytes) (bs others : List Bytes) (total offset : ℕ)
    (answers : List Answer)
    → next_group_to_write iov_max b (bs ++ others) offset ≡ (suc (length bs), total)
    → total ≡ length (drop offset b ++ concat bs)
    → AllRoom answers
    → total < length answers
    → ((left : List Answer)
        → AllRoom left
        → length answers ≤ length left + suc total
        → (writev iov_max fuel others 0 left).status ≡ complete)
    → (writev iov_max (suc fuel) (b ∷ bs ++ others) offset answers).status ≡ complete
unfolding writev
writev-round iov_max fuel b bs others total offset answers group size rs few next =
    let w = write_vec (b ∷ bs) total offset answers in
    let rest = writev iov_max fuel (drop w.count (b ∷ bs ++ others)) 0 w.answers in
    let (done, rooms, used) = write_vec-Completes b bs total offset answers size rs few in
    rw (group, take-length_append bs others)
      (after_vec-completes b bs others (drop offset b ++ concat bs) w rest
        (write_vec-Settles b bs total offset answers size) done
        (λ every. rw (every, drop-length_append bs others) (next w.answers rooms used)))

-- Where the socket takes a byte at least at each call, and there are as many calls as pending bytes and
-- buffers, `writev` returns true: all is written.
pub writev-complete :
    (iov_max fuel : ℕ) (bufs : List Bytes) (offset : ℕ) (answers : List Answer)
    → length bufs ≤ fuel
    → AllRoom answers
    → length (pending bufs offset) + length bufs ≤ length answers
    → (writev iov_max fuel bufs offset answers).status ≡ complete
unfolding writev pending
writev-complete iov_max fuel [] offset answers h rs few = refl
writev-complete iov_max zero (b ∷ bufs) offset answers h rs few = absurd (omega arith)
writev-complete iov_max (suc fuel) (b ∷ bufs) offset answers h rs few =
    let (bs, others, total, joined, group, size) =
      next_group_to_write-takes iov_max b bufs offset in
    let both = length-append bs others in
    let fewer : length others ≤ fuel = omega (arith, both, ap length joined) in
    let pieces = length-append (drop offset b) (concat bufs) in
    let group_pieces = length-append (drop offset b) (concat bs) in
    let sum = length-append (concat bs) (concat others) in
    let parts : length (concat bufs) ≡ length (concat (bs ++ others)) =
      ap (λ x. length (concat x)) (sym joined) in
    let cut = ap length (concat-append bs others) in
    let rest_pieces = ap length (pending-zero others) in
    let many = ap length joined in
    subst (λ x. (writev iov_max (suc fuel) (b ∷ x) offset answers).status ≡ complete) joined
      (writev-round iov_max fuel b bs others total offset answers group size rs (omega arith)
        (λ left rooms used. writev-complete iov_max fuel others 0 left fewer rooms (omega arith)))
