-- ===== src/Buffer/Offset.antt =====
-- core/buffer.cpp: the offset that `BufferSet::writev` leaves where all was written.
use redis_cerberus.Prelude.{
  ℕ, zero, suc, List, [], ◌∷◌, Bytes, drop, take, ltb, Bool-cases, inl, inr, ◌≡◌, refl,
}
use redis_cerberus.Buffer.{
  Answer, Status, complete, later, threw, exhausted, Written, BufferSet, Writing, after_vec, writev,
  write_vec, next_group_to_write,
}

-- An offset is kept only with the buffer that it is in.
abbrev pub IsKept : List Bytes → ℕ → Type 0
IsKept [] offset = offset ≡ 0
IsKept (b ∷ bufs) offset = Unit

unfoldable pub ResetAt : Status → BufferSet → Type 0
ResetAt complete left = left.first_offset ≡ 0
ResetAt later left = Unit
ResetAt threw left = Unit
ResetAt exhausted left = Unit

after_vec-ResetAt :
    (n : ℕ) (bufs : List Bytes) (w : Written) (rest : Writing) (st : Status)
    → ResetAt rest.status rest.buffers
    → ResetAt (after_vec n bufs w rest st).status (after_vec n bufs w rest st).buffers
unfolding after_vec ResetAt
after_vec-ResetAt n bufs w rest complete h = elim (Bool-cases (ltb w.count n)) [
  | inl t ↦ rw t tt
  | inr t ↦ rw t h
]
after_vec-ResetAt n bufs w rest later h = elim (Bool-cases (ltb w.count n)) [
  | inl t ↦ rw t tt
  | inr t ↦ rw t h
]
after_vec-ResetAt n bufs w rest threw h = tt
after_vec-ResetAt n bufs w rest exhausted h = tt

writev-ResetAt_zero :
    (iov_max fuel : ℕ) (bufs : List Bytes) (answers : List Answer)
    → ResetAt
        (writev iov_max fuel bufs 0 answers).status
        (writev iov_max fuel bufs 0 answers).buffers
unfolding writev ResetAt
writev-ResetAt_zero iov_max fuel [] answers = refl
writev-ResetAt_zero iov_max zero (b ∷ bufs) answers = tt
writev-ResetAt_zero iov_max (suc fuel) (b ∷ bufs) answers =
    let x = next_group_to_write iov_max b bufs 0 in
    let w = write_vec (take x.0 (b ∷ bufs)) x.1 0 answers in
    let rest = writev iov_max fuel (drop w.count (b ∷ bufs)) 0 w.answers in
    after_vec-ResetAt x.0 (b ∷ bufs) w rest w.status
      (writev-ResetAt_zero iov_max fuel (drop w.count (b ∷ bufs)) w.answers)

pub writev-ResetAt :
    (iov_max fuel : ℕ) (bufs : List Bytes) (offset : ℕ) (answers : List Answer)
    → IsKept bufs offset
    → ResetAt
        (writev iov_max fuel bufs offset answers).status
        (writev iov_max fuel bufs offset answers).buffers
unfolding writev ResetAt
writev-ResetAt iov_max fuel [] offset answers kept = kept
writev-ResetAt iov_max zero (b ∷ bufs) offset answers kept = tt
writev-ResetAt iov_max (suc fuel) (b ∷ bufs) offset answers kept =
    let x = next_group_to_write iov_max b bufs offset in
    let w = write_vec (take x.0 (b ∷ bufs)) x.1 offset answers in
    let rest = writev iov_max fuel (drop w.count (b ∷ bufs)) 0 w.answers in
    after_vec-ResetAt x.0 (b ∷ bufs) w rest w.status
      (writev-ResetAt_zero iov_max fuel (drop w.count (b ∷ bufs)) w.answers)
