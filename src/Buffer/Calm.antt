-- ===== src/Buffer/Calm.antt =====
-- core/buffer.cpp: `BufferSet::writev` throws only where a system call failed.
use redis_cerberus.Prelude.{
  ℕ, zero, suc, ◌+◌, ◌-◌, min, List, [], ◌∷◌, Bytes, length, take, drop, ltb, ◌==◌, if-both,
}
use redis_cerberus.Buffer.{
  Answer, room, eagain, fails, Status, complete, later, threw, exhausted, Written, Writing,
  write_single, pass, vec_loop, write_vec, next_group_to_write, after_vec, writev,
}

-- No system call fails; there may be no room.
unfoldable pub NoFails : List Answer → Type 0
NoFails [] = Unit
NoFails (room k ∷ answers) = NoFails answers
NoFails (eagain ∷ answers) = NoFails answers
NoFails (fails ∷ answers) = ⊥

unfoldable pub IsCalm : Status → Type 0
IsCalm threw = ⊥
IsCalm complete = Unit
IsCalm later = Unit
IsCalm exhausted = Unit

abbrev Calm : Written → Type 0
Calm w = IsCalm w.status × NoFails w.answers

write_single-Calm :
    (b : Bytes) (offset : ℕ) (answers : List Answer)
    → NoFails answers
    → Calm (write_single b offset answers)
unfolding write_single NoFails IsCalm
write_single-Calm b offset [] h = if-both Calm (ltb offset (length b)) _ _ (tt, tt) (tt, tt)
write_single-Calm b offset (room k ∷ answers) h =
    if-both Calm (ltb offset (length b)) _ _
      (write_single-Calm b (offset + min k (length b - offset)) answers h) (tt, h)
write_single-Calm b offset (eagain ∷ answers) h =
    if-both Calm (ltb offset (length b)) _ _ (tt, h) (tt, h)
write_single-Calm b offset (fails ∷ answers) h = absurd h

vec_loop-Calm :
    (iovcnt : ℕ) (iov : List Bytes) (total written offset : ℕ) (answers : List Answer)
    → NoFails answers
    → Calm (vec_loop iovcnt iov total written offset answers)
unfolding vec_loop NoFails IsCalm
vec_loop-Calm iovcnt iov total written offset [] h = (tt, tt)
vec_loop-Calm iovcnt iov total written offset (room k ∷ answers) h =
    let n = min k total in
    let p = pass iov n written offset in
    if-both Calm (n == total) _ _ (tt, h)
      (if-both Calm (n == 0) _ _ (tt, h) (vec_loop-Calm iovcnt p.0 (total - n) p.1 p.2 answers h))
vec_loop-Calm iovcnt iov total written offset (eagain ∷ answers) h = (tt, h)
vec_loop-Calm iovcnt iov total written offset (fails ∷ answers) h = absurd h

write_vec-Calm :
    (bufs : List Bytes) (total offset : ℕ) (answers : List Answer)
    → NoFails answers
    → Calm (write_vec bufs total offset answers)
unfolding write_vec IsCalm
write_vec-Calm [] total offset answers h = (tt, h)
write_vec-Calm (b ∷ []) total offset answers h = write_single-Calm b offset answers h
write_vec-Calm (b ∷ c ∷ iov) total offset answers h =
    vec_loop-Calm (length (b ∷ c ∷ iov)) (drop offset b ∷ c ∷ iov) total 0 offset answers h

after_vec-IsCalm :
    (n : ℕ) (bufs : List Bytes) (w : Written) (rest : Writing) (st : Status)
    → IsCalm st
    → IsCalm rest.status
    → IsCalm (after_vec n bufs w rest st).status
unfolding after_vec IsCalm
after_vec-IsCalm n bufs w rest complete h k =
    if-both (λ (x : Writing). IsCalm x.status) (ltb w.count n) _ _ tt k
after_vec-IsCalm n bufs w rest later h k =
    if-both (λ (x : Writing). IsCalm x.status) (ltb w.count n) _ _ tt k
after_vec-IsCalm n bufs w rest threw h k = absurd h
after_vec-IsCalm n bufs w rest exhausted h k = tt

pub writev-IsCalm :
    (iov_max fuel : ℕ) (bufs : List Bytes) (offset : ℕ) (answers : List Answer)
    → NoFails answers
    → IsCalm (writev iov_max fuel bufs offset answers).status
unfolding writev IsCalm
writev-IsCalm iov_max fuel [] offset answers h = tt
writev-IsCalm iov_max zero (b ∷ bufs) offset answers h = tt
writev-IsCalm iov_max (suc fuel) (b ∷ bufs) offset answers h =
    let x = next_group_to_write iov_max b bufs offset in
    let w = write_vec (take x.0 (b ∷ bufs)) x.1 offset answers in
    let (calm, rest) = write_vec-Calm (take x.0 (b ∷ bufs)) x.1 offset answers h in
    after_vec-IsCalm x.0 (b ∷ bufs) w (writev iov_max fuel (drop w.count (b ∷ bufs)) 0 w.answers)
      w.status calm (writev-IsCalm iov_max fuel (drop w.count (b ∷ bufs)) 0 w.answers rest)
