-- ===== src/Buffer/Writev.antt =====
-- core/buffer.cpp: `next_group_to_write` and the loop of `BufferSet::writev` over the groups.
use redis_cerberus.Prelude.{
  ℕ, zero, suc, ◌+◌, ◌-◌, ◌≤◌, ◌<◌, true, false, List, [], ◌∷◌, ◌++◌, append_assoc, append-nil,
  Bytes, length, take, drop, length-append, length-drop, take-append-drop, drop-length_append,
  take-length_append, ltb, leb, ◌&&◌, Bool-cases, inl, inr, ◌≡◌, refl, sym, ap, subst, ◌∙◌, arith,
}
use redis_cerberus.Command.Group.{concat}
use redis_cerberus.Buffer.{
  Answer, Status, complete, later, threw, exhausted, Written, write_vec, group_from,
  next_group_to_write, BufferSet, Writing, after_vec, writev, writev_max_size,
}
use redis_cerberus.Buffer.Account.{
  pending, SettlesAt, Settles, write_single-Settles, vec_loop-Settles,
}

pub write_vec-Settles :
    (b : Bytes) (bs : List Bytes) (total offset : ℕ) (answers : List Answer)
    → total ≡ length (drop offset b ++ concat bs)
    → Settles (b ∷ bs) (drop offset b ++ concat bs) (write_vec (b ∷ bs) total offset answers)
unfolding write_vec concat
write_vec-Settles b [] total offset answers h =
    rw append-nil (write_single-Settles b offset answers)
write_vec-Settles b (c ∷ bs) total offset answers h =
    vec_loop-Settles (b ∷ c ∷ bs) b (c ∷ bs) total 0 offset answers refl h

-- A group is some of the buffers, and its size theirs.
group_from-takes :
    (iov_max : ℕ) (bufs : List Bytes) (i size : ℕ)
    → (m : ℕ) × (m ≤ length bufs)
      × (group_from iov_max bufs i size ≡ (i + m, size + length (concat (take m bufs))))
unfolding group_from concat
group_from-takes iov_max [] i size =
    let none : i + 0 ≡ i = omega arith in
    let same : size + 0 ≡ size = omega arith in (0, omega arith, rw (none, same) refl)
group_from-takes iov_max (b ∷ bufs) i size =
    let (m, fits, e) = group_from-takes iov_max bufs (suc i) (size + length b) in
    let here : i + 0 ≡ i = omega arith in
    let same : size + 0 ≡ size = omega arith in
    let one_more : suc i + m ≡ i + suc m = omega arith in
    let taken = length-append b (concat (take m bufs)) in
    let sum : size + length b + length (concat (take m bufs))
        ≡ size + length (b ++ concat (take m bufs)) =
      omega (arith, taken) in
    elim (Bool-cases (ltb i iov_max && leb (size + length b) writev_max_size)) [
      | inl t ↦ (suc m, omega arith, rw t (e ∙ rw (one_more, sum) refl))
      | inr t ↦ (0, omega arith, rw (t, here, same) refl)
    ]

pub concat-append : (xs ys : List Bytes) → concat (xs ++ ys) ≡ concat xs ++ concat ys
unfolding concat
concat-append [] ys = refl
concat-append (x ∷ xs) ys =
    ap (◌++◌ x) (concat-append xs ys) ∙ sym (append_assoc x (concat xs) (concat ys))

pub pending-zero : (bufs : List Bytes) → pending bufs 0 ≡ concat bufs
unfolding pending concat
pending-zero [] = refl
pending-zero (b ∷ bufs) = refl

pending-append :
    (xs ys : List Bytes) (n offset : ℕ)
    → n < length xs
    → pending (drop n (xs ++ ys)) offset ≡ pending (drop n xs) offset ++ concat ys
unfolding pending
pending-append [] ys n offset h = absurd (omega arith)
pending-append (x ∷ xs) ys zero offset h =
    ap (◌++◌ (drop offset x)) (concat-append xs ys)
    ∙ sym (append_assoc (drop offset x) (concat xs) (concat ys))
pending-append (x ∷ xs) ys (suc n) offset h = pending-append xs ys n offset (omega arith)

-- How a queue may be left, and what the socket took of the bytes that were pending.
unfoldable pub AccountsAt : Bytes → Status → BufferSet → Bytes → Type 0
AccountsAt whole complete left sent = (sent ≡ whole) × (left.buf_arr ≡ [])
AccountsAt whole later left sent =
    (sent ++ pending left.buf_arr left.first_offset ≡ whole) × (0 < length left.buf_arr)
AccountsAt whole threw left sent = Unit
AccountsAt whole exhausted left sent = ⊥

abbrev pub Accounts : Bytes → Writing → Type 0
Accounts whole w = AccountsAt whole w.status w.buffers w.sent

AccountsAt-behind :
    (whole piece : Bytes) (st : Status) (left : BufferSet) (sent : Bytes)
    → AccountsAt whole st left sent
    → AccountsAt (piece ++ whole) st left (piece ++ sent)
unfolding AccountsAt
AccountsAt-behind whole piece complete left sent (e, c) = (ap (◌++◌ piece) e, c)
AccountsAt-behind whole piece later left sent (e, c) =
    (append_assoc piece sent _ ∙ ap (◌++◌ piece) e, c)
AccountsAt-behind whole piece threw left sent h = tt
AccountsAt-behind whole piece exhausted left sent h = h

-- A call for the group `b ∷ bs` of a queue, whatever its status.
after_vec-Accounts :
    (b : Bytes) (bs others : List Bytes) (offset : ℕ) (w : Written) (rest : Writing) (st : Status)
    → SettlesAt (b ∷ bs) (drop offset b ++ concat bs) st w.count w.offset w.sent
    → (w.count ≡ suc (length bs) → Accounts (concat others) rest)
    → Accounts
        (pending (b ∷ bs ++ others) offset)
        (after_vec (suc (length bs)) (b ∷ bs ++ others) w rest st)
unfolding SettlesAt AccountsAt after_vec pending
after_vec-Accounts b bs others offset w rest complete (e, c) next =
    let every : ltb w.count (suc (length bs)) ≡ false = ground arith in
    let whole : w.sent ++ concat others ≡ drop offset b ++ concat (bs ++ others) =
      ap (λ x. x ++ concat others) e
      ∙ append_assoc (drop offset b) (concat bs) (concat others)
      ∙ ap (◌++◌ (drop offset b)) (sym (concat-append bs others)) in
    rw every (
      subst (λ x. Accounts x (record rest { sent = w.sent ++ rest.sent })) whole
        (AccountsAt-behind (concat others) w.sent rest.status rest.buffers rest.sent (next c)))
after_vec-Accounts b bs others offset w rest later (e, c) next =
    let some_left : ltb w.count (suc (length bs)) ≡ true = ground arith in
    let size = length-drop w.count (b ∷ bs ++ others) in
    let both = length-append bs others in
    let split = pending-append (b ∷ bs) others w.count w.offset c in
    let whole : w.sent ++ pending (drop w.count (b ∷ bs ++ others)) w.offset
        ≡ drop offset b ++ concat (bs ++ others) =
      ap (◌++◌ w.sent) split
      ∙ sym (append_assoc w.sent _ _)
      ∙ ap (λ x. x ++ concat others) e
      ∙ append_assoc (drop offset b) (concat bs) (concat others)
      ∙ ap (◌++◌ (drop offset b)) (sym (concat-append bs others)) in
    rw some_left (whole, omega (arith, size, both))
after_vec-Accounts b bs others offset w rest threw h next = tt
after_vec-Accounts b bs others offset w rest exhausted h next = h

pub next_group_to_write-takes :
    (iov_max : ℕ) (b : Bytes) (bufs : List Bytes) (offset : ℕ)
    → (bs : List Bytes) × (others : List Bytes) × (total : ℕ) × (bs ++ others ≡ bufs)
      × (next_group_to_write iov_max b (bs ++ others) offset ≡ (suc (length bs), total))
      × (total ≡ length (drop offset b ++ concat bs))
unfolding next_group_to_write
next_group_to_write-takes iov_max b bufs offset =
    let (m, fits, e) = group_from-takes iov_max bufs 1 (length b - offset) in
    let joined = take-append-drop m bufs in
    let both = length-append (take m bufs) (drop m bufs) in
    let left = length-drop m bufs in
    let taken : 1 + m ≡ suc (length (take m bufs)) =
      omega (arith, both, left, fits, ap length joined) in
    let first = length-drop offset b in
    let sum = length-append (drop offset b) (concat (take m bufs)) in
    (
      take m bufs,
      drop m bufs,
      length b - offset + length (concat (take m bufs)),
      joined,
      rw joined (e ∙ rw taken refl),
      omega (arith, first, sum),
    )

-- A round of the loop writes a group of the queue.
writev-round :
    (iov_max fuel : ℕ) (b : Bytes) (bs others : List Bytes) (total offset : ℕ)
    (answers : List Answer)
    → next_group_to_write iov_max b (bs ++ others) offset ≡ (suc (length bs), total)
    → total ≡ length (drop offset b ++ concat bs)
    → ((left : List Answer) → Accounts (concat others) (writev iov_max fuel others 0 left))
    → Accounts
        (pending (b ∷ bs ++ others) offset)
        (writev iov_max (suc fuel) (b ∷ bs ++ others) offset answers)
unfolding writev
writev-round iov_max fuel b bs others total offset answers group size next =
    let w = write_vec (b ∷ bs) total offset answers in
    let rest = writev iov_max fuel (drop w.count (b ∷ bs ++ others)) 0 w.answers in
    rw (group, take-length_append bs others)
      (after_vec-Accounts b bs others offset w rest w.status
        (write_vec-Settles b bs total offset answers size)
        (λ every. rw (every, drop-length_append bs others) (next w.answers)))

pub writev-Accounts :
    (iov_max fuel : ℕ) (bufs : List Bytes) (offset : ℕ) (answers : List Answer)
    → length bufs ≤ fuel
    → Accounts (pending bufs offset) (writev iov_max fuel bufs offset answers)
unfolding writev AccountsAt pending
writev-Accounts iov_max fuel [] offset answers h = (refl, refl)
writev-Accounts iov_max zero (b ∷ bufs) offset answers h = absurd (omega arith)
writev-Accounts iov_max (suc fuel) (b ∷ bufs) offset answers h =
    let (bs, others, total, joined, group, size) =
      next_group_to_write-takes iov_max b bufs offset in
    let both = length-append bs others in
    let few : length others ≤ fuel = omega (arith, both, ap length joined) in
    subst
      (λ x. Accounts (pending (b ∷ x) offset) (writev iov_max (suc fuel) (b ∷ x) offset answers))
      joined
      (writev-round iov_max fuel b bs others total offset answers group size (λ left.
        subst (λ x. Accounts x (writev iov_max fuel others 0 left)) (pending-zero others)
          (writev-Accounts iov_max fuel others 0 left few)))
