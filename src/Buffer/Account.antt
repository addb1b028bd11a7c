-- ===== src/Buffer/Account.antt =====
-- core/buffer.cpp: the bytes that `write_single` and `write_vec` handed to the socket and those that
-- are still pending, for one group of buffers.
use redis_cerberus.Prelude.{
  ℕ, zero, suc, ◌+◌, ◌-◌, ◌≤◌, ◌<◌, min, false, List, [], ◌∷◌, ◌++◌, append_assoc, append-nil,
  Bytes, length, take, drop, length-append, length-drop, take-append-drop, drop-drop, ltb, leb,
  ◌==◌, Bool-cases, inl, inr, ◌≡◌, refl, sym, ap, subst, ◌∙◌, arith,
}
use redis_cerberus.Command.Group.{concat}
use redis_cerberus.Buffer.{
  Answer, room, eagain, fails, Status, complete, later, threw, exhausted, Written, behind,
  write_single, pass, vec_loop,
}

-- The bytes that are still to be written.
unfoldable pub pending : List Bytes → ℕ → Bytes
pending [] offset = []
pending (b ∷ bufs) offset = drop offset b ++ concat bufs

drop_all : (n : ℕ) (xs : Bytes) → length xs ≤ n → drop n xs ≡ []
drop_all zero [] h = refl
drop_all zero (x ∷ xs) h = absurd (omega arith)
drop_all (suc n) [] h = refl
drop_all (suc n) (x ∷ xs) h = drop_all n xs (omega arith)

drop-append_in : (n : ℕ) (xs ys : Bytes) → n ≤ length xs → drop n (xs ++ ys) ≡ drop n xs ++ ys
drop-append_in zero xs ys h = refl
drop-append_in (suc n) [] ys h = absurd (omega arith)
drop-append_in (suc n) (x ∷ xs) ys h = drop-append_in n xs ys (omega arith)

drop-append_past :
    (n : ℕ) (xs ys : Bytes) → length xs ≤ n → drop n (xs ++ ys) ≡ drop (n - length xs) ys
drop-append_past n [] ys h = let place : n - 0 ≡ n = omega arith in rw place refl
drop-append_past zero (x ∷ xs) ys h = absurd (omega arith)
drop-append_past (suc n) (x ∷ xs) ys h =
    let place : suc n - suc (length xs) ≡ n - length xs = omega arith in
    rw place (drop-append_past n xs ys (omega arith))

-- A queue that `count` buffers were dropped from.
drop-nonempty :
    (n : ℕ) (bufs : List Bytes) (b : Bytes) (bs : List Bytes)
    → drop n bufs ≡ b ∷ bs
    → n < length bufs
drop-nonempty n bufs b bs e =
    let size = length-drop n bufs in let one = ap length e in omega (arith, size, one)

unfoldable pub SettlesAt : List Bytes → Bytes → Status → ℕ → ℕ → Bytes → Type 0
SettlesAt bufs whole complete count offset sent = (sent ≡ whole) × (count ≡ length bufs)
SettlesAt bufs whole later count offset sent =
    (sent ++ pending (drop count bufs) offset ≡ whole) × (count < length bufs)
SettlesAt bufs whole threw count offset sent = Unit
SettlesAt bufs whole exhausted count offset sent = ⊥

abbrev pub Settles : List Bytes → Bytes → Written → Type 0
Settles bufs whole w = SettlesAt bufs whole w.status w.count w.offset w.sent

SettlesAt-behind :
    (bufs : List Bytes) (whole piece : Bytes) (st : Status) (count offset : ℕ) (sent : Bytes)
    → SettlesAt bufs whole st count offset sent
    → SettlesAt bufs (piece ++ whole) st count offset (piece ++ sent)
unfolding SettlesAt
SettlesAt-behind bufs whole piece complete count offset sent (e, c) = (ap (◌++◌ piece) e, c)
SettlesAt-behind bufs whole piece later count offset sent (e, c) =
    (append_assoc piece sent _ ∙ ap (◌++◌ piece) e, c)
SettlesAt-behind bufs whole piece threw count offset sent h = tt
SettlesAt-behind bufs whole piece exhausted count offset sent h = h

pub write_single-Settles :
    (b : Bytes) (offset : ℕ) (answers : List Answer)
    → Settles (b ∷ []) (drop offset b) (write_single b offset answers)
unfolding write_single SettlesAt pending concat
write_single-Settles b offset [] = elim (Bool-cases (ltb offset (length b))) [
  | inl t ↦ rw t (append-nil (drop offset b), omega arith)
  | inr t ↦ rw t (sym (drop_all offset b (ground arith)), refl)
]
write_single-Settles b offset (room k ∷ answers) = elim (Bool-cases (ltb offset (length b))) [
  | inl t ↦
      let n = min k (length b - offset) in
      let ih = write_single-Settles b (offset + n) answers in
      let rest = write_single b (offset + n) answers in
      let whole : take n (drop offset b) ++ drop (offset + n) b ≡ drop offset b =
        rw (← drop-drop offset n b) (take-append-drop n (drop offset b)) in
      rw t (
        subst (λ x. Settles (b ∷ []) x (behind (take n (drop offset b)) rest)) whole
          (SettlesAt-behind (b ∷ []) (drop (offset + n) b) (take n (drop offset b)) rest.status
            rest.count rest.offset rest.sent ih))
  | inr t ↦ rw t (sym (drop_all offset b (ground arith)), refl)
]
write_single-Settles b offset (eagain ∷ answers) = elim (Bool-cases (ltb offset (length b))) [
  | inl t ↦ rw t (append-nil (drop offset b), omega arith)
  | inr t ↦ rw t (sym (drop_all offset b (ground arith)), refl)
]
write_single-Settles b offset (fails ∷ answers) = elim (Bool-cases (ltb offset (length b))) [
  | inl t ↦ rw t tt
  | inr t ↦ rw t (sym (drop_all offset b (ground arith)), refl)
]

drop-next :
    (n : ℕ) (bufs : List Bytes) (b : Bytes) (bs : List Bytes)
    → drop n bufs ≡ b ∷ bs
    → drop (suc n) bufs ≡ bs
drop-next n bufs b bs e =
    let place : n + 1 ≡ suc n = omega arith in rw (← place, ← drop-drop n 1 bufs, e) refl

pass-pending :
    (bufs : List Bytes) (b : Bytes) (bs : List Bytes) (n written offset : ℕ)
    → drop written bufs ≡ b ∷ bs
    → n < length (drop offset b ++ concat bs)
    → (b' : Bytes) × (bs' : List Bytes) × (written' : ℕ) × (offset' : ℕ) × (pass
          (drop offset b ∷ bs)
          n
          written
          offset
        ≡ (drop offset' b' ∷ bs', written', offset'))
      × (drop written' bufs ≡ b' ∷ bs')
      × (drop offset' b' ++ concat bs' ≡ drop n (drop offset b ++ concat bs))
unfolding pass concat
pass-pending bufs b [] n written offset e h =
    let size = length-append (drop offset b) [] in
    let short : leb (length (drop offset b)) n ≡ false = ground (arith, size) in
    let cut = drop-append_in n (drop offset b) [] (omega (arith, size)) in
    (
      b,
      [],
      written,
      offset + n,
      rw (short, drop-drop offset n b) refl,
      e,
      rw (cut, drop-drop offset n b) refl,
    )
pass-pending bufs b (c ∷ bs) n written offset e h =
    elim (Bool-cases (leb (length (drop offset b)) n)) [
      | inl t ↦
          let size = length-append (drop offset b) (c ++ concat bs) in
          let long : length (drop offset b) ≤ n = ground arith in
          let (b', bs', written', offset', same, place, left) =
            pass-pending bufs c bs (n - length (drop offset b)) (suc written) 0
              (drop-next written bufs b (c ∷ bs) e) (omega (arith, size)) in
          (
            b',
            bs',
            written',
            offset',
            rw t same,
            place,
            left ∙ sym (drop-append_past n (drop offset b) (c ++ concat bs) long),
          )
      | inr t ↦
          let short : n ≤ length (drop offset b) = ground arith in
          let cut = drop-append_in n (drop offset b) (c ++ concat bs) short in
          (
            b,
            c ∷ bs,
            written,
            offset + n,
            rw (t, drop-drop offset n b) refl,
            e,
            rw (cut, drop-drop offset n b) refl,
          )
    ]

pub vec_loop-Settles :
    (bufs : List Bytes) (b : Bytes) (bs : List Bytes) (total written offset : ℕ)
    (answers : List Answer)
    → drop written bufs ≡ b ∷ bs
    → total ≡ length (drop offset b ++ concat bs)
    → Settles bufs
        (drop offset b ++ concat bs)
        (vec_loop (length bufs) (drop offset b ∷ bs) total written offset answers)
unfolding vec_loop SettlesAt pending concat
vec_loop-Settles bufs b bs total written offset [] e h =
    (rw e refl, drop-nonempty written bufs b bs e)
vec_loop-Settles bufs b bs total written offset (fails ∷ answers) e h = tt
vec_loop-Settles bufs b bs total written offset (eagain ∷ answers) e h =
    (rw e refl, drop-nonempty written bufs b bs e)
vec_loop-Settles bufs b bs total written offset (room k ∷ answers) e h =
    let n = min k total in
    let whole = drop offset b ++ concat bs in
    elim (Bool-cases (n == total)) [
      | inl t ↦ rw t (refl, refl)
      | inr t ↦ elim (Bool-cases (n == 0)) [
        | inl u ↦ rw (t, u) (rw e refl, drop-nonempty written bufs b bs e)
        | inr u ↦
            let (b', bs', written', offset', same, place, left) =
              pass-pending bufs b bs n written offset e (ground arith) in
            let rest =
              vec_loop (length bufs) (drop offset' b' ∷ bs') (total - n) written' offset' answers in
            let size = length-drop n whole in
            let ih =
              vec_loop-Settles bufs b' bs' (total - n) written' offset' answers place
                (omega (arith, size, ap length left)) in
            let joined : take n whole ++ (drop offset' b' ++ concat bs') ≡ whole =
              rw left (take-append-drop n whole) in
            rw (t, u, same)
              (subst (λ x. Settles bufs x (behind (take n whole) rest)) joined
                (SettlesAt-behind bufs (drop offset' b' ++ concat bs') (take n whole) rest.status
                  rest.count rest.offset rest.sent ih))
      ]
    ]
