-- ===== src/Buffer/Flush/Ends.antt =====
-- core/buffer.cpp: `flush_mem` ends where the socket has room often enough.
use redis_cerberus.Prelude.{
  ℕ, zero, suc, ◌+◌, ◌-◌, ◌≤◌, min, true, false, List, [], ◌∷◌, ◌++◌, Bytes, length, take, drop,
  ltb, ◌≡◌, refl, ap, ◌∙◌, inl, inr, arith, Bool-cases, take-append-drop, drop-drop,
}
use redis_cerberus.Buffer.{Answer, room, eagain, fails, complete, exhausted}
use redis_cerberus.Buffer.Calm.{NoFails}
use redis_cerberus.Buffer.Flush.{Flushed, flush_from, flush_mem}

-- How often there is room for a byte at least.
abbrev pub rounds : List Answer → ℕ
rounds [] = 0
rounds (room zero ∷ answers) = rounds answers
rounds (room (suc k) ∷ answers) = suc (rounds answers)
rounds (eagain ∷ answers) = rounds answers
rounds (fails ∷ answers) = rounds answers

-- What is left at a position is nothing.
drop_all : (mem : Bytes) (n : ℕ) → ltb n (length mem) ≡ false → drop n mem ≡ []
drop_all [] zero h = refl
drop_all [] (suc n) h = refl
drop_all (b ∷ mem) zero h = absurd (ground arith)
drop_all (b ∷ mem) (suc n) h = drop_all mem n (ground arith)

-- All from a position on is written.
abbrev Writes : Bytes → ℕ → Flushed → Type 0
Writes mem n f = (f.status ≡ complete) × (f.sent ≡ drop n mem)

flush_from-done :
    (mem : Bytes) (n : ℕ) (answers : List Answer)
    → ltb n (length mem) ≡ false
    → Writes mem n (flush_from mem n answers)
unfolding flush_from
flush_from-done mem n [] h = rw (flush_from, h) (refl, rw (drop_all mem n h) refl)
flush_from-done mem n (room k ∷ answers) h = rw (flush_from, h) (refl, rw (drop_all mem n h) refl)
flush_from-done mem n (eagain ∷ answers) h = rw (flush_from, h) (refl, rw (drop_all mem n h) refl)
flush_from-done mem n (fails ∷ answers) h = rw (flush_from, h) (refl, rw (drop_all mem n h) refl)

taken : (w n : ℕ) (mem : Bytes) → take w (drop n mem) ++ drop (n + w) mem ≡ drop n mem
taken w n mem = rw (← drop-drop n w mem) (take-append-drop w (drop n mem))

flush_from-room :
    (mem : Bytes) (n k : ℕ) (answers : List Answer)
    → Writes mem (n + min k (length mem - n)) (flush_from mem (n + min k (length mem - n)) answers)
    → Writes mem n (flush_from mem n (room k ∷ answers))
unfolding flush_from
flush_from-room mem n k answers (done, sent) = elim (Bool-cases (ltb n (length mem))) [
  | inl t ↦
      (let w = min k (length mem - n) in
        rw (flush_from, t) (done, ap (◌++◌ (take w (drop n mem))) sent ∙ taken w n mem))
  | inr t ↦ flush_from-done mem n (room k ∷ answers) t
]

flush_from-Writes :
    (mem : Bytes) (n : ℕ) (answers : List Answer)
    → NoFails answers
    → length mem ≤ n + rounds answers
    → Writes mem n (flush_from mem n answers)
unfolding flush_from NoFails
flush_from-Writes mem n [] calm enough = flush_from-done mem n [] (ground arith)
flush_from-Writes mem n (room zero ∷ answers) calm enough =
    flush_from-room mem n zero answers
      (flush_from-Writes mem (n + min zero (length mem - n)) answers calm (ground arith))
flush_from-Writes mem n (room (suc k) ∷ answers) calm enough =
    elim (Bool-cases (ltb n (length mem))) [
      | inl t ↦
          flush_from-room mem n (suc k) answers
            (flush_from-Writes mem (n + min (suc k) (length mem - n)) answers calm (ground arith))
      | inr t ↦ flush_from-done mem n (room (suc k) ∷ answers) t
    ]
flush_from-Writes mem n (eagain ∷ answers) calm enough = elim (Bool-cases (ltb n (length mem))) [
  | inl t ↦ rw (flush_from, t) (flush_from-Writes mem n answers calm enough)
  | inr t ↦ flush_from-done mem n (eagain ∷ answers) t
]
flush_from-Writes mem n (fails ∷ answers) calm enough = absurd calm

-- `flush_mem` ends, with all bytes written in their order, once the socket had room as often as there
-- are bytes, however little room and however often there was none in between, where no call fails.
pub flush_mem-Writes :
    (mem : Bytes) (answers : List Answer)
    → NoFails answers
    → length mem ≤ rounds answers
    → ((flush_mem mem answers).status ≡ complete) × ((flush_mem mem answers).sent ≡ mem)
unfolding flush_mem
flush_mem-Writes mem answers calm enough = flush_from-Writes mem 0 answers calm (omega arith)

-- As long as a socket has no room, the loop runs.
abbrev pub no_room : ℕ → List Answer
no_room zero = []
no_room (suc n) = eagain ∷ no_room n

-- Where a socket never has room, `flush_mem` never ends: however often it tries, it is still in its
-- loop with nothing written, if there is a byte to write.
pub flush_mem-no_room :
    (b : ℕ) (bs : Bytes) (tries : ℕ)
    → flush_mem (b ∷ bs) (no_room tries) ≡ record { status = exhausted; sent = [] }
unfolding flush_mem flush_from
flush_mem-no_room b bs zero = ground arith
flush_mem-no_room b bs (suc tries) =
    let inside : ltb 0 (length (b ∷ bs)) ≡ true = ground arith in
    rw (inside, flush_from) (flush_mem-no_room b bs tries)
