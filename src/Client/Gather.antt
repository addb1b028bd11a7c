-- ===== src/Client/Gather.antt =====
-- core/command.cpp, `MultipleCommandsGroup`: how a group gathers the answers of several servers, in
-- whatever order they come.
use redis_cerberus.Prelude.{
  ℕ, zero, suc, ◌+◌, ◌≤◌, Bool, true, false, ◌||◌, ◌==◌, List, [], ◌∷◌, ◌++◌, map, Bytes, codes,
  length, if◌then◌else◌, ◌≡◌, refl, sym, ap, ◌∙◌, arith,
}
use redis_cerberus.Text.Decimal.{str}
use redis_cerberus.Command.Group.{OneSlotCommand}
use redis_cerberus.State.{Gathering, contains}
use redis_cerberus.Client.Responses.{set_buffer, gather}

-- The answers come in for the places given, one after the other.
unfoldable pub gather_each : List ℕ → (ℕ → Bytes) → Gathering → Gathering
gather_each [] f g = g
gather_each (i ∷ is) f g = gather_each is f (gather i (f i) g).0

set_each : List ℕ → (ℕ → Bytes) → List OneSlotCommand → List OneSlotCommand
set_each [] f cs = cs
set_each (i ∷ is) f cs = set_each is f (set_buffer i (f i) cs)

length-set_buffer :
    (i : ℕ) (r : Bytes) (cs : List OneSlotCommand) → length (set_buffer i r cs) ≡ length cs
length-set_buffer i r [] = refl
length-set_buffer zero r (c ∷ cs) = refl
length-set_buffer (suc i) r (c ∷ cs) = ap suc (length-set_buffer i r cs)

-- The commands with their answers at the places that the test picks.
fill : (ℕ → Bool) → (ℕ → Bytes) → ℕ → List OneSlotCommand → List OneSlotCommand
fill m f k [] = []
fill m f k (c ∷ cs) = (if m k then record c { buffer = f k } else c) ∷ fill m f (suc k) cs

fill-same :
    (m m' : ℕ → Bool) (f : ℕ → Bytes) (k : ℕ) (cs : List OneSlotCommand)
    → ((j : ℕ) → k ≤ j → m j ≡ m' j)
    → fill m f k cs ≡ fill m' f k cs
unfolding fill
fill-same m m' f k [] h = refl
fill-same m m' f k (c ∷ cs) h =
    ap (λ b. (if b then record c { buffer = f k } else c) ∷ fill m f (suc k) cs) (h k (omega arith))
    ∙ ap (◌∷◌ (if m' k then record c { buffer = f k } else c))
        (fill-same m m' f (suc k) cs (λ j le. h j (omega arith)))

fill-set_buffer :
    (m : ℕ → Bool) (f : ℕ → Bytes) (k i n : ℕ) (cs : List OneSlotCommand)
    → k + i ≡ n
    → fill m f k (set_buffer i (f n) cs) ≡ fill (λ j. (n == j) || m j) f k cs
unfolding fill
fill-set_buffer m f k i n [] e = refl
fill-set_buffer m f k zero n (c ∷ cs) e =
    let same : (n == k) ≡ true = ground arith in
    let value : f n ≡ f k = ap f {x = n} {y = k} (omega arith) in
    rw same (
      ap (λ x. x ∷ fill m f (suc k) cs) (either (m k) value)
      ∙ ap (◌∷◌ (record c { buffer = f k })) (
          fill-same m (λ j. (n == j) || m j) f (suc k) cs
            (λ j le. let other : (n == j) ≡ false = ground arith in rw other refl)))
  where
    either :
        (b : Bool)
        → f n ≡ f k
        → (if b then record c { buffer = f k } else record c { buffer = f n })
          ≡ record c { buffer = f k }
    either true h = refl
    either false h = rw h refl
fill-set_buffer m f k (suc i) n (c ∷ cs) e =
    let other : (n == k) ≡ false = ground arith in
    rw other (
      ap (◌∷◌ (if m k then record c { buffer = f k } else c))
        (fill-set_buffer m f (suc k) i n cs (omega arith)))

fill-none : (f : ℕ → Bytes) (k : ℕ) (cs : List OneSlotCommand) → fill (λ j. false) f k cs ≡ cs
unfolding fill
fill-none f k [] = refl
fill-none f k (c ∷ cs) = ap (◌∷◌ c) (fill-none f (suc k) cs)

set_each-fill :
    (is : List ℕ) (f : ℕ → Bytes) (cs : List OneSlotCommand)
    → set_each is f cs ≡ fill (contains is) f 0 cs
unfolding set_each contains
set_each-fill [] f cs = sym (fill-none f 0 cs)
set_each-fill (i ∷ is) f cs =
    set_each-fill is f (set_buffer i (f i) cs)
    ∙ fill-set_buffer (contains is) f 0 i i cs (omega arith)

-- The answers in the order of the commands.
unfoldable pub answers_from : (ℕ → Bytes) → ℕ → List OneSlotCommand → List Bytes
answers_from f k [] = []
answers_from f k (c ∷ cs) = f k ∷ answers_from f (suc k) cs

-- Every place from `k` on, so many, is among those answered.
unfoldable pub AllAnswered : List ℕ → ℕ → ℕ → Type 0
AllAnswered is k zero = Unit
AllAnswered is k (suc n) = (contains is k ≡ true) × AllAnswered is (suc k) n

fill-answers :
    (is : List ℕ) (f : ℕ → Bytes) (k : ℕ) (cs : List OneSlotCommand)
    → AllAnswered is k (length cs)
    → map (λ c. c.buffer) (fill (contains is) f k cs) ≡ answers_from f k cs
unfolding fill answers_from AllAnswered
fill-answers is f k [] h = refl
fill-answers is f k (c ∷ cs) (h, hs) = rw h (ap (◌∷◌ (f k)) (fill-answers is f (suc k) cs hs))

-- The header of the array, which the last answer writes.
abbrev pub header : ℕ → Bytes
header n = b'*' ∷ (str n ++ codes "\r\n")

gather-commands :
    (i n : ℕ) (r : Bytes) (g : Gathering)
    → g.awaiting_count ≡ n
    → (gather i r g).0.commands ≡ set_buffer i r g.commands
unfolding gather
gather-commands i zero r g e = rw (gather, e) refl
gather-commands i (suc zero) r g e = rw (gather, e) refl
gather-commands i (suc (suc n)) r g e = rw (gather, e) refl

gather_each-commands :
    (is : List ℕ) (f : ℕ → Bytes) (g : Gathering)
    → (gather_each is f g).commands ≡ set_each is f g.commands
unfolding gather_each set_each
gather_each-commands [] f g = refl
gather_each-commands (i ∷ is) f g =
    gather_each-commands is f (gather i (f i) g).0
    ∙ ap (set_each is f) (gather-commands i g.awaiting_count (f i) g refl)

pub gather-awaiting :
    (i n : ℕ) (r : Bytes) (g : Gathering)
    → g.awaiting_count ≡ suc (suc n)
    → (gather i r g).0.awaiting_count ≡ suc n
unfolding gather
gather-awaiting i n r g e = rw (gather, e) refl

-- As many answers as are awaited: the last completes the group.
pub gather_each-complete :
    (is : List ℕ) (f : ℕ → Bytes) (n : ℕ) (g : Gathering)
    → length is ≡ suc n
    → g.awaiting_count ≡ suc n
    → ((gather_each is f g).arr_payload ≡ header (length g.commands))
      × ((gather_each is f g).complete ≡ true)
unfolding gather_each gather
gather_each-complete [] f n g e h = absurd (omega arith)
gather_each-complete (i ∷ []) f n g e h =
    let one : n ≡ 0 = omega (arith, e) in
    let last : g.awaiting_count ≡ 1 = h ∙ ap suc one in rw (gather, last) (refl, refl)
gather_each-complete (i ∷ j ∷ is) f zero g e h = absurd (omega (arith, e))
gather_each-complete (i ∷ j ∷ is) f (suc n) g e h =
    let g' = (gather i (f i) g).0 in
    let (a, b) =
      gather_each-complete (j ∷ is) f n g' (omega (arith, e)) (gather-awaiting i n (f i) g h) in
    let same =
      ap length (gather-commands i (suc (suc n)) (f i) g h)
      ∙ length-set_buffer i (f i) g.commands in
    (a ∙ ap header same, b)

-- The buffers of the commands are their answers, in the order of the commands.
pub gather_each-buffers :
    (is : List ℕ) (f : ℕ → Bytes) (g : Gathering)
    → AllAnswered is 0 (length g.commands)
    → map (λ c. c.buffer) (gather_each is f g).commands ≡ answers_from f 0 g.commands
gather_each-buffers is f g all =
    ap (map (λ c. c.buffer)) (gather_each-commands is f g ∙ set_each-fill is f g.commands)
    ∙ fill-answers is f 0 g.commands all
