-- ===== src/SlotCalc/HashTag.antt =====
-- core/slot_calc.cpp: the braces rule of `KeySlotCalc` beside the hash tag of a key as the cluster
-- defines it.
use Prim.Native.Nat.{bit_and}
use redis_cerberus.Prelude.{
  ℕ, ◌%◌, Bool, true, false, [], ◌∷◌, Bytes, ◌==◌, ==_iff, Option-cases, ◌++◌, if◌then◌else◌, ◌≡◌,
  refl, sym, ◌∙◌, ap, arith, Option, none, some, Bool-cases, inl, inr,
}
use redis_cerberus.Prelude.Bits.{bit_and-0x3FFF}
use redis_cerberus.SlotCalc.{
  KeySlotCalc, NextByte, dispatch, direct_byte, between_braces, whole_key, ignore, get_slot,
  next_byte, next_bytes, slot_of,
}
use redis_cerberus.SlotCalc.Crc.{crc_next_byte, crc_from}

-- The text before the first `c`, and the text after it, if `c` is there.
abbrev split_at : ℕ → Bytes → Option (Bytes × Bytes)
split_at c [] = none
split_at c (b ∷ bs) =
    if b == c
    then some ([], bs)
    else (elim (split_at c bs) [ none ↦ none | some (l, r) ↦ some (b ∷ l, r) ])

-- What is hashed of a key, given the text behind its first open brace and that text's split at the
-- next close brace: the tag, unless there is no close brace or nothing stands before it.
abbrev tag_or : Bytes → Option (Bytes × Bytes) → Bytes
tag_or key none = key
tag_or key (some ([], _)) = key
tag_or key (some (b ∷ tag, _)) = b ∷ tag

abbrev tag_after : Bytes → Option (Bytes × Bytes) → Bytes
tag_after key none = key
tag_after key (some (_, rest)) = tag_or key (split_at b'}' rest)

abbrev pub hash_tag : Bytes → Bytes
hash_tag key = tag_after key (split_at b'{' key)

-- A calculator in the given mode, with no tag closed yet.
abbrev reading : NextByte → Bool → ℕ → ℕ → KeySlotCalc
reading mode open_brace whole tag = record {
  key_slot = whole;
  key_slot_after_brace = tag;
  next = mode;
  matched_close_brace = false;
  last_byte_is_open_brace = open_brace;
}

next_bytes-whole_key :
    (key : Bytes) (o : Bool) (k a : ℕ)
    → next_bytes (reading whole_key o k a) key ≡ reading whole_key o (crc_from k key) a
unfolding next_bytes
next_bytes-whole_key [] o k a = refl
next_bytes-whole_key (b ∷ bs) o k a = next_bytes-whole_key bs o (crc_next_byte k b) a

next_byte-ignore : (sc : KeySlotCalc) (b : ℕ) → sc.next ≡ ignore → next_byte sc b ≡ sc
unfolding next_byte
next_byte-ignore sc b e = ap (λ m. dispatch m sc b) e

next_bytes-ignore : (key : Bytes) (sc : KeySlotCalc) → sc.next ≡ ignore → next_bytes sc key ≡ sc
unfolding next_bytes
next_bytes-ignore [] sc e = refl
next_bytes-ignore (b ∷ bs) sc e =
    ap (λ c. next_bytes c bs) (next_byte-ignore sc b e) ∙ next_bytes-ignore bs sc e

-- The value that is reported once the rest of the key is known.
abbrev chosen : ℕ → ℕ → Bytes → Option (Bytes × Bytes) → ℕ
chosen k a key none = crc_from k key
chosen k a key (some (tag, _)) = crc_from a tag

chosen-cons :
    (k a b : ℕ) (bs : Bytes) (o : Option (Bytes × Bytes))
    → chosen (crc_next_byte k b) (crc_next_byte a b) bs o
      ≡ chosen k a (b ∷ bs) (elim o [ none ↦ none | some (l, r) ↦ some (b ∷ l, r) ])
chosen-cons k a b bs none = refl
chosen-cons k a b bs (some (l, r)) = refl

-- One step of each mode, by the byte read.
closes :
    (b k a : ℕ)
    → (b == b'}') ≡ true
    → next_byte (reading between_braces false k a) b
      ≡ record (reading ignore false k a) { matched_close_brace = true }
unfolding next_byte
closes b k a e = ground arith

closes_empty :
    (b k a : ℕ)
    → (b == b'}') ≡ true
    → next_byte (reading between_braces true k a) b ≡ reading whole_key true (crc_next_byte k b) a
unfolding next_byte
closes_empty b k a e = ground arith

stays :
    (b k a : ℕ) (o : Bool)
    → (b == b'}') ≡ false
    → next_byte (reading between_braces o k a) b
      ≡ reading between_braces false (crc_next_byte k b) (crc_next_byte a b)
unfolding next_byte
stays b k a o e = ground arith

opens :
    (b k : ℕ)
    → next_byte (reading direct_byte false k 0) b ≡ (
        if b == b'{'
        then reading between_braces true (crc_next_byte k b) 0
        else reading direct_byte false (crc_next_byte k b) 0)
unfolding next_byte
opens b k = ground arith

get_slot-between_braces :
    (key : Bytes) (k a : ℕ)
    → get_slot (next_bytes (reading between_braces false k a) key)
      ≡ bit_and (chosen k a key (split_at b'}' key)) 0x3FFF
unfolding next_bytes get_slot
get_slot-between_braces [] k a = refl
get_slot-between_braces (b ∷ bs) k a = elim (Bool-cases (b == b'}')) [
  | inl close ↦ rw close (
      ap (λ c. get_slot (next_bytes c bs)) (closes b k a close)
      ∙ ap get_slot (next_bytes-ignore bs _ refl))
  | inr other ↦ rw other (
      ap (λ c. get_slot (next_bytes c bs)) (stays b k a false other)
      ∙ get_slot-between_braces bs (crc_next_byte k b) (crc_next_byte a b)
      ∙ ap (λ v. bit_and v 0x3FFF) (chosen-cons k a b bs (split_at b'}' bs)))
]

-- `tag_or` before its choice is hashed: whole is the checksum of the key up to here.
abbrev opened : ℕ → Bytes → Option (Bytes × Bytes) → ℕ
opened k key none = crc_from k key
opened k key (some ([], _)) = crc_from k key
opened k key (some (b ∷ tag, _)) = crc_from 0 (b ∷ tag)

chosen-opened :
    (k b : ℕ) (bs : Bytes) (o : Option (Bytes × Bytes))
    → chosen (crc_next_byte k b) (crc_next_byte 0 b) bs o
      ≡ opened k (b ∷ bs) (elim o [ none ↦ none | some (l, r) ↦ some (b ∷ l, r) ])
chosen-opened k b bs none = refl
chosen-opened k b bs (some (l, r)) = refl

-- Just behind the open brace.
get_slot-opened :
    (key : Bytes) (k : ℕ)
    → get_slot (next_bytes (reading between_braces true k 0) key)
      ≡ bit_and (opened k key (split_at b'}' key)) 0x3FFF
unfolding next_bytes get_slot
get_slot-opened [] k = refl
get_slot-opened (b ∷ bs) k = elim (Bool-cases (b == b'}')) [
  | inl close ↦ rw close (
      ap (λ c. get_slot (next_bytes c bs)) (closes_empty b k 0 close)
      ∙ ap get_slot (next_bytes-whole_key bs true (crc_next_byte k b) 0))
  | inr other ↦ rw other (
      ap (λ c. get_slot (next_bytes c bs)) (stays b k 0 true other)
      ∙ get_slot-between_braces bs (crc_next_byte k b) (crc_next_byte 0 b)
      ∙ ap (λ v. bit_and v 0x3FFF) (chosen-opened k b bs (split_at b'}' bs)))
]

-- The checksum of the tag, where `k` is that of what stands before the text.
abbrev tagged : ℕ → Bytes → Option (Bytes × Bytes) → ℕ
tagged k key none = crc_from k key
tagged k key (some (before, rest)) =
    opened (crc_next_byte (crc_from k before) b'{') rest (split_at b'}' rest)

tagged-cons :
    (k b : ℕ) (bs : Bytes) (o : Option (Bytes × Bytes))
    → tagged (crc_next_byte k b) bs o
      ≡ tagged k (b ∷ bs) (elim o [ none ↦ none | some (l, r) ↦ some (b ∷ l, r) ])
tagged-cons k b bs none = refl
tagged-cons k b bs (some (l, r)) = refl

get_slot-direct_byte :
    (key : Bytes) (k : ℕ)
    → get_slot (next_bytes (reading direct_byte false k 0) key)
      ≡ bit_and (tagged k key (split_at b'{' key)) 0x3FFF
unfolding next_bytes get_slot
get_slot-direct_byte [] k = refl
get_slot-direct_byte (b ∷ bs) k = elim (Bool-cases (b == b'{')) [
  | inl brace ↦ rw brace (
      ap (λ c. get_slot (next_bytes c bs)) (opens b k ∙ rw brace)
      ∙ get_slot-opened bs (crc_next_byte k b)
      ∙ ap (λ c. bit_and (opened (crc_next_byte k c) bs (split_at b'}' bs)) 0x3FFF)
          ((==_iff b b'{').0 brace))
  | inr other ↦ rw other (
      ap (λ c. get_slot (next_bytes c bs)) (opens b k ∙ rw other)
      ∙ get_slot-direct_byte bs (crc_next_byte k b)
      ∙ ap (λ v. bit_and v 0x3FFF) (tagged-cons k b bs (split_at b'{' bs)))
]

split_at-append :
    (c : ℕ) (key before rest : Bytes)
    → split_at c key ≡ some (before, rest)
    → key ≡ before ++ c ∷ rest
split_at-append c [] before rest e = cc
split_at-append c (b ∷ bs) before rest e = elim (Option-cases (split_at c bs)) [
  | inl n ↦ ground arith
  | inr ((l, r), f) ↦ ground (arith, split_at-append c bs l r f)
]

crc_from-append : (k : ℕ) (xs ys : Bytes) → crc_from k (xs ++ ys) ≡ crc_from (crc_from k xs) ys
crc_from-append k [] ys = refl
crc_from-append k (x ∷ xs) ys = crc_from-append (crc_next_byte k x) xs ys

opened-tag_or :
    (before rest : Bytes) (o : Option (Bytes × Bytes))
    → opened (crc_next_byte (crc_from 0 before) b'{') rest o
      ≡ crc_from 0 (tag_or (before ++ b'{' ∷ rest) o)
opened-tag_or before rest none = sym (crc_from-append 0 before (b'{' ∷ rest))
opened-tag_or before rest (some ([], _)) = sym (crc_from-append 0 before (b'{' ∷ rest))
opened-tag_or before rest (some (b ∷ tag, _)) = refl

tagged-hash_tag : (key : Bytes) → tagged 0 key (split_at b'{' key) ≡ crc_from 0 (hash_tag key)
tagged-hash_tag key = elim (Option-cases (split_at b'{' key)) [
  | inl e ↦ rw e
  | inr ((before, rest), e) ↦
      rw (e, split_at-append b'{' key before rest e)
        (opened-tag_or before rest (split_at b'}' rest))
]

-- The slot that the automaton reports for a key is the checksum of the key's hash tag modulo the
-- number of slots, 16384. The hash tag is the text between the first open brace and the first close
-- brace behind it, if both are there and the text is not empty, and the whole key otherwise.
pub slot_of-hash_tag : (key : Bytes) → slot_of key ≡ crc_from 0 (hash_tag key) % 16384
unfolding slot_of
slot_of-hash_tag key =
    get_slot-direct_byte key 0
    ∙ bit_and-0x3FFF (tagged 0 key (split_at b'{' key))
    ∙ ap (λ v. v % 16384) (tagged-hash_tag key)
