-- ===== src/SlotCalc.antt =====
-- core/slot_calc.hpp and slot_calc.cpp: `KeySlotCalc`, which reads a key byte by byte and gives the
-- slot of the cluster that holds it. `Crc` has the checksum.
pub mod Crc
pub mod HashTag
use Prim.Native.Nat.{bit_and}
use redis_cerberus.Prelude.{ℕ, Bool, true, false, List, [], ◌∷◌, Bytes, ◌==◌, if◌then◌else◌}
use Crc.{crc_next_byte}

-- The function that `_next_byte` holds.
pub data NextByte : Type 0 where
  direct_byte between_braces whole_key ignore : NextByte

pub record KeySlotCalc : Type 0 where
  pub key_slot : ℕ
  pub key_slot_after_brace : ℕ
  pub next : NextByte
  pub matched_close_brace : Bool
  pub last_byte_is_open_brace : Bool

-- The constructor calls `reset`, which sets every field.
abbrev pub reset : KeySlotCalc
reset = record {
  key_slot = 0;
  key_slot_after_brace = 0;
  next = direct_byte;
  matched_close_brace = false;
  last_byte_is_open_brace = false;
}

unfoldable pub get_slot : KeySlotCalc → ℕ
get_slot sc =
    bit_and (if sc.matched_close_brace then sc.key_slot_after_brace else sc.key_slot) 0x3FFF

on_direct_byte : KeySlotCalc → ℕ → KeySlotCalc
on_direct_byte sc b =
    let sc' = record sc { key_slot = crc_next_byte sc.key_slot b } in
    if b == b'{' then record sc' { last_byte_is_open_brace = true; next = between_braces } else sc'

on_between_braces : KeySlotCalc → ℕ → KeySlotCalc
on_between_braces sc b =
    if b == b'}'
    then (if sc.last_byte_is_open_brace
        then record sc { key_slot = crc_next_byte sc.key_slot b; next = whole_key }
        else record sc { next = ignore; matched_close_brace = true })
    else record sc {
      last_byte_is_open_brace = false;
      key_slot = crc_next_byte sc.key_slot b;
      key_slot_after_brace = crc_next_byte sc.key_slot_after_brace b;
    }

on_whole_key : KeySlotCalc → ℕ → KeySlotCalc
on_whole_key sc b = record sc { key_slot = crc_next_byte sc.key_slot b }

dispatch : NextByte → KeySlotCalc → ℕ → KeySlotCalc
dispatch direct_byte sc b = on_direct_byte sc b
dispatch between_braces sc b = on_between_braces sc b
dispatch whole_key sc b = on_whole_key sc b
dispatch ignore sc b = sc

unfoldable pub next_byte : KeySlotCalc → ℕ → KeySlotCalc
unfolding dispatch on_direct_byte on_between_braces on_whole_key
next_byte sc b = dispatch sc.next sc b

-- The loop of the callers, `for (; begin != end; ++begin) slot_calc.next_byte(*begin)`.
unfoldable pub next_bytes : KeySlotCalc → Bytes → KeySlotCalc
unfolding next_byte
next_bytes sc [] = sc
next_bytes sc (b ∷ bs) = next_bytes (next_byte sc b) bs

-- The slot of a key.
unfoldable pub slot_of : Bytes → ℕ
unfolding next_bytes get_slot
slot_of key = get_slot (next_bytes reset key)
