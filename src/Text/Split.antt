-- ===== src/Text/Split.antt =====
-- utils/string.cpp: `util::split_str` and `util::join`. A position is a number of bytes from the
-- beginning.
pub mod Pieces
use redis_cerberus.Prelude.{
  ℕ, zero, suc, ◌+◌, Bool, true, false, ◌&&◌, ◌||◌, List, [], ◌∷◌, ◌++◌, Bytes, length, drop, slice,
  Option, none, some, ◌==◌, if◌then◌else◌,
}
use redis_cerberus.Command.Parser.Keys.{is_nil}

-- Whether a byte is one of the delimiters.
unfoldable pub has : Bytes → ℕ → Bool
has [] c = false
has (d ∷ ds) c = d == c || has ds c

unfoldable pub index_of : Bytes → Bytes → Option ℕ
unfolding has
index_of delims [] = none
index_of delims (c ∷ cs) =
    if has delims c
    then some 0
    else (elim (index_of delims cs) [ none ↦ none | some i ↦ some (suc i) ])

-- `std::string::find_first_of`.
unfoldable pub find_first_of : Bytes → Bytes → ℕ → Option ℕ
unfolding index_of
find_first_of str delims from = elim (index_of delims (drop from str)) [
  | none ↦ none
  | some i ↦ some (from + i)
]

abbrev pub push_piece : Bool → Bytes → List Bytes → List Bytes
push_piece trim piece rest = if trim && is_nil piece then rest else piece ∷ rest

-- The loop from `lastPos` on.
unfoldable pub split_loop : ℕ → Bytes → Bytes → Bool → ℕ → List Bytes
unfolding find_first_of
split_loop zero str delims trim last_pos = []
split_loop (suc fuel) str delims trim last_pos = elim (find_first_of str delims last_pos) [
  | none ↦ push_piece trim (slice str last_pos (length str)) []
  | some pos ↦ push_piece trim (slice str last_pos pos) (split_loop fuel str delims trim (pos + 1))
]

-- Each round but the last passes a delimiter, so there are at most as many and one more.
unfoldable pub split_str : Bytes → Bytes → Bool → List Bytes
unfolding split_loop
split_str str delims trim = split_loop (suc (length str)) str delims trim 0

abbrev pub join_rest : Bytes → List Bytes → Bytes
join_rest sep [] = []
join_rest sep (v ∷ vs) = sep ++ (v ++ join_rest sep vs)

unfoldable pub join : Bytes → List Bytes → Bytes
join sep [] = []
join sep (v ∷ vs) = v ++ join_rest sep vs
