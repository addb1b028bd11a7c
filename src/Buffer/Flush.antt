-- ===== src/Buffer/Flush.antt =====
-- core/buffer.cpp: `flush_mem`, which writes to a socket until all is written, and `Buffer::read`, which
-- reads until nothing is left.
pub mod Ends
use redis_cerberus.Prelude.{
  ℕ, zero, suc, ◌+◌, ◌-◌, ◌≤◌, ◌<◌, min, Bool, true, false, List, [], ◌∷◌, ◌++◌, Bytes, length,
  take, drop, ltb, if◌then◌else◌, ◌≡◌, refl, ap, ◌∙◌, inl, inr, arith, Bool-cases, append_assoc,
  length-drop, take-append-drop, drop-drop,
}
use redis_cerberus.Buffer.{Answer, room, eagain, fails, Status, complete, threw, exhausted}
use redis_cerberus.Buffer.Calm.{NoFails}
use redis_cerberus.Command.Group.{concat}
use redis_cerberus.Client.{Input}

-- `exhausted` tells that the loop still runs where the list of answers ends.
pub record Flushed : Type 0 where
  pub status : Status
  pub sent : Bytes

abbrev pub behind : Bytes → Flushed → Flushed
behind piece f = record f { sent = piece ++ f.sent }

-- The loop from `n` on. Where the socket has no room, the loop tries again at once.
unfoldable pub flush_from : Bytes → ℕ → List Answer → Flushed
flush_from mem n [] = record {
  status = if ltb n (length mem) then exhausted else complete;
  sent = [];
}
flush_from mem n (room k ∷ answers) =
    let w = min k (length mem - n) in
    let rest = flush_from mem (n + w) answers in
    if ltb n (length mem)
    then behind (take w (drop n mem)) rest
    else record { status = complete; sent = [] }
flush_from mem n (eagain ∷ answers) =
    let rest = flush_from mem n answers in
    if ltb n (length mem) then rest else record { status = complete; sent = [] }
flush_from mem n (fails ∷ answers) = record {
  status = if ltb n (length mem) then threw else complete;
  sent = [];
}

unfoldable pub flush_mem : Bytes → List Answer → Flushed
unfolding flush_from
flush_mem mem answers = flush_from mem 0 answers

-- What a call of `read` gives: some bytes, the end of the input (0), EAGAIN, or an error that
-- `on_error` throws.
pub data Chunk : Type 0 where
  got : Bytes → Chunk
  at_end : Chunk
  no_more : Chunk
  broken : Chunk

unfoldable pub read_from : Bytes → List Chunk → Input
read_from acc [] = Input.bytes acc
read_from acc (got [] ∷ chunks) = Input.bytes acc
read_from acc (got (b ∷ bs) ∷ chunks) = read_from (acc ++ b ∷ bs) chunks
read_from acc (at_end ∷ chunks) = Input.bytes acc
read_from acc (no_more ∷ chunks) = Input.bytes acc
read_from acc (broken ∷ chunks) = Input.fails

-- `Buffer::read`, as the bytes that it puts behind those in the buffer. What was read before an error
-- is not told: the callers give the connection up.
unfoldable pub read : List Chunk → Input
unfolding read_from
read chunks = read_from [] chunks
