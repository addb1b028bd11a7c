-- ===== src/Buffer.antt =====
-- core/buffer.hpp and core/buffer.cpp: `BufferSet`, the queue of buffers that are written to a
-- socket. What the socket takes is a list of answers, one for each system call; a call takes as
-- many of the bytes as there is room for. Past the end of the list there is no room (EAGAIN).
pub mod Account
pub mod Writev
pub mod Offset
pub mod Progress
pub mod Calm
pub mod Flush
use redis_cerberus.Prelude.{
  ℕ, zero, suc, ◌+◌, ◌-◌, ◌*◌, min, Bool, true, false, ◌&&◌, List, [], ◌∷◌, ◌++◌, Bytes, length,
  take, drop, ltb, leb, ◌==◌, if◌then◌else◌,
}
use redis_cerberus.Command.Group.{concat}

-- `write` and `writev`: the room that there is, EAGAIN, or an error that `on_error` throws.
pub data Answer : Type 0 where
  room : ℕ → Answer
  eagain : Answer
  fails : Answer

-- How writing ends: all was written, or the rest is kept for later; or an
-- exception was thrown.
pub data Status : Type 0 where
  complete later threw : Status
  -- The model's fuel ran out.
  exhausted : Status

-- What `write_vec` leaves: the number of buffers written, the offset in the first that was not, the
-- bytes that the socket took, and the answers left.
pub record Written : Type 0 where
  pub status : Status
  pub count : ℕ
  pub offset : ℕ
  pub sent : Bytes
  pub answers : List Answer

-- A call that took `piece`, before what comes next.
abbrev pub behind : Bytes → Written → Written
behind piece w = record w { sent = piece ++ w.sent }

-- Returns 1 as `complete`, of one buffer, and 0 as `later`.
unfoldable pub write_single : Bytes → ℕ → List Answer → Written
write_single buf offset [] =
    if ltb offset (length buf)
    then record { status = later; count = 0; offset = offset; sent = []; answers = [] }
    else record { status = complete; count = 1; offset = offset; sent = []; answers = [] }
write_single buf offset (room k ∷ answers) =
    let n = min k (length buf - offset) in
    let rest = write_single buf (offset + n) answers in
    if ltb offset (length buf) then behind (take n (drop offset buf)) rest else record {
      status = complete;
      count = 1;
      offset = offset;
      sent = [];
      answers = room k ∷ answers;
    }
write_single buf offset (eagain ∷ answers) =
    if ltb offset (length buf)
    then record { status = later; count = 0; offset = offset; sent = []; answers = answers }
    else record {
      status = complete;
      count = 1;
      offset = offset;
      sent = [];
      answers = eagain ∷ answers;
    }
write_single buf offset (fails ∷ answers) =
    if ltb offset (length buf)
    then record { status = threw; count = 0; offset = offset; sent = []; answers = answers }
    else record {
      status = complete;
      count = 1;
      offset = offset;
      sent = [];
      answers = fails ∷ answers;
    }

-- The inner loop: pieces that were written whole are passed, and the next is cut. It has to end
-- before the pieces do.
unfoldable pub pass : List Bytes → ℕ → ℕ → ℕ → List Bytes × ℕ × ℕ
pass [] n written offset = ([], written, offset)
pass (x ∷ iov) n written offset =
    let passed = pass iov (n - length x) (suc written) 0 in
    if leb (length x) n then passed else (drop n x ∷ iov, written, offset + n)

-- The outer loop. `iov` are the pieces from `written_iov` on.
unfoldable pub vec_loop : ℕ → List Bytes → ℕ → ℕ → ℕ → List Answer → Written
unfolding pass concat
vec_loop iovcnt iov total written offset [] = record {
  status = later;
  count = written;
  offset = offset;
  sent = [];
  answers = [];
}
vec_loop iovcnt iov total written offset (eagain ∷ answers) = record {
  status = later;
  count = written;
  offset = offset;
  sent = [];
  answers = answers;
}
vec_loop iovcnt iov total written offset (fails ∷ answers) = record {
  status = threw;
  count = written;
  offset = offset;
  sent = [];
  answers = answers;
}
vec_loop iovcnt iov total written offset (room k ∷ answers) =
    let n = min k total in
    let p = pass iov n written offset in
    let rest = vec_loop iovcnt p.0 (total - n) p.1 p.2 answers in
    if n == total
    then record {
      status = complete;
      count = iovcnt;
      offset = offset;
      sent = concat iov;
      answers = answers;
    }
    else if n == 0
    then record { status = later; count = written; offset = offset; sent = []; answers = answers }
    else behind (take n (concat iov)) rest

-- `total` is the number of bytes to write.
unfoldable pub write_vec : List Bytes → ℕ → ℕ → List Answer → Written
unfolding write_single vec_loop
write_vec [] total offset answers = record {
  status = complete;
  count = 0;
  offset = offset;
  sent = [];
  answers = answers;
}
write_vec (b ∷ []) total offset answers = write_single b offset answers
write_vec (b ∷ c ∷ iov) total offset answers =
    vec_loop (length (b ∷ c ∷ iov)) (drop offset b ∷ c ∷ iov) total 0 offset answers

-- `WRITEV_MAX_SIZE`.
abbrev pub writev_max_size : ℕ
writev_max_size = 2 * 1024 * 1024

-- The loop from the buffer `i` on.
unfoldable pub group_from : ℕ → List Bytes → ℕ → ℕ → ℕ × ℕ
group_from iov_max [] i size = (i, size)
group_from iov_max (b ∷ bufs) i size =
    let rest = group_from iov_max bufs (suc i) (size + length b) in
    if ltb i iov_max && leb (size + length b) writev_max_size then rest else (i, size)

unfoldable pub next_group_to_write : ℕ → Bytes → List Bytes → ℕ → ℕ × ℕ
unfolding group_from
next_group_to_write iov_max b bufs offset = group_from iov_max bufs 1 (length b - offset)

-- `_buf_arr` and `_1st_buf_offset`.
pub record BufferSet : Type 0 where
  pub buf_arr : List Bytes
  pub first_offset : ℕ

pub record Writing : Type 0 where
  pub status : Status
  pub buffers : BufferSet
  pub sent : Bytes

-- What `writev` does behind a call of `write_vec`: the written buffers are erased, and the loop goes
-- on with `rest` if they are all of the group. An exception leaves the queue as it was.
unfoldable pub after_vec : ℕ → List Bytes → Written → Writing → Status → Writing
after_vec iovcnt bufs w rest threw = record {
  status = threw;
  buffers = record { buf_arr = bufs; first_offset = w.offset };
  sent = w.sent;
}
after_vec iovcnt bufs w rest exhausted = record {
  status = exhausted;
  buffers = record { buf_arr = bufs; first_offset = w.offset };
  sent = w.sent;
}
after_vec iovcnt bufs w rest _ =
    if ltb w.count iovcnt
    then record {
      status = later;
      buffers = record { buf_arr = drop w.count bufs; first_offset = w.offset };
      sent = w.sent;
    }
    else record rest { sent = w.sent ++ rest.sent }

-- `writev` returns true as `complete` and false as `later`. `iov_max` is the system's `IOV_MAX`.
unfoldable pub writev : ℕ → ℕ → List Bytes → ℕ → List Answer → Writing
unfolding write_vec next_group_to_write after_vec
writev iov_max fuel [] offset answers = record {
  status = complete;
  buffers = record { buf_arr = []; first_offset = offset };
  sent = [];
}
writev iov_max zero (b ∷ bufs) offset answers = record {
  status = exhausted;
  buffers = record { buf_arr = b ∷ bufs; first_offset = offset };
  sent = [];
}
writev iov_max (suc fuel) (b ∷ bufs) offset answers =
    let x = next_group_to_write iov_max b bufs offset in
    let w = write_vec (take x.0 (b ∷ bufs)) x.1 offset answers in
    let rest = writev iov_max fuel (drop w.count (b ∷ bufs)) 0 w.answers in
    after_vec x.0 (b ∷ bufs) w rest w.status
