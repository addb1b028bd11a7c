-- ===== src/Command/Parser/Range.antt =====
-- The loop over a range of iterators runs past the buffer where the range ends before it begins:
-- a text whose length the client gave as negative.
use redis_cerberus.Prelude.{ℕ, Bytes, slice, ltb, if◌then◌else◌}
use redis_cerberus.Message.Outcome.{Outcome, ok, fault}

unfoldable pub range : Bytes → ℕ → ℕ → Outcome Bytes
range buf begin last = if ltb last begin then fault else ok (slice buf begin last)
