-- ===== src/Response.antt =====
-- core/response.hpp and response.cpp: the responses of a redis server, split out of its buffer.
pub mod Stream
use redis_cerberus.Prelude.{
  ℕ, suc, Bool, true, false, not, ◌||◌, List, [], ◌∷◌, ◌++◌, Bytes, codes, length, drop, slice,
  if◌then◌else◌,
}
use redis_cerberus.Text.Compare.{stristartswith}
use redis_cerberus.Message.Outcome.{Outcome, ok, ◌>>=◌}
use redis_cerberus.Message.Splitter.{Final, Splitter, finished, interrupt_point, split_by}

-- `NormalResponse` and `RetryMovedAskResponse`.
pub data Response : Type 0 where
  normal : Bytes → Bool → Response
  retry_moved_ask : Response

-- `Response::NIL_STR`.
abbrev pub nil_str : Bytes
nil_str = codes "$-1\r\n"

-- `get_buffer`.
abbrev pub get_buffer : Response → Bytes
get_buffer (normal rsp _) = rsp
get_buffer retry_moved_ask = codes "$ RETRY MOVED OR ASK $"

abbrev pub server_moved : Response → Bool
server_moved (normal _ _) = false
server_moved retry_moved_ask = true

-- The fields of `ServerResponseSplitter` beside those of its base.
pub record ServerResponses : Type 0 where
  pub last_error : Bytes
  pub responses : List Response

abbrev pub is_empty : Bytes → Bool
is_empty [] = true
is_empty (_ ∷ _) = false

-- The test of `_push_rsp` on the text of an error.
unfoldable pub asks_retry : Bytes → Bool
asks_retry err =
    stristartswith err (codes "MOVED")
    || stristartswith err (codes "ASK")
    || stristartswith err (codes "CLUSTERDOWN")

-- `_push_rsp`, given the bytes from the last split point on.
unfoldable pub push_rsp : Bytes → ServerResponses → ServerResponses
unfolding asks_retry
push_rsp rsp f =
    let failed = not (is_empty f.last_error) in
    let pushed =
      if failed
      then (if asks_retry f.last_error then retry_moved_ask else normal rsp failed)
      else normal rsp failed in
    record f { responses = f.responses ++ pushed ∷ [] }

-- `on_split_point` and `on_error`; the other two are those of the base, which do nothing.
unfoldable pub server_splitter : Bytes → Final ServerResponses
server_splitter buf = record {
  on_error = λ begin last f. record f { last_error = slice buf begin last };
  on_string = λ _ _ f. ok f;
  on_split_point =
      λ previous next f. record (push_rsp (slice buf previous next) f) { last_error = [] };
  on_array = λ _ _ f. ok f;
}

-- What `split_server_response` returns, and what it leaves in the buffer.
abbrev pub split_off : Bytes → Splitter ServerResponses → List Response × Bytes
split_off buf s = (s.final.responses, if finished s then [] else drop (interrupt_point s) buf)

-- Arrays nest no deeper than the buffer is long, and each round of the loop reads a byte or more
-- of a stream of messages; on other bytes the source may go round for ever.
unfoldable pub split_server_response : Bytes → Outcome (List Response × Bytes)
split_server_response buf =
    split_by (server_splitter buf) buf (suc (length buf)) (length buf)
      (record { last_error = []; responses = [] })
    >>= λ s. ok (split_off buf s)
