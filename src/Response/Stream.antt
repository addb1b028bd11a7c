-- ===== src/Response/Stream.antt =====
-- core/response.cpp: `split_server_response` over a buffer of whole replies, and the response to each,
-- told by the reply alone.
use redis_cerberus.Prelude.{
  ℕ, suc, ◌+◌, not, List, [], ◌∷◌, ◌++◌, append_assoc, append-nil, Bytes, length, drop, drop_past,
  slice, slice-piece, if◌then◌else◌, ◌≡◌, refl, ap, ◌∙◌, arith,
}
use redis_cerberus.Prelude.Int.{ℤ}
use redis_cerberus.Text.Decimal.{str}
use redis_cerberus.Text.Compare.{stristartswith}
use redis_cerberus.Message.Outcome.{ok}
use redis_cerberus.Message.Splitter.{finished}
use redis_cerberus.Message.Reply.{
  Reply, Replies, status, error, integer, bulk, nil_bulk, nil_array, array, none_left, more, count,
  crlf, put, put_all, width, width_all, AreReplies,
}
use redis_cerberus.Message.Reply.Visit.{drop-put, line_past}
use redis_cerberus.Message.Reply.Width.{
  put-append, length-put, length-put_all, depth_all-le-width_all,
}
use redis_cerberus.Message.Split.{noted, noted_all, finals, split_by-put_all}
use redis_cerberus.Response.{
  Response, normal, retry_moved_ask, ServerResponses, is_empty, asks_retry, push_rsp,
  server_splitter, split_server_response,
}

-- The text of the last error inside a reply, if there is one; else what was there before.
unfoldable mutual
  pub last_error_in : Reply → Bytes → Bytes
  last_error_in (error b) e = b
  last_error_in (array rs) e = last_error_among rs e
  last_error_in _ e = e

  pub last_error_among : Replies → Bytes → Bytes
  last_error_among none_left e = e
  last_error_among (more r rs) e = last_error_among rs (last_error_in r e)

-- The response to a reply: a retry if the last error inside it says that the slot is elsewhere or
-- the cluster is down, and the reply's own bytes otherwise, marked if there is an error in them.
unfoldable pub respond : Reply → Response
respond r =
    let err = last_error_in r [] in
    if asks_retry err then retry_moved_ask else normal (put r []) (not (is_empty err))

unfoldable pub respond_all : Replies → List Response
respond_all none_left = []
respond_all (more r rs) = respond r ∷ respond_all rs

module _ (buf : Bytes) where
  mutual
    unfolding noted server_splitter put last_error_in width

    noted-last_error :
        (r : Reply) (p : ℕ) (rest : Bytes) (f : ServerResponses)
        → drop p buf ≡ put r rest
        → noted (server_splitter buf) p r f ≡ record f { last_error = last_error_in r f.last_error }
    noted-last_error (error b) p rest f e =
        ap (λ t. record f { last_error = t })
          (slice-piece (p + 1) buf b (crlf rest) (drop_past p buf (b'-' ∷ []) _ e))
    noted-last_error (array rs) p rest f e =
        noted_all-last_error rs _ rest f
          (line_past buf p _ (b'*' ∷ str (count rs)) (put_all rs rest) (omega arith) e)
    noted-last_error (status b) p rest f e = refl
    noted-last_error (integer m n) p rest f e = refl
    noted-last_error (bulk b) p rest f e = refl
    noted-last_error nil_bulk p rest f e = refl
    noted-last_error nil_array p rest f e = refl

    noted_all-last_error :
        (rs : Replies) (p : ℕ) (rest : Bytes) (f : ServerResponses)
        → drop p buf ≡ put_all rs rest
        → noted_all (server_splitter buf) p rs f
          ≡ record f { last_error = last_error_among rs f.last_error }
    noted_all-last_error none_left p rest f e = refl
    noted_all-last_error (more r rs) p rest f e =
        ap (noted_all (server_splitter buf) (p + width r) rs)
          (noted-last_error r p (put_all rs rest) f e)
        ∙ noted_all-last_error rs (p + width r) rest _ (drop-put r buf p (put_all rs rest) e)

  -- The bytes of a reply lie between the split points before and behind it.
  slice-put :
      (r : Reply) (p : ℕ) (rest : Bytes)
      → drop p buf ≡ put r rest
      → slice buf p (p + width r) ≡ put r []
  slice-put r p rest e =
      let size : length (put r []) ≡ width r = omega (arith, length-put r []) in
      rw (← size) (slice-piece p buf (put r []) rest (e ∙ put-append r [] rest))

  -- No error text, no retry.
  no_error_first :
      (err rsp : Bytes)
      → (if not (is_empty err)
          then (if asks_retry err then retry_moved_ask else normal rsp (not (is_empty err)))
          else normal rsp (not (is_empty err)))
        ≡ (if asks_retry err then retry_moved_ask else normal rsp (not (is_empty err)))
  unfolding asks_retry stristartswith
  no_error_first [] rsp = refl
  no_error_first (c ∷ cs) rsp = refl

  push_rsp-respond :
      (r : Reply) (rs : List Response)
      → push_rsp (put r []) (record { last_error = last_error_in r []; responses = rs })
        ≡ record { last_error = last_error_in r []; responses = rs ++ respond r ∷ [] }
  unfolding respond push_rsp
  push_rsp-respond r rs =
      ap (λ x. record { last_error = last_error_in r []; responses = rs ++ x ∷ [] })
        (no_error_first (last_error_in r []) (put r []))

  finals-respond_all :
      (rs : Replies) (p : ℕ) (old : List Response)
      → drop p buf ≡ put_all rs []
      → finals (server_splitter buf) p rs (record { last_error = []; responses = old })
        ≡ record { last_error = []; responses = old ++ respond_all rs }
  unfolding server_splitter put respond_all
  finals-respond_all none_left p old e = rw append-nil
  finals-respond_all (more r rs) p old e =
      rw
        (
          noted-last_error r p (put_all rs []) (record { last_error = []; responses = old }) e,
          slice-put r p (put_all rs []) e,
          push_rsp-respond r old,
        )
        (finals-respond_all rs (p + width r) (old ++ respond r ∷ [])
            (drop-put r buf p (put_all rs []) e)
          ∙ rw append_assoc)

-- The two overrides that the class does not have.
pub quiet :
    (buf : Bytes)
    → ((b e : ℕ) (f : ServerResponses) → (server_splitter buf).on_string b e f ≡ ok f)
      × ((n : ℤ) (st : List ℤ) (f : ServerResponses) → (server_splitter buf).on_array n st f ≡ ok f)
unfolding server_splitter
quiet buf = (λ b e f. refl, λ n st f. refl)

-- Splitting a buffer that holds whole replies gives the response to each, in their order, and
-- leaves the buffer empty, whatever the replies are: arrays may be nested and texts may hold any
-- byte, only the lines of statuses and errors hold no carriage return.
pub split_server_response-put_all :
    (rs : Replies) → AreReplies rs → split_server_response (put_all rs []) ≡ ok (respond_all rs, [])
unfolding split_server_response finished
split_server_response-put_all rs w =
    let size : length (put_all rs []) ≡ width_all rs = omega (arith, length-put_all rs []) in
    let room = depth_all-le-width_all rs in
    let buf = put_all rs [] in
    let start : ServerResponses = record { last_error = []; responses = [] } in
    let (quiet_string, quiet_array) = quiet buf in
    rw (
      split_by-put_all (server_splitter buf) quiet_string quiet_array buf rs (suc (length buf))
          (length buf) start (omega arith) (omega arith) w refl,
      finals-respond_all buf rs 0 [] refl,
    )
