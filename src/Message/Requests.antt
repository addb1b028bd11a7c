-- ===== src/Message/Requests.antt =====
-- core/message.hpp: `split_by` over a sequence of whole requests, whatever the derived class does with their texts.
use redis_cerberus.Prelude.{
  ℕ, zero, suc, ◌+◌, ◌≤◌, ◌<◌, false, List, [], ◌∷◌, Bytes, length, drop, ◌≡◌, refl, ap, ◌∙◌, arith,
}
use redis_cerberus.Prelude.Int.{pos}
use redis_cerberus.Message.Outcome.{ok}
use redis_cerberus.Message.Splitter.{Final, Splitter, on_element, split_loop, split_by, caught}
use redis_cerberus.Message.Split.{ends_after, split_loop-end, split_loop-suc}
use redis_cerberus.Message.Request.{bulks, request, args_begin, Reads, visit-request}
use redis_cerberus.Message.Reply.{
  Replies, none_left, more, count, put, put_all, width, width_all, IsReply, AreReplies, depth,
  depth_all,
}
use redis_cerberus.Message.Reply.Visit.{parse-visit, drop-put, put_cons, inside}

abbrev pub requests : List (List Bytes) → Replies
requests [] = none_left
requests (r ∷ rs) = more (request r) (requests rs)

bulks-AreReplies : (bs : List Bytes) → AreReplies (bulks bs)
unfolding IsReply
bulks-AreReplies [] = tt
bulks-AreReplies (b ∷ bs) = (tt, bulks-AreReplies bs)

request-IsReply : (args : List Bytes) → IsReply (request args)
unfolding IsReply
request-IsReply args = bulks-AreReplies args

module _ {F : Type 0} (v : Final F) (buf : Bytes) where
  -- The derived state from before the requests at `p` to behind them.
  abbrev pub Serves : ℕ → List (List Bytes) → F → F → Type 0
  Serves p [] f g = f ≡ g
  Serves p (args ∷ rest) f g =
      (0 < length args)
      × (v.on_array (pos (count (bulks args))) [] f ≡ ok f)
      × (h : F) × Reads v (args_begin p args) args f h
      × Serves (p + width (request args)) rest (v.on_split_point p (p + width (request args)) h) g

  -- The splitter outside of every request, with its last split point at `p`.
  abbrev at : ℕ → List ℕ → F → Splitter F
  at p points f = record { interrupted = false; split_points = p ∷ points; nested = []; final = f }

  on_element-at :
      (q p : ℕ) (points : List ℕ) (f : F)
      → on_element v q (at p points f) ≡ record {
        interrupted = false;
        split_points = q ∷ p ∷ points;
        nested = [];
        final = v.on_split_point p q f;
      }
  unfolding on_element
  on_element-at q p points f = refl

  split_loop-requests :
      (rs : List (List Bytes)) (d fuel p : ℕ) (points : List ℕ) (f g : F)
      → count (requests rs) ≤ fuel
      → depth_all (requests rs) ≤ d
      → Serves p rs f g
      → drop p buf ≡ put_all (requests rs) []
      → split_loop v buf (suc d) fuel p (at p points f) ≡ (
        ok (p + width_all (requests rs)),
        record {
          interrupted = false;
          split_points = ends_after p (requests rs) (p ∷ points);
          nested = [];
          final = g;
        },
      )
  unfolding put width depth
  split_loop-requests [] d fuel p points f g h k w e =
      let place : p + 0 ≡ p = omega arith in
      rw (place, ← w) (split_loop-end v buf (suc d) fuel p (at p points f) e)
  split_loop-requests (r ∷ rs) d zero p points f g h k w e = absurd (omega arith)
  split_loop-requests (r ∷ rs) d (suc fuel) p points f g h k (some_args, fits, i, reads, w) e =
      let q = p + width (request r) in
      let (b, bs, c) = put_cons (request r) (put_all (requests rs) []) in
      let place : p + (width (request r) + width_all (requests rs)) ≡ q + width_all (requests rs) =
        omega arith in
      split_loop-suc v buf (suc d) fuel p (at p points f) (inside v buf p b bs (e ∙ c))
      ∙ rw
          (
            parse-visit v buf (request r) d p (put_all (requests rs) []) (at p points f)
                (omega arith) (request-IsReply r) e,
            visit-request v r p (at p points f) i some_args fits reads,
            on_element-at q p points i,
            place,
          )
          (split_loop-requests rs d fuel q (p ∷ points) _ g (omega arith) (omega arith) w
            (drop-put (request r) buf p (put_all (requests rs) []) e))

  pub split_by-requests :
      (rs : List (List Bytes)) (d fuel : ℕ) (f g : F)
      → count (requests rs) ≤ fuel
      → depth_all (requests rs) ≤ d
      → Serves 0 rs f g
      → buf ≡ put_all (requests rs) []
      → split_by v buf (suc d) fuel f
        ≡ ok (record {
          interrupted = false;
          split_points = ends_after 0 (requests rs) (0 ∷ []);
          nested = [];
          final = g;
        })
  unfolding split_by
  split_by-requests rs d fuel f g h k w e =
      ap (caught v buf) (split_loop-requests rs d fuel 0 [] f g h k w e)
