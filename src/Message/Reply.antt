-- ===== src/Message/Reply.antt =====
-- The messages of the protocol as trees, how each is written, and the events that its scan makes.
pub mod Visit
pub mod Width
use Prim.Native.Nat.{max}
use redis_cerberus.Prelude.{ℕ, suc, ◌+◌, Bool, true, false, [], ◌∷◌, ◌++◌, Bytes, length, ◌≢◌}
use redis_cerberus.Prelude.Int.{pos}
use redis_cerberus.Text.Decimal.{str}
use redis_cerberus.Message.Outcome.{ok}
use redis_cerberus.Message.Splitter.{
  Final, Method, Splitter, ◌>>=◌, call_on_string, on_element, on_arr,
}

mutual
  pub data Reply : Type 0 where
    status : Bytes → Reply
    error : Bytes → Reply
    integer : Bool → ℕ → Reply
    bulk : Bytes → Reply
    nil_bulk : Reply
    nil_array : Reply
    array : Replies → Reply

  pub data Replies : Type 0 where
    none_left : Replies
    more : Reply → Replies → Replies

abbrev pub count : Replies → ℕ
count none_left = 0
count (more r rs) = suc (count rs)

abbrev pub crlf : Bytes → Bytes
crlf rest = b'\r' ∷ b'\n' ∷ rest

-- Each message in front of the bytes that follow it.
unfoldable mutual
  pub put : Reply → Bytes → Bytes
  put (status b) rest = b'+' ∷ (b ++ crlf rest)
  put (error b) rest = b'-' ∷ (b ++ crlf rest)
  put (integer true n) rest = b':' ∷ b'-' ∷ (str n ++ crlf rest)
  put (integer false n) rest = b':' ∷ (str n ++ crlf rest)
  put (bulk b) rest = b'$' ∷ (str (length b) ++ crlf (b ++ crlf rest))
  put nil_bulk rest = b'$' ∷ b'-' ∷ b'1' ∷ crlf rest
  put nil_array rest = b'*' ∷ b'-' ∷ b'1' ∷ crlf rest
  put (array rs) rest = b'*' ∷ (str (count rs) ++ crlf (put_all rs rest))

  pub put_all : Replies → Bytes → Bytes
  put_all none_left rest = rest
  put_all (more r rs) rest = put r (put_all rs rest)

-- The number of bytes that a message takes.
unfoldable mutual
  pub width : Reply → ℕ
  width (status b) = length b + 3
  width (error b) = length b + 3
  width (integer true n) = length (str n) + 4
  width (integer false n) = length (str n) + 3
  width (bulk b) = length (str (length b)) + 3 + (length b + 2)
  width nil_bulk = 5
  width nil_array = 5
  width (array rs) = length (str (count rs)) + 3 + width_all rs

  pub width_all : Replies → ℕ
  width_all none_left = 0
  width_all (more r rs) = width r + width_all rs

-- Lines hold no carriage return; a text with its length in front may hold anything.
abbrev pub IsLine : Bytes → Type 0
IsLine [] = Unit
IsLine (b ∷ bs) = (b ≢ b'\r') × IsLine bs

unfoldable mutual
  pub IsReply : Reply → Type 0
  IsReply (status b) = IsLine b
  IsReply (error b) = IsLine b
  IsReply (integer _ _) = Unit
  IsReply (bulk _) = Unit
  IsReply nil_bulk = Unit
  IsReply nil_array = Unit
  IsReply (array rs) = AreReplies rs

  pub AreReplies : Replies → Type 0
  AreReplies none_left = Unit
  AreReplies (more r rs) = IsReply r × AreReplies rs

-- How deep arrays are nested.
unfoldable mutual
  pub depth : Reply → ℕ
  depth (array rs) = suc (depth_all rs)
  depth _ = 0

  pub depth_all : Replies → ℕ
  depth_all none_left = 0
  depth_all (more r rs) = max (depth r) (depth_all rs)

-- The events of a message that starts at `p`, in the order of the source's calls.
module _ {F : Type 0} (v : Final F) where
  abbrev element_end : ℕ → Method F (Unit {0})
  element_end p s = (ok tt, on_element v p s)

  unfoldable mutual
    pub visit : ℕ → Reply → Method F (Unit {0})
    visit p (status b) =
        call_on_string v (p + 1) (p + 1 + length b) >>= λ _. element_end (p + width (status b))
    visit p (error b) = λ s.
        element_end (p + width (error b))
          (record s { final = v.on_error (p + 1) (p + 1 + length b) s.final })
    visit p (integer minus n) = element_end (p + width (integer minus n))
    visit p (bulk b) =
        let begin = p + (length (str (length b)) + 3) in
        call_on_string v begin (begin + length b) >>= λ _. element_end (p + width (bulk b))
    visit p nil_bulk = element_end (p + 5)
    visit p nil_array = element_end (p + 5)
    visit p (array rs) =
        let begin = p + (length (str (count rs)) + 3) in
        on_arr v (pos (count rs)) begin >>= λ _. visit_all begin rs

    pub visit_all : ℕ → Replies → Method F (Unit {0})
    visit_all p none_left = λ s. (ok tt, s)
    visit_all p (more r rs) = visit p r >>= λ _. visit_all (p + width r) rs
