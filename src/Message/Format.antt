-- ===== src/Message/Format.antt =====
-- core/message.cpp: `format_command`, which writes a command as a request.
use redis_cerberus.Prelude.{
  ℕ, ◌+◌, ◌-◌, ◌<◌, ◌^◌, ◌%◌, List, [], ◌∷◌, ◌++◌, Bytes, codes, length, append_assoc, ltb,
  if◌then◌else◌, ◌≡◌, refl, sym, ap, ◌∙◌, arith,
}
use redis_cerberus.Prelude.Int.{ℤ, pos, negsuc}
use redis_cerberus.Text.Decimal.{str}
use redis_cerberus.Text.HostPort.{int_str}
use redis_cerberus.Text.Split.{join, join_rest}
use redis_cerberus.Message.Reply.{put, put_all, crlf, count}
use redis_cerberus.Message.Request.{bulks, request, count-bulks}

-- `int(n)` of a size, in 32 bits.
abbrev pub int_of : ℕ → ℤ
int_of n = if ltb (n % 2 ^ 32) (2 ^ 31) then pos (n % 2 ^ 32) else negsuc (2 ^ 32 - n % 2 ^ 32 - 1)

abbrev size_str : ℕ → Bytes
size_str n = int_str (int_of n)

-- The loop over the arguments.
abbrev pub push_args : List Bytes → List Bytes
push_args [] = []
push_args (s ∷ args) = (b'$' ∷ size_str (length s)) ∷ s ∷ push_args args

unfoldable pub format_command : Bytes → List Bytes → Bytes
unfolding join
format_command command args =
    join (codes "\r\n") (
      (b'*' ∷ size_str (length args + 1))
      ∷ (b'$' ∷ size_str (length command))
      ∷ command
      ∷ push_args args)
    ++ codes "\r\n"

-- Sizes that an `int` holds.
abbrev pub AreInts : List Bytes → Type 0
AreInts [] = Unit
AreInts (s ∷ args) = (length s < 2 ^ 31) × AreInts args

int_of-small : (n : ℕ) → n < 2 ^ 31 → int_of n ≡ pos n
int_of-small n h = ground arith

size_str-small : (n : ℕ) → n < 2 ^ 31 → size_str n ≡ str n
unfolding int_str
size_str-small n h = rw (int_of-small n h) refl

join_rest-push_args :
    (args : List Bytes) (rest : Bytes)
    → AreInts args
    → join_rest (codes "\r\n") (push_args args) ++ crlf rest ≡ crlf (put_all (bulks args) rest)
unfolding put
join_rest-push_args [] rest h = refl
join_rest-push_args (s ∷ args) rest (h, hs) =
    ap (λ (t : Bytes). b'\r' ∷ b'\n' ∷ b'$' ∷ t)
      (rw (size_str-small (length s) h) (
        append_assoc (str (length s))
          (b'\r' ∷ b'\n' ∷ (s ++ join_rest (codes "\r\n") (push_args args))) (crlf rest)
        ∙ ap (λ (t : Bytes). str (length s) ++ b'\r' ∷ b'\n' ∷ t)
            (append_assoc s (join_rest (codes "\r\n") (push_args args)) (crlf rest)
              ∙ ap (◌++◌ s) (join_rest-push_args args rest hs))))

-- `format_command` writes the request of the command and its arguments, as the splitters read it, where
-- the number of texts and their sizes are those of an `int`.
pub format_command-put :
    (command : Bytes) (args : List Bytes)
    → length args + 1 < 2 ^ 31
    → AreInts (command ∷ args)
    → format_command command args ≡ put (request (command ∷ args)) []
unfolding format_command put
format_command-put command args few (h, hs) =
    let number : count (bulks (command ∷ args)) ≡ length args + 1 =
      omega (arith, count-bulks args) in
    let j = join_rest (codes "\r\n") (push_args args) in
    let Head = λ (n : ℕ) (t : Bytes). b'*' ∷ (str n ++ crlf (b'$' ∷ t)) in
    let texts =
      append_assoc (str (length command)) (b'\r' ∷ b'\n' ∷ (command ++ j)) (crlf [])
      ∙ ap (λ (t : Bytes). str (length command) ++ b'\r' ∷ b'\n' ∷ t)
          (append_assoc command j (crlf []) ∙ ap (◌++◌ command) (join_rest-push_args args [] hs)) in
    rw (size_str-small (length args + 1) few, size_str-small (length command) h)
      (ap (◌∷◌ b'*') (
          append_assoc (str (length args + 1))
            (b'\r' ∷ b'\n' ∷ b'$' ∷ (str (length command) ++ b'\r' ∷ b'\n' ∷ (command ++ j)))
            (crlf []))
        ∙ ap (Head (length args + 1)) texts
        ∙ ap
            (λ n. Head n (str (length command) ++ crlf (command ++ crlf (put_all (bulks args) []))))
            (sym number))
