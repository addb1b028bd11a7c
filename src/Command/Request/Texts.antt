-- ===== src/Command/Request/Texts.antt =====
-- core/command.cpp, `ClientCommandSplitter`: what the functions behind `_on_str` make of a request's texts, one after another.
use redis_cerberus.Prelude.{
  ℕ, ◌+◌, false, List, [], ◌∷◌, ◌++◌, append_assoc, append-nil, map, Bytes, length, drop, slice,
  slice-piece, ltb, some, ◌≡◌, refl, subst, ◌∙◌, arith,
}
use redis_cerberus.SlotCalc.{slot_of}
use redis_cerberus.Text.Compare.{to_upper}
use redis_cerberus.Text.Decimal.{str}
use redis_cerberus.Message.Outcome.{ok}
use redis_cerberus.Message.Reply.{Reply, bulk, put, put_all, width, crlf, count}
use redis_cerberus.Message.Reply.Visit.{drop-put, line_past}
use redis_cerberus.Message.Reply.Width.{length-put, put-append}
use redis_cerberus.Message.Request.{bulks, request, args_begin, text_begin, Reads}
use redis_cerberus.Command.Parser.Range.{range}
use redis_cerberus.Command.Parser.Keys.{EachKey, command_header, each_key_on_str, each_key_commands}
use redis_cerberus.Command.Request.{each_key_command}
use redis_cerberus.Command.Splitter.{
  Environment, ClientCommands, on_command_head, on_string_nop, special_parser_on_str,
  special_on_str, parser_on_str, SpecialParser, client_splitter, on_string_by, command_head,
  select_command_parser,
}

-- The bytes of the text behind its length.
pub slice_text :
    (buf : Bytes) (p : ℕ) (b rest : Bytes)
    → drop p buf ≡ put (bulk b) rest
    → slice buf (text_begin p b) (text_begin p b + length b) ≡ b
unfolding put
slice_text buf p b rest e =
    slice-piece (text_begin p b) buf b (crlf rest)
      (line_past buf p _ (b'$' ∷ str (length b)) (b ++ crlf rest) (omega arith) e)

pub range_text :
    (buf : Bytes) (p : ℕ) (b rest : Bytes)
    → drop p buf ≡ put (bulk b) rest
    → range buf (text_begin p b) (text_begin p b + length b) ≡ ok b
unfolding range
range_text buf p b rest e =
    let forward : ltb (text_begin p b + length b) (text_begin p b) ≡ false = ground arith in
    rw (forward, slice_text buf p b rest e)

-- A text's last two bytes end where the next argument begins.
pub text_end : (p : ℕ) (b : Bytes) → text_begin p b + length b + 2 ≡ p + width (bulk b)
unfolding width
text_end p b = omega arith

-- The arguments of a request behind their number.
pub drop-args :
    (buf : Bytes) (p : ℕ) (args : List Bytes) (rest : Bytes)
    → drop p buf ≡ put (request args) rest
    → drop (args_begin p args) buf ≡ put_all (bulks args) rest
unfolding put
drop-args buf p args rest e =
    line_past buf p _ (b'*' ∷ str (count (bulks args))) (put_all (bulks args) rest) (omega arith) e

pub drop-arg :
    (buf : Bytes) (p : ℕ) (b : Bytes) (bs : List Bytes) (rest : Bytes)
    → drop p buf ≡ put_all (bulks (b ∷ bs)) rest
    → drop p buf ≡ put (bulk b) (put_all (bulks bs) rest)
unfolding put
drop-arg buf p b bs rest e = e

pub drop-more :
    (buf : Bytes) (p : ℕ) (b : Bytes) (bs : List Bytes) (rest : Bytes)
    → drop p buf ≡ put_all (bulks (b ∷ bs)) rest
    → drop (p + width (bulk b)) buf ≡ put_all (bulks bs) rest
unfolding put
drop-more buf p b bs rest e = drop-put (bulk b) buf p (put_all (bulks bs) rest) e

-- The bytes of a message lie between its ends.
pub slice-put :
    (buf : Bytes) (r : Reply) (p : ℕ) (rest : Bytes)
    → drop p buf ≡ put r rest
    → slice buf p (p + width r) ≡ put r []
slice-put buf r p rest e =
    let size : length (put r []) ≡ width r = omega (arith, length-put r []) in
    rw (← size) (slice-piece p buf (put r []) rest (e ∙ put-append r [] rest))

-- Where each text ends, its last two bytes included.
unfoldable pub ends : ℕ → List Bytes → List ℕ
ends p [] = []
ends p (b ∷ bs) = (p + width (bulk b)) ∷ ends (p + width (bulk b)) bs

pub each_key_commands-ends :
    (buf : Bytes) (kind : EachKey) (keys : List Bytes) (p : ℕ) (rest : Bytes)
    → drop p buf ≡ put_all (bulks keys) rest
    → each_key_commands buf (command_header kind) (p ∷ ends p keys) (map slot_of keys)
      ≡ map (each_key_command kind) keys
unfolding each_key_commands ends
each_key_commands-ends buf kind [] p rest e = refl
each_key_commands-ends buf kind (key ∷ keys) p rest e =
    rw
      (
        slice-put buf (bulk key) p (put_all (bulks keys) rest) (drop-arg buf p key keys rest e),
        each_key_commands-ends buf kind keys (p + width (bulk key)) rest
            (drop-more buf p key keys rest e),
      )
      refl

module _ (env : Environment) (buf : Bytes) where
  -- Texts that no parser looks at.
  pub Reads-nop :
      (bs : List Bytes) (p : ℕ) (f : ClientCommands)
      → f.on_str ≡ on_string_nop
      → Reads (client_splitter env buf) p bs f f
  unfolding client_splitter on_string_by
  Reads-nop [] p f n = refl
  Reads-nop (b ∷ bs) p f n = (f, rw (n, on_string_by), Reads-nop bs (p + width (bulk b)) f n)

  pub on_string-head :
      (p : ℕ) (name rest : Bytes) (f : ClientCommands)
      → f.on_str ≡ on_command_head
      → drop p buf ≡ put (bulk name) rest
      → (client_splitter env buf).on_string (text_begin p name) (text_begin p name + length name) f
        ≡ ok (select_command_parser env buf (map to_upper name) (text_begin p name + length name) f)
  unfolding client_splitter on_string_by command_head
  on_string-head p name rest f n e = rw (n, range_text buf p name rest e)

  -- The parser of each key, with the points and slots it has so far.
  unfoldable pub gathering : EachKey → List ℕ → List ℕ → ClientCommands → ClientCommands
  gathering kind points slots f = record f {
    on_str = special_parser_on_str;
    special_parser = some (
        SpecialParser.each_parser
          (record { kind = kind; keys_split_points = points; keys_slots = slots }));
  }

  on_string-gathering :
      (p : ℕ) (key rest : Bytes) (kind : EachKey) (points slots : List ℕ) (f : ClientCommands)
      → drop p buf ≡ put (bulk key) rest
      → (client_splitter env buf).on_string
          (text_begin p key)
          (text_begin p key + length key)
          (gathering kind points slots f)
        ≡ ok (gathering kind (points ++ (p + width (bulk key)) ∷ []) (slots ++ slot_of key ∷ []) f)
  unfolding client_splitter on_string_by special_on_str parser_on_str each_key_on_str gathering
  on_string-gathering p key rest kind points slots f e =
      rw (range_text buf p key rest e, text_end p key)

  pub Reads-gathering :
      (keys : List Bytes) (p : ℕ) (rest : Bytes) (kind : EachKey) (points slots : List ℕ)
      (f : ClientCommands)
      → drop p buf ≡ put_all (bulks keys) rest
      → Reads
          (client_splitter env buf)
          p
          keys
          (gathering kind points slots f)
          (gathering kind (points ++ ends p keys) (slots ++ map slot_of keys) f)
  unfolding ends
  Reads-gathering [] p rest kind points slots f e = rw (append-nil points, append-nil slots)
  Reads-gathering (key ∷ keys) p rest kind points slots f e =
      let q = p + width (bulk key) in
      let joined : gathering kind ((points ++ q ∷ []) ++ ends q keys)
            ((slots ++ slot_of key ∷ []) ++ map slot_of keys) f
          ≡ gathering kind (points ++ q ∷ ends q keys) (slots ++ slot_of key ∷ map slot_of keys) f =
        rw
          (
            append_assoc points (q ∷ []) (ends q keys),
            append_assoc slots (slot_of key ∷ []) (map slot_of keys),
          )
          refl in
      (
        gathering kind (points ++ q ∷ []) (slots ++ slot_of key ∷ []) f,
        on_string-gathering p key _ kind points slots f (drop-arg buf p key keys rest e),
        subst
            (Reads (client_splitter env buf) q keys
              (gathering kind (points ++ q ∷ []) (slots ++ slot_of key ∷ []) f))
            joined
            (Reads-gathering keys q rest kind (points ++ q ∷ []) (slots ++ slot_of key ∷ []) f
              (drop-more buf p key keys rest e)),
      )
