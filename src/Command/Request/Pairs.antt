-- ===== src/Command/Request/Pairs.antt =====
-- core/command.cpp, `MSetCommandParser`: what the parser of MSET makes of a request's keys and values.
use redis_cerberus.Prelude.{
  ℕ, ◌+◌, Bool, true, false, List, [], ◌∷◌, ◌++◌, append_assoc, append-nil, map, Bytes, length,
  drop, slice, slice-piece, some, ◌≡◌, refl, ap, subst, ◌∙◌, arith,
}
use redis_cerberus.SlotCalc.{slot_of}
use redis_cerberus.Message.Outcome.{ok}
use redis_cerberus.Message.Reply.{bulk, put, put_all, width}
use redis_cerberus.Message.Reply.Width.{length-put, put-append}
use redis_cerberus.Message.Request.{bulks, text_begin, Reads}
use redis_cerberus.Command.Parser.Keys.{mset_key_slots, mset_on_str, mset_commands}
use redis_cerberus.Command.Splitter.{
  Environment, ClientCommands, SpecialParser, special_parser_on_str, special_on_str, parser_on_str,
  client_splitter, on_string_by,
}
use redis_cerberus.Command.Request.{Pair, flat, key_of, set_command}
use redis_cerberus.Command.Request.Texts.{range_text, text_end, drop-arg, drop-more, ends}

-- The bytes of two messages, one behind the other.
slice-two :
    (buf : Bytes) (k v : Bytes) (p : ℕ) (rest : Bytes)
    → drop p buf ≡ put (bulk k) (put (bulk v) rest)
    → slice buf p (p + width (bulk k) + width (bulk v)) ≡ put (bulk k) (put (bulk v) [])
slice-two buf k v p rest e =
    let both = put (bulk k) (put (bulk v) []) in
    let whole : put (bulk k) (put (bulk v) rest) ≡ both ++ rest =
      ap (put (bulk k)) (put-append (bulk v) [] rest)
      ∙ put-append (bulk k) (put (bulk v) []) rest in
    let size : p + length both ≡ p + width (bulk k) + width (bulk v) =
      omega (arith, length-put (bulk k) (put (bulk v) []), length-put (bulk v) []) in
    rw (← size) (slice-piece p buf both rest (e ∙ whole))

pub mset_commands-ends :
    (buf : Bytes) (kvs : List Pair) (p : ℕ) (rest : Bytes)
    → drop p buf ≡ put_all (bulks (flat kvs)) rest
    → mset_commands buf (p ∷ ends p (flat kvs)) (map key_of kvs) ≡ map set_command kvs
unfolding mset_commands ends put
mset_commands-ends buf [] p rest e = refl
mset_commands-ends buf ((k, v) ∷ kvs) p rest e =
    let second = drop-more buf p k (v ∷ flat kvs) rest e in
    let q = p + width (bulk k) in
    rw
      (
        slice-two buf k v p (put_all (bulks (flat kvs)) rest)
            (drop-arg buf p k (v ∷ flat kvs) rest e),
        mset_commands-ends buf kvs (q + width (bulk v)) rest
            (drop-more buf q v (flat kvs) rest second),
      )
      refl

module _ (env : Environment) (buf : Bytes) where
  -- The parser of keys and values, with the points and slots it has so far.
  unfoldable pub pairing : Bool → List ℕ → List ℕ → ClientCommands → ClientCommands
  pairing is_key points slots f = record f {
    on_str = special_parser_on_str;
    special_parser = some (
        SpecialParser.pairs_parser
          (record { kv_split_points = points; keys_slots = slots; current_is_key = is_key }));
  }

  on_string-pairing_key :
      (p : ℕ) (key rest : Bytes) (points slots : List ℕ) (f : ClientCommands)
      → drop p buf ≡ put (bulk key) rest
      → (client_splitter env buf).on_string
          (text_begin p key)
          (text_begin p key + length key)
          (pairing true points slots f)
        ≡ ok (pairing false (points ++ (p + width (bulk key)) ∷ []) (slots ++ slot_of key ∷ []) f)
  unfolding client_splitter on_string_by special_on_str parser_on_str mset_on_str mset_key_slots
      pairing
  on_string-pairing_key p key rest points slots f e =
      rw (range_text buf p key rest e, text_end p key)

  on_string-pairing_value :
      (p : ℕ) (value : Bytes) (points slots : List ℕ) (f : ClientCommands)
      → (client_splitter env buf).on_string
          (text_begin p value)
          (text_begin p value + length value)
          (pairing false points slots f)
        ≡ ok (pairing true (points ++ (p + width (bulk value)) ∷ []) slots f)
  unfolding client_splitter on_string_by special_on_str parser_on_str mset_on_str mset_key_slots
      pairing
  on_string-pairing_value p value points slots f = rw (text_end p value)

  pub Reads-pairing :
      (kvs : List Pair) (p : ℕ) (rest : Bytes) (points slots : List ℕ) (f : ClientCommands)
      → drop p buf ≡ put_all (bulks (flat kvs)) rest
      → Reads
          (client_splitter env buf)
          p
          (flat kvs)
          (pairing true points slots f)
          (pairing true (points ++ ends p (flat kvs)) (slots ++ map key_of kvs) f)
  unfolding ends
  Reads-pairing [] p rest points slots f e = rw (append-nil points, append-nil slots)
  Reads-pairing ((k, v) ∷ kvs) p rest points slots f e =
      let q = p + width (bulk k) in
      let r = q + width (bulk v) in
      let first = points ++ q ∷ [] in
      let both = first ++ r ∷ [] in
      let keys = slots ++ slot_of k ∷ [] in
      let joined : pairing true (both ++ ends r (flat kvs)) (keys ++ map key_of kvs) f
          ≡ pairing true (points ++ q ∷ r ∷ ends r (flat kvs)) (slots ++ slot_of k ∷ map key_of kvs)
              f =
        rw
          (
            append_assoc first (r ∷ []) (ends r (flat kvs)),
            append_assoc points (q ∷ []) (r ∷ ends r (flat kvs)),
            append_assoc slots (slot_of k ∷ []) (map key_of kvs),
          )
          refl in
      let second = drop-more buf p k (v ∷ flat kvs) rest e in
      (
        pairing false first keys f,
        on_string-pairing_key p k _ points slots f (drop-arg buf p k (v ∷ flat kvs) rest e),
        (
          pairing true both keys f,
          on_string-pairing_value q v first keys f,
          subst (Reads (client_splitter env buf) r (flat kvs) (pairing true both keys f)) joined
              (Reads-pairing kvs r rest both keys f (drop-more buf q v (flat kvs) rest second)),
        ),
      )
