-- ===== src/Command/Request/Serve.antt =====
-- core/command.cpp, `ClientCommandSplitter`: one request between others, from its first text to the
-- group that is made at its end.
use redis_cerberus.Prelude.{
  ℕ, ◌+◌, true, false, List, [], ◌∷◌, ◌++◌, map, Bytes, length, drop, none, some, ◌≡◌, refl, ap,
  ◌∙◌,
}
use redis_cerberus.SlotCalc.{slot_of, reset, next_bytes}
use redis_cerberus.Text.Compare.{to_upper}
use redis_cerberus.Message.Outcome.{ok}
use redis_cerberus.Message.Reply.{bulk, put, put_all, width}
use redis_cerberus.Message.Request.{bulks, request, args_begin, text_begin, Reads}
use redis_cerberus.Command.Table.{contains, find, standard_table, special_table}
use redis_cerberus.Command.Parser.Keys.{EachKey, make_group, each_key_spawn}
use redis_cerberus.Command.Group.{Group, multiple}
use redis_cerberus.Command.Request.{Request, special_name, args_of, InTables, group_of}
use redis_cerberus.Command.Splitter.{
  Environment, ClientCommands, on_command_head, on_command_key, on_string_nop, client_commands,
  client_splitter, make_parser, command_group, spawn_commands, on_string_by, command_key,
  select_command_parser, on_split_point,
}
use redis_cerberus.Command.Request.Texts.{
  drop-args, drop-arg, drop-more, slice-put, ends, each_key_commands-ends, range_text, text_end,
  Reads-nop, on_string-head, gathering, Reads-gathering,
}
use redis_cerberus.Command.Group.{mset_group}
use redis_cerberus.Command.Table.{Special}
use redis_cerberus.Command.Parser.Keys.{mset_spawn}
use redis_cerberus.Command.Request.{Pair, flat, key_of}
use redis_cerberus.Command.Request.Pairs.{mset_commands-ends, pairing, Reads-pairing}

module _ (env : Environment) (buf : Bytes) where
  -- The splitter between requests, with the groups it made so far.
  abbrev pub between : ℕ → List Group → ClientCommands
  between p gs = record (client_commands p) { groups = gs }

  -- The state at the end of a request, from which its group is made.
  unfoldable pub ServesOne : ℕ → List Group → Request → Type 0
  ServesOne p gs r =
      (h : ClientCommands) × Reads (client_splitter env buf) (args_begin p (args_of r)) (args_of r)
        (between p gs) h
      × (on_split_point env buf (p + width (request (args_of r))) h
          ≡ between (p + width (request (args_of r))) (gs ++ group_of r ∷ []))

  select-standard :
      (cmd : Bytes) (last : ℕ) (f : ClientCommands)
      → contains (standard_table env.writes) cmd ≡ true
      → select_command_parser env buf cmd last f
        ≡ record f { last_command_is_bad = true; on_str = on_command_key }
  unfolding select_command_parser
  select-standard cmd last f t = rw t

  select-unknown :
      (cmd : Bytes) (last : ℕ) (f : ClientCommands)
      → contains (standard_table env.writes) cmd ≡ false
      → find (special_table env.writes) cmd ≡ none
      → select_command_parser env buf cmd last f
        ≡ record f { last_command_is_bad = true; on_str = on_string_nop }
  unfolding select_command_parser
  select-unknown cmd last f t u = rw (t, u)

  select-each_key :
      (cmd : Bytes) (last : ℕ) (f : ClientCommands) (kind : EachKey)
      → contains (standard_table env.writes) cmd ≡ false
      → find (special_table env.writes) cmd ≡ some (special_name kind)
      → select_command_parser env buf cmd last f ≡ gathering env buf kind ((last + 2) ∷ []) [] f
  unfolding select_command_parser gathering make_parser
  select-each_key cmd last f EachKey.mget t u = rw (t, u)
  select-each_key cmd last f EachKey.del t u = rw (t, u)

  -- The name selects a parser, and the arguments go to that.
  Reads-head :
      (name : Bytes) (args : List Bytes) (p : ℕ) (rest : Bytes) (f g h : ClientCommands)
      → f.on_str ≡ on_command_head
      → drop p buf ≡ put_all (bulks (name ∷ args)) rest
      → select_command_parser env buf (map to_upper name) (text_begin p name + length name) f ≡ h
      → Reads (client_splitter env buf) (p + width (bulk name)) args h g
      → Reads (client_splitter env buf) p (name ∷ args) f g
  Reads-head name args p rest f g h n e selected reads = (
    h,
    on_string-head env buf p name (put_all (bulks args) rest) f n (drop-arg buf p name args rest e)
        ∙ ap ok selected,
    reads,
  )

  on_string-key :
      (p : ℕ) (key rest : Bytes) (f : ClientCommands)
      → f.on_str ≡ on_command_key
      → drop p buf ≡ put (bulk key) rest
      → (client_splitter env buf).on_string (text_begin p key) (text_begin p key + length key) f
        ≡ ok (record f {
          last_command_is_bad = false;
          on_str = on_string_nop;
          slot_calc = next_bytes f.slot_calc key;
        })
  unfolding client_splitter on_string_by command_key
  on_string-key p key rest f n e = rw (n, range_text buf p key rest e)

  Serves-standard :
      (name : Bytes) (args : List Bytes) (p : ℕ) (gs : List Group) (rest : Bytes)
      → contains (standard_table env.writes) (map to_upper name) ≡ true
      → drop p buf ≡ put (request (name ∷ args)) rest
      → ServesOne p gs (Request.standard name args)
  unfolding ServesOne on_split_point command_group slot_of
  Serves-standard name [] p gs rest t e =
      let begin = args_begin p (name ∷ []) in
      let bad = record (between p gs) { last_command_is_bad = true; on_str = on_command_key } in
      (
        bad,
        Reads-head name [] begin rest (between p gs) bad bad refl
            (drop-args buf p (name ∷ []) rest e) (select-standard _ _ _ t) refl,
        refl,
      )
  Serves-standard name (key ∷ args) p gs rest t e =
      let all = name ∷ key ∷ args in
      let begin = args_begin p all in
      let bad = record (between p gs) { last_command_is_bad = true; on_str = on_command_key } in
      let good = record bad {
        last_command_is_bad = false;
        on_str = on_string_nop;
        slot_calc = next_bytes reset key;
      } in
      let q = begin + width (bulk name) in
      let behind = drop-more buf begin name (key ∷ args) rest (drop-args buf p all rest e) in
      (
        good,
        Reads-head name (key ∷ args) begin rest (between p gs) good bad refl
            (drop-args buf p all rest e) (select-standard _ _ _ t)
            (
              good,
              on_string-key q key (put_all (bulks args) rest) bad refl
                  (drop-arg buf q key args rest behind),
              Reads-nop env buf args (q + width (bulk key)) good refl,
            ),
        rw (slice-put buf (request all) p rest e) refl,
      )

  Serves-unknown :
      (name : Bytes) (args : List Bytes) (p : ℕ) (gs : List Group) (rest : Bytes)
      → contains (standard_table env.writes) (map to_upper name) ≡ false
      → find (special_table env.writes) (map to_upper name) ≡ none
      → drop p buf ≡ put (request (name ∷ args)) rest
      → ServesOne p gs (Request.unknown name args)
  unfolding ServesOne on_split_point command_group
  Serves-unknown name args p gs rest t u e =
      let begin = args_begin p (name ∷ args) in
      let bad = record (between p gs) { last_command_is_bad = true; on_str = on_string_nop } in
      (
        bad,
        Reads-head name args begin rest (between p gs) bad bad refl
            (drop-args buf p (name ∷ args) rest e) (select-unknown _ _ _ t u)
            (Reads-nop env buf args _ bad refl),
        refl,
      )

  each_key_spawn-ends :
      (kind : EachKey) (keys : List Bytes) (name : Bytes) (p : ℕ) (rest : Bytes)
      → drop p buf ≡ put_all (bulks keys) rest
      → each_key_spawn buf (record {
        kind = kind;
        keys_split_points = p ∷ ends p keys;
        keys_slots = map slot_of keys;
      })
        ≡ group_of (Request.each_key kind name keys)
  unfolding each_key_spawn
  each_key_spawn-ends kind [] name p rest e = refl
  each_key_spawn-ends kind (key ∷ keys) name p rest e =
      ap (multiple (make_group kind)) (each_key_commands-ends buf kind (key ∷ keys) p rest e)

  Serves-each_key :
      (kind : EachKey) (name : Bytes) (keys : List Bytes) (p : ℕ) (gs : List Group) (rest : Bytes)
      → contains (standard_table env.writes) (map to_upper name) ≡ false
      → find (special_table env.writes) (map to_upper name) ≡ some (special_name kind)
      → drop p buf ≡ put (request (name ∷ keys)) rest
      → ServesOne p gs (Request.each_key kind name keys)
  unfolding ServesOne on_split_point command_group gathering spawn_commands
  Serves-each_key kind name keys p gs rest t u e =
      let begin = args_begin p (name ∷ keys) in
      let q = begin + width (bulk name) in
      let behind = drop-more buf begin name keys rest (drop-args buf p (name ∷ keys) rest e) in
      let start = between p gs in
      let done = gathering env buf kind (q ∷ ends q keys) (map slot_of keys) start in
      (
        done,
        Reads-head name keys begin rest start done (gathering env buf kind (q ∷ []) [] start) refl
            (drop-args buf p (name ∷ keys) rest e)
            (select-each_key _ _ _ kind t u
              ∙ ap (λ x. gathering env buf kind (x ∷ []) [] start) (text_end begin name))
            (Reads-gathering env buf keys q rest kind (q ∷ []) [] start behind),
        rw (each_key_spawn-ends kind keys name q rest behind) refl,
      )

  select-mset :
      (cmd : Bytes) (last : ℕ) (f : ClientCommands)
      → contains (standard_table env.writes) cmd ≡ false
      → find (special_table env.writes) cmd ≡ some Special.mset
      → select_command_parser env buf cmd last f ≡ pairing env buf true ((last + 2) ∷ []) [] f
  unfolding select_command_parser pairing make_parser
  select-mset cmd last f t u = rw (t, u)

  mset_spawn-ends :
      (kvs : List Pair) (name : Bytes) (p : ℕ) (rest : Bytes)
      → drop p buf ≡ put_all (bulks (flat kvs)) rest
      → mset_spawn buf (record {
        kv_split_points = p ∷ ends p (flat kvs);
        keys_slots = map key_of kvs;
        current_is_key = true;
      })
        ≡ group_of (Request.mset name kvs)
  unfolding mset_spawn
  mset_spawn-ends [] name p rest e = refl
  mset_spawn-ends (kv ∷ kvs) name p rest e =
      ap (multiple mset_group) (mset_commands-ends buf (kv ∷ kvs) p rest e)

  Serves-mset :
      (name : Bytes) (kvs : List Pair) (p : ℕ) (gs : List Group) (rest : Bytes)
      → contains (standard_table env.writes) (map to_upper name) ≡ false
      → find (special_table env.writes) (map to_upper name) ≡ some Special.mset
      → drop p buf ≡ put (request (name ∷ flat kvs)) rest
      → ServesOne p gs (Request.mset name kvs)
  unfolding ServesOne on_split_point command_group pairing spawn_commands
  Serves-mset name kvs p gs rest t u e =
      let begin = args_begin p (name ∷ flat kvs) in
      let q = begin + width (bulk name) in
      let behind =
        drop-more buf begin name (flat kvs) rest (drop-args buf p (name ∷ flat kvs) rest e) in
      let start = between p gs in
      let done = pairing env buf true (q ∷ ends q (flat kvs)) (map key_of kvs) start in
      (
        done,
        Reads-head name (flat kvs) begin rest start done (pairing env buf true (q ∷ []) [] start)
            refl (drop-args buf p (name ∷ flat kvs) rest e)
            (select-mset _ _ _ t u
              ∙ ap (λ x. pairing env buf true (x ∷ []) [] start) (text_end begin name))
            (Reads-pairing env buf kvs q rest (q ∷ []) [] start behind),
        rw (mset_spawn-ends kvs name q rest behind) refl,
      )

  pub Serves-one :
      (r : Request) (p : ℕ) (gs : List Group) (rest : Bytes)
      → InTables env.writes r
      → drop p buf ≡ put (request (args_of r)) rest
      → ServesOne p gs r
  Serves-one (Request.standard name args) p gs rest t e = Serves-standard name args p gs rest t e
  Serves-one (Request.unknown name args) p gs rest (t, u) e =
      Serves-unknown name args p gs rest t u e
  Serves-one (Request.each_key kind name keys) p gs rest (t, u) e =
      Serves-each_key kind name keys p gs rest t u e
  Serves-one (Request.mset name kvs) p gs rest (t, u) e = Serves-mset name kvs p gs rest t u e
