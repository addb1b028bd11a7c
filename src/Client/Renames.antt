-- ===== src/Client/Renames.antt =====
-- core/command.cpp and client.cpp: RENAME between two slots, which sends GET, SET and DEL one after the
-- other, to the servers of the slots.
use redis_cerberus.Prelude.{
  ℕ, Bool, true, false, [], Bytes, codes, none, some, ◌≡◌, refl, sym, ap, ◌∙◌,
}
use redis_cerberus.Message.Reply.{bulk, nil_bulk, error, put}
use redis_cerberus.Command.Group.{rsp_ok_str}
use redis_cerberus.Command.Parser.Rename.Steps.{
  Got, failed, missing, found, get_message, set_message, del_message, get_message-header, renaming,
  setting, deleting, answered, on_remote_responsed-found, on_remote_responsed-stored,
  on_remote_responsed-failed, on_remote_responsed-missing, on_remote_responsed-not_stored,
  on_remote_responsed-deleted,
}
use redis_cerberus.State.{multi_steps, single, Proxy}
use redis_cerberus.State.Queues.{get_server_by_slot, command_in, buffer_of_command}
use redis_cerberus.Server.{bytes_of}
use redis_cerberus.Client.Responses.{on_remote_responsed}
use redis_cerberus.Client.Queued.{only, Queued, Answered, responsed-Answered, responsed-Queued}

-- What the servers and the client get, told by the keys and by what the servers answer to GET and SET; `s`
-- is the server of the old key's slot and `d` that of the new one's.
pub Renames : ℕ → ℕ → ℕ → Bytes → Bytes → ℕ → ℕ → Got → Bytes → Bool → Bytes × Bool → Proxy → Type 0
Renames g s d old new src dst (failed text) set_rsp set_failed del p =
    Answered g (put (error text) []) p (on_remote_responsed (only g) (put (error text) []) true p)
Renames g s d old new src dst missing set_rsp set_failed del p =
    Answered g (codes "-ERR no such key\r\n") p
      (on_remote_responsed (only g) (put nil_bulk []) false p)
Renames g s d old new src dst (found value) set_rsp true del p =
    let p1 = on_remote_responsed (only g) (put (bulk value) []) false p in
    let p2 = on_remote_responsed (only g) set_rsp true p1 in
    Queued g d (setting old new src dst value) (set_message new value) p p1
    × Answered g set_rsp p1 p2
Renames g s d old new src dst (found value) set_rsp false del p =
    let p1 = on_remote_responsed (only g) (put (bulk value) []) false p in
    let p2 = on_remote_responsed (only g) set_rsp false p1 in
    let p3 = on_remote_responsed (only g) del.0 del.1 p2 in
    Queued g d (setting old new src dst value) (set_message new value) p p1
    × Queued g s (deleting old new src dst) (del_message old) p1 p2
    × Answered g rsp_ok_str p2 p3

module _ (g d : ℕ) (old new value : Bytes) (src dst : ℕ) (p : Proxy)
    (at : (p.groups g).state ≡ single (multi_steps (renaming old new src dst)) false) where
  sends-set :
      get_server_by_slot dst p ≡ some d
      → Queued g d
          (setting old new src dst value)
          (set_message new value)
          p
          (on_remote_responsed (only g) (put (bulk value) []) false p)
  sends-set there =
      responsed-Queued g (renaming old new src dst) (setting old new src dst value)
        (put (bulk value) []) false p at (on_remote_responsed-found old new src dst value) d refl
        there

asks-get :
    (g : ℕ) (old new : Bytes) (src dst : ℕ) (p : Proxy)
    → (p.groups g).state ≡ single (multi_steps (renaming old new src dst)) false
    → bytes_of p (only g) ≡ get_message old
unfolding command_in
asks-get g old new src dst p at =
    ap (λ x. elim (command_in x 0) [ none ↦ [] | some d ↦ buffer_of_command d ]) at
    ∙ sym (get_message-header old)

-- A RENAME between two slots, whose GET a server is to answer and whose slots have open servers, as its
-- answers come in one after the other with nothing between. Its command holds GET of the old key. If GET
-- is answered with an error or no value, the client is told so at once. Else the command is put to the
-- server of the new key's slot, to be sent there as SET of the value, byte for byte. If SET is
-- answered with an error the client gets it. Else the command is put to the server of the old key's
-- slot as DEL, and the client is told OK whatever the answer to DEL is, an error included.
pub on_remote_responsed-Renames :
    (g s d : ℕ) (old new : Bytes) (src dst : ℕ) (got : Got) (set_rsp : Bytes) (set_failed : Bool)
    (del : Bytes × Bool) (p : Proxy)
    → (p.groups g).state ≡ single (multi_steps (renaming old new src dst)) false
    → get_server_by_slot src p ≡ some s
    → get_server_by_slot dst p ≡ some d
    → (bytes_of p (only g) ≡ get_message old)
      × Renames g s d old new src dst got set_rsp set_failed del p
unfolding Renames
on_remote_responsed-Renames g s d old new src dst (failed text) set_rsp set_failed del p at here
      there =
    let c = renaming old new src dst in
    let rsp = put (error text) [] in
    (
      asks-get g old new src dst p at,
      responsed-Answered g rsp true c (answered rsp c) p at
          (on_remote_responsed-failed rsp old new src dst) refl,
    )
on_remote_responsed-Renames g s d old new src dst missing set_rsp set_failed del p at here there =
    let c = renaming old new src dst in
    (
      asks-get g old new src dst p at,
      responsed-Answered g (put nil_bulk []) false c (answered (codes "-ERR no such key\r\n") c) p
          at (on_remote_responsed-missing old new src dst) refl,
    )
on_remote_responsed-Renames g s d old new src dst (found value) set_rsp true del p at here there =
    let c = setting old new src dst value in
    let first = sends-set g d old new value src dst p at there in
    (
      asks-get g old new src dst p at,
      (
        first,
        responsed-Answered g set_rsp true c (answered set_rsp c) _ first.state
            (on_remote_responsed-not_stored set_rsp old new value src dst) refl,
      ),
    )
on_remote_responsed-Renames g s d old new src dst (found value) set_rsp false del p at here there =
    let c = setting old new src dst value in
    let c' = deleting old new src dst in
    let first = sends-set g d old new value src dst p at there in
    let second =
      responsed-Queued g c c' set_rsp false _ first.state
        (on_remote_responsed-stored old new src dst set_rsp value) s refl
        (first.slots src ∙ here) in
    (
      asks-get g old new src dst p at,
      (
        first,
        second,
        responsed-Answered g del.0 del.1 c' (answered rsp_ok_str c') _ second.state
            (on_remote_responsed-deleted del.0 del.1 old new src dst) refl,
      ),
    )
