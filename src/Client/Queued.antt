-- ===== src/Client/Queued.antt =====
-- core/command.cpp and client.cpp: a command of several steps that is sent again, or that is answered
-- (`RenameCommand` with `Client::reactivate` and `select_server`).
use redis_cerberus.Prelude.{
  ℕ, Bool, true, false, [], ◌∷◌, ◌++◌, Bytes, ◌==◌, Bool-cases, Option, none, some, inl, inr,
  if◌then◌else◌, ◌≡◌, refl, sym, subst, ap, ◌∙◌, arith,
}
use redis_cerberus.Command.Parser.Rename
use redis_cerberus.Command.Parser.Rename.{RenameCommand}
use redis_cerberus.State.{
  CommandRef, multi_steps, single, Proxy, set_group, set_conn_poll_rw, server_connection,
}
use redis_cerberus.State.Queues.{
  open_server, get_server_by_slot, add_peer, push_client_command, select_server_for, select_server,
  command_in, command_at, slot_of_command, retry_move_ask_command_later, buffer_of_command,
}
use redis_cerberus.Server.{bytes_of}
use redis_cerberus.Client.Responses.{
  single_responsed, reactivate, rename_responsed, responsed_in, on_remote_responsed,
}
use redis_cerberus.Client.Answers.{set_group-state}

-- The one command of a single group.
abbrev pub only : ℕ → CommandRef
only g = record { group = g; place = 0 }

-- The proxy once the command was changed and pushed to the server `t`.
pushed : ℕ → ℕ → RenameCommand → Proxy → Proxy
pushed g t c p =
    set_conn_poll_rw (server_connection t)
      (push_client_command t (only g) (set_group g (single (multi_steps c) false) p))

-- The command is put behind the commands that wait with the server `t` and with no other, it holds the
-- bytes that this server is to be sent, the server's connection is watched for room to write, and the
-- servers of the slots stay.
pub record Queued (g t : ℕ) (c : RenameCommand) (bytes : Bytes) (p q : Proxy) : Type 0 where
  pub queues :
      (u : ℕ)
      → (q.servers u).commands
        ≡ (if t == u then (p.servers t).commands ++ only g ∷ [] else (p.servers u).commands)
  pub holds : bytes_of q (only g) ≡ bytes
  pub watched : q.conn_poll_type (server_connection t) ≡ some true
  pub state : (q.groups g).state ≡ single (multi_steps c) false
  pub slots : (slot : ℕ) → get_server_by_slot slot q ≡ get_server_by_slot slot p

-- The client is told that its command was answered with these bytes.
pub record Answered (g : ℕ) (bytes : Bytes) (p q : Proxy) : Type 0 where
  pub command : RenameCommand
  pub answer : command.buffer ≡ bytes
  pub told : q ≡ single_responsed g (multi_steps command) p

module _ (g t : ℕ) (c : RenameCommand) (p : Proxy) where
  pushed-closed : (u : ℕ) → ((pushed g t c p).servers u).closed ≡ (p.servers u).closed
  unfolding pushed push_client_command add_peer
  pushed-closed u = elim (Bool-cases (t == u)) [
    | inl e ↦ let same : t ≡ u = ground arith in rw e (ap (λ i. (p.servers i).closed) same)
    | inr e ↦ rw e refl
  ]

  pushed-open : (o : Option ℕ) → open_server (pushed g t c p) o ≡ open_server p o
  pushed-open none = refl
  pushed-open (some u) = rw (pushed-closed u) refl

  pushed-Queued : Queued g t c c.buffer p (pushed g t c p)
  unfolding pushed push_client_command add_peer get_server_by_slot command_in
  pushed-Queued =
      let at = set_group-state g (single (multi_steps c) false) (single (multi_steps c) false) p in
      record {
        queues = λ u. elim (Bool-cases (t == u)) [ inl e ↦ rw e refl | inr e ↦ rw e refl ];
        holds = ap (λ x. elim (command_in x 0) [ none ↦ [] | some d ↦ buffer_of_command d ]) at;
        watched = let same : (t == t) ≡ true = ground arith in rw same refl;
        state = at;
        slots = λ slot. pushed-open (p.server_map slot);
      }

select_server-pushed :
    (g t : ℕ) (c : RenameCommand) (q : Proxy)
    → command_at (only g) q ≡ some (multi_steps c)
    → get_server_by_slot c.current_key_slot q ≡ some t
    → select_server (only g) q ≡ (push_client_command t (only g) q, some t)
unfolding select_server select_server_for
select_server-pushed g t c q at there =
    ap
      (λ o. elim o [
        | none ↦ (record q { faulted = true }, none)
        | some d ↦ select_server_for (only g) (slot_of_command d) q
      ])
      at
    ∙ ap
        (λ (o : Option ℕ). elim o [
          | none ↦ (retry_move_ask_command_later (only g) q, none)
          | some s ↦ (push_client_command s (only g) q, some s)
        ])
        there

reactivate-pushed :
    (g t : ℕ) (c : RenameCommand) (q : Proxy)
    → command_at (only g) q ≡ some (multi_steps c)
    → get_server_by_slot c.current_key_slot q ≡ some t
    → reactivate (only g) q
      ≡ set_conn_poll_rw (server_connection t) (push_client_command t (only g) q)
unfolding reactivate
reactivate-pushed g t c q at there =
    ap
      (λ (x : Proxy × Option ℕ). elim x.1 [
        | none ↦ x.0
        | some s ↦ set_conn_poll_rw (server_connection s) x.0
      ])
      (select_server-pushed g t c q at there)

module _ (g : ℕ) (rsp : Bytes) (err : Bool) (c c' : RenameCommand) (p : Proxy)
    (at : (p.groups g).state ≡ single (multi_steps c) false)
    (e : Rename.on_remote_responsed rsp err c ≡ c') where
  responsed-rename : on_remote_responsed (only g) rsp err p ≡ rename_responsed (only g) c' p
  unfolding on_remote_responsed responsed_in
  responsed-rename = rw (at, e) refl

  responsed-again :
      c'.responsed ≡ false
      → on_remote_responsed (only g) rsp err p
        ≡ reactivate (only g) (set_group g (single (multi_steps c') false) p)
  unfolding rename_responsed
  responsed-again more = responsed-rename ∙ rw more refl

  responsed-pushed :
      (t : ℕ)
      → c'.responsed ≡ false
      → get_server_by_slot c'.current_key_slot p ≡ some t
      → on_remote_responsed (only g) rsp err p ≡ pushed g t c' p
  unfolding pushed command_in get_server_by_slot
  responsed-pushed t more there =
      let q = set_group g (single (multi_steps c') false) p in
      let s = single (multi_steps c') false in
      responsed-again more
      ∙ reactivate-pushed g t c' q (ap (λ x. command_in x 0) (set_group-state g s s p)) there

  pub responsed-Answered :
      c'.responsed ≡ true → Answered g c'.buffer p (on_remote_responsed (only g) rsp err p)
  unfolding rename_responsed
  responsed-Answered done = record {
    command = c';
    answer = refl;
    told = responsed-rename ∙ rw done refl;
  }

module _ (g : ℕ) (c c' : RenameCommand) (rsp : Bytes) (err : Bool) (p : Proxy)
    (at : (p.groups g).state ≡ single (multi_steps c) false)
    (e : Rename.on_remote_responsed rsp err c ≡ c') where
  pub responsed-Queued :
      (t : ℕ)
      → c'.responsed ≡ false
      → get_server_by_slot c'.current_key_slot p ≡ some t
      → Queued g t c' c'.buffer p (on_remote_responsed (only g) rsp err p)
  responsed-Queued t more there =
      subst (Queued g t c' c'.buffer p) (sym (responsed-pushed g rsp err c c' p at e t more there))
        (pushed-Queued g t c' p)
