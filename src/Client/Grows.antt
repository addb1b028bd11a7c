-- ===== src/Client/Grows.antt =====
-- core/command.cpp and client.cpp: what an answer to a command leaves of the queues of the servers and
-- of the commands that are to be sent again.
use redis_cerberus.Prelude.{
  ℕ, Bool, true, false, ◌==◌, List, [], ◌∷◌, ◌++◌, append_assoc, append-nil, Bytes, ◌≡◌, refl, sym,
  ap, subst, ◌∙◌, arith, Bool-cases, Option-cases, inl, inr, if◌then◌else◌,
}
use redis_cerberus.Command.Group.{Multiple}
use redis_cerberus.Command.Parser.Keys.{is_nil}
use redis_cerberus.Command.Parser.Rename.{RenameCommand}
use redis_cerberus.Command.Parser.Rename
use redis_cerberus.Command.Parser.Rename.Steps.{on_remote_responsed-error}
use redis_cerberus.State.{
  CommandRef, DataCommand, one_slot, multi_steps, Gathering, GroupState, direct, single, multiple,
  subscribe, blocked_pop, Proxy, set_client, set_group, decr,
}
use redis_cerberus.State.Queues.{
  add_peer, push_client_command, select_server_for, select_server, command_at, slot_of_command,
  get_server_by_slot, retry_move_ask_command_later,
}
use redis_cerberus.Client.Responses.{
  push_awaitings_to_ready, must_wait, state_of, append_all, group_responsed, single_responsed,
  gather, multiple_responsed, reactivate, rename_responsed, responsed_in, on_remote_responsed,
}

-- Commands are put behind those that wait, and nothing else is done to the queues.
abbrev pub Grows : Proxy → Proxy → Type 0
Grows p q =
    ((more : List CommandRef) × (q.retrying_commands ≡ p.retrying_commands ++ more))
    × ((s : ℕ)
        → ((more : List CommandRef) × ((q.servers s).commands ≡ (p.servers s).commands ++ more))
          × ((q.servers s).sent_commands ≡ (p.servers s).sent_commands)
          × ((q.servers s).closed ≡ (p.servers s).closed))

-- The queues are as they were, and so is the slot map.
abbrev pub Rests : Proxy → Proxy → Type 0
Rests p q =
    (q.retrying_commands ≡ p.retrying_commands)
    × (q.servers ≡ p.servers)
    × (q.server_map ≡ p.server_map)
    × (q.slot_updaters ≡ p.slot_updaters)
    × (q.cluster_ok ≡ p.cluster_ok)

pub Rests-refl : (p : Proxy) → Rests p p
Rests-refl p = (refl, refl, refl, refl, refl)

pub Grows-Rests : (p q : Proxy) → Rests p q → Grows p q
Grows-Rests p q (e, f, _, _, _) = (
  ([], e ∙ sym (append-nil p.retrying_commands)),
  λ s. (
    ([], ap (λ g. (g s).commands) f ∙ sym (append-nil (p.servers s).commands)),
    ap (λ g. (g s).sent_commands) f,
    ap (λ g. (g s).closed) f,
  ),
)

pub Rests-trans : (p q r : Proxy) → Rests p q → Rests q r → Rests p r
Rests-trans p q r (a, b, d, e, f) (a', b', d', e', f') = (a' ∙ a, b' ∙ b, d' ∙ d, e' ∙ e, f' ∙ f)

grows-further :
    (A B C : List CommandRef)
    → (more : List CommandRef) × (B ≡ A ++ more)
    → (more : List CommandRef) × (C ≡ B ++ more)
    → (more : List CommandRef) × (C ≡ A ++ more)
grows-further A B C (xs, e) (ys, f) = (xs ++ ys, f ∙ ap (λ l. l ++ ys) e ∙ append_assoc A xs ys)

pub Grows-trans : (p q r : Proxy) → Grows p q → Grows q r → Grows p r
Grows-trans p q r (e, f) (e', f') = (
  grows-further p.retrying_commands q.retrying_commands r.retrying_commands e e',
  λ s.
      let (a, b, k) = f s in
      let (a', b', k') = f' s in
      (
        grows-further (p.servers s).commands (q.servers s).commands (r.servers s).commands a a',
        b' ∙ b,
        k' ∙ k,
      ),
)

push_client_command-Grows :
    (s : ℕ) (cmd : CommandRef) (p : Proxy) → Grows p (push_client_command s cmd p)
unfolding push_client_command add_peer
push_client_command-Grows s cmd p = (
  ([], sym (append-nil p.retrying_commands)),
  λ t. elim (Bool-cases (s == t)) [
    | inl e ↦ let same : s ≡ t = ground arith in rw (e, same) ((cmd ∷ [], refl), refl, refl)
    | inr e ↦ rw e (([], sym (append-nil (p.servers t).commands)), refl, refl)
  ],
)

pub select_server_for-Grows :
    (cmd : CommandRef) (slot : ℕ) (p : Proxy) → Grows p (select_server_for cmd slot p).0
unfolding select_server_for retry_move_ask_command_later
select_server_for-Grows cmd slot p = elim (Option-cases (get_server_by_slot slot p)) [
  | inl e ↦
      rw (select_server_for, e)
        ((cmd ∷ [], refl), λ s. (([], sym (append-nil (p.servers s).commands)), refl, refl))
  | inr (s, e) ↦ rw (select_server_for, e) (push_client_command-Grows s cmd p)
]

pub select_server-Grows : (cmd : CommandRef) (p : Proxy) → Grows p (select_server cmd p).0
unfolding select_server
select_server-Grows cmd p = elim (Option-cases (command_at cmd p)) [
  | inl e ↦
      rw (select_server, e)
        (Grows-Rests p (record p { faulted = true }) (refl, refl, refl, refl, refl))
  | inr (c, e) ↦ rw (select_server, e) (select_server_for-Grows cmd (slot_of_command c) p)
]

reactivate-Grows : (cmd : CommandRef) (p : Proxy) → Grows p (reactivate cmd p)
unfolding reactivate
reactivate-Grows cmd p = elim (Option-cases (select_server cmd p).1) [
  | inl e ↦ rw (reactivate, e) (select_server-Grows cmd p)
  | inr (s, e) ↦ rw (reactivate, e) (select_server-Grows cmd p)
]

pub push_awaitings_to_ready-Rests : (c : ℕ) (p : Proxy) → Rests p (push_awaitings_to_ready c p)
unfolding push_awaitings_to_ready
push_awaitings_to_ready-Rests c p =
    let out =
      (p.clients c).output.buf_arr ++ append_all (state_of p) (p.clients c).awaiting_groups in
    elim (Bool-cases (must_wait (p.clients c))) [
      | inl t ↦ rw (push_awaitings_to_ready, t) (refl, refl, refl, refl, refl)
      | inr t ↦ elim (Bool-cases (is_nil out)) [
        | inl u ↦ rw (push_awaitings_to_ready, t, u) (refl, refl, refl, refl, refl)
        | inr u ↦ rw (push_awaitings_to_ready, t, u) (refl, refl, refl, refl, refl)
      ]
    ]

group_responsed-Rests : (c : ℕ) (p : Proxy) → Rests p (group_responsed c p)
unfolding group_responsed
group_responsed-Rests c p =
    push_awaitings_to_ready-Rests c
      (set_client c (record (p.clients c) { awaiting_count = decr (p.clients c).awaiting_count }) p)

pub single_responsed-Rests :
    (g : ℕ) (c : DataCommand) (p : Proxy) → Rests p (single_responsed g c p)
unfolding single_responsed
single_responsed-Rests g c p =
    group_responsed-Rests (p.groups g).client (set_group g (single c false) p)

pub multiple_responsed-Rests :
    (g : ℕ) (kind : Multiple) (m : Gathering) (last : Bool) (p : Proxy)
    → Rests p (multiple_responsed g kind (m, last) p)
unfolding multiple_responsed
multiple_responsed-Rests g kind m true p =
    group_responsed-Rests (p.groups g).client (set_group g (multiple kind m) p)
multiple_responsed-Rests g kind m false p = (refl, refl, refl, refl, refl)

rename_responsed-Grows :
    (cmd : CommandRef) (c : RenameCommand) (p : Proxy) → Grows p (rename_responsed cmd c p)
unfolding rename_responsed
rename_responsed-Grows cmd c p =
    let again = set_group cmd.group (single (multi_steps c) false) p in
    let done = single_responsed cmd.group (multi_steps c) p in
    let chosen = λ (b : Bool). if b then done else reactivate cmd again in
    elim (Bool-cases c.responsed) [
      | inl t ↦
          subst (Grows p) (sym (ap chosen t))
            (Grows-Rests p done (single_responsed-Rests cmd.group (multi_steps c) p))
      | inr t ↦ subst (Grows p) (sym (ap chosen t)) (reactivate-Grows cmd again)
    ]

-- An answer that tells of an error is the last of any command, so nothing is sent again.
responsed_in-Rests :
    (cmd : CommandRef) (rsp : Bytes) (s : GroupState) (p : Proxy)
    → Rests p (responsed_in cmd rsp true s p)
unfolding responsed_in rename_responsed
responsed_in-Rests cmd rsp (single (one_slot c) done) p =
    single_responsed-Rests cmd.group (one_slot (record c { buffer = rsp })) p
responsed_in-Rests cmd rsp (single (multi_steps c) done) p =
    let c' = Rename.on_remote_responsed rsp true c in
    let answered = single_responsed cmd.group (multi_steps c') p in
    let chosen = λ (b : Bool).
      if b
      then answered
      else reactivate cmd (set_group cmd.group (single (multi_steps c') false) p) in
    subst (Rests p) (sym (ap chosen (on_remote_responsed-error rsp c)))
      (single_responsed-Rests cmd.group (multi_steps c') p)
responsed_in-Rests cmd rsp (multiple kind g) p =
    let (m, last) = gather cmd.place rsp g in multiple_responsed-Rests cmd.group kind m last p
responsed_in-Rests cmd rsp (direct b) p = (refl, refl, refl, refl, refl)
responsed_in-Rests cmd rsp (subscribe b) p = (refl, refl, refl, refl, refl)
responsed_in-Rests cmd rsp (blocked_pop b n) p = (refl, refl, refl, refl, refl)

pub on_remote_responsed-Rests :
    (cmd : CommandRef) (rsp : Bytes) (p : Proxy) → Rests p (on_remote_responsed cmd rsp true p)
unfolding on_remote_responsed
on_remote_responsed-Rests cmd rsp p = responsed_in-Rests cmd rsp (p.groups cmd.group).state p

responsed_in-Grows :
    (cmd : CommandRef) (rsp : Bytes) (error : Bool) (s : GroupState) (p : Proxy)
    → Grows p (responsed_in cmd rsp error s p)
unfolding responsed_in
responsed_in-Grows cmd rsp error (single (one_slot c) done) p =
    let c' = one_slot (record c { buffer = rsp }) in
    Grows-Rests p (single_responsed cmd.group c' p) (single_responsed-Rests cmd.group c' p)
responsed_in-Grows cmd rsp error (single (multi_steps c) done) p =
    rename_responsed-Grows cmd (Rename.on_remote_responsed rsp error c) p
responsed_in-Grows cmd rsp error (multiple kind g) p =
    let (m, last) = gather cmd.place rsp g in
    Grows-Rests p (multiple_responsed cmd.group kind (m, last) p)
      (multiple_responsed-Rests cmd.group kind m last p)
responsed_in-Grows cmd rsp error (direct b) p =
    Grows-Rests p (record p { faulted = true }) (refl, refl, refl, refl, refl)
responsed_in-Grows cmd rsp error (subscribe b) p =
    Grows-Rests p (record p { faulted = true }) (refl, refl, refl, refl, refl)
responsed_in-Grows cmd rsp error (blocked_pop b n) p =
    Grows-Rests p (record p { faulted = true }) (refl, refl, refl, refl, refl)

pub on_remote_responsed-Grows :
    (cmd : CommandRef) (rsp : Bytes) (error : Bool) (p : Proxy)
    → Grows p (on_remote_responsed cmd rsp error p)
unfolding on_remote_responsed
on_remote_responsed-Grows cmd rsp error p =
    responsed_in-Grows cmd rsp error (p.groups cmd.group).state p
