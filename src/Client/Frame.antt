-- ===== src/Client/Frame.antt =====
-- core/client.cpp: the groups of a client, and what the selection of servers leaves of them.
use redis_cerberus.Prelude.{
  ℕ, suc, true, false, List, [], ◌∷◌, ◌++◌, Bytes, ◌==◌, Bool-cases, Option-cases, inl, inr, ◌≡◌,
  refl, ap, ◌∙◌, arith,
}
use redis_cerberus.Buffer.Account.{pending}
use redis_cerberus.Command.Group.{OneSlotCommand, concat}
use redis_cerberus.State.{
  CommandRef, CommandGroup, GroupState, direct, single, multiple, subscribe, blocked_pop, Client,
  Proxy, set_server, server_connection, update, set_conn_poll_rw,
}
use redis_cerberus.State.Queues.{
  get_server_by_slot, retry_move_ask_command_later, add_peer, push_client_command,
  select_server_for, select_from, select_remote,
}
use redis_cerberus.Client.Responses.{append_all}
use redis_cerberus.Client.{is_long, watch_peers}

-- What the socket took and what is still to be written.
unfoldable pub stream_of : Client → Bytes
stream_of cl = cl.written ++ pending cl.output.buf_arr cl.output.first_offset

-- The groups that are not answered to the client yet, in the order of the requests.
abbrev pub queue_of : Client → List ℕ
queue_of cl = cl.awaiting_groups ++ cl.parsed_groups

abbrev pub stream : ℕ → Proxy → Bytes
stream c p = stream_of (p.clients c)

abbrev pub queue : ℕ → Proxy → List ℕ
queue c p = queue_of (p.clients c)

-- The answers of groups, one behind the other.
abbrev pub answers_of : (ℕ → CommandGroup) → List ℕ → Bytes
answers_of groups gs = concat (append_all (λ g. (groups g).state) gs)

-- No group is one for a long connection.
abbrev pub AllShort : (ℕ → CommandGroup) → List ℕ → Type 0
AllShort groups [] = Unit
AllShort groups (g ∷ gs) = (is_long (groups g).state ≡ false) × AllShort groups gs

pub update-same {ℓ} : {A : Type ℓ} (f : ℕ → A) (i : ℕ) (v : A) → update f i v i ≡ v
update-same f i v = let same : (i == i) ≡ true = ground arith in rw same refl

-- What the selection of servers leaves of a client and of the groups.
abbrev pub Frame : ℕ → Proxy → Proxy → Type 0
Frame c p q =
    ((q.clients c).awaiting_groups ≡ (p.clients c).awaiting_groups)
    × ((q.clients c).parsed_groups ≡ (p.clients c).parsed_groups)
    × ((q.clients c).ready_groups ≡ (p.clients c).ready_groups)
    × ((q.clients c).written ≡ (p.clients c).written)
    × ((q.clients c).output ≡ (p.clients c).output)
    × (q.groups ≡ p.groups)
    × ((q.clients c).closed ≡ (p.clients c).closed)

pub Frame-trans : (c : ℕ) (p q r : Proxy) → Frame c p q → Frame c q r → Frame c p r
Frame-trans c p q r (a, b, d, e, f, g, k) (a', b', d', e', f', g', k') =
    (a' ∙ a, b' ∙ b, d' ∙ d, e' ∙ e, f' ∙ f, g' ∙ g, k' ∙ k)

add_peer-Frame : (c cli s : ℕ) (p : Proxy) → Frame c p (add_peer cli s p)
unfolding add_peer
add_peer-Frame c cli s p = elim (Bool-cases (cli == c)) [
  | inl t ↦
      let same : cli ≡ c = ground arith in
      rw same (
        let here = update-same p.clients c in
        (
          ap (λ x. x.awaiting_groups) (here _),
          ap (λ x. x.parsed_groups) (here _),
          ap (λ x. x.ready_groups) (here _),
          ap (λ x. x.written) (here _),
          ap (λ x. x.output) (here _),
          refl,
          ap (λ x. x.closed) (here _),
        ))
  | inr t ↦ rw t (refl, refl, refl, refl, refl, refl, refl)
]

push_client_command-Frame :
    (c s : ℕ) (cmd : CommandRef) (p : Proxy) → Frame c p (push_client_command s cmd p)
unfolding push_client_command
push_client_command-Frame c s cmd p =
    let svr = p.servers s in
    add_peer-Frame c (p.groups cmd.group).client s
      (set_server s (record svr { commands = svr.commands ++ cmd ∷ [] }) p)

select_server_for-Frame :
    (c : ℕ) (cmd : CommandRef) (slot : ℕ) (p : Proxy) → Frame c p (select_server_for cmd slot p).0
unfolding select_server_for retry_move_ask_command_later
select_server_for-Frame c cmd slot p = elim (Option-cases (get_server_by_slot slot p)) [
  | inl e ↦ rw (select_server_for, e) (refl, refl, refl, refl, refl, refl, refl)
  | inr (s, e) ↦ rw (select_server_for, e) (push_client_command-Frame c s cmd p)
]

select_from-Frame :
    (c g i : ℕ) (cs : List OneSlotCommand) (p : Proxy) → Frame c p (select_from g i cs p)
unfolding select_from
select_from-Frame c g i [] p = (refl, refl, refl, refl, refl, refl, refl)
select_from-Frame c g i (d ∷ cs) p =
    let q = (select_server_for (record { group = g; place = i }) d.key_slot p).0 in
    Frame-trans c p q (select_from g (suc i) cs q)
      (select_server_for-Frame c (record { group = g; place = i }) d.key_slot p)
      (select_from-Frame c g (suc i) cs q)

pub select_remote-Frame : (c g : ℕ) (s : GroupState) (p : Proxy) → Frame c p (select_remote g s p)
unfolding select_remote
select_remote-Frame c g (single d done) p =
    select_server_for-Frame c (record { group = g; place = 0 }) _ p
select_remote-Frame c g (multiple kind m) p = select_from-Frame c g 0 m.commands p
select_remote-Frame c g (direct b) p = (refl, refl, refl, refl, refl, refl, refl)
select_remote-Frame c g (subscribe b) p = (refl, refl, refl, refl, refl, refl, refl)
select_remote-Frame c g (blocked_pop b n) p = (refl, refl, refl, refl, refl, refl, refl)

pub watch_peers-Frame : (c : ℕ) (ss : List ℕ) (p : Proxy) → Frame c p (watch_peers ss p)
unfolding watch_peers
watch_peers-Frame c [] p = (refl, refl, refl, refl, refl, refl, refl)
watch_peers-Frame c (s ∷ ss) p = watch_peers-Frame c ss (set_conn_poll_rw (server_connection s) p)
