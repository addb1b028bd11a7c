-- ===== src/Proxy/Retry.antt =====
-- core/proxy.cpp: the commands that are to be sent again are selected a server under the new slot map.
use mathlib.Core.List.{Memᴰ}
use mathlib.Core.List.Memᴰ
use redis_cerberus.Prelude.{
  ℕ, true, false, ◌==◌, List, [], ◌∷◌, ◌++◌, map, Option, none, some, ◌≡◌, refl, sym, ap, subst,
  ◌∙◌, arith, Option-cases, inl, inr,
}
use redis_cerberus.Text.Address.{Address}
use redis_cerberus.State.{CommandRef, DataCommand, Proxy}
use redis_cerberus.State.Queues.{
  add_peer, push_client_command, retry_move_ask_command_later, select_server_for, select_server,
  slot_of_command, command_in, command_at, get_server_by_slot,
}
use redis_cerberus.Client.Grows.{Grows, select_server-Grows}
use redis_cerberus.Command.Parser.Admin.{set_remotes}
use redis_cerberus.Server.Pairing.{unanswered, Joins-Grows}
use redis_cerberus.Server.Pop.{Mem-some}
use redis_cerberus.Server.Waits.{Waits}
use redis_cerberus.SlotMap.{replace_map}
use redis_cerberus.SlotMap.Node.{RedisNode}
use redis_cerberus.Proxy.{Settings, retry_commands, set_slot_map}
use redis_cerberus.SlotMap.Carries.{Carries, Carries-trans, replace_map-Carries}

Carries-Grows : (cmd : CommandRef) (p q : Proxy) → Grows p q → Waits cmd p → Waits cmd q
Carries-Grows cmd p q ((more, e), f) (inl m) =
    inl (subst (Memᴰ cmd) (sym e) (Memᴰ.append_left more m))
Carries-Grows cmd p q (e, f) (inr (s, m)) =
    let (joined, d) = Joins-Grows s p q (e, f) in
    inr (s, subst (Memᴰ (some cmd)) (sym d) (Memᴰ.append_left (map some joined) m))

-- The command that is selected a server waits there, or is to be sent again once more.
select_server_for-selected :
    (cmd : CommandRef) (slot : ℕ) (p : Proxy) → Waits cmd (select_server_for cmd slot p).0
unfolding select_server_for retry_move_ask_command_later push_client_command add_peer
select_server_for-selected cmd slot p = elim (Option-cases (get_server_by_slot slot p)) [
  | inl e ↦ rw (select_server_for, e) (inl (Memᴰ.append_right p.retrying_commands (Memᴰ.head refl)))
  | inr (s, e) ↦ rw (select_server_for, e) (inr (s, pushed s))
]
  where
    pushed : (s : ℕ) → Memᴰ (some cmd) (unanswered s (push_client_command s cmd p))
    pushed s =
        let same : (s == s) ≡ true = ground arith in
        rw same (
          Memᴰ.append_right (p.servers s).sent_commands (
            Mem-some cmd ((p.servers s).commands ++ cmd ∷ [])
              (Memᴰ.append_right (p.servers s).commands (Memᴰ.head refl))))

select_server_for-groups :
    (cmd : CommandRef) (slot : ℕ) (p : Proxy) → (select_server_for cmd slot p).0.groups ≡ p.groups
unfolding select_server_for retry_move_ask_command_later push_client_command add_peer
select_server_for-groups cmd slot p = elim (Option-cases (get_server_by_slot slot p)) [
  | inl e ↦ rw (select_server_for, e) refl
  | inr (s, e) ↦ rw (select_server_for, e) refl
]

select_server-Carries : (cmd c : CommandRef) (p : Proxy) → Carries cmd p (select_server c p).0
unfolding select_server
select_server-Carries cmd c p = (
  Carries-Grows cmd p (select_server c p).0 (select_server-Grows c p),
  elim (Option-cases (command_at c p)) [
    | inl e ↦ rw (select_server, e) refl
    | inr (d, e) ↦ rw (select_server, e) (select_server_for-groups c (slot_of_command d) p)
  ],
)

select_server-selected :
    (cmd : CommandRef) (d : DataCommand) (p : Proxy)
    → command_at cmd p ≡ some d
    → Waits cmd (select_server cmd p).0
unfolding select_server
select_server-selected cmd d p e =
    rw (select_server, e) (select_server_for-selected cmd (slot_of_command d) p)

-- What follows the selection for one command.
marked : Proxy × Option ℕ → Proxy
marked x = elim x.1 [ none ↦ record x.0 { slot_map_expired = true } | some s ↦ x.0 ]

marked-Carries : (cmd : CommandRef) (q : Proxy) (o : Option ℕ) → Carries cmd q (marked (q, o))
unfolding marked
marked-Carries cmd q none = (λ w. w, refl)
marked-Carries cmd q (some s) = (λ w. w, refl)

retry_commands-Carries :
    (cmd : CommandRef) (cs : List CommandRef) (p : Proxy) → Carries cmd p (retry_commands cs p)
unfolding retry_commands marked
retry_commands-Carries cmd [] p = (λ w. w, refl)
retry_commands-Carries cmd (c ∷ cs) p =
    let (q, selected) = select_server c p in
    let r = marked (q, selected) in
    Carries-trans cmd p r (retry_commands cs r)
      (Carries-trans cmd p q r (select_server-Carries cmd c p) (marked-Carries cmd q selected))
      (retry_commands-Carries cmd cs r)

retry_commands-selected :
    (cmd : CommandRef) (d : DataCommand) (cs : List CommandRef) (p : Proxy)
    → command_at cmd p ≡ some d
    → Memᴰ cmd cs
    → Waits cmd (retry_commands cs p)
unfolding retry_commands marked
retry_commands-selected cmd d [] p e m = elim m [ ]
retry_commands-selected cmd d (c ∷ cs) p e (Memᴰ.head same) =
    let (q, selected) = select_server c p in
    let r = marked (q, selected) in
    (retry_commands-Carries cmd cs r).0 (
      (marked-Carries cmd q selected).0
        (subst (λ x. Waits cmd (select_server x p).0) same (select_server-selected cmd d p e)))
retry_commands-selected cmd d (c ∷ cs) p e (Memᴰ.tail m) =
    let (q, selected) = select_server c p in
    let r = marked (q, selected) in
    let kept = (marked-Carries cmd q selected).1 ∙ (select_server-Carries cmd c p).1 in
    retry_commands-selected cmd d cs r (ap (λ g. command_in (g cmd.group).state cmd.place) kept ∙ e)
      m

-- A new slot map: servers are opened, those that lost their last slot are closed, and all commands that
-- are to be sent again are selected a server. A command that waited and whose group is still there waits afterwards.
pub set_slot_map-Waits :
    (settings : Settings) (nodes : List RedisNode) (remotes : List Address) (cmd : CommandRef)
    (d : DataCommand) (p : Proxy)
    → command_at cmd p ≡ some d
    → Waits cmd p
    → Waits cmd (set_slot_map settings nodes remotes p)
unfolding set_slot_map
set_slot_map-Waits settings nodes remotes cmd d p e waits =
    let q = replace_map settings.network settings.slave nodes p in
    let (carried, kept) = replace_map-Carries cmd settings.network settings.slave nodes p in
    let emptied = record q {
      slot_map_expired = false;
      cluster_ok = true;
      effects = q.effects ++ set_remotes remotes ∷ [];
      retrying_commands = [];
    } in
    elim (carried waits) [
      | inl m ↦
          retry_commands-selected cmd d q.retrying_commands emptied
            (ap (λ g. command_in (g cmd.group).state cmd.place) kept ∙ e) m
      | inr held ↦ (retry_commands-Carries cmd q.retrying_commands emptied).0 (inr held)
    ]
