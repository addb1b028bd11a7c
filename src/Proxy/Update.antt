-- ===== src/Proxy/Update.antt =====
-- core/proxy.cpp: `_update_slot_map_failed` where no slot map can be had.
use redis_cerberus.Prelude.{
  ℕ, ◌<◌, true, false, ◌||◌, ◌&&◌, not, List, [], ◌∷◌, Option, none, some, ◌≡◌, refl, ap, ◌∙◌,
  Bool-cases, inl, inr,
}
use redis_cerberus.Command.Parser.Keys.{is_nil}
use redis_cerberus.Command.Parser.Single.{cluster_slot_count}
use redis_cerberus.State.{CommandRef, Proxy}
use redis_cerberus.Client.Grows.{Rests, Rests-refl, Rests-trans, on_remote_responsed-Rests}
use redis_cerberus.Client.Responses.{on_remote_responsed}
use redis_cerberus.Server.{close_conn}
use redis_cerberus.SlotMap.{clear, close_all, mapped_servers}
use redis_cerberus.SlotMap.Close.{IsClosed, clear-IsClosed}
use redis_cerberus.Proxy.{
  Settings, discard_commands, discard_all, move_closed_slot_updaters, all_closed, candidate,
  update_slot_map_failed, should_update_slot_map, cluster_down,
}

discard_commands-Rests : (cs : List CommandRef) (p : Proxy) → Rests p (discard_commands cs p)
unfolding discard_commands
discard_commands-Rests [] p = Rests-refl p
discard_commands-Rests (c ∷ cs) p =
    let q = on_remote_responsed c cluster_down true p in
    Rests-trans p q (discard_commands cs q) (on_remote_responsed-Rests c cluster_down p)
      (discard_commands-Rests cs q)

-- The closing of servers does not look at the updaters.
abbrev Aside : Proxy → Proxy → Type 0
Aside p q = (q.slot_updaters ≡ p.slot_updaters) × (q.cluster_ok ≡ p.cluster_ok)

close_conn-Aside : (s : ℕ) (p : Proxy) → Aside p (close_conn s p)
unfolding close_conn
close_conn-Aside s p = elim (Bool-cases (p.servers s).closed) [
  | inl t ↦ rw (close_conn, t) (refl, refl)
  | inr t ↦ rw (close_conn, t) (refl, refl)
]

close_all-Aside : (ss : List ℕ) (p : Proxy) → Aside p (close_all ss p)
unfolding close_all
close_all-Aside [] p = (refl, refl)
close_all-Aside (s ∷ ss) p =
    let (a, b) = close_conn-Aside s p in
    let (a', b') = close_all-Aside ss (close_conn s p) in (a' ∙ a, b' ∙ b)

-- The proxy with its slots given up.
cleared : Proxy → Proxy
cleared p = clear (record (move_closed_slot_updaters p) { cluster_ok = false })

cleared-Aside : (p : Proxy) → ((cleared p).slot_updaters ≡ []) × ((cleared p).cluster_ok ≡ false)
unfolding cleared clear
cleared-Aside p =
    close_all-Aside (mapped_servers cluster_slot_count p.server_map)
      (record (move_closed_slot_updaters p) { cluster_ok = false })

-- The server that a slot had is closed.
abbrev pub ClosedAt : Option ℕ → Proxy → Type 0
ClosedAt none q = Unit
ClosedAt (some s) q = IsClosed s q

cleared-server_map : (p : Proxy) → (cleared p).server_map ≡ (λ _. none)
unfolding cleared clear
cleared-server_map p = refl

-- No command waits any more, no slot has a server, that of the slot given is closed, and the
-- slot map is not asked for again as things are.
abbrev pub IsDiscarded : ℕ → Proxy → Proxy → Type 0
IsDiscarded slot p q =
    (q.retrying_commands ≡ [])
    × ((other : ℕ) → q.server_map other ≡ none)
    × ClosedAt (p.server_map slot) q
    × (q.cluster_ok ≡ false)
    × (should_update_slot_map q ≡ false)

clear-ClosedAt :
    (slot : ℕ) (o : Option ℕ) (p : Proxy)
    → slot < cluster_slot_count
    → p.server_map slot ≡ o
    → ClosedAt o (clear p)
clear-ClosedAt slot none p h e = tt
clear-ClosedAt slot (some s) p h e = clear-IsClosed slot s p h e

ClosedAt-same : (o : Option ℕ) (p q : Proxy) → q.servers ≡ p.servers → ClosedAt o p → ClosedAt o q
ClosedAt-same none p q e h = tt
ClosedAt-same (some s) p q e h = ap (λ g. (g s).closed) e ∙ h

discard_all-IsDiscarded :
    (slot : ℕ) (p : Proxy) → slot < cluster_slot_count → IsDiscarded slot p (discard_all p)
unfolding discard_all cleared should_update_slot_map
discard_all-IsDiscarded slot p h =
    let q = cleared p in
    let begun = record (move_closed_slot_updaters p) { cluster_ok = false } in
    let done = discard_commands q.retrying_commands (record q { retrying_commands = [] }) in
    let (a, b, d, e, f) =
      discard_commands-Rests q.retrying_commands (record q { retrying_commands = [] }) in
    let (none_left, failed) = cleared-Aside p in
    (
      a,
      (λ other. ap (λ g. g other) (d ∙ cleared-server_map p)),
      ClosedAt-same (p.server_map slot) q (discard_all p) b
          (clear-ClosedAt slot (p.server_map slot) begun h refl),
      f ∙ failed,
      ap (λ us. is_nil us && (not (is_nil done.retrying_commands) || false)) (e ∙ none_left)
          ∙ ap (λ cs. true && (not (is_nil cs) || false)) a,
    )

-- A slot map that could not be had: all updaters are closed, and none of them covered a slot, or all slots
-- have to be covered. Then no command is left that waits to be sent again, the slots are
-- given up, the server of each slot is closed, and as things are then the thread does not ask for the
-- slot map once more.
pub update_slot_map_failed-IsDiscarded :
    (settings : Settings) (slot : ℕ) (p : Proxy)
    → slot < cluster_slot_count
    → all_closed p.slot_updaters ≡ true
    → candidate settings.req_full_cov p.slot_updaters ≡ none
    → IsDiscarded slot p (update_slot_map_failed settings p)
unfolding update_slot_map_failed
update_slot_map_failed-IsDiscarded settings slot p h all_gone no_candidate =
    rw (update_slot_map_failed, all_gone, no_candidate) (discard_all-IsDiscarded slot p h)
