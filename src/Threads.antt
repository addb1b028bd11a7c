-- ===== src/Threads.antt =====
-- core/globals.cpp, core/concurrence.cpp and command.cpp: what all threads share, and what a command does to
-- it. A thread's rounds are run one after the other with those of the others.
use redis_cerberus.Prelude.{ℕ, zero, suc, true, List, [], ◌∷◌, map}
use redis_cerberus.Text.Address.{Address}
use redis_cerberus.Command.Parser.Admin.{Effect, set_remotes}
use redis_cerberus.State.{Proxy}
use redis_cerberus.Proxy.{Settings}
use redis_cerberus.Proxy.EventLoop.{Event, handle_events}

-- `all_threads`, each as its proxy, and `remote_addrs`.
pub record Globals : Type 0 where
  pub remote_addrs : List Address
  pub all_threads : List Proxy

-- `Proxy::update_slot_map`.
abbrev pub expire_slot_map : Proxy → Proxy
expire_slot_map p = record p { slot_map_expired = true }

unfoldable pub apply_effect : Effect → Globals → Globals
apply_effect (set_remotes remotes) g = record g { remote_addrs = remotes }
apply_effect Effect.update_slot_map g = record g { all_threads = map expire_slot_map g.all_threads }

unfoldable pub apply_effects : List Effect → Globals → Globals
unfolding apply_effect
apply_effects [] g = g
apply_effects (e ∷ es) g = apply_effects es (apply_effect e g)

unfoldable pub set_thread : ℕ → Proxy → List Proxy → List Proxy
set_thread i p [] = []
set_thread zero p (t ∷ ts) = p ∷ ts
set_thread (suc i) p (t ∷ ts) = t ∷ set_thread i p ts

-- A round of the thread `i`, of which `p` is the proxy. What its commands did to the proxy itself was done
-- in the round; the other threads see it, and the remotes, from now on.
unfoldable pub run_round : Settings → ℕ → List Event → Proxy → Globals → Globals
unfolding handle_events set_thread apply_effects
run_round settings i events p g =
    let q = handle_events settings g.remote_addrs events (record p { effects = [] }) in
    let h = apply_effects q.effects g in
    record h { all_threads = set_thread i (record q { effects = [] }) h.all_threads }
