-- ===== src/Server/Destroy.antt =====
-- core/client.cpp, `Client::~Client`: no pointer to a command of the client is left, and the commands of
-- other clients stay.
use mathlib.Core.List.{Memᴰ}
use redis_cerberus.Prelude.{
  ℕ, Bool, true, false, ◌||◌, ◌==◌, List, [], ◌∷◌, some, ◌≡◌, refl, sym, ap, subst, ◌∙◌, arith,
  Bool-cases, inl, inr,
}
use redis_cerberus.State.{CommandRef, Proxy, contains}
use redis_cerberus.Server.{is_of, pop_from_server, pop_from_servers, pop_client, destroy_client}
use redis_cerberus.Server.Pairing.{unanswered}
use redis_cerberus.Server.Waits.{Waits}
use redis_cerberus.Server.Pop.{
  erase_if-Mem, Mem-erase_if, pop_from_server-Mem, Mem-pop_from_server, pop_from_server-groups,
}

pop_from_servers-groups :
    (cli : ℕ) (ss : List ℕ) (p : Proxy) → (pop_from_servers cli ss p).groups ≡ p.groups
unfolding pop_from_servers
pop_from_servers-groups cli [] p = refl
pop_from_servers-groups cli (s ∷ ss) p =
    pop_from_servers-groups cli ss (pop_from_server cli s p) ∙ pop_from_server-groups cli s p

pop_from_servers-retrying :
    (cli : ℕ) (ss : List ℕ) (p : Proxy)
    → (pop_from_servers cli ss p).retrying_commands ≡ p.retrying_commands
unfolding pop_from_servers pop_from_server
pop_from_servers-retrying cli [] p = refl
pop_from_servers-retrying cli (s ∷ ss) p =
    pop_from_servers-retrying cli ss (pop_from_server cli s p)

is_of-groups :
    (cli : ℕ) (cmd : CommandRef) (p q : Proxy)
    → q.groups ≡ p.groups
    → is_of q cli cmd ≡ is_of p cli cmd
is_of-groups cli cmd p q e = ap (λ g. (g cmd.group).client == cli) e

pop_from_servers-Mem :
    (cli : ℕ) (ss : List ℕ) (t : ℕ) (cmd : CommandRef) (p : Proxy)
    → Memᴰ (some cmd) (unanswered t (pop_from_servers cli ss p))
    → Memᴰ (some cmd) (unanswered t p) × (contains ss t ≡ true → is_of p cli cmd ≡ false)
unfolding pop_from_servers contains
pop_from_servers-Mem cli [] t cmd p m = (m, λ e. absurd (ground arith))
pop_from_servers-Mem cli (s ∷ ss) t cmd p m =
    let q = pop_from_server cli s p in
    let (k, later) = pop_from_servers-Mem cli ss t cmd q m in
    let (l, now) = pop_from_server-Mem cli s t cmd p k in
    (
      l,
      λ e. elim (Bool-cases (s == t)) [
        | inl same ↦ now same
        | inr other ↦
            sym (is_of-groups cli cmd p q (pop_from_server-groups cli s p))
            ∙ later (ap (λ b. b || contains ss t) (sym other) ∙ e)
      ],
    )

Mem-pop_from_servers :
    (cli : ℕ) (ss : List ℕ) (t : ℕ) (cmd : CommandRef) (p : Proxy)
    → is_of p cli cmd ≡ false
    → Memᴰ (some cmd) (unanswered t p)
    → Memᴰ (some cmd) (unanswered t (pop_from_servers cli ss p))
unfolding pop_from_servers
Mem-pop_from_servers cli [] t cmd p h m = m
Mem-pop_from_servers cli (s ∷ ss) t cmd p h m =
    let q = pop_from_server cli s p in
    Mem-pop_from_servers cli ss t cmd q
      (is_of-groups cli cmd p q (pop_from_server-groups cli s p) ∙ h)
      (Mem-pop_from_server cli s t cmd p h m)

-- Every server that is to answer a command has been noted as a peer of the client.
abbrev pub HeldByPeers : ℕ → CommandRef → Proxy → Type 0
HeldByPeers cli cmd p =
    (s : ℕ) → Memᴰ (some cmd) (unanswered s p) → contains (p.clients cli).peers s ≡ true

-- Where a command waits: to be sent again, or for the answer of a server.
pub data Place : Type 0 where
  to_be_sent : Place
  at_server : ℕ → Place

abbrev pub WaitsAt : Place → CommandRef → Proxy → Type 0
WaitsAt to_be_sent cmd p = Memᴰ cmd p.retrying_commands
WaitsAt (at_server s) cmd p = Memᴰ (some cmd) (unanswered s p)

-- A command of the client that is gone waits nowhere, and one of another client still waits in its place.
abbrev pub Outlives : Bool → Place → CommandRef → Proxy → Type 0
Outlives true place cmd q = ¬ Waits cmd q
Outlives false place cmd q = WaitsAt place cmd q

popped_all : ℕ → Proxy → Proxy
popped_all cli p = pop_from_servers cli (p.clients cli).peers p

popped_all-is_of :
    (cli : ℕ) (cmd : CommandRef) (p : Proxy) → is_of (popped_all cli p) cli cmd ≡ is_of p cli cmd
unfolding popped_all
popped_all-is_of cli cmd p =
    is_of-groups cli cmd p (popped_all cli p) (pop_from_servers-groups cli (p.clients cli).peers p)

false-true : {b : Bool} → b ≡ true → b ≡ false → ⊥
false-true {b} e h = ground arith

destroyed-gone :
    (cli : ℕ) (cmd : CommandRef) (p : Proxy)
    → HeldByPeers cli cmd p
    → is_of p cli cmd ≡ true
    → ¬ Waits cmd (destroy_client cli p)
unfolding destroy_client pop_client popped_all
destroyed-gone cli cmd p held of_client (inl m) =
    let (h, k) =
      erase_if-Mem (is_of (popped_all cli p) cli) cmd (popped_all cli p).retrying_commands m in
    false-true (popped_all-is_of cli cmd p ∙ of_client) h
destroyed-gone cli cmd p held of_client (inr (s, m)) =
    let (k, gone) = pop_from_servers-Mem cli (p.clients cli).peers s cmd p m in
    false-true of_client (gone (held s k))

destroyed-stays :
    (cli : ℕ) (place : Place) (cmd : CommandRef) (p : Proxy)
    → is_of p cli cmd ≡ false
    → WaitsAt place cmd p
    → WaitsAt place cmd (destroy_client cli p)
unfolding destroy_client pop_client popped_all
destroyed-stays cli to_be_sent cmd p other m =
    Mem-erase_if (is_of (popped_all cli p) cli) cmd (popped_all cli p).retrying_commands
      (popped_all-is_of cli cmd p ∙ other)
      (subst (Memᴰ cmd) (sym (pop_from_servers-retrying cli (p.clients cli).peers p)) m)
destroyed-stays cli (at_server s) cmd p other m =
    Mem-pop_from_servers cli (p.clients cli).peers s cmd p other m

-- When a client is destroyed, a command that waits is in no queue of any server and not to be sent again
-- afterwards if it is of this client, where all servers that hold it are peers of the client. If it is
-- of another client it still waits in the same place, whatever servers hold it.
pub destroy_client-Outlives :
    (cli : ℕ) (place : Place) (cmd : CommandRef) (p : Proxy)
    → WaitsAt place cmd p
    → (is_of p cli cmd ≡ true → HeldByPeers cli cmd p)
    → Outlives (is_of p cli cmd) place cmd (destroy_client cli p)
destroy_client-Outlives cli place cmd p waits held = elim (Bool-cases (is_of p cli cmd)) [
  | inl t ↦
      subst (λ b. Outlives b place cmd (destroy_client cli p)) (sym t)
        (destroyed-gone cli cmd p (held t) t)
  | inr t ↦
      subst (λ b. Outlives b place cmd (destroy_client cli p)) (sym t)
        (destroyed-stays cli place cmd p t waits)
]
