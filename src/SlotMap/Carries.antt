-- ===== src/SlotMap/Carries.antt =====
-- core/slot_map.cpp and server.cpp: a new slot map loses no command, whatever servers it closes and opens.
use mathlib.Core.List.{Memᴰ}
use mathlib.Core.List.Memᴰ
use redis_cerberus.Prelude.{
  if-both, ℕ, zero, suc, ◌-◌, false, ◌==◌, List, [], ◌∷◌, ◌++◌, map, Bytes, Option, none, some, ◌≡◌,
  refl, subst, ◌∙◌, arith, Bool-cases, Option-cases, inl, inr, if◌then◌else◌,
}
use redis_cerberus.Command.Parser.Keys.{is_nil}
use redis_cerberus.Text.Address.{Address}
use redis_cerberus.State.{CommandRef, Proxy, Server, set_server, contains}
use redis_cerberus.Server.{close_conn, erase_if}
use redis_cerberus.Server.Pairing.{unanswered}
use redis_cerberus.Server.Waits.{Waits, close_conn-Waits}
use redis_cerberus.SlotMap.{
  Network, Mapping, find_addr, fill_pool, reconnect, alloc_server, new_server, get_server, last_or,
  map_slot, map_range, map_ranges, map_node, map_nodes, close_all, replace_map, addr_for,
}
use redis_cerberus.SlotMap.Node.{Range, RedisNode}

-- The command still waits, and the groups are as they were.
abbrev pub Carries : CommandRef → Proxy → Proxy → Type 0
Carries cmd p q = (Waits cmd p → Waits cmd q) × (q.groups ≡ p.groups)

pub Carries-trans :
    (cmd : CommandRef) (p q r : Proxy) → Carries cmd p q → Carries cmd q r → Carries cmd p r
Carries-trans cmd p q r (f, e) (g, e') = (λ w. g (f w), e' ∙ e)

close_conn-Carries : (cmd : CommandRef) (s : ℕ) (p : Proxy) → Carries cmd p (close_conn s p)
unfolding close_conn
close_conn-Carries cmd s p = (
  close_conn-Waits cmd s p,
  elim (Bool-cases (p.servers s).closed) [
    | inl t ↦ rw (close_conn, t) refl
    | inr t ↦ rw (close_conn, t) refl
  ],
)

close_all-Carries : (cmd : CommandRef) (ss : List ℕ) (p : Proxy) → Carries cmd p (close_all ss p)
unfolding close_all
close_all-Carries cmd [] p = (λ w. w, refl)
close_all-Carries cmd (s ∷ ss) p =
    Carries-trans cmd p (close_conn s p) (close_all ss (close_conn s p))
      (close_conn-Carries cmd s p) (close_all-Carries cmd ss (close_conn s p))

-- One server changes, and what it is to answer stays there.
Carries-at :
    (cmd : CommandRef) (s : ℕ) (svr : Server) (p : Proxy)
    → (Memᴰ (some cmd) (unanswered s p)
        → Memᴰ (some cmd) (svr.sent_commands ++ map some svr.commands))
    → Carries cmd p (set_server s svr p)
Carries-at cmd s svr p h = (
  λ w. elim w [
    | inl m ↦ inl m
    | inr (t, m) ↦ inr (
      t,
      elim (Bool-cases (s == t)) [
        | inl e ↦
            let same : t ≡ s = ground arith in
            rw e (h (subst (λ i. Memᴰ (some cmd) (unanswered i p)) same m))
        | inr e ↦ rw e m
      ],
    )
  ],
  refl,
)

Mem-between :
    (cmd : CommandRef) (o : Option CommandRef) (xs ys : List (Option CommandRef))
    → Memᴰ (some cmd) (xs ++ ys)
    → Memᴰ (some cmd) ((xs ++ o ∷ []) ++ ys)
Mem-between cmd o xs ys m = elim (Memᴰ.append_cases xs m) [
  | inl k ↦ Memᴰ.append_left ys (Memᴰ.append_left (o ∷ []) k)
  | inr k ↦ Memᴰ.append_right (xs ++ o ∷ []) k
]

reconnect-Carries :
    (cmd : CommandRef) (net : Network) (a : Address) (s : ℕ) (p : Proxy)
    → Carries cmd p (reconnect net a s p)
reconnect-Carries cmd net a s p =
    let svr = p.servers s in
    let opened = record svr { closed = false; addr = a } in
    let marked = record opened { sent_commands = svr.sent_commands ++ none ∷ [] } in
    let q = set_server s opened p in
    let plain = Carries-at cmd s opened p (λ m. m) in
    if-both (Carries cmd p) (net.connects a)
      (set_server s (if net.readonly then marked else opened) p) (close_conn s q)
      (if-both (λ svr'. Carries cmd p (set_server s svr' p)) net.readonly marked opened
        (Carries-at cmd s marked p (Mem-between cmd none svr.sent_commands (map some svr.commands)))
        plain)
      (Carries-trans cmd p q (close_conn s q) plain (close_conn-Carries cmd s q))

fill_pool-Carries : (cmd : CommandRef) (p : Proxy) → Carries cmd p (fill_pool p)
fill_pool-Carries cmd p =
    if-both (Carries cmd p) (is_nil p.servers_pool) _ p (λ w. w, refl) (λ w. w, refl)

new_server-Carries :
    (cmd : CommandRef) (net : Network) (a : Address) (p : Proxy)
    → Carries cmd p (new_server net a p).0
unfolding alloc_server
new_server-Carries cmd net a p =
    let q = fill_pool p in
    let s = last_or 0 q.servers_pool in
    let (f, e) =
      Carries-trans cmd p q (reconnect net a s q) (fill_pool-Carries cmd p)
        (reconnect-Carries cmd net a s q) in
    (f, e)

get_server-Carries :
    (cmd : CommandRef) (net : Network) (a : Address) (p : Proxy)
    → Carries cmd p (get_server net a p).0
unfolding get_server
get_server-Carries cmd net a p = elim (Option-cases (find_addr a p.servers_map)) [
  | inl e ↦ rw (get_server, e) (new_server-Carries cmd net a p)
  | inr (s, e) ↦
      rw (get_server, e)
        (if-both (λ x. Carries cmd p x.0) (p.servers s).closed (new_server net a p) (p, s)
          (new_server-Carries cmd net a p) (λ w. w, refl))
]

map_range-Carries :
    (cmd : CommandRef) (s slot n : ℕ) (m : Mapping)
    → Carries cmd m.proxy (map_range s slot n m).proxy
unfolding map_range map_slot
map_range-Carries cmd s slot zero m = (λ w. w, refl)
map_range-Carries cmd s slot (suc n) m =
    let (f, e) = map_range-Carries cmd s (suc slot) n (map_slot s slot m) in (f, e)

map_ranges-Carries :
    (cmd : CommandRef) (s : ℕ) (ranges : List Range) (m : Mapping)
    → Carries cmd m.proxy (map_ranges s ranges m).proxy
unfolding map_ranges
map_ranges-Carries cmd s [] m = (λ w. w, refl)
map_ranges-Carries cmd s ((first, last) ∷ ranges) m =
    let m' = map_range s first (suc last - first) m in
    Carries-trans cmd m.proxy m'.proxy (map_ranges s ranges m').proxy
      (map_range-Carries cmd s first (suc last - first) m) (map_ranges-Carries cmd s ranges m')

map_node-Carries :
    (cmd : CommandRef) (net : Network) (a : Address) (ranges : List Range) (m : Mapping)
    → Carries cmd m.proxy (map_node net a ranges m).proxy
map_node-Carries cmd net a ranges m =
    let (q, s) = get_server net a m.proxy in
    let m' = record m { proxy = q } in
    Carries-trans cmd m.proxy q (map_ranges s ranges m').proxy
      (get_server-Carries cmd net a m.proxy) (map_ranges-Carries cmd s ranges m')

map_nodes-Carries :
    (cmd : CommandRef) (net : Network) (addr_of : RedisNode → Address) (nodes : List RedisNode)
    (m : Mapping)
    → Carries cmd m.proxy (map_nodes net addr_of nodes m).proxy
unfolding map_nodes
map_nodes-Carries cmd net addr_of [] m = (λ w. w, refl)
map_nodes-Carries cmd net addr_of (node ∷ nodes) m =
    let mapped = map_node net (addr_of node) node.slot_ranges m in
    let m' = if is_nil node.slot_ranges then m else mapped in
    Carries-trans cmd m.proxy m'.proxy (map_nodes net addr_of nodes m').proxy
      (if-both (λ (x : Mapping). Carries cmd m.proxy x.proxy) (is_nil node.slot_ranges) m mapped
        (λ w. w, refl) (map_node-Carries cmd net (addr_of node) node.slot_ranges m))
      (map_nodes-Carries cmd net addr_of nodes m')

pub replace_map-Carries :
    (cmd : CommandRef) (net : Network) (slave : Option Bytes) (nodes : List RedisNode) (p : Proxy)
    → Carries cmd p (replace_map net slave nodes p)
unfolding replace_map
replace_map-Carries cmd net slave nodes p =
    let m0 : Mapping = record { proxy = p; removed = []; new_mapped = [] } in
    let m = map_nodes net (addr_for slave nodes) nodes m0 in
    let ss = erase_if (contains m.new_mapped) m.removed in
    Carries-trans cmd p m.proxy (close_all ss m.proxy)
      (map_nodes-Carries cmd net (addr_for slave nodes) nodes m0) (close_all-Carries cmd ss m.proxy)
