-- ===== src/Client/Process.antt =====
-- core/client.cpp: `_process`, which moves the groups that were parsed to those that wait.
use redis_cerberus.Prelude.{
  ℕ, zero, suc, false, List, [], ◌∷◌, ◌++◌, append_assoc, append-nil, take, drop, take-append-drop,
  Bool-cases, inl, inr, ◌≡◌, refl, sym, ap, subst, ◌∙◌, if◌then◌else◌,
}
use redis_cerberus.Buffer.Offset.{IsKept}
use redis_cerberus.Buffer.Account.{pending}
use redis_cerberus.State.{CommandGroup, Client, Proxy, set_client, is_positive, incr}
use redis_cerberus.State.Queues.{select_remote}
use redis_cerberus.Client.Responses.{push_awaitings_to_ready}
use redis_cerberus.Client.{
  waits_remote, process_group, process_groups, process_end, process, watch_peers, max_pipe,
  count_awaiting,
}
use redis_cerberus.Client.Frame.{
  AllShort, Frame, Frame-trans, update-same, select_remote-Frame, watch_peers-Frame, stream_of,
  queue_of,
}
use redis_cerberus.Client.Order.{
  Between, Between-none, Delivers, Delivers-trans, Delivers-IsReady, IsReady,
  push_awaitings_to_ready-Delivers,
}

count_awaiting-Frame : (c : ℕ) (p : Proxy) → Frame c p (count_awaiting c p)
count_awaiting-Frame c p =
    let here =
      update-same p.clients c
        (record (p.clients c) { awaiting_count = incr (p.clients c).awaiting_count }) in
    (
      ap (λ x. x.awaiting_groups) here,
      ap (λ x. x.parsed_groups) here,
      ap (λ x. x.ready_groups) here,
      ap (λ x. x.written) here,
      ap (λ x. x.output) here,
      refl,
      ap (λ x. x.closed) here,
    )

-- Groups go to the end of those that wait, and nothing else changes that is looked at here.
abbrev Moves : ℕ → Proxy → Proxy → List ℕ → Type 0
Moves c p q gs =
    ((q.clients c).awaiting_groups ≡ (p.clients c).awaiting_groups ++ gs)
    × ((q.clients c).parsed_groups ≡ (p.clients c).parsed_groups)
    × ((q.clients c).written ≡ (p.clients c).written)
    × ((q.clients c).output ≡ (p.clients c).output)
    × (q.groups ≡ p.groups)
    × ((q.clients c).closed ≡ (p.clients c).closed)

selected-Frame :
    (c g : ℕ) (p : Proxy)
    → Frame c p (
        if waits_remote (p.groups g).state
        then select_remote g (p.groups g).state (count_awaiting c p)
        else p)
selected-Frame c g p = elim (Bool-cases (waits_remote (p.groups g).state)) [
  | inl t ↦ rw t (
      Frame-trans c p (count_awaiting c p) (select_remote g (p.groups g).state (count_awaiting c p))
        (count_awaiting-Frame c p)
        (select_remote-Frame c g (p.groups g).state (count_awaiting c p)))
  | inr t ↦ rw t (refl, refl, refl, refl, refl, refl, refl)
]

process_group-Moves : (c g : ℕ) (p : Proxy) → Moves c p (process_group c g p) (g ∷ [])
unfolding process_group
process_group-Moves c g p =
    let q =
      if waits_remote (p.groups g).state
      then select_remote g (p.groups g).state (count_awaiting c p)
      else p in
    let (a, b, d, e, f, h, k) = selected-Frame c g p in
    let here =
      update-same q.clients c
        (record (q.clients c) { awaiting_groups = (q.clients c).awaiting_groups ++ g ∷ [] }) in
    (
      ap (λ x. x.awaiting_groups) here ∙ ap (λ x. x ++ g ∷ []) a,
      ap (λ x. x.parsed_groups) here ∙ b,
      ap (λ x. x.written) here ∙ e,
      ap (λ x. x.output) here ∙ f,
      h,
      ap (λ x. x.closed) here ∙ k,
    )

Moves-trans :
    (c : ℕ) (p q r : Proxy) (gs hs : List ℕ)
    → Moves c p q gs
    → Moves c q r hs
    → Moves c p r (gs ++ hs)
Moves-trans c p q r gs hs (a, b, d, e, f, k) (a', b', d', e', f', k') = (
  a' ∙ ap (λ x. x ++ hs) a ∙ append_assoc (p.clients c).awaiting_groups gs hs,
  b' ∙ b,
  d' ∙ d,
  e' ∙ e,
  f' ∙ f,
  k' ∙ k,
)

pub process_groups-Moves :
    (n c : ℕ) (gs : List ℕ) (p : Proxy)
    → AllShort p.groups gs
    → ((process_groups n c gs p).1 ≡ false) × Moves c p (process_groups n c gs p).0 gs
unfolding process_groups
process_groups-Moves n c [] p short = (refl, (sym (append-nil _), refl, refl, refl, refl, refl))
process_groups-Moves n c (g ∷ gs) p (here, short) =
    let q = process_group c g p in
    let first = process_group-Moves c g p in
    let short' = subst (λ f. AllShort f gs) (sym first.4) short in
    let (goes, others) = process_groups-Moves n c gs q short' in
    rw here (goes, Moves-trans c p q (process_groups n c gs q).0 (g ∷ []) gs first others)

pub AllShort-take :
    (f : ℕ → CommandGroup) (n : ℕ) (gs : List ℕ) → AllShort f gs → AllShort f (take n gs)
AllShort-take f zero gs h = tt
AllShort-take f (suc n) [] h = tt
AllShort-take f (suc n) (g ∷ gs) (h, hs) = (h, AllShort-take f n gs hs)

AllShort-drop :
    (f : ℕ → CommandGroup) (n : ℕ) (gs : List ℕ) → AllShort f gs → AllShort f (drop n gs)
AllShort-drop f zero gs h = h
AllShort-drop f (suc n) [] h = tt
AllShort-drop f (suc n) (g ∷ gs) (h, hs) = AllShort-drop f n gs hs

-- A client that differs in what is not looked at here.
Between-same :
    (cl cl' : Client) (f f' : ℕ → CommandGroup)
    → queue_of cl ≡ queue_of cl'
    → cl'.written ≡ cl.written
    → cl'.output ≡ cl.output
    → f' ≡ f
    → IsKept cl.output.buf_arr cl.output.first_offset
    → AllShort f' cl'.parsed_groups
    → cl'.closed ≡ cl.closed
    → Between cl f cl' f'
unfolding stream_of
Between-same cl cl' f f' e w o same kept short k =
    Between-none cl cl' f f' e
      (ap (λ x. x ++ pending cl'.output.buf_arr cl'.output.first_offset) w
        ∙ ap (λ x. cl.written ++ pending x.buf_arr x.first_offset) o)
      same (subst (λ x. IsKept x.buf_arr x.first_offset) (sym o) kept) short k

Frame-Delivers : (c : ℕ) (p q : Proxy) → Frame c p q → IsReady c p → Delivers c p q
Frame-Delivers c p q (a, b, d, e, f, g, k) (kept, short) =
    Between-same (p.clients c) (q.clients c) p.groups q.groups
      (ap (λ x. x ++ (p.clients c).parsed_groups) (sym a)
        ∙ ap (λ x. (q.clients c).awaiting_groups ++ x) (sym b))
      e f g kept
      (subst (λ x. AllShort q.groups x) (sym b)
        (subst (λ x. AllShort x (p.clients c).parsed_groups) (sym g) short))
      k

-- The state behind the loop of `_process`, with the groups it moved erased.
moved : ℕ → ℕ → Proxy → Proxy
moved n c p =
    let q = (process_groups n c (take max_pipe (p.clients c).parsed_groups) p).0 in
    set_client c
      (record (q.clients c) { parsed_groups = drop max_pipe (q.clients c).parsed_groups }) q

moved-Delivers : (n c : ℕ) (p : Proxy) → IsReady c p → Delivers c p (moved n c p)
unfolding moved
moved-Delivers n c p (kept, short) =
    let cl = p.clients c in
    let q = (process_groups n c (take max_pipe cl.parsed_groups) p).0 in
    let (goes, (a, b, d, e, f, k)) =
      process_groups-Moves n c (take max_pipe cl.parsed_groups) p
        (AllShort-take p.groups max_pipe cl.parsed_groups short) in
    let cl' = record (q.clients c) { parsed_groups = drop max_pipe (q.clients c).parsed_groups } in
    let here = sym (update-same q.clients c cl') in
    let left = AllShort-drop q.groups max_pipe (q.clients c).parsed_groups (
      subst (λ x. AllShort q.groups x) (sym b)
        (subst (λ x. AllShort x cl.parsed_groups) (sym f) short)) in
    let rest : queue_of cl ≡ queue_of cl' =
      ap (◌++◌ cl.awaiting_groups) (sym (take-append-drop max_pipe cl.parsed_groups))
      ∙ sym (
          append_assoc cl.awaiting_groups (take max_pipe cl.parsed_groups)
            (drop max_pipe cl.parsed_groups))
      ∙ ap (λ x. x ++ drop max_pipe cl.parsed_groups) (sym a)
      ∙ ap (λ x. (q.clients c).awaiting_groups ++ drop max_pipe x) (sym b) in
    subst (λ x. Between cl p.groups x q.groups) here
      (Between-same cl cl' p.groups q.groups rest d e f kept left k)

pub process-Delivers : (n c : ℕ) (p : Proxy) → IsReady c p → Delivers c p (process n c p)
unfolding process process_end moved
process-Delivers n c p ready =
    let cl = p.clients c in
    let q = (process_groups n c (take max_pipe cl.parsed_groups) p).0 in
    let r = moved n c p in
    let first = moved-Delivers n c p ready in
    let ready' = Delivers-IsReady c p r first in
    let (goes, others) =
      process_groups-Moves n c (take max_pipe cl.parsed_groups) p
        (AllShort-take p.groups max_pipe cl.parsed_groups ready.1) in
    elim (Bool-cases (is_positive (q.clients c).awaiting_count)) [
      | inl t ↦
          rw (goes, process_end, t)
            (Delivers-trans c p r (watch_peers (q.clients c).peers r) first (
              Frame-Delivers c r (watch_peers (q.clients c).peers r)
                (watch_peers-Frame c (q.clients c).peers r) ready'))
      | inr t ↦
          rw (goes, process_end, t)
            (Delivers-trans c p r (push_awaitings_to_ready c r) first
              (push_awaitings_to_ready-Delivers c r ready'))
    ]
