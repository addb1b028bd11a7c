-- ===== src/Server/Pop.antt =====
-- core/server.cpp, `Server::pop_client`: what is left of the queues of a server.
use mathlib.Core.List.{Memᴰ}
use mathlib.Core.List.Memᴰ
use redis_cerberus.Prelude.{
  ℕ, Bool, true, false, ◌==◌, List, [], ◌∷◌, ◌++◌, map, Option, none, some, ◌≡◌, refl, sym, ap,
  subst, ◌∙◌, arith, Bool-cases, inl, inr, if◌then◌else◌,
}
use redis_cerberus.State.{CommandRef, Proxy, Server, update}
use redis_cerberus.Server.{erase_if, is_of, reset_if, pop_from_server}
use redis_cerberus.Server.Pairing.{unanswered}
use redis_cerberus.Server.Waits.{Mem-map_some}

pub Mem-some : (c : CommandRef) (cs : List CommandRef) → Memᴰ c cs → Memᴰ (some c) (map some cs)
Mem-some c [] m = elim m [ ]
Mem-some c (d ∷ ds) (Memᴰ.head e) = Memᴰ.head (ap some e)
Mem-some c (d ∷ ds) (Memᴰ.tail k) = Memᴰ.tail (Mem-some c ds k)

module _ (f : CommandRef → Bool) where
  pub erase_if-Mem :
      (c : CommandRef) (cs : List CommandRef) → Memᴰ c (erase_if f cs) → (f c ≡ false) × Memᴰ c cs
  unfolding erase_if
  erase_if-Mem c [] m = elim m [ ]
  erase_if-Mem c (d ∷ ds) m = elim (Bool-cases (f d)) [
    | inl t ↦
        let (e, k) =
          erase_if-Mem c ds
            (subst (λ b. Memᴰ c (if b then erase_if f ds else d ∷ erase_if f ds)) t m) in
        (e, Memᴰ.tail k)
    | inr t ↦
        elim (Memᴰ.cases_cons
          (subst (λ b. Memᴰ c (if b then erase_if f ds else d ∷ erase_if f ds)) t m)) [
            | inl e ↦ (ap f e ∙ t, Memᴰ.head e)
            | inr k ↦ let (e, l) = erase_if-Mem c ds k in (e, Memᴰ.tail l)
          ]
  ]

  pub Mem-erase_if :
      (c : CommandRef) (cs : List CommandRef) → f c ≡ false → Memᴰ c cs → Memᴰ c (erase_if f cs)
  unfolding erase_if
  Mem-erase_if c [] h m = elim m [ ]
  Mem-erase_if c (d ∷ ds) h (Memᴰ.head e) =
      let stays : f d ≡ false = ap f (sym e) ∙ h in rw stays (Memᴰ.head e)
  Mem-erase_if c (d ∷ ds) h (Memᴰ.tail k) = elim (Bool-cases (f d)) [
    | inl t ↦ rw t (Mem-erase_if c ds h k)
    | inr t ↦ rw t (Memᴰ.tail (Mem-erase_if c ds h k))
  ]

  reset_if-some :
      (c : CommandRef) (o : Option CommandRef)
      → some c ≡ reset_if f o
      → (f c ≡ false) × (some c ≡ o)
  reset_if-some c none e = absurd (ground arith)
  reset_if-some c (some d) e = elim (Bool-cases (f d)) [
    | inl t ↦ absurd (some-none (e ∙ ap (λ b. if b then none else some d) t))
    | inr t ↦
        let same : some c ≡ some d = e ∙ ap (λ b. if b then none else some d) t in
        (ap (λ o. elim o [ none ↦ f c | some x ↦ f x ]) same ∙ t, same)
  ]
    where
      some-none : ◌≡◌ {A = Option CommandRef} (some c) none → ⊥
      some-none e = ground arith

  reset_if-Mem :
      (c : CommandRef) (cs : List (Option CommandRef))
      → Memᴰ (some c) (map (reset_if f) cs)
      → (f c ≡ false) × Memᴰ (some c) cs
  reset_if-Mem c [] m = elim m [ ]
  reset_if-Mem c (o ∷ cs) (Memᴰ.head e) = let (h, e') = reset_if-some c o e in (h, Memᴰ.head e')
  reset_if-Mem c (o ∷ cs) (Memᴰ.tail k) = let (h, l) = reset_if-Mem c cs k in (h, Memᴰ.tail l)

  Mem-reset_if :
      (c : CommandRef) (cs : List (Option CommandRef))
      → f c ≡ false
      → Memᴰ (some c) cs
      → Memᴰ (some c) (map (reset_if f) cs)
  Mem-reset_if c [] h m = elim m [ ]
  Mem-reset_if c (o ∷ cs) h (Memᴰ.head e) =
      let stays : reset_if f (some c) ≡ some c = rw h refl in
      Memᴰ.head (sym stays ∙ ap (reset_if f) e)
  Mem-reset_if c (o ∷ cs) h (Memᴰ.tail k) = Memᴰ.tail (Mem-reset_if c cs h k)

  -- The queue of a server before and after its commands are taken out.
  popped-Mem :
      (c : CommandRef) (sent : List (Option CommandRef)) (cs : List CommandRef)
      → Memᴰ (some c) (map (reset_if f) sent ++ map some (erase_if f cs))
      → (f c ≡ false) × Memᴰ (some c) (sent ++ map some cs)
  popped-Mem c sent cs m = elim (Memᴰ.append_cases (map (reset_if f) sent) m) [
    | inl k ↦ let (h, l) = reset_if-Mem c sent k in (h, Memᴰ.append_left (map some cs) l)
    | inr k ↦
        let (h, l) = erase_if-Mem c cs (Mem-map_some c (erase_if f cs) k) in
        (h, Memᴰ.append_right sent (Mem-some c cs l))
  ]

  Mem-popped :
      (c : CommandRef) (sent : List (Option CommandRef)) (cs : List CommandRef)
      → f c ≡ false
      → Memᴰ (some c) (sent ++ map some cs)
      → Memᴰ (some c) (map (reset_if f) sent ++ map some (erase_if f cs))
  Mem-popped c sent cs h m = elim (Memᴰ.append_cases sent m) [
    | inl k ↦ Memᴰ.append_left (map some (erase_if f cs)) (Mem-reset_if c sent h k)
    | inr k ↦
        Memᴰ.append_right (map (reset_if f) sent)
          (Mem-some c (erase_if f cs) (Mem-erase_if c cs h (Mem-map_some c cs k)))
  ]

pub pop_from_server-Mem :
    (cli s t : ℕ) (cmd : CommandRef) (p : Proxy)
    → Memᴰ (some cmd) (unanswered t (pop_from_server cli s p))
    → Memᴰ (some cmd) (unanswered t p) × ((s == t) ≡ true → is_of p cli cmd ≡ false)
unfolding pop_from_server
pop_from_server-Mem cli s t cmd p m = elim (Bool-cases (s == t)) [
  | inl e ↦
      let same : s ≡ t = ground arith in
      let (h, k) =
        popped-Mem (is_of p cli) cmd (p.servers s).sent_commands (p.servers s).commands (
          subst (λ svr. Memᴰ (some cmd) (svr.sent_commands ++ map some svr.commands)) (here e) m) in
      (subst (λ i. Memᴰ (some cmd) (unanswered i p)) same k, λ _. h)
  | inr e ↦ (
    subst (λ svr. Memᴰ (some cmd) (svr.sent_commands ++ map some svr.commands)) (here e) m,
    λ same. absurd (ground arith),
  )
]
  where
    popped : Server
    popped = record (p.servers s) {
      commands = erase_if (is_of p cli) (p.servers s).commands;
      sent_commands = map (reset_if (is_of p cli)) (p.servers s).sent_commands;
    }

    here :
        {b : Bool}
        → (s == t) ≡ b
        → update p.servers s popped t ≡ (if b then popped else p.servers t)
    here e = ap (λ b. if b then popped else p.servers t) e

pub Mem-pop_from_server :
    (cli s t : ℕ) (cmd : CommandRef) (p : Proxy)
    → is_of p cli cmd ≡ false
    → Memᴰ (some cmd) (unanswered t p)
    → Memᴰ (some cmd) (unanswered t (pop_from_server cli s p))
unfolding pop_from_server
Mem-pop_from_server cli s t cmd p h m = elim (Bool-cases (s == t)) [
  | inl e ↦
      let same : t ≡ s = ground arith in
      let k = subst (λ i. Memᴰ (some cmd) (unanswered i p)) same m in
      rw e (Mem-popped (is_of p cli) cmd (p.servers s).sent_commands (p.servers s).commands h k)
  | inr e ↦ rw e m
]

pub pop_from_server-groups : (cli s : ℕ) (p : Proxy) → (pop_from_server cli s p).groups ≡ p.groups
unfolding pop_from_server
pop_from_server-groups cli s p = refl
