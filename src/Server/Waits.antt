-- ===== src/Server/Waits.antt =====
-- core/server.cpp: the commands that wait for an answer, with a server or to be sent again.
use mathlib.Core.List.{Memᴰ}
use mathlib.Core.List.Memᴰ
use redis_cerberus.Prelude.{
  ℕ, zero, suc, ◌≤◌, true, ◌==◌, ltb, List, [], ◌∷◌, ◌++◌, Bytes, length, drop, take,
  take-append-drop, map, Option, none, some, ◌≡◌, refl, sym, ap, subst, ◌∙◌, arith, Bool-cases, inl,
  inr, ◌⊎◌,
}
use redis_cerberus.Message.Outcome.{
  Outcome, ok, message_interrupted, bad_redis_message, fault, exhausted,
}
use redis_cerberus.Response.{Response}
use redis_cerberus.State.{CommandRef, Proxy, Server, set_server}
use redis_cerberus.Server.{present, close_conn, recv_from}
use redis_cerberus.Server.Pairing.{left_after, unanswered, Joins, recv_from-Joins}

-- A command waits to be sent again, or a server is to answer it.
abbrev pub Waits : CommandRef → Proxy → Type 0
Waits cmd p = Memᴰ cmd p.retrying_commands ⊎ ((s : ℕ) × Memᴰ (some cmd) (unanswered s p))

Mem-present :
    (cmd : CommandRef) (cs : List (Option CommandRef)) → Memᴰ (some cmd) cs → Memᴰ cmd (present cs)
unfolding present
Mem-present cmd [] m = elim m [ ]
Mem-present cmd (none ∷ cs) (Memᴰ.head e) = absurd (some-none e)
  where
    some-none : ◌≡◌ {A = Option CommandRef} (some cmd) none → ⊥
    some-none e = ground arith
Mem-present cmd (some c ∷ cs) (Memᴰ.head e) =
    Memᴰ.head (ap (λ o. elim o [ none ↦ cmd | some d ↦ d ]) e)
Mem-present cmd (none ∷ cs) (Memᴰ.tail m) = Mem-present cmd cs m
Mem-present cmd (some c ∷ cs) (Memᴰ.tail m) = Memᴰ.tail (Mem-present cmd cs m)

pub Mem-map_some :
    (cmd : CommandRef) (cs : List CommandRef) → Memᴰ (some cmd) (map some cs) → Memᴰ cmd cs
Mem-map_some cmd [] m = elim m [ ]
Mem-map_some cmd (c ∷ cs) (Memᴰ.head e) = Memᴰ.head (ap (λ o. elim o [ none ↦ cmd | some d ↦ d ]) e)
Mem-map_some cmd (c ∷ cs) (Memᴰ.tail m) = Memᴰ.tail (Mem-map_some cmd cs m)

Mem-unanswered :
    (cmd : CommandRef) (cs : List CommandRef) (sent : List (Option CommandRef))
    → Memᴰ (some cmd) (sent ++ map some cs)
    → Memᴰ cmd (cs ++ present sent)
Mem-unanswered cmd cs sent m = elim (Memᴰ.append_cases sent m) [
  | inl k ↦ Memᴰ.append_right cs (Mem-present cmd sent k)
  | inr k ↦ Memᴰ.append_left (present sent) (Mem-map_some cmd cs k)
]

-- The queues hold what they held.
abbrev pub Keeps : Proxy → Proxy → Type 0
Keeps p q =
    (q.retrying_commands ≡ p.retrying_commands) × ((s : ℕ) → unanswered s q ≡ unanswered s p)

pub Keeps-trans : (p q r : Proxy) → Keeps p q → Keeps q r → Keeps p r
Keeps-trans p q r (e, f) (e', f') = (e' ∙ e, λ s. f' s ∙ f s)

pub Waits-Keeps : (cmd : CommandRef) (p q : Proxy) → Keeps p q → Waits cmd p → Waits cmd q
Waits-Keeps cmd p q (e, f) (inl m) = inl (subst (Memᴰ cmd) (sym e) m)
Waits-Keeps cmd p q (e, f) (inr (s, m)) = inr (s, subst (Memᴰ (some cmd)) (sym (f s)) m)

-- Only the queues of one server are looked at.
pub Keeps-at :
    (s : ℕ) (svr : Server) (p : Proxy)
    → svr.sent_commands ++ map some svr.commands ≡ unanswered s p
    → Keeps p (set_server s svr p)
Keeps-at s svr p h = (
  refl,
  λ t. elim (Bool-cases (s == t)) [
    | inl e ↦ let same : s ≡ t = ground arith in rw (e) (h ∙ ap (λ i. unanswered i p) same)
    | inr e ↦ rw e refl
  ],
)

-- Closing the connection to a server loses no command.
pub close_conn-Waits :
    (cmd : CommandRef) (s : ℕ) (p : Proxy) → Waits cmd p → Waits cmd (close_conn s p)
unfolding close_conn
close_conn-Waits cmd s p waits =
    let svr = p.servers s in
    elim (Bool-cases svr.closed) [
      | inl t ↦ rw (close_conn, t) waits
      | inr t ↦
          rw (close_conn, t)
            (elim waits [
              | inl m ↦ inl (Memᴰ.append_left (svr.commands ++ present svr.sent_commands) m)
              | inr (i, m) ↦ elim (Bool-cases (s == i)) [
                | inl e ↦
                    let same : i ≡ s = ground arith in
                    inl (
                      Memᴰ.append_right p.retrying_commands (
                        Mem-unanswered cmd svr.commands svr.sent_commands
                          (subst (λ j. Memᴰ (some cmd) (unanswered j p)) same m)))
                | inr e ↦ inr (i, rw e m)
              ]
            ])
    ]

-- What `split_server_response` gave, where it threw nothing.
abbrev pub responses_in : Outcome (List Response × Bytes) → List Response
responses_in (ok (rs, rest)) = rs
responses_in _ = []

-- The commands that these responses are for.
abbrev pub answered_by : ℕ → Outcome (List Response × Bytes) → Proxy → List (Option CommandRef)
answered_by s o p = take (length (responses_in o)) (p.servers s).sent_commands

take-append : {A : Type 0} (n : ℕ) (xs ys : List A) → n ≤ length xs → take n (xs ++ ys) ≡ take n xs
take-append zero xs ys h = refl
take-append (suc n) [] ys h = absurd (omega arith)
take-append (suc n) (x ∷ xs) ys h = ap (◌∷◌ x) (take-append n xs ys (omega arith))

-- A command that a server is to answer is answered, or is still to be.
Mem-split :
    (cmd : CommandRef) (n : ℕ) (xs ys : List (Option CommandRef))
    → n ≤ length xs
    → Memᴰ (some cmd) (xs ++ ys)
    → Memᴰ (some cmd) (drop n (xs ++ ys)) ⊎ Memᴰ (some cmd) (take n xs)
Mem-split cmd n xs ys h m =
    let parts = subst (Memᴰ (some cmd)) (sym (take-append-drop n (xs ++ ys))) m in
    elim (Memᴰ.append_cases (take n (xs ++ ys)) parts) [
      | inl k ↦ inr (subst (Memᴰ (some cmd)) (take-append n xs ys h) k)
      | inr k ↦ inl k
    ]

Mem-Joins :
    (cmd : CommandRef) (cs ds : List (Option CommandRef))
    → Joins cs ds
    → Memᴰ (some cmd) cs
    → Memᴰ (some cmd) ds
Mem-Joins cmd cs ds (more, e) m =
    subst (Memᴰ (some cmd)) (sym e) (Memᴰ.append_left (map some more) m)

-- Few enough responses.
recv_few-Waits :
    (cmd : CommandRef) (s : ℕ) (rs : List Response) (rest : Bytes) (p : Proxy)
    → length rs ≤ length (p.servers s).sent_commands
    → Waits cmd p
    → Waits cmd (recv_from s (ok (rs, rest)) p).0
      ⊎ Memᴰ (some cmd) (take (length rs) (p.servers s).sent_commands)
recv_few-Waits cmd s rs rest p h waits =
    let q = (recv_from s (ok (rs, rest)) p).0 in
    let svr = p.servers s in
    elim waits [
      | inl m ↦
          let (goes, joins, (more, e)) = recv_from-Joins s s rs rest p h in
          inl (inl (subst (Memᴰ cmd) (sym e) (Memᴰ.append_left more m)))
      | inr (i, m) ↦
          let (goes, joins, again) = recv_from-Joins s i rs rest p h in
          elim (Bool-cases (s == i)) [
            | inr t ↦
                let all : left_after (length rs) s i p ≡ unanswered i p = rw t refl in
                inl (
                  inr (
                    i,
                    Mem-Joins cmd (left_after (length rs) s i p) (unanswered i q) joins
                        (subst (Memᴰ (some cmd)) (sym all) m),
                  ))
            | inl t ↦
                let same : i ≡ s = ground arith in
                let front : left_after (length rs) s i p ≡ drop (length rs) (unanswered i p) =
                  rw t refl in
                let sent =
                  subst (λ j. length rs ≤ length (p.servers j).sent_commands) (sym same) h in
                elim (Mem-split cmd (length rs) (p.servers i).sent_commands
                  (map some (p.servers i).commands) sent m) [
                    | inl k ↦ inl (
                        inr (
                          i,
                          Mem-Joins cmd (left_after (length rs) s i p) (unanswered i q) joins
                              (subst (Memᴰ (some cmd)) (sym front) k),
                        ))
                    | inr k ↦ inr (
                        subst (λ j. Memᴰ (some cmd) (take (length rs) (p.servers j).sent_commands))
                          same k)
                  ]
          ]
    ]

-- Too many.
recv_many-Waits :
    (cmd : CommandRef) (s : ℕ) (rs : List Response) (rest : Bytes) (p : Proxy)
    → ltb (length (p.servers s).sent_commands) (length rs) ≡ true
    → Waits cmd p
    → Waits cmd (recv_from s (ok (rs, rest)) p).0
unfolding recv_from
recv_many-Waits cmd s rs rest p many waits =
    let q = set_server s (record (p.servers s) { buffer = rest }) p in
    rw (recv_from, many)
      (close_conn-Waits cmd s q
        (Waits-Keeps cmd p q (Keeps-at s (record (p.servers s) { buffer = rest }) p refl) waits))

pub recv_from-Waits :
    (cmd : CommandRef) (s : ℕ) (o : Outcome (List Response × Bytes)) (p : Proxy)
    → Waits cmd p
    → Waits cmd (recv_from s o p).0 ⊎ Memᴰ (some cmd) (answered_by s o p)
unfolding recv_from
recv_from-Waits cmd s (ok (rs, rest)) p waits =
    elim (Bool-cases (ltb (length (p.servers s).sent_commands) (length rs))) [
      | inl many ↦ inl (recv_many-Waits cmd s rs rest p many waits)
      | inr few ↦ recv_few-Waits cmd s rs rest p (ground arith) waits
    ]
recv_from-Waits cmd s message_interrupted p waits = inl (close_conn-Waits cmd s p waits)
recv_from-Waits cmd s bad_redis_message p waits = inl (close_conn-Waits cmd s p waits)
recv_from-Waits cmd s fault p waits = inl (close_conn-Waits cmd s p waits)
recv_from-Waits cmd s exhausted p waits = inl (close_conn-Waits cmd s p waits)
