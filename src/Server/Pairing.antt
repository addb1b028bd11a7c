-- ===== src/Server/Pairing.antt =====
-- core/server.cpp: responses answer the commands that were sent, in order.
use redis_cerberus.Prelude.{
  ℕ, zero, suc, ◌≤◌, false, ◌==◌, ltb, List, [], ◌∷◌, ◌++◌, append_assoc, append-nil, Bytes, length,
  drop, map, Option, none, some, ◌≡◌, refl, sym, ap, subst, ◌∙◌, arith, Bool-cases, inl, inr,
  if◌then◌else◌,
}
use redis_cerberus.Message.Outcome.{ok}
use redis_cerberus.Response.{Response, normal, retry_moved_ask}
use redis_cerberus.State.{CommandRef, Proxy, set_server}
use redis_cerberus.State.Queues.{retry_move_ask_command_later}
use redis_cerberus.Client.Grows.{
  Grows, Grows-Rests, Rests-refl, Grows-trans, on_remote_responsed-Grows,
}
use redis_cerberus.Server.{goes_on, rsp_to, respond_each, recv_from, close_conn}

pub rsp_to-Grows : (r : Response) (c : Option CommandRef) (p : Proxy) → Grows p (rsp_to r c p)
unfolding rsp_to retry_move_ask_command_later
rsp_to-Grows r none p = Grows-Rests p p (Rests-refl p)
rsp_to-Grows (normal b error) (some cmd) p = on_remote_responsed-Grows cmd b error p
rsp_to-Grows retry_moved_ask (some cmd) p =
    ((cmd ∷ [], refl), λ s. (([], sym (append-nil (p.servers s).commands)), refl, refl))

pub respond_each-Grows :
    (rs : List Response) (cs : List (Option CommandRef)) (p : Proxy)
    → Grows p (respond_each rs cs p)
unfolding respond_each
respond_each-Grows (r ∷ rs) (c ∷ cs) p =
    Grows-trans p (rsp_to r c p) (respond_each rs cs (rsp_to r c p)) (rsp_to-Grows r c p)
      (respond_each-Grows rs cs (rsp_to r c p))
respond_each-Grows (r ∷ rs) [] p = Grows-Rests p p (Rests-refl p)
respond_each-Grows [] cs p = Grows-Rests p p (Rests-refl p)

-- The commands that a server has still to answer, in the order in which it is to answer them.
abbrev pub unanswered : ℕ → Proxy → List (Option CommandRef)
unanswered s p = (p.servers s).sent_commands ++ map some (p.servers s).commands

map-append :
    (cs ds : List CommandRef)
    → ◌≡◌ {A = List (Option CommandRef)} (map some (cs ++ ds)) (map some cs ++ map some ds)
map-append [] ds = refl
map-append (c ∷ cs) ds = ap (◌∷◌ (some c)) (map-append cs ds)

-- Commands are put behind those that a server has to answer.
abbrev pub Joins : List (Option CommandRef) → List (Option CommandRef) → Type 0
Joins cs ds = (more : List CommandRef) × (ds ≡ cs ++ map some more)

pub Joins-Grows : (s : ℕ) (p q : Proxy) → Grows p q → Joins (unanswered s p) (unanswered s q)
Joins-Grows s p q (e, f) =
    let ((more, a), b, k) = f s in
    (
      more,
      ap (λ x. (q.servers s).sent_commands ++ map some x) a
          ∙ ap (λ x. x ++ map some ((p.servers s).commands ++ more)) b
          ∙ ap (◌++◌ (p.servers s).sent_commands) (map-append (p.servers s).commands more)
          ∙ sym (
              append_assoc (p.servers s).sent_commands (map some (p.servers s).commands)
                (map some more)),
    )

drop-append :
    {A : Type 0} (n : ℕ) (xs ys : List A) → n ≤ length xs → drop n (xs ++ ys) ≡ drop n xs ++ ys
drop-append zero xs ys h = refl
drop-append (suc n) [] ys h = absurd (omega arith)
drop-append (suc n) (x ∷ xs) ys h = drop-append n xs ys (omega arith)

-- The state in which the responses are dealt with.
received : ℕ → Bytes → Proxy → Proxy
received s rest p = set_server s (record (p.servers s) { buffer = rest }) p

received-Grows : (s : ℕ) (rest : Bytes) (p : Proxy) → Grows p (received s rest p)
unfolding received
received-Grows s rest p = (
  ([], sym (append-nil p.retrying_commands)),
  λ t. elim (Bool-cases (s == t)) [
    | inl e ↦
        let same : s ≡ t = ground arith in
        rw (e, same) (([], sym (append-nil (p.servers t).commands)), refl, refl)
    | inr e ↦ rw e (([], sym (append-nil (p.servers t).commands)), refl, refl)
  ],
)

answered : ℕ → List Response → Bytes → Proxy → Proxy
unfolding received
answered s rs rest p = respond_each rs (p.servers s).sent_commands (received s rest p)

answered-Grows :
    (s : ℕ) (rs : List Response) (rest : Bytes) (p : Proxy) → Grows p (answered s rs rest p)
unfolding answered
answered-Grows s rs rest p =
    Grows-trans p (received s rest p) (answered s rs rest p) (received-Grows s rest p)
      (respond_each-Grows rs (p.servers s).sent_commands (received s rest p))

-- The first of the sent commands are taken off.
answers_taken : ℕ → ℕ → Proxy → Proxy
answers_taken s n p =
    set_server s (record (p.servers s) { sent_commands = drop n (p.servers s).sent_commands }) p

recv_from-answered :
    (s : ℕ) (rs : List Response) (rest : Bytes) (p : Proxy)
    → length rs ≤ length (p.servers s).sent_commands
    → recv_from s (ok (rs, rest)) p ≡ (answers_taken s (length rs) (answered s rs rest p), goes_on)
unfolding recv_from answers_taken answered received
recv_from-answered s rs rest p h =
    let few : ltb (length (p.servers s).sent_commands) (length rs) ≡ false = ground arith in
    ap
      (λ b.
        if b
        then (close_conn s (received s rest p), goes_on)
        else (answers_taken s (length rs) (answered s rs rest p), goes_on))
      few

-- The queue of a server after so many of its commands were answered, where it is the one that answered.
abbrev pub left_after : ℕ → ℕ → ℕ → Proxy → List (Option CommandRef)
left_after n s t p = if s == t then drop n (unanswered t p) else unanswered t p

answers_taken-Joins :
    (s t n : ℕ) (p r : Proxy)
    → n ≤ length (p.servers s).sent_commands
    → Grows p r
    → Joins (left_after n s t p) (unanswered t (answers_taken s n r))
unfolding answers_taken
answers_taken-Joins s t n p r h all = elim (Bool-cases (s == t)) [
  | inr other ↦ rw other (Joins-Grows t p r all)
  | inl here ↦
      let same : s ≡ t = ground arith in
      let ((more, a), b, k) = all.1 t in
      let sent = (p.servers t).sent_commands in
      let h' = subst (λ i. n ≤ length (p.servers i).sent_commands) same h in
      rw (here, same)
        (
          more,
          ap (λ x. drop n x ++ map some (r.servers t).commands) b
              ∙ ap (λ x. drop n sent ++ map some x) a
              ∙ ap (◌++◌ (drop n sent)) (map-append (p.servers t).commands more)
              ∙ sym (append_assoc (drop n sent) (map some (p.servers t).commands) (map some more))
              ∙ ap (λ x. x ++ map some more)
                  (sym (drop-append n sent (map some (p.servers t).commands) h')),
        )
]

-- Where a server's read brings no more responses than there are sent commands, the handler goes on, that
-- many commands are taken off the front of that server's queue and of no other, and what is put on
-- meanwhile, by RENAME or for a slot that is elsewhere, is put behind all that waits.
pub recv_from-Joins :
    (s t : ℕ) (rs : List Response) (rest : Bytes) (p : Proxy)
    → length rs ≤ length (p.servers s).sent_commands
    → let q = (recv_from s (ok (rs, rest)) p).0 in
      ((recv_from s (ok (rs, rest)) p).1 ≡ goes_on)
      × Joins (left_after (length rs) s t p) (unanswered t q)
      × ((more : List CommandRef) × (q.retrying_commands ≡ p.retrying_commands ++ more))
unfolding answers_taken
recv_from-Joins s t rs rest p h =
    let n = length rs in
    let r = answered s rs rest p in
    let all = answered-Grows s rs rest p in
    subst
      (λ x.
        (x.1 ≡ goes_on)
        × Joins (left_after n s t p) (unanswered t x.0)
        × ((more : List CommandRef) × (x.0.retrying_commands ≡ p.retrying_commands ++ more)))
      (sym (recv_from-answered s rs rest p h)) (refl, answers_taken-Joins s t n p r h all, all.0)
