-- ===== src/Client/Answers.antt =====
-- core/command.cpp: what a client is answered to MGET and DEL, and when, as the answers of several servers
-- come in, in whatever order.
use mathlib.Core.Path.{fun_ext}
use redis_cerberus.Prelude.{
  ℕ, zero, suc, Bool, true, false, List, [], ◌∷◌, ◌++◌, Bytes, codes, length, map, ◌==◌, Bool-cases,
  inl, inr, if◌then◌else◌, ◌≡◌, refl, ap, ◌∙◌, arith,
}
use redis_cerberus.Text.Decimal.{str}
use redis_cerberus.Message.Reply.{integer, put}
use redis_cerberus.Command.Group.{OneSlotCommand, Multiple, mget_group, del_group, deleted, has_one}
use redis_cerberus.State.{GroupState, multiple, Gathering, Proxy, set_group}
use redis_cerberus.Client.Responses.{
  gather, multiple_responsed, responsed_in, on_remote_responsed, group_responsed, append_buffers,
}
use redis_cerberus.Client.Gather.{
  gather_each, gather-awaiting, gather_each-complete, gather_each-buffers, AllAnswered,
  answers_from, header,
}

-- The answers to the commands of a group at the places given, one after the other, each an error or not.
unfoldable pub answer_each : ℕ → (ℕ → Bytes) → (ℕ → Bool) → List ℕ → Proxy → Proxy
answer_each g f error [] p = p
answer_each g f error (i ∷ is) p =
    answer_each g f error is
      (on_remote_responsed (record { group = g; place = i }) (f i) (error i) p)

module _ (g : ℕ) (s t : GroupState) (p : Proxy) where
  pub set_group-state : ((set_group g s p).groups g).state ≡ s
  set_group-state = let same : (g == g) ≡ true = ground arith in rw same refl

  pub set_group-client : ((set_group g s p).groups g).client ≡ (p.groups g).client
  set_group-client = let same : (g == g) ≡ true = ground arith in rw same refl

  set_group-again : set_group g t (set_group g s p) ≡ set_group g t p
  set_group-again = ap (λ gs. record p { groups = gs }) (fun_ext at)
    where
      at : (j : ℕ) → (set_group g t (set_group g s p)).groups j ≡ (set_group g t p).groups j
      at j =
          let same : (g == g) ≡ true = ground arith in
          elim (Bool-cases (g == j)) [ inl e ↦ rw (e, same) refl | inr e ↦ rw e refl ]

-- An answer that is not the last only changes the group.
gather-waits :
    (i n : ℕ) (r : Bytes) (m : Gathering)
    → m.awaiting_count ≡ suc (suc n)
    → (gather i r m).1 ≡ false
unfolding gather
gather-waits i n r m e = rw (gather, e) refl

gather-last : (i : ℕ) (r : Bytes) (m : Gathering) → m.awaiting_count ≡ 1 → (gather i r m).1 ≡ true
unfolding gather
gather-last i r m e = rw (gather, e) refl

multiple_responsed-flag :
    (g : ℕ) (kind : Multiple) (m : Gathering × Bool) (p : Proxy) (last : Bool)
    → m.1 ≡ last
    → multiple_responsed g kind m p ≡ (
        let q = set_group g (multiple kind m.0) p in
        if last then group_responsed (p.groups g).client q else q)
unfolding multiple_responsed
multiple_responsed-flag g kind m p last e = rw e refl

module _ (g : ℕ) (kind : Multiple) (f : ℕ → Bytes) (error : ℕ → Bool) where
  responsed-multiple :
      (i : ℕ) (m : Gathering) (p : Proxy)
      → (p.groups g).state ≡ multiple kind m
      → on_remote_responsed (record { group = g; place = i }) (f i) (error i) p
        ≡ multiple_responsed g kind (gather i (f i) m) p
  unfolding on_remote_responsed responsed_in
  responsed-multiple i m p e = rw e refl

  -- As many answers as are awaited change the group and then, once, tell the client.
  answer_each-multiple :
      (is : List ℕ) (n : ℕ) (m : Gathering) (p : Proxy)
      → length is ≡ suc n
      → m.awaiting_count ≡ suc n
      → (p.groups g).state ≡ multiple kind m
      → answer_each g f error is p
        ≡ group_responsed (p.groups g).client (set_group g (multiple kind (gather_each is f m)) p)
  unfolding answer_each gather_each
  answer_each-multiple [] n m p e h at = absurd (omega arith)
  answer_each-multiple (i ∷ []) n m p e h at =
      let one : n ≡ 0 = omega (arith, e) in
      let last : m.awaiting_count ≡ 1 = h ∙ ap suc one in
      responsed-multiple i m p at
      ∙ multiple_responsed-flag g kind (gather i (f i) m) p true (gather-last i (f i) m last)
  answer_each-multiple (i ∷ j ∷ is) zero m p e h at = absurd (omega (arith, e))
  answer_each-multiple (i ∷ j ∷ is) (suc n) m p e h at =
      let m' = (gather i (f i) m).0 in
      let q = set_group g (multiple kind m') p in
      let all = multiple kind (gather_each (j ∷ is) f m') in
      let step =
        responsed-multiple i m p at
        ∙ multiple_responsed-flag g kind (gather i (f i) m) p false (gather-waits i n (f i) m h) in
      ap (answer_each g f error (j ∷ is)) step
      ∙ answer_each-multiple (j ∷ is) n m' q (omega (arith, e)) (gather-awaiting i n (f i) m h)
          (set_group-state g (multiple kind m') all p)
      ∙ ap (λ c. group_responsed c (set_group g all q))
          (set_group-client g (multiple kind m') all p)
      ∙ ap (group_responsed (p.groups g).client) (set_group-again g (multiple kind m') all p)

-- The commands of an MGET, each of which is answered, in any order of the servers and with whatever
-- bytes: all answers but the last change nothing but the group, and the last completes the group and
-- tells the client, once. The client then gets the array of the answers in the order of the commands.
-- There are as many answers as are awaited, one at least, and one for each command.
pub answer_each-mget :
    (g : ℕ) (f : ℕ → Bytes) (error : ℕ → Bool) (is : List ℕ) (n : ℕ) (m : Gathering) (p : Proxy)
    → length is ≡ suc n
    → m.awaiting_count ≡ suc n
    → AllAnswered is 0 (length m.commands)
    → (p.groups g).state ≡ multiple mget_group m
    → let all = gather_each is f m in
      (answer_each g f error is p
        ≡ group_responsed (p.groups g).client (set_group g (multiple mget_group all) p))
      × (all.complete ≡ true)
      × (append_buffers (multiple mget_group all)
          ≡ header (length m.commands) ∷ answers_from f 0 m.commands)
unfolding append_buffers
answer_each-mget g f error is n m p e h every at =
    let (first, complete) = gather_each-complete is f n m e h in
    let commands = (gather_each is f m).commands in
    (
      answer_each-multiple g mget_group f error is n m p e h at,
      complete,
      ap (λ x. x ∷ map (λ c. c.buffer) commands) first
          ∙ ap (◌∷◌ (header (length m.commands))) (gather_each-buffers is f m every),
    )

-- A server's reply to DEL of one key, which was there or not.
abbrev pub del_reply : Bool → Bytes
del_reply true = put (integer false 1) []
del_reply false = put (integer false 0) []

-- How many of the keys were there, from the place `k` on.
unfoldable pub keys_there : (ℕ → Bool) → ℕ → List OneSlotCommand → ℕ
keys_there there k [] = 0
keys_there there k (c ∷ cs) =
    let rest = keys_there there (suc k) cs in if there k then suc rest else rest

has_one-del_reply : (b : Bool) → has_one (del_reply b) ≡ (if b then 1 else 0)
unfolding has_one put str
has_one-del_reply true = refl
has_one-del_reply false = refl

deleted-answers :
    (there : ℕ → Bool) (k : ℕ) (cs : List OneSlotCommand)
    → deleted (answers_from (λ i. del_reply (there i)) k cs) ≡ keys_there there k cs
unfolding deleted answers_from keys_there
deleted-answers there k [] = refl
deleted-answers there k (c ∷ cs) = elim (Bool-cases (there k)) [
  | inl e ↦ rw (has_one-del_reply (there k), e, deleted-answers there (suc k) cs) (omega arith)
  | inr e ↦ rw (has_one-del_reply (there k), e, deleted-answers there (suc k) cs) (omega arith)
]

-- The commands of a DEL, each of which is answered 1 or 0, in any order of the servers: all answers but
-- the last change nothing but the group, and the last tells the client, once, who is answered the
-- number of keys that were there. There are as many answers as are awaited, one at least, and one for
-- each command.
pub answer_each-del :
    (g : ℕ) (there : ℕ → Bool) (error : ℕ → Bool) (is : List ℕ) (n : ℕ) (m : Gathering) (p : Proxy)
    → length is ≡ suc n
    → m.awaiting_count ≡ suc n
    → AllAnswered is 0 (length m.commands)
    → (p.groups g).state ≡ multiple del_group m
    → let all = gather_each is (λ i. del_reply (there i)) m in
      (answer_each g (λ i. del_reply (there i)) error is p
        ≡ group_responsed (p.groups g).client (set_group g (multiple del_group all) p))
      × (append_buffers (multiple del_group all)
          ≡ put (integer false (keys_there there 0 m.commands)) [] ∷ [])
unfolding append_buffers put
answer_each-del g there error is n m p e h every at =
    let f : ℕ → Bytes = λ i. del_reply (there i) in
    (
      answer_each-multiple g del_group f error is n m p e h at,
      ap (λ (bs : List Bytes). (b':' ∷ (str (deleted bs) ++ codes "\r\n")) ∷ [])
            (gather_each-buffers is f m every)
          ∙ ap (λ (k : ℕ). (b':' ∷ (str k ++ codes "\r\n")) ∷ [])
              (deleted-answers there 0 m.commands),
    )
