-- ===== src/Client/Order.antt =====
-- core/client.cpp: what is written to a client, beside its queue of groups.
use redis_cerberus.Prelude.{
  ℕ, List, [], ◌∷◌, ◌++◌, append_assoc, append-nil, Bytes, drop, Bool-cases, inl, inr, ◌≡◌, refl,
  sym, ap, subst, ◌∙◌,
}
use redis_cerberus.Buffer.Offset.{IsKept}
use redis_cerberus.Buffer.Account.{pending}
use redis_cerberus.Buffer.Writev.{concat-append, pending-zero}
use redis_cerberus.Command.Group.{concat}
use redis_cerberus.Command.Parser.Keys.{is_nil}
use redis_cerberus.State.{CommandGroup, GroupState, Client, Proxy}
use redis_cerberus.Client.Responses.{
  append_buffers, append_all, state_of, push_awaitings_to_ready, must_wait,
}
use redis_cerberus.Client.Frame.{stream_of, queue_of, answers_of, AllShort, update-same}

-- From one state of a client to a later one: the first of its groups were answered, which are written
-- behind what was there.
unfoldable pub Between : Client → (ℕ → CommandGroup) → Client → (ℕ → CommandGroup) → Type 0
Between cl groups cl' groups' =
    (gs : List ℕ) × (queue_of cl ≡ gs ++ queue_of cl')
    × (stream_of cl' ≡ stream_of cl ++ answers_of groups gs)
    × (groups' ≡ groups)
    × IsKept cl'.output.buf_arr cl'.output.first_offset
    × AllShort groups' cl'.parsed_groups
    × (cl'.closed ≡ cl.closed)

abbrev pub Delivers : ℕ → Proxy → Proxy → Type 0
Delivers c p q = Between (p.clients c) p.groups (q.clients c) q.groups

-- What is asked of a state.
abbrev pub IsReady : ℕ → Proxy → Type 0
IsReady c p =
    IsKept (p.clients c).output.buf_arr (p.clients c).output.first_offset
    × AllShort p.groups (p.clients c).parsed_groups

append_all-append :
    (f : ℕ → GroupState) (gs hs : List ℕ)
    → append_all f (gs ++ hs) ≡ append_all f gs ++ append_all f hs
unfolding append_all
append_all-append f [] hs = refl
append_all-append f (g ∷ gs) hs =
    ap (◌++◌ (append_buffers (f g))) (append_all-append f gs hs)
    ∙ sym (append_assoc (append_buffers (f g)) (append_all f gs) (append_all f hs))

answers_of-append :
    (f : ℕ → CommandGroup) (gs hs : List ℕ)
    → answers_of f (gs ++ hs) ≡ answers_of f gs ++ answers_of f hs
answers_of-append f gs hs =
    ap concat (append_all-append (λ g. (f g).state) gs hs)
    ∙ concat-append (append_all (λ g. (f g).state) gs) (append_all (λ g. (f g).state) hs)

pub Between-none :
    (cl cl' : Client) (f f' : ℕ → CommandGroup)
    → queue_of cl ≡ queue_of cl'
    → stream_of cl' ≡ stream_of cl
    → f' ≡ f
    → IsKept cl'.output.buf_arr cl'.output.first_offset
    → AllShort f' cl'.parsed_groups
    → cl'.closed ≡ cl.closed
    → Between cl f cl' f'
unfolding Between append_all concat
Between-none cl cl' f f' e t g kept short k =
    ([], e, t ∙ sym (append-nil (stream_of cl)), g, kept, short, k)

pub Between-trans :
    (a b d : Client) (f g h : ℕ → CommandGroup)
    → Between a f b g
    → Between b g d h
    → Between a f d h
unfolding Between
Between-trans a b d f g h (gs, e, t, same, kept, short, k) (hs, e', t', same', kept', short', k') =
    let answers : answers_of g hs ≡ answers_of f hs =
      ap (λ groups. concat (append_all (λ x. (groups x).state) hs)) same in
    (
      gs ++ hs,
      e ∙ ap (◌++◌ gs) e' ∙ sym (append_assoc gs hs (queue_of d)),
      t'
          ∙ ap (λ x. x ++ answers_of g hs) t
          ∙ append_assoc (stream_of a) (answers_of f gs) (answers_of g hs)
          ∙ ap (λ x. stream_of a ++ (answers_of f gs ++ x)) answers
          ∙ ap (◌++◌ (stream_of a)) (sym (answers_of-append f gs hs)),
      same' ∙ same,
      kept',
      short',
      k' ∙ k,
    )

pub Delivers-trans : (c : ℕ) (p q r : Proxy) → Delivers c p q → Delivers c q r → Delivers c p r
Delivers-trans c p q r x y =
    Between-trans (p.clients c) (q.clients c) (r.clients c) p.groups q.groups r.groups x y

pub Delivers-IsReady : (c : ℕ) (p q : Proxy) → Delivers c p q → IsReady c q
unfolding Between
Delivers-IsReady c p q (gs, e, f, same, kept, short, k) = (kept, short)

pub pending-more :
    (bufs more : List Bytes) (offset : ℕ)
    → IsKept bufs offset
    → pending (bufs ++ more) offset ≡ pending bufs offset ++ concat more
unfolding pending
pending-more [] more offset h = rw h (pending-zero more)
pending-more (b ∷ bufs) more offset h =
    ap (◌++◌ (drop offset b)) (concat-append bufs more)
    ∙ sym (append_assoc (drop offset b) (concat bufs) (concat more))

IsKept-append :
    (bufs more : List Bytes) (offset : ℕ) → IsKept bufs offset → IsKept (bufs ++ more) offset
IsKept-append [] [] offset h = h
IsKept-append [] (b ∷ more) offset h = tt
IsKept-append (b ∷ bufs) more offset h = tt

-- All groups that wait are put behind the output.
ready_client : Client → (ℕ → CommandGroup) → Client
ready_client cl f = record cl {
  output = record {
    buf_arr = cl.output.buf_arr ++ append_all (λ g. (f g).state) cl.awaiting_groups;
    first_offset = cl.output.first_offset;
  };
  ready_groups = cl.ready_groups ++ cl.awaiting_groups;
  awaiting_groups = [];
}

ready_client-Between :
    (cl : Client) (f : ℕ → CommandGroup)
    → IsKept cl.output.buf_arr cl.output.first_offset
    → AllShort f cl.parsed_groups
    → Between cl f (ready_client cl f) f
unfolding Between ready_client stream_of
ready_client-Between cl f kept short =
    let more = append_all (λ g. (f g).state) cl.awaiting_groups in
    (
      cl.awaiting_groups,
      refl,
      ap (◌++◌ cl.written) (pending-more cl.output.buf_arr more cl.output.first_offset kept)
          ∙ sym (
              append_assoc cl.written (pending cl.output.buf_arr cl.output.first_offset)
                (concat more)),
      refl,
      IsKept-append cl.output.buf_arr more cl.output.first_offset kept,
      short,
      refl,
    )

pub push_awaitings_to_ready-Delivers :
    (c : ℕ) (p : Proxy) → IsReady c p → Delivers c p (push_awaitings_to_ready c p)
unfolding push_awaitings_to_ready ready_client
push_awaitings_to_ready-Delivers c p (kept, short) =
    let cl = p.clients c in
    let out = cl.output.buf_arr ++ append_all (state_of p) cl.awaiting_groups in
    let here = sym (update-same p.clients c (ready_client cl p.groups)) in
    let pushed =
      subst (λ x. Between cl p.groups x p.groups) here
        (ready_client-Between cl p.groups kept short) in
    elim (Bool-cases (must_wait cl)) [
      | inl t ↦
          rw (push_awaitings_to_ready, t)
            (Between-none cl cl p.groups p.groups refl refl refl kept short refl)
      | inr t ↦ elim (Bool-cases (is_nil out)) [
        | inl u ↦ rw (push_awaitings_to_ready, t, u) pushed
        | inr u ↦ rw (push_awaitings_to_ready, t, u) pushed
      ]
    ]
