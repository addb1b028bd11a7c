-- ===== src/Client/Delivery.antt =====
-- core/client.cpp: `_send_buffer_set` and `_write_response`, and what they write.
use redis_cerberus.Prelude.{
  ℕ, ◌<◌, Bool, true, false, not, ◌||◌, ◌&&◌, List, [], ◌∷◌, ◌++◌, append_assoc, append-nil, Bytes,
  length, Bool-cases, ◌⊎◌, inl, inr, ◌≡◌, refl, sym, ap, subst, ◌∙◌, arith, if◌then◌else◌,
}
use redis_cerberus.Buffer.{Answer, Status, complete, later, threw, exhausted, Writing, writev}
use redis_cerberus.Buffer.Offset.{IsKept, ResetAt, writev-ResetAt}
use redis_cerberus.Buffer.Account.{pending}
use redis_cerberus.Buffer.Writev.{AccountsAt, writev-Accounts}
use redis_cerberus.Command.Parser.Keys.{is_nil}
use redis_cerberus.State.{CommandGroup, Client, Proxy, is_zero}
use redis_cerberus.Client.Responses.{push_awaitings_to_ready}
use redis_cerberus.Client.{
  process, wrote, all_sent, after_writev, send_buffer_set, write_first, write_response, Handled,
}
use redis_cerberus.Client.Frame.{AllShort, update-same, stream_of}
use redis_cerberus.Client.Order.{
  Between, Between-none, Delivers, Delivers-trans, Delivers-IsReady, IsReady,
  push_awaitings_to_ready-Delivers,
}
use redis_cerberus.Client.Process.{process-Delivers}

wrote-Between :
    (cl : Client) (f : ℕ → CommandGroup) (w : Writing) (ready peers : List ℕ)
    → w.sent ++ pending w.buffers.buf_arr w.buffers.first_offset
      ≡ pending cl.output.buf_arr cl.output.first_offset
    → IsKept w.buffers.buf_arr w.buffers.first_offset
    → AllShort f cl.parsed_groups
    → Between cl f
        (record cl {
          output = w.buffers;
          written = cl.written ++ w.sent;
          ready_groups = ready;
          peers = peers;
        })
        f
unfolding stream_of
wrote-Between cl f w ready peers e kept short =
    Between-none cl
      (record cl {
        output = w.buffers;
        written = cl.written ++ w.sent;
        ready_groups = ready;
        peers = peers;
      })
      f f refl
      (append_assoc cl.written w.sent (pending w.buffers.buf_arr w.buffers.first_offset)
        ∙ ap (◌++◌ cl.written) e)
      refl kept short refl

-- An exception, or a state in which the first groups were answered.
abbrev pub Sends : ℕ → Proxy → Handled → Type 0
Sends c p h = (h.1 ≡ true) ⊎ Delivers c p h.0

-- The client behind `writev`.
pub wrote-at :
    (c : ℕ) (w : Writing) (p : Proxy)
    → (wrote c w p).clients c
      ≡ record (p.clients c) { output = w.buffers; written = (p.clients c).written ++ w.sent }
wrote-at c w p =
    update-same p.clients c
      (record (p.clients c) { output = w.buffers; written = (p.clients c).written ++ w.sent })

pub all_sent-at :
    (c : ℕ) (p : Proxy)
    → (all_sent c p).clients c ≡ record (p.clients c) {
      ready_groups = [];
      peers = if is_nil (p.clients c).awaiting_groups then [] else (p.clients c).peers;
    }
all_sent-at c p = update-same p.clients c _

pending-none : (bufs : List Bytes) (offset : ℕ) → bufs ≡ [] → pending bufs offset ≡ []
unfolding pending
pending-none bufs offset e = rw e refl

pub all_sent-Delivers :
    (c : ℕ) (w : Writing) (p : Proxy)
    → IsReady c p
    → w.sent ≡ pending (p.clients c).output.buf_arr (p.clients c).output.first_offset
    → w.buffers.buf_arr ≡ []
    → w.buffers.first_offset ≡ 0
    → Delivers c p (all_sent c (wrote c w p))
all_sent-Delivers c w p (kept, short) e none_left reset =
    let cl = p.clients c in
    let nothing = pending-none w.buffers.buf_arr w.buffers.first_offset none_left in
    let whole : w.sent ++ pending w.buffers.buf_arr w.buffers.first_offset
        ≡ pending cl.output.buf_arr cl.output.first_offset =
      ap (◌++◌ w.sent) nothing ∙ append-nil w.sent ∙ e in
    let kept' = subst (λ x. IsKept x w.buffers.first_offset) (sym none_left) reset in
    let here =
      all_sent-at c (wrote c w p)
      ∙ ap {A = Client}
          (λ x. record x {
            ready_groups = [];
            peers = if is_nil x.awaiting_groups then [] else x.peers;
          })
          (wrote-at c w p) in
    subst (λ x. Between cl p.groups x p.groups) (sym here)
      (wrote-Between cl p.groups w [] (if is_nil cl.awaiting_groups then [] else cl.peers) whole
        kept' short)

IsKept-some : (bufs : List Bytes) (offset : ℕ) → 0 < length bufs → IsKept bufs offset
IsKept-some [] offset h = absurd (omega arith)
IsKept-some (b ∷ bufs) offset h = tt

after_writev-Sends :
    (n c : ℕ) (w : Writing) (st : Status) (p : Proxy)
    → IsReady c p
    → AccountsAt
        (pending (p.clients c).output.buf_arr (p.clients c).output.first_offset)
        st
        w.buffers
        w.sent
    → ResetAt st w.buffers
    → Sends c p (after_writev n c w st p)
unfolding after_writev AccountsAt ResetAt
after_writev-Sends n c w complete p ready (e, none_left) reset =
    let q = all_sent c (wrote c w p) in
    let first = all_sent-Delivers c w p ready e none_left reset in
    elim (Bool-cases (is_nil (q.clients c).parsed_groups)) [
      | inl t ↦ rw t (inr first)
      | inr t ↦ rw t (
          inr (
            Delivers-trans c p q (process n c q) first
              (process-Delivers n c q (Delivers-IsReady c p q first))))
    ]
after_writev-Sends n c w later p (kept, short) (e, some_left) reset =
    let cl = p.clients c in
    inr (
      subst (λ x. Between cl p.groups x p.groups) (sym (wrote-at c w p))
        (wrote-Between cl p.groups w cl.ready_groups cl.peers e
          (IsKept-some w.buffers.buf_arr w.buffers.first_offset some_left) short))
after_writev-Sends n c w threw p ready h reset = inl refl
after_writev-Sends n c w exhausted p ready h reset = absurd h

pub send_buffer_set-after :
    (iov_max n c : ℕ) (answers : List Answer) (p : Proxy)
    → (p.clients c).closed ≡ false
    → let out = (p.clients c).output in
      let w = writev iov_max (length out.buf_arr) out.buf_arr out.first_offset answers in
      send_buffer_set iov_max n c answers p ≡ after_writev n c w w.status p
unfolding send_buffer_set
send_buffer_set-after iov_max n c answers p opened =
    let out = (p.clients c).output in
    let w = writev iov_max (length out.buf_arr) out.buf_arr out.first_offset answers in
    ap
      (λ b.
        if b && not (is_nil out.buf_arr)
        then (record p { terminated = true }, false)
        else after_writev n c w w.status p)
      opened

send_buffer_set-Sends :
    (iov_max n c : ℕ) (answers : List Answer) (p : Proxy)
    → (p.clients c).closed ≡ false
    → IsReady c p
    → Sends c p (send_buffer_set iov_max n c answers p)
send_buffer_set-Sends iov_max n c answers p opened ready =
    let out = (p.clients c).output in
    let w = writev iov_max (length out.buf_arr) out.buf_arr out.first_offset answers in
    subst (Sends c p) (sym (send_buffer_set-after iov_max n c answers p opened)) (
      after_writev-Sends n c w w.status p ready
        (writev-Accounts iov_max (length out.buf_arr) out.buf_arr out.first_offset answers
          (omega arith))
        (writev-ResetAt iov_max (length out.buf_arr) out.buf_arr out.first_offset answers ready.0))

write_first-Sends :
    (iov_max n c : ℕ) (answers : List Answer) (p : Proxy)
    → (p.clients c).closed ≡ false
    → IsReady c p
    → Sends c p (write_first iov_max n c answers p)
unfolding write_first
write_first-Sends iov_max n c answers p opened (kept, short) =
    let chosen = λ (b : Bool). if b then (p, false) else send_buffer_set iov_max n c answers p in
    elim (Bool-cases (is_nil (p.clients c).output.buf_arr)) [
      | inl t ↦ subst (Sends c p) (sym (ap chosen t)) (
          inr (
            Between-none (p.clients c) (p.clients c) p.groups p.groups refl refl refl kept short
              refl))
      | inr t ↦
          subst (Sends c p) (sym (ap chosen t))
            (send_buffer_set-Sends iov_max n c answers p opened (kept, short))
    ]

Delivers-opened :
    (c : ℕ) (p q : Proxy) → Delivers c p q → (q.clients c).closed ≡ (p.clients c).closed
unfolding Between
Delivers-opened c p q (gs, e, f, same, kept, short, k) = k

-- What follows the first call, whatever that gave.
second-Sends :
    (iov_max n c : ℕ) (answers : List Answer) (p q : Proxy) (failed : Bool)
    → (p.clients c).closed ≡ false
    → Sends c p (q, failed)
    → Sends c p (
        if failed
          || is_nil (q.clients c).awaiting_groups
          || not (is_zero (q.clients c).awaiting_count)
        then (q, failed)
        else send_buffer_set iov_max n c answers (push_awaitings_to_ready c q))
second-Sends iov_max n c answers p q true opened h = h
second-Sends iov_max n c answers p q false opened (inl e) = absurd (ground arith)
second-Sends iov_max n c answers p q false opened (inr first) =
    let r = push_awaitings_to_ready c q in
    let second = push_awaitings_to_ready-Delivers c q (Delivers-IsReady c p q first) in
    let both = Delivers-trans c p q r first second in
    elim (Bool-cases
      (is_nil (q.clients c).awaiting_groups || not (is_zero (q.clients c).awaiting_count))) [
        | inl t ↦ rw t (inr first)
        | inr t ↦
            let last =
              send_buffer_set-Sends iov_max n c answers r (Delivers-opened c p r both ∙ opened)
                (Delivers-IsReady c p r both) in
            rw t (elim last [
              | inl e ↦ inl e
              | inr third ↦
                  inr (Delivers-trans c p r (send_buffer_set iov_max n c answers r).0 both third)
            ])
      ]

-- Writing to a client that asks for no long connection: where no exception is thrown, the groups
-- that leave the queue of the client are the first ones, and what the socket took and what is left to
-- write are the same as before with the answers of these groups behind, in the order of the requests,
-- each once. The groups themselves are left as they were, whatever the socket takes.
pub write_response-Sends :
    (iov_max n c : ℕ) (first second : List Answer) (p : Proxy)
    → (p.clients c).closed ≡ false
    → IsReady c p
    → Sends c p (write_response iov_max n c first second p)
unfolding write_response
write_response-Sends iov_max n c first second p opened ready =
    let h = write_first iov_max n c first p in
    second-Sends iov_max n c second p h.0 h.1 opened
      (write_first-Sends iov_max n c first p opened ready)
