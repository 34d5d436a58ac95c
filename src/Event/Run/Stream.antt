-- ===== src/Event/Run/Stream.antt =====
-- src/event/yylibevent.cpp: what is handed over for a connection waits in the queue or is in its stream.
use mms_svr.Prelude.{
  ℕ, ◌<◌, ◌≡◌, refl, sym, ap, ◌∙◌, List, [], ◌∷◌, ◌++◌, append-nil, append_assoc, Option, some,
  none, true, false, ◌==◌, length, arith, inl, inr, Bool-cases, if◌then◌else◌, rest_of, ==_iff,
}
use mms_svr.Prelude.Keys.{nat_eq}
use mms_svr.Prelude.{subst}
use mms_svr.Queues.LockQueueMap.{LockQueueMap}
use mms_svr.Event.{Sent}
use mms_svr.Event.Run.Messages.{Leaves, msg_send-Leaves}
use mms_svr.Event.Run.Ready.{after_pop-IsReady}
use mms_svr.StateMap.{get_state}
use mms_svr.Queues.LockQueueMap.{contents}
use mms_svr.StateMap.Laws.{get_state-add_state}
use mms_svr.Event.{FdState, LibEvent, Outgoing, data_send, do_queue_read, deliver, write_event_flag}
use mms_svr.Event.Write.{stream, deliver-stream, delivered_state}
use mms_svr.Event.Run.{queue_bytes, queue, total}
use mms_svr.Event.Run.Touches.{Touches, deliver-Touches}
use mms_svr.Event.Run.Reads.{
  after_pop, queue-after_pop, receipt, nothing, buffer, one_read, idle, passes, message,
}
use mms_svr.Event.Run.Ready.{IsReady, queue-data_send}

-- No buffer in the queue asks to close the connection.
abbrev pub Filled : ℕ → List (Option Outgoing) → Type 0
Filled fd [] = Unit {0}
Filled fd (none ∷ q) = Filled fd q
Filled fd (some out ∷ q) = (out.fd ≡ fd → 0 < length out.bytes) × Filled fd q

-- The connection has a state, and nothing in the queue ends it.
pub record IsOpen (fd : ℕ) (l : LibEvent) : Type 0 where
  pub state : FdState
  pub found : get_state l.states fd ≡ some state
  pub filled : Filled fd (queue l)

-- An action keeps the connection open and adds to its bytes what it sent.
pub record Keeps (fd : ℕ) (l : LibEvent) (sent : List ℕ) (l' : LibEvent) : Type 0 where
  pub still : IsOpen fd l'
  pub adds : total l' fd ≡ total l fd ++ sent

pub other-Keeps :
    (fd j : ℕ) (l l' : LibEvent)
    → (j == fd) ≡ false
    → IsReady l
    → IsOpen fd l
    → Touches j l l'
    → Keeps fd l [] l'
other-Keeps fd j l l' other v o t =
    let same : get_state l'.states fd ≡ get_state l.states fd = t.state fd other v.unique in
    record {
      still = record {
        state = o.state;
        found = same ∙ o.found;
        filled = rw t.bufqueue_map o.filled;
      };
      adds = rw (t.bufqueue_map, t.wire fd other, same) refl ∙ sym (append-nil (total l fd));
    }

queue_bytes-append :
    (fd : ℕ) (p q : List (Option Outgoing))
    → queue_bytes fd (p ++ q) ≡ queue_bytes fd p ++ queue_bytes fd q
queue_bytes-append fd [] q = refl
queue_bytes-append fd (none ∷ p) q = queue_bytes-append fd p q
queue_bytes-append fd (some out ∷ p) q =
    ground (
      arith,
      queue_bytes-append fd p q,
      append_assoc out.bytes (queue_bytes fd p) (queue_bytes fd q),
    )

Filled-append :
    (fd : ℕ) (p q : List (Option Outgoing)) → Filled fd p → Filled fd q → Filled fd (p ++ q)
Filled-append fd [] q h g = g
Filled-append fd (none ∷ p) q h g = Filled-append fd p q h g
Filled-append fd (some out ∷ p) q h g = (h.0, Filled-append fd p q h.1 g)

one_bytes :
    (fd : ℕ) (out : Outgoing)
    → queue_bytes fd (some out ∷ []) ≡ (if out.fd == fd then out.bytes else [])
one_bytes fd out = ground (arith, append-nil out.bytes)

Leaves-stream : (fd : ℕ) (l l' : LibEvent) → Leaves l l' → stream l' fd ≡ stream l fd
Leaves-stream fd l l' same = rw (same.wire, same.states) refl

-- What `data_send` does, but for the queue and the message.
data_send-Leaves :
    (l : LibEvent) (j : ℕ) (bytes : List ℕ) (answer : Sent)
    → (m : LockQueueMap ℕ (Option Outgoing)) × Leaves
        (record l { bufqueue_map = m })
        (data_send l j bytes write_event_flag answer)
unfolding data_send
data_send-Leaves l j bytes answer = (_, msg_send-Leaves _ write_event_flag answer)

pub data_send-Keeps :
    (fd j : ℕ) (l : LibEvent) (bytes : List ℕ) (answer : Sent)
    → (j ≡ fd → 0 < length bytes)
    → IsOpen fd l
    → Keeps fd l (if j == fd then bytes else []) (data_send l j bytes write_event_flag answer)
data_send-Keeps fd j l bytes answer positive o =
    let out : Outgoing = record { fd = j; bytes = bytes } in
    let (m, same) = data_send-Leaves l j bytes answer in
    record {
      still = record {
        state = o.state;
        found = ap (λ s. get_state s fd) same.states ∙ o.found;
        filled =
            rw (queue-data_send l j bytes answer)
              (Filled-append fd (queue l) (some out ∷ []) o.filled (positive, tt));
      };
      adds =
          ap (λ x. x ++ queue_bytes fd (queue (data_send l j bytes write_event_flag answer)))
            (Leaves-stream fd (record l { bufqueue_map = m }) _ same)
          ∙ ap (◌++◌ (stream l fd)) (
              ap (queue_bytes fd) (queue-data_send l j bytes answer)
              ∙ queue_bytes-append fd (queue l) (some out ∷ [])
              ∙ ap (◌++◌ (queue_bytes fd (queue l))) (one_bytes fd out))
          ∙ sym (append_assoc (stream l fd) (queue_bytes fd (queue l)) _);
    }

deliver_keeps :
    (fd : ℕ) (m : LibEvent) (out : Outgoing)
    → IsReady m
    → IsOpen fd m
    → (out.fd ≡ fd → 0 < length out.bytes)
    → IsOpen fd (deliver m out)
      × (total (deliver m out) fd
          ≡ (stream m fd ++ (if out.fd == fd then out.bytes else [])) ++ queue_bytes fd (queue m))
deliver_keeps fd m out v o positive = elim (Bool-cases (out.fd == fd)) [
  | inr other ↦
      let k = other-Keeps fd out.fd m (deliver m out) other v o (deliver-Touches m out) in
      (
        k.still,
        rw other (
            k.adds
            ∙ append-nil (total m fd)
            ∙ ap (λ x. x ++ queue_bytes fd (queue m)) (sym (append-nil (stream m fd)))),
      )
  | inl mine ↦
      let same : out.fd ≡ fd = (==_iff out.fd fd).0 mine in
      let found : get_state m.states out.fd ≡ some o.state = rw same o.found in
      let step = delivered_state m o.state out found (positive same) in
      let kept : queue (deliver m out) ≡ queue m =
        ap (λ x. contents x write_event_flag) (deliver-Touches m out).bufqueue_map in
      (
        record {
          state = record o.state { writebuffer = o.state.writebuffer ++ out.bytes; writing = true };
          found = rw step (get_state-add_state m.states out.fd fd _ ∙ rw mine refl);
          filled = rw kept o.filled;
        },
        rw (kept, mine)
            (ap (λ x. x ++ queue_bytes fd (queue m))
              (subst (λ j. stream (deliver m out) j ≡ stream m j ++ out.bytes) same
                (deliver-stream m o.state out found (positive same)))),
      )
]

front_bytes :
    (fd : ℕ) (out : Outgoing) (q : List (Option Outgoing))
    → (if out.fd == fd then out.bytes else []) ++ queue_bytes fd q ≡ queue_bytes fd (some out ∷ q)
front_bytes fd out q = ground arith

-- Nothing for the connection came out of the queue.
popped-Keeps :
    (fd : ℕ) (l : LibEvent) (rest : List ℕ) (others : List (Option Outgoing))
    → IsOpen fd l
    → rest_of (queue l) ≡ others
    → Filled fd others
    → queue_bytes fd others ≡ queue_bytes fd (queue l)
    → Keeps fd l [] (after_pop (record l { pipe = rest }))
popped-Keeps fd l rest others o left filled bytes =
    let emptied : queue (after_pop (record l { pipe = rest })) ≡ others =
      queue-after_pop (record l { pipe = rest }) ∙ left in
    record {
      still = record { state = o.state; found = o.found; filled = rw emptied filled };
      adds =
          ap (◌++◌ (stream l fd)) (ap (queue_bytes fd) emptied ∙ bytes)
          ∙ sym (append-nil (total l fd));
    }

pub do_queue_read-Keeps :
    (fd : ℕ) (l : LibEvent) → IsReady l → IsOpen fd l → Keeps fd l [] (do_queue_read l)
do_queue_read-Keeps fd l v o = elim (one_read l v.writer_first) [
  | idle empty step ↦ rw step (record { still = o; adds = sym (append-nil (total l fd)) })
  | passes flag rest n full other step ↦ rw step (record {
    still = record { state = o.state; found = o.found; filled = o.filled };
    adds = sym (append-nil (total l fd));
  })
  | message rest full step ↦
      let m : LibEvent = after_pop (record l { pipe = rest }) in
      let w = after_pop-IsReady l rest v full in
      elim (receipt (record l { pipe = rest }) v.no_default) [
        | nothing (inl empty) received ↦
            rw (step, received)
              (popped-Keeps fd l rest [] o (ap rest_of empty) tt (ap (queue_bytes fd) (sym empty)))
        | nothing (inr (others, queued)) received ↦
            rw (step, received)
              (popped-Keeps fd l rest others o (ap rest_of queued) (rw queued at o.filled)
                (ap (queue_bytes fd) (sym queued)))
        | buffer out others queued received ↦
            let left : queue m ≡ others =
              queue-after_pop (record l { pipe = rest }) ∙ ap rest_of queued in
            let front = rw queued at o.filled in
            let (still, adds) =
              deliver_keeps fd m out w
                (record { state = o.state; found = o.found; filled = rw left front.1 }) front.0 in
            rw (step, received)
              (record {
                still = still;
                adds =
                    adds
                    ∙ append_assoc (stream l fd) _ (queue_bytes fd (queue m))
                    ∙ ap (◌++◌ (stream l fd))
                        (rw left (front_bytes fd out others) ∙ ap (queue_bytes fd) (sym queued))
                    ∙ sym (append-nil (total l fd));
              })
      ]
]
