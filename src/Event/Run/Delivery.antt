-- ===== src/Event/Run/Delivery.antt =====
-- src/event/yylibevent.cpp: every byte handed over reaches the stream of its connection, in order.
use mms_svr.Prelude.{
  ℕ, zero, suc, ◌≡◌, ◌≢◌, refl, sym, ap, ◌∙◌, List, [], ◌∷◌, ◌++◌, append-nil, append_assoc, some,
  false, ◌==◌, length, arith, inl, inr, Bool-cases, List-cases, some_inj, ==_iff, ==_refl, lt→ltb,
  ◌⊎◌,
}
use mms_svr.Prelude.Keys.{nat_eq}
use mms_svr.StateMap.{get_state}
use mms_svr.StateMap.Laws.{get_state-add_state}
use mms_svr.Event.{
  FdState, LibEvent, Sent, sent_bytes, ReadEnd, would_block, shut_down, Accepted, connection,
  do_queue_read, do_write, write_state, do_accept,
}
use mms_svr.Event.Write.{stream, do_write-stream, sent_state, idle_state}
use mms_svr.Event.Notify.{reads}
use mms_svr.Event.Run.{
  Action, sends, notifies, reads_queue, writes, receives, accepts, act, Calm, sent_by, Run, stay,
  then_act, queue_bytes, queue, total,
}
use mms_svr.Event.{redis_event_flag}
use mms_svr.Event.Run.{IsHeard}
use mms_svr.Event.Run.Messages.{passed}
use mms_svr.Event.Run.Accepts.{do_accept-Touches}
use mms_svr.Event.Run.Touches.{do_write-Touches, do_read-Touches, do_read_blocked}
use mms_svr.Event.Run.Ready.{IsReady, act-IsReady, pipe_read, empty_queue}
use mms_svr.Event.Run.Stream.{Keeps, IsOpen, other-Keeps, data_send-Keeps, do_queue_read-Keeps}

-- After a `send` of all that waits the connection still has a state.
still_found :
    (l : LibEvent) (fd : ℕ) (s : FdState)
    → get_state l.states fd ≡ some s
    → (s' : FdState) × (get_state (do_write l fd (sent_bytes (length s.writebuffer))).states fd
        ≡ some s')
still_found l fd s found = elim (List-cases s.writebuffer) [
  | inl empty ↦ (
    record s { writing = false },
    rw (idle_state l fd s (sent_bytes (length s.writebuffer)) found empty)
        (get_state-add_state l.states fd fd _ ∙ rw (==_refl fd) refl),
  )
  | inr (b, bs, full) ↦
      let (s', step, empty) =
        sent_state l fd s (length s.writebuffer) found (rw full (omega arith)) (omega arith) in
      (s', rw step (get_state-add_state l.states fd fd _ ∙ rw (==_refl fd) refl))
]

do_write-Keeps :
    (fd : ℕ) (l : LibEvent) (o : IsOpen fd l)
    → Keeps fd l [] (do_write l fd (sent_bytes (length o.state.writebuffer)))
do_write-Keeps fd l o =
    let (s', found) = still_found l fd o.state o.found in
    let same = (do_write-Touches fd l (sent_bytes (length o.state.writebuffer))).bufqueue_map in
    record {
      still = record { state = s'; found = found; filled = rw same o.filled };
      adds = rw (same, do_write-stream l fd o.state o.found) refl ∙ sym (append-nil (total l fd));
    }

-- `EAGAIN` changes nothing, or what an empty buffer would.
again_cases :
    (l : LibEvent) (fd : ℕ) (s : FdState)
    → get_state l.states fd ≡ some s
    → (do_write l fd Sent.again ≡ l)
      ⊎ (do_write l fd Sent.again ≡ do_write l fd (sent_bytes (length s.writebuffer)))
unfolding do_write write_state
again_cases l fd s found = elim (List-cases s.writebuffer) [
  | inl empty ↦ inr (
      idle_state l fd s Sent.again found empty
      ∙ sym (idle_state l fd s (sent_bytes (length s.writebuffer)) found empty))
  | inr (b, bs, full) ↦
      inl (rw (found, do_write) (rw full (rw (lt→ltb 0 (suc (length bs)) (omega arith)) refl)))
]

not_equal : (j fd : ℕ) → j ≢ fd → (j == fd) ≡ false
not_equal j fd h = ground arith

-- A calm action keeps the connection open, and what it sent comes behind what was handed over before.
pub act-Keeps :
    (fd : ℕ) (l l' : LibEvent) (a : Action)
    → IsReady l
    → IsOpen fd l
    → Calm fd l a
    → act l a ≡ some l'
    → Keeps fd l (sent_by fd a) l'
unfolding do_accept
act-Keeps fd l l' (sends j bytes answer) v o calm e =
    rw (← some_inj _ l' e) (data_send-Keeps fd j l bytes answer calm.1 o)
act-Keeps fd l l' (notifies answer) v o calm e =
    let (bytes, step, other) = passed l redis_event_flag answer v.open_pair calm in
    rw (← some_inj _ l' e) (
      rw step (record {
        still = record { state = o.state; found = o.found; filled = o.filled };
        adds = sym (append-nil (total l fd));
      }))
act-Keeps fd l l' reads_queue v o calm e = rw (← some_inj _ l' e) (do_queue_read-Keeps fd l v o)
act-Keeps fd l l' (writes j (sent_bytes n)) v o calm e = elim (Bool-cases (j == fd)) [
  | inr other ↦
      rw (← some_inj _ l' e) (other-Keeps fd j l _ other v o (do_write-Touches j l (sent_bytes n)))
  | inl mine ↦
      let same = (==_iff j fd).0 mine in
      let whole : n ≡ length o.state.writebuffer = rw o.found at (calm same) in
      rw (← some_inj _ l' e) (rw (same, whole) (do_write-Keeps fd l o))
]
act-Keeps fd l l' (writes j Sent.again) v o calm e = elim (Bool-cases (j == fd)) [
  | inr other ↦
      rw (← some_inj _ l' e) (other-Keeps fd j l _ other v o (do_write-Touches j l Sent.again))
  | inl mine ↦ rw (← some_inj _ l' e) (
      rw ((==_iff j fd).0 mine) (elim (again_cases l fd o.state o.found) [
        | inl nothing ↦ rw nothing (record { still = o; adds = sym (append-nil (total l fd)) })
        | inr empty ↦ rw empty (do_write-Keeps fd l o)
      ]))
]
act-Keeps fd l l' (writes j Sent.failed) v o calm e =
    rw (← some_inj _ l' e)
      (other-Keeps fd j l _ (not_equal j fd calm) v o (do_write-Touches j l Sent.failed))
act-Keeps fd l l' (receives j pieces would_block) v o calm e =
    let (calls, same) = do_read_blocked j l pieces in
    rw (← some_inj _ l' e) (
      rw same (record {
        still = record { state = o.state; found = o.found; filled = o.filled };
        adds = sym (append-nil (total l fd));
      }))
act-Keeps fd l l' (receives j pieces shut_down) v o calm e =
    rw (← some_inj _ l' e)
      (other-Keeps fd j l _ (not_equal j fd calm) v o (do_read-Touches j l pieces shut_down))
act-Keeps fd l l' (receives j pieces ReadEnd.failed) v o calm e =
    rw (← some_inj _ l' e)
      (other-Keeps fd j l _ (not_equal j fd calm) v o (do_read-Touches j l pieces ReadEnd.failed))
act-Keeps fd l l' (accepts port (connection j) a) v o calm e =
    other-Keeps fd j l l' (not_equal j fd calm) v o (do_accept-Touches port j l l' a e)
act-Keeps fd l l' (accepts port Accepted.again a) v o calm e =
    rw (← some_inj l l' e) (record { still = o; adds = sym (append-nil (total l fd)) })
act-Keeps fd l l' (accepts port Accepted.no_files a) v o calm e =
    rw (← some_inj l l' e) (record { still = o; adds = sym (append-nil (total l fd)) })
act-Keeps fd l l' (accepts port Accepted.other_error a) v o calm e =
    rw (← some_inj l l' e) (record { still = o; adds = sym (append-nil (total l fd)) })

Calm-IsHeard : (fd : ℕ) (l : LibEvent) (a : Action) → Calm fd l a → IsHeard a
Calm-IsHeard fd l (sends j bytes answer) calm = calm.0
Calm-IsHeard fd l (notifies answer) calm = calm
Calm-IsHeard fd l reads_queue calm = tt
Calm-IsHeard fd l (writes j answer) calm = tt
Calm-IsHeard fd l (receives j pieces stop) calm = tt
Calm-IsHeard fd l (accepts port accepted answers) calm = tt

Run-Keeps :
    (fd : ℕ) {l l' : LibEvent} {sent : List ℕ}
    → IsReady l
    → IsOpen fd l
    → Run fd l sent l'
    → IsReady l' × Keeps fd l sent l'
Run-Keeps fd {l} v o stay = (v, record { still = o; adds = sym (append-nil (total l fd)) })
Run-Keeps fd {l} v o (then_act {l' = m} {l'' = n} {sent = sent} a r calm e) =
    let (w, k) = Run-Keeps fd v o r in
    let step = act-Keeps fd m n a w k.still calm e in
    (
      act-IsReady m n a w (Calm-IsHeard fd m a calm) e,
      record {
        still = step.still;
        adds =
            step.adds
            ∙ ap (λ x. x ++ sent_by fd a) k.adds
            ∙ append_assoc (total l fd) sent (sent_by fd a);
      },
    )

-- As many reads as the pipe has bytes empty the queue into the streams.
drained :
    (fd n : ℕ) (l : LibEvent)
    → length l.pipe ≡ n
    → IsReady l
    → IsOpen fd l
    → (stream (reads n l) fd ≡ total l fd) × (queue (reads n l) ≡ [])
drained fd zero l size v o =
    let empty = empty_queue l v (no_bytes l.pipe size) in
    (sym (append-nil (stream l fd)) ∙ ap (λ q. stream l fd ++ queue_bytes fd q) (sym empty), empty)
  where
    no_bytes : (p : List ℕ) → length p ≡ 0 → p ≡ []
    no_bytes [] size = refl
    no_bytes (x ∷ p) size = absurd (omega (arith, size))
drained fd (suc n) l size v o = elim (List-cases l.pipe) [
  | inl empty ↦ absurd (omega (arith, size, ap length empty))
  | inr (flag, rest, full) ↦
      let k = do_queue_read-Keeps fd l v o in
      let (whole, empty) =
        drained fd n (do_queue_read l)
          (ap length (pipe_read l flag rest v full) ∙ omega (arith, size, ap length full))
          (act-IsReady l (do_queue_read l) reads_queue v tt refl) k.still in
      (whole ∙ k.adds ∙ append-nil (total l fd), empty)
]

-- For a connection with a state and no buffer in the queue that would close it, in a state with the writer
-- registered first, a valid message descriptor, no state twice in the map, a queue whose default is NULL and a
-- message in the pipe for each buffer in the queue: after any sequence of sends, messages, reads, writes,
-- received data and new connections that leaves the connection open, with messages of which send takes at least
-- one byte and sends to the socket that take all that waits or nothing, reading the pipe empty leaves the queue
-- empty, and the stream of the connection is what it was, then what waited in the queue, then all that was sent,
-- in order.
pub run-reads-stream :
    (fd : ℕ) (l l' : LibEvent) (sent : List ℕ)
    → IsReady l
    → IsOpen fd l
    → Run fd l sent l'
    → (stream (reads (length l'.pipe) l') fd ≡ (stream l fd ++ queue_bytes fd (queue l)) ++ sent)
      × (queue (reads (length l'.pipe) l') ≡ [])
run-reads-stream fd l l' sent v o r =
    let (w, k) = Run-Keeps fd v o r in
    let (whole, empty) = drained fd (length l'.pipe) l' refl w k.still in (whole ∙ k.adds, empty)
