-- ===== src/Event/Run/Reads.antt =====
-- src/event/yylibevent.cpp: what one turn of `do_queue_read` can do.
use mms_svr.Prelude.{
  ℕ, suc, ◌≡◌, refl, ◌∙◌, ◌⊎◌, List, [], ◌∷◌, Option, some, none, true, false, ◌==◌, ltb, inl, inr,
  Bool-cases, Option-cases, List-cases, rest_of, ◌&&◌, ==_iff,
}
use mms_svr.Prelude.Keys.{nat_eq}
use mms_svr.Queues.LockQueueMap.{LockQueueMap, contents, contents-pop, pop_front, pop_empty}
use mms_svr.Queues.LockQueueMap
use mms_svr.Event.{
  LibEvent, Outgoing, Target, writer, redis, do_queue_read, queue_receive, deliver,
  write_event_flag, receiver,
}
use mms_svr.Event.Run.{queue}

abbrev pub after_pop : LibEvent → LibEvent
after_pop l = record l { bufqueue_map = (LockQueueMap.pop l.bufqueue_map write_event_flag).0 }

pub queue-after_pop : (l : LibEvent) → queue (after_pop l) ≡ rest_of (queue l)
queue-after_pop l = contents-pop l.bufqueue_map write_event_flag write_event_flag

-- What `queue_receive` makes of the queue of the writer.
pub data Receipt (l : LibEvent) : Type 0 where
  nothing :
      (queue l ≡ []) ⊎ ((rest : List (Option Outgoing)) × (queue l ≡ none ∷ rest))
      → queue_receive l write_event_flag ≡ after_pop l
      → Receipt l
  buffer :
      (out : Outgoing) (rest : List (Option Outgoing))
      → queue l ≡ some out ∷ rest
      → queue_receive l write_event_flag ≡ deliver (after_pop l) out
      → Receipt l

receive_none :
    (l : LibEvent)
    → (LockQueueMap.pop l.bufqueue_map write_event_flag).1 ≡ none
    → queue_receive l write_event_flag ≡ after_pop l
unfolding queue_receive
receive_none l e = rw (e, queue_receive) refl

receive_some :
    (l : LibEvent) (out : Outgoing)
    → (LockQueueMap.pop l.bufqueue_map write_event_flag).1 ≡ some out
    → queue_receive l write_event_flag ≡ deliver (after_pop l) out
unfolding queue_receive
receive_some l out e = rw (e, queue_receive) refl

pub receipt : (l : LibEvent) → l.bufqueue_map.t_def_value ≡ none → Receipt l
receipt l no_default = elim (List-cases (queue l)) [
  | inl empty ↦
      nothing (inl empty)
        (receive_none l (pop_empty l.bufqueue_map write_event_flag empty ∙ no_default))
  | inr (first, rest, full) ↦
      let front = pop_front l.bufqueue_map write_event_flag first rest full in
      elim (Option-cases first) [
        | inl absent ↦ nothing (inr (rest, rw absent at full)) (receive_none l (rw absent at front))
        | inr (out, there) ↦
            buffer out rest (rw there at full) (receive_some l out (rw there at front))
      ]
]

-- One turn: an empty pipe, a byte that changes no queue, or a message for the writer.
pub data Turn (l : LibEvent) : Type 0 where
  idle : l.pipe ≡ [] → do_queue_read l ≡ l → Turn l
  passes :
      (flag : ℕ) (rest : List ℕ) (n : ℕ)
      → l.pipe ≡ flag ∷ rest
      → (flag == write_event_flag) ≡ false
      → do_queue_read l ≡ record l { pipe = rest; redis_notified = n }
      → Turn l
  message :
      (rest : List ℕ)
      → l.pipe ≡ write_event_flag ∷ rest
      → do_queue_read l ≡ queue_receive (record l { pipe = rest }) write_event_flag
      → Turn l

of_target :
    (l : LibEvent) (flag : ℕ) (rest : List ℕ) (target : Option Target)
    → l.pipe ≡ flag ∷ rest
    → receiver flag l.queueback ≡ target
    → (flag == write_event_flag) ≡ false
    → (ltb 0 flag && ltb flag 128) ≡ true
    → (n : ℕ) × (do_queue_read l ≡ record l { pipe = rest; redis_notified = n })
unfolding do_queue_read queue_receive
of_target l flag rest none full found other valid = (l.redis_notified, rw (full, valid, found) refl)
of_target l flag rest (some writer) full found other valid =
    (l.redis_notified, rw (full, valid, found) (rw other refl))
of_target l flag rest (some redis) full found other valid =
    (suc l.redis_notified, rw (full, valid, found) refl)

other_flag :
    (l : LibEvent) (flag : ℕ) (rest : List ℕ)
    → l.pipe ≡ flag ∷ rest
    → (flag == write_event_flag) ≡ false
    → (n : ℕ) × (do_queue_read l ≡ record l { pipe = rest; redis_notified = n })
unfolding do_queue_read
other_flag l flag rest full other = elim (Bool-cases (ltb 0 flag && ltb flag 128)) [
  | inl valid ↦ of_target l flag rest (receiver flag l.queueback) full refl other valid
  | inr invalid ↦ (l.redis_notified, rw (full, invalid) refl)
]

writer_flag :
    (l : LibEvent) (rest : List ℕ)
    → receiver write_event_flag l.queueback ≡ some writer
    → l.pipe ≡ write_event_flag ∷ rest
    → do_queue_read l ≡ queue_receive (record l { pipe = rest }) write_event_flag
unfolding do_queue_read
writer_flag l rest writer_first full = rw (full, writer_first) refl

pub one_read : (l : LibEvent) → receiver write_event_flag l.queueback ≡ some writer → Turn l
unfolding do_queue_read
one_read l writer_first = elim (List-cases l.pipe) [
  | inl empty ↦ idle empty (rw empty refl)
  | inr (flag, rest, full) ↦ elim (Bool-cases (flag == write_event_flag)) [
    | inr other ↦
        let (n, step) = other_flag l flag rest full other in passes flag rest n full other step
    | inl same ↦
        let full1 = rw ((==_iff flag write_event_flag).0 same) at full in
        message rest full1 (writer_flag l rest writer_first full1)
  ]
]
