-- ===== src/Event/Run/Lost.antt =====
-- src/event/event_msgqueue.h and yylibevent.cpp: what becomes of the buffers after a message that `send` refused.
use mms_svr.Prelude.{
  ℕ, zero, suc, ◌<◌, ◌≤◌, ◌≡◌, ◌≢◌, refl, ap, ◌∙◌, List, [], ◌∷◌, Option, some, none, true, false,
  length, arith, some_inj, rest_of,
}
use mms_svr.Prelude.Keys.{nat_eq}
use mms_svr.StateMap.Laws.{UniqueKeys}
use mms_svr.Queues.LockQueueMap.{push, contents-push, t_def_value-kept}
use mms_svr.Event.{
  LibEvent, Outgoing, Sent, sent_bytes, Accepted, connection, writer, do_queue_read, do_accept,
  data_send, message_sent, msg_send, write_event_flag, redis_event_flag, receiver,
}
use mms_svr.Event.Notify.{reads, msg_send_shut, msg_send-open_pair}
use mms_svr.Event.Run.{
  Action, sends, notifies, reads_queue, writes, receives, accepts, act, queue, Passes, Reached,
  Later, now, later,
}
use mms_svr.Event.Run.Messages.{messages}
use mms_svr.Event.Run.Touches.{Touches, deliver-Touches, do_write-Touches, do_read-Touches}
use mms_svr.Event.Run.Accepts.{do_accept-Touches}
use mms_svr.Event.Run.Reads.{
  after_pop, queue-after_pop, receipt, nothing, buffer, one_read, idle, passes, message,
}
use mms_svr.Event.Run.Ready.{IsReady, length-snoc}
use mms_svr.Event.Run.Emptied.{Reached-IsReady}

-- The queue holds more buffers than there are messages, and no message can be sent.
record Lags (l : LibEvent) : Type 0 where
  writer_first : receiver write_event_flag l.queueback ≡ some writer
  shut : l.queue_fd ≡ false
  unique : UniqueKeys l.states.hash_map
  no_default : l.bufqueue_map.t_def_value ≡ none
  more : messages l.pipe < length (queue l)

Touches-Lags : (j : ℕ) (l l' : LibEvent) → Touches j l l' → Lags l → Lags l'
Touches-Lags j l l' t v = record {
  writer_first = rw t.queueback v.writer_first;
  shut = t.queue_fd ∙ v.shut;
  unique = t.unique v.unique;
  no_default = rw t.bufqueue_map v.no_default;
  more = rw (t.pipe, t.bufqueue_map) v.more;
}

-- A buffer that comes with no message.
pushed-Lags :
    (l : LibEvent) (out : Outgoing)
    → receiver write_event_flag l.queueback ≡ some writer
    → UniqueKeys l.states.hash_map
    → l.bufqueue_map.t_def_value ≡ none
    → messages l.pipe ≤ length (queue l)
    → Lags (record l {
      bufqueue_map = push l.bufqueue_map write_event_flag (some out);
      queue_fd = false;
    })
pushed-Lags l out first unique no_default most = record {
  writer_first = first;
  shut = refl;
  unique = unique;
  no_default = (t_def_value-kept l.bufqueue_map write_event_flag (some out)).0 ∙ no_default;
  more = omega (
    arith,
    most,
    ap length (contents-push l.bufqueue_map write_event_flag write_event_flag (some out)),
    length-snoc (queue l) (some out),
  );
}

fewer : (q : List (Option Outgoing)) (n : ℕ) → suc n < length q → n < length (rest_of q)
fewer [] n h = absurd (omega (arith, h))
fewer (x ∷ q) n h = omega (arith, h)

after_pop-Lags :
    (l : LibEvent) (rest : List ℕ)
    → Lags l
    → l.pipe ≡ write_event_flag ∷ rest
    → Lags (after_pop (record l { pipe = rest }))
after_pop-Lags l rest v full = record {
  writer_first = v.writer_first;
  shut = v.shut;
  unique = v.unique;
  no_default = (t_def_value-kept l.bufqueue_map write_event_flag none).1 ∙ v.no_default;
  more =
      rw (queue-after_pop l)
        (fewer (queue l) (messages rest) (omega (arith, v.more, ap messages full)));
}

do_queue_read-Lags : (l : LibEvent) → Lags l → Lags (do_queue_read l)
do_queue_read-Lags l v = elim (one_read l v.writer_first) [
  | idle empty step ↦ rw step v
  | passes flag rest n full other step ↦
      let same = ap messages full ∙ rw other refl in
      rw step (record {
        writer_first = v.writer_first;
        shut = v.shut;
        unique = v.unique;
        no_default = v.no_default;
        more = rw same at v.more;
      })
  | message rest full step ↦
      let w = after_pop-Lags l rest v full in
      elim (receipt (record l { pipe = rest }) v.no_default) [
        | nothing empty received ↦ rw (step, received) w
        | buffer out others queued received ↦
            rw (step, received) (Touches-Lags out.fd _ _ (deliver-Touches _ out) w)
      ]
]

notified-Lags : (l : LibEvent) (answer : Sent) → Lags l → Lags (msg_send l redis_event_flag answer)
notified-Lags l answer v = rw (msg_send_shut l redis_event_flag answer v.shut) (record {
  writer_first = v.writer_first;
  shut = refl;
  unique = v.unique;
  no_default = v.no_default;
  more = v.more;
})

data_send-Lags :
    (l : LibEvent) (fd : ℕ) (bytes : List ℕ) (answer : Sent)
    → Lags l
    → Lags (data_send l fd bytes write_event_flag answer)
unfolding data_send
data_send-Lags l fd bytes answer v =
    let out : Outgoing = record { fd = fd; bytes = bytes } in
    rw
      (msg_send_shut (record l { bufqueue_map = push l.bufqueue_map write_event_flag (some out) })
        write_event_flag answer v.shut)
      (pushed-Lags l out v.writer_first v.unique v.no_default (omega (arith, v.more)))

act-Lags : (l l' : LibEvent) (a : Action) → Lags l → act l a ≡ some l' → Lags l'
unfolding do_accept
act-Lags l l' (sends fd bytes answer) v e =
    rw (← some_inj _ l' e) (data_send-Lags l fd bytes answer v)
act-Lags l l' (notifies answer) v e = rw (← some_inj _ l' e) (notified-Lags l answer v)
act-Lags l l' reads_queue v e = rw (← some_inj _ l' e) (do_queue_read-Lags l v)
act-Lags l l' (writes fd answer) v e =
    rw (← some_inj _ l' e) (Touches-Lags fd l _ (do_write-Touches fd l answer) v)
act-Lags l l' (receives fd pieces stop) v e =
    rw (← some_inj _ l' e) (Touches-Lags fd l _ (do_read-Touches fd l pieces stop) v)
act-Lags l l' (accepts port (connection j) a) v e =
    Touches-Lags j l l' (do_accept-Touches port j l l' a e) v
act-Lags l l' (accepts port Accepted.again a) v e = rw (← some_inj l l' e) v
act-Lags l l' (accepts port Accepted.no_files a) v e = rw (← some_inj l l' e) v
act-Lags l l' (accepts port Accepted.other_error a) v e = rw (← some_inj l l' e) v

Later-Lags : {l l' : LibEvent} → Lags l → Later l l' → Lags l'
Later-Lags v now = v
Later-Lags v (later {l' = m} {l'' = n} a r e) = act-Lags m n a (Later-Lags v r) e

reads-Lags : (n : ℕ) (l : LibEvent) → Lags l → Lags (reads n l)
reads-Lags zero l v = v
reads-Lags (suc n) l v = reads-Lags n (do_queue_read l) (do_queue_read-Lags l v)

-- `send` fails, or sends nothing.
refused_message :
    (l : LibEvent) (flag : ℕ) (answer : Sent)
    → (Passes answer → ⊥)
    → l.queue_fd ≡ true
    → msg_send l flag answer ≡ record l { queue_fd = false }
unfolding message_sent
refused_message l flag Sent.again lost pair = msg_send-open_pair l flag Sent.again pair
refused_message l flag Sent.failed lost pair = msg_send-open_pair l flag Sent.failed pair
refused_message l flag (sent_bytes zero) lost pair =
    msg_send-open_pair l flag (sent_bytes zero) pair
refused_message l flag (sent_bytes (suc n)) lost pair = absurd (lost (omega arith))

first_lost :
    (l : LibEvent) (fd : ℕ) (bytes : List ℕ) (answer : Sent)
    → (Passes answer → ⊥)
    → IsReady l
    → Lags (data_send l fd bytes write_event_flag answer)
unfolding data_send
first_lost l fd bytes answer lost v =
    let out : Outgoing = record { fd = fd; bytes = bytes } in
    rw
      (refused_message (record l { bufqueue_map = push l.bufqueue_map write_event_flag (some out) })
        write_event_flag answer lost v.open_pair)
      (pushed-Lags l out v.writer_first v.unique v.no_default (omega (arith, v.balanced)))

left_over : (l : LibEvent) → Lags l → queue l ≢ []
left_over l v empty = omega (arith, v.more, ap length empty)

-- In a state that the event loop reaches after an Init that succeeds, while send took at least one byte of every
-- message, let send refuse the message of one buffer, with an error or with no byte sent: whatever sends,
-- messages, reads, writes, received data and new connections follow, whatever send would answer then, and
-- however often the event thread then reads the pipe, a buffer is left in the queue and the message descriptor
-- is not valid any more.
pub lost_message :
    (l l' : LibEvent) (fd n : ℕ) (bytes : List ℕ) (answer : Sent)
    → Reached l
    → ¬ (Passes answer)
    → Later (data_send l fd bytes write_event_flag answer) l'
    → (queue (reads n l') ≢ []) × ((reads n l').queue_fd ≡ false)
lost_message l l' fd n bytes answer r lost after =
    let v =
      reads-Lags n l' (Later-Lags (first_lost l fd bytes answer lost (Reached-IsReady r)) after) in
    (left_over (reads n l') v, v.shut)
