-- ===== src/Event/Notify.antt =====
-- src/event/yylibevent.cpp and event_msgqueue.h: a buffer goes to the writer's queue, a message of four
-- bytes through the socket pair, and the event thread takes the buffer out.
use mms_svr.Prelude.{
  if◌then◌else◌, sym, ◌<◌, ℕ, zero, suc, ◌≡◌, refl, ◌∙◌, ap, List, [], ◌∷◌, ◌++◌, Option, some,
  length,
}
use mms_svr.Prelude.Keys.{nat_eq}
use mms_svr.StateMap.{get_state}
use mms_svr.Queues.LockQueueMap.{contents, pop_front, push, contents-push, LockQueueMap}
use mms_svr.Queues.LockQueueMap
use mms_svr.Event.{
  false, Sent, message_of, sent_bytes, true, message_sent, FdState, LibEvent, Outgoing, writer,
  do_queue_read, queue_receive, msg_send, data_send, deliver, write_event_flag, receiver,
}
use mms_svr.Event.Write.{stream, deliver-stream, delivered_state}

-- The event thread reads the pipe `n` times.
abbrev pub reads : ℕ → LibEvent → LibEvent
reads zero l = l
reads (suc n) l = reads n (do_queue_read l)

-- The three zero bytes behind the flag do nothing.
zeros_read : (l : LibEvent) → l.pipe ≡ 0 ∷ 0 ∷ 0 ∷ [] → reads 3 l ≡ record l { pipe = [] }
unfolding do_queue_read
zeros_read l rest = rw rest refl

-- The message of a valid descriptor, and of one that an error left behind.
pub msg_send-open_pair :
    (l : LibEvent) (flag : ℕ) (answer : Sent)
    → l.queue_fd ≡ true
    → msg_send l flag answer ≡ message_sent l flag answer
unfolding msg_send
msg_send-open_pair l flag answer pair =
    ap (λ b. if b then message_sent l flag answer else message_sent l flag Sent.failed) pair

pub msg_send_shut :
    (l : LibEvent) (flag : ℕ) (answer : Sent)
    → l.queue_fd ≡ false
    → msg_send l flag answer ≡ record l { queue_fd = false }
unfolding msg_send message_sent
msg_send_shut l flag answer shut =
    ap (λ b. if b then message_sent l flag answer else message_sent l flag Sent.failed) shut

pub message_sent_whole :
    (l : LibEvent) (flag : ℕ)
    → message_sent l flag (sent_bytes 4) ≡ record l { pipe = l.pipe ++ message_of flag }
unfolding message_sent
message_sent_whole l flag = refl

message_read :
    (l : LibEvent)
    → receiver write_event_flag l.queueback ≡ some writer
    → l.pipe ≡ []
    → l.queue_fd ≡ true
    → do_queue_read (msg_send l write_event_flag (sent_bytes 4))
      ≡ queue_receive (record l { pipe = 0 ∷ 0 ∷ 0 ∷ [] }) write_event_flag
unfolding do_queue_read
message_read l registered empty whole =
    ap do_queue_read (
      msg_send-open_pair l write_event_flag (sent_bytes 4) whole
      ∙ message_sent_whole l write_event_flag)
    ∙ rw (empty, registered) refl

received_out :
    (l : LibEvent) (out : Outgoing) (rest : List (Option Outgoing))
    → contents l.bufqueue_map write_event_flag ≡ some out ∷ rest
    → queue_receive l write_event_flag
      ≡ deliver
          (record l { bufqueue_map = (LockQueueMap.pop l.bufqueue_map write_event_flag).0 })
          out
unfolding queue_receive
received_out l out rest full =
    rw (pop_front l.bufqueue_map write_event_flag (some out) rest full) refl

queued :
    (l : LibEvent) (out : Outgoing)
    → contents l.bufqueue_map write_event_flag ≡ []
    → contents (LockQueueMap.push l.bufqueue_map write_event_flag (some out)) write_event_flag
      ≡ some out ∷ []
queued l out none_waits =
    contents-push l.bufqueue_map write_event_flag write_event_flag (some out) ∙ rw none_waits refl

-- What the event thread makes of the message: the state of the connection takes the buffer.
sent_state :
    (l : LibEvent) (s : FdState) (fd : ℕ) (bytes : List ℕ)
    → receiver write_event_flag l.queueback ≡ some writer
    → l.pipe ≡ []
    → contents l.bufqueue_map write_event_flag ≡ []
    → get_state l.states fd ≡ some s
    → 0 < length bytes
    → l.queue_fd ≡ true
    → (m : LockQueueMap ℕ (Option Outgoing)) × (reads 4
          (data_send l fd bytes write_event_flag (sent_bytes 4))
        ≡ record (deliver (record l { bufqueue_map = m }) (record { fd = fd; bytes = bytes })) {
          pipe = [];
        })
unfolding data_send
sent_state l s fd bytes registered empty none_waits found positive open_pair =
    let out : Outgoing = record { fd = fd; bytes = bytes } in
    let l1 : LibEvent = record l {
      bufqueue_map = LockQueueMap.push l.bufqueue_map write_event_flag (some out);
    } in
    let l2 : LibEvent = record l1 { pipe = 0 ∷ 0 ∷ 0 ∷ [] } in
    let m : LockQueueMap ℕ (Option Outgoing) =
      (LockQueueMap.pop l1.bufqueue_map write_event_flag).0 in
    (
      m,
      ap (reads 3) (
            message_read l1 registered empty open_pair
            ∙ received_out l2 out [] (queued l out none_waits)
            ∙ delivered_state (record l2 { bufqueue_map = m }) s out found positive)
          ∙ zeros_read _ refl
          ∙ ap (λ (x : LibEvent). record x { pipe = [] })
              (sym (delivered_state (record l { bufqueue_map = m }) s out found positive)),
    )

-- With the writer registered, an empty pipe and an empty queue, a `data_send` of at least one byte whose message goes whole
-- to a connection with a state, followed by four reads of the pipe, puts the bytes behind the stream
-- of the connection and leaves the pipe empty.
pub data_send-stream :
    (l : LibEvent) (s : FdState) (fd : ℕ) (bytes : List ℕ)
    → receiver write_event_flag l.queueback ≡ some writer
    → l.pipe ≡ []
    → contents l.bufqueue_map write_event_flag ≡ []
    → get_state l.states fd ≡ some s
    → 0 < length bytes
    → l.queue_fd ≡ true
    → (stream (reads 4 (data_send l fd bytes write_event_flag (sent_bytes 4))) fd
        ≡ stream l fd ++ bytes)
      × ((reads 4 (data_send l fd bytes write_event_flag (sent_bytes 4))).pipe ≡ [])
data_send-stream l s fd bytes registered empty none_waits found positive open_pair =
    let (m, step) = sent_state l s fd bytes registered empty none_waits found positive open_pair in
    rw step (
      deliver-stream (record l { bufqueue_map = m }) s (record { fd = fd; bytes = bytes }) found
          positive,
      refl,
    )
