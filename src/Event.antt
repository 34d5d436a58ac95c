-- ===== src/Event.antt =====
-- src/event/yylibevent.cpp, yylibevent.h and event_msgqueue.h: `YYLibEvent`. libevent and the sockets
-- are the environment: what `recv`, `send`, `accept` and the allocations answer is an argument of the
-- handler, and what the handler does to them is kept in the state. Write buffers are the byte sequences
-- that FastBuffer/Laws.antt shows a `fastbuffer` to be.
pub mod Write
pub mod Receive
pub mod Notify
pub mod Run
use mms_svr.Prelude.{
  ℕ, zero, suc, ◌+◌, List, [], ◌∷◌, ◌++◌, Option, none, some, Bool, true, false, ◌==◌, ltb, leb,
  ◌&&◌, ◌||◌, length, drop, take, if◌then◌else◌,
}
use mms_svr.Prelude.Keys.{nat_eq}
use mms_svr.StateMap.{StateMap, add_state, del_state, get_state}
use mms_svr.Queues.LockQueueMap.{LockQueueMap}
use mms_svr.Queues.LockQueueMap

pub record FdState : Type 0 where
  pub writebuffer : List ℕ
  pub listen_port : ℕ
  -- Which of the two events are added to the base.
  pub reading : Bool
  pub writing : Bool

-- A buffer on its way to a connection; an empty one asks to close it.
pub record Outgoing : Type 0 where
  pub fd : ℕ
  pub bytes : List ℕ

-- The calls of `ILibEvent` that the handlers made.
pub data Call : Type 0 where
  data_receive : ℕ → List ℕ → ℕ → Call
  fd_close : ℕ → Call

-- Who stands in `_queueback`: this object, or the redis client.
pub data Target : Type 0 where
  writer redis : Target

pub record LibEvent : Type 0 where
  pub states : StateMap ℕ (Option FdState)
  pub bufqueue_map : LockQueueMap ℕ (Option Outgoing)
  pub queueback : List (ℕ × Option Target)
  -- Whether the `fd` of `msg_queue` is a socket: it is 0 before `Init` and -1 after a failed `send`.
  pub queue_fd : Bool
  -- The bytes in the socket pair of the message queue.
  pub pipe : List ℕ
  pub has_callback : Bool
  pub calls : List Call
  -- What went to each socket, and which sockets were closed, in order.
  pub wire : List Outgoing
  pub closed : List ℕ
  -- How often the redis client was notified.
  pub redis_notified : ℕ

abbrev pub write_event_flag : ℕ
write_event_flag = 1

abbrev pub redis_event_flag : ℕ
redis_event_flag = 2

unfoldable pub new_lib_event : Bool → LibEvent
new_lib_event has_callback = record {
  states = record { hash_map = []; def_value = none };
  bufqueue_map = record { fd_queue_map = []; t_def_value = none };
  queueback = [];
  queue_fd = false;
  pipe = [];
  has_callback = has_callback;
  calls = [];
  wire = [];
  closed = [];
  redis_notified = 0;
}

unfoldable pub add_queue_event : LibEvent → ℕ → Option Target → LibEvent
add_queue_event l flag ev = record l { queueback = l.queueback ++ ((flag, ev) ∷ []) }

-- `Init`, with what `event_base_new` and `evutil_socketpair` answer.
unfoldable pub init : LibEvent → Bool → Bool → Bool → LibEvent × Bool
unfolding add_queue_event
init l has_callback base pair =
    let l' = record l { has_callback = has_callback } in
    if base
    then (
      record (add_queue_event l' write_event_flag (some writer)) {
        queue_fd = if pair then true else l'.queue_fd;
      },
      pair,
    )
    else (l', false)

-- The socket calls of `Bind` and the allocation of the listener's state.
pub record BindAnswers : Type 0 where
  pub bind : Bool
  pub listen : Bool
  pub malloc : Bool

unfoldable pub bind : BindAnswers → Bool
bind a = a.bind && (a.listen && a.malloc)

-- Which allocations of `alloc_fd_state` succeed.
pub record AllocAnswers : Type 0 where
  pub malloc : Bool
  pub read_event : Bool
  pub write_event : Bool

unfoldable pub alloc_fd_state : LibEvent → ℕ → ℕ → AllocAnswers → LibEvent × Option FdState
alloc_fd_state l fd listen_port a =
    let state : FdState = record {
      writebuffer = [];
      listen_port = listen_port;
      reading = false;
      writing = false;
    } in
    if a.malloc && (a.read_event && a.write_event)
    then (record l { states = add_state l.states fd (some state) }, some state)
    else (l, none)

unfoldable pub free_fd_state : LibEvent → ℕ → LibEvent
free_fd_state l fd = record l {
  calls = if l.has_callback then l.calls ++ (fd_close fd ∷ []) else l.calls;
  states = del_state l.states fd;
  closed = l.closed ++ (fd ∷ []);
}

abbrev pub put_state : LibEvent → ℕ → FdState → LibEvent
put_state l fd s = record l { states = add_state l.states fd (some s) }

-- A new connection, or an error of `accept`.
pub data Accepted : Type 0 where
  connection : ℕ → Accepted
  again no_files other_error : Accepted

-- `none` is a read through the NULL pointer that `alloc_fd_state` returned.
unfoldable pub do_accept : LibEvent → ℕ → Accepted → AllocAnswers → Option LibEvent
unfolding alloc_fd_state
do_accept l listen_port (connection fd) a =
    let (l', state) = alloc_fd_state l fd listen_port a in
    elim state [ none ↦ none | some s ↦ some (put_state l' fd (record s { reading = true })) ]
do_accept l listen_port _ a = some l

-- How the loop of `do_read` ends: the socket has no more data, the peer closed, or another error.
pub data ReadEnd : Type 0 where
  would_block shut_down failed : ReadEnd

-- `readbuffer` after the pieces that `recv` gave; NULL if there were none.
unfoldable pub gather : Option (List ℕ) → List (List ℕ) → Option (List ℕ)
gather readbuffer [] = readbuffer
gather none (piece ∷ pieces) = gather (some piece) pieces
gather (some bytes) (piece ∷ pieces) = gather (some (bytes ++ piece)) pieces

unfoldable pub end_read : LibEvent → ℕ → FdState → Option (List ℕ) → ReadEnd → LibEvent
unfolding free_fd_state
end_read l fd s none would_block = l
end_read l fd s (some bytes) would_block =
    if l.has_callback
    then record l { calls = l.calls ++ (data_receive fd bytes s.listen_port ∷ []) }
    else l
end_read l fd s readbuffer shut_down = free_fd_state l fd
end_read l fd s readbuffer failed = free_fd_state l fd

unfoldable pub do_read : LibEvent → ℕ → List (List ℕ) → ReadEnd → LibEvent
unfolding gather end_read
do_read l fd pieces stop = elim (get_state l.states fd) [
  | none ↦ l
  | some s ↦ end_read l fd s (gather none pieces) stop
]

-- What `send` answers: a number of bytes, or an error.
pub data Sent : Type 0 where
  sent_bytes : ℕ → Sent
  again failed : Sent

abbrev pub sent_prefix : LibEvent → ℕ → List ℕ → ℕ → LibEvent
sent_prefix l fd buffer n = record l {
  wire = l.wire ++ (record { fd = fd; bytes = take n buffer } ∷ []);
}

-- `writebuffer.read(NULL, sz)` takes the whole buffer.
unfoldable pub write_state : LibEvent → ℕ → FdState → Sent → LibEvent
unfolding free_fd_state
write_state l fd s Sent.again = l
write_state l fd s Sent.failed = free_fd_state l fd
write_state l fd s (sent_bytes n) =
    let sz = length s.writebuffer in
    if n == 0
    then free_fd_state l fd
    else (if n == sz
        then put_state (sent_prefix l fd s.writebuffer n) fd
            (record s { writebuffer = []; writing = false })
        else put_state (sent_prefix l fd s.writebuffer n) fd
            (record s { writebuffer = drop sz s.writebuffer }))

unfoldable pub do_write : LibEvent → ℕ → Sent → LibEvent
unfolding write_state
do_write l fd answer = elim (get_state l.states fd) [
  | none ↦ l
  | some s ↦
      if ltb 0 (length s.writebuffer)
      then write_state l fd s answer
      else put_state l fd (record s { writing = false })
]

-- The message of a flag, on a little-endian machine.
abbrev pub message_of : ℕ → List ℕ
message_of flag = flag ∷ 0 ∷ 0 ∷ 0 ∷ []

-- After `send(fd, (char*)&sockfd, sizeof(int), 0)`; a short message is no error.
unfoldable pub message_sent : LibEvent → ℕ → Sent → LibEvent
message_sent l flag Sent.again = record l { queue_fd = false }
message_sent l flag Sent.failed = record l { queue_fd = false }
message_sent l flag (sent_bytes n) =
    if n == 0
    then record l { queue_fd = false }
    else record l { pipe = l.pipe ++ take n (message_of flag) }

-- `send` fails on a descriptor that is no socket.
unfoldable pub msg_send : LibEvent → ℕ → Sent → LibEvent
unfolding message_sent
msg_send l flag answer =
    if l.queue_fd then message_sent l flag answer else message_sent l flag Sent.failed

unfoldable pub data_send : LibEvent → ℕ → List ℕ → ℕ → Sent → LibEvent
unfolding msg_send
data_send l fd bytes flag answer =
    msg_send
      (record l {
        bufqueue_map =
            LockQueueMap.push l.bufqueue_map flag (some (record { fd = fd; bytes = bytes }));
      })
      flag answer

unfoldable pub closefd : LibEvent → ℕ → Sent → LibEvent
unfolding data_send
closefd l fd answer = data_send l fd [] write_event_flag answer

-- The buffer that came out of the queue.
unfoldable pub deliver : LibEvent → Outgoing → LibEvent
unfolding free_fd_state
deliver l (out) = elim (get_state l.states out.fd) [
  | none ↦ l
  | some s ↦
      if length out.bytes == 0
      then free_fd_state l out.fd
      else put_state l out.fd
          (record s { writebuffer = s.writebuffer ++ out.bytes; writing = true })
]

unfoldable pub queue_receive : LibEvent → ℕ → LibEvent
unfolding deliver
queue_receive l flag =
    let (m, writebuffer) = LockQueueMap.pop l.bufqueue_map flag in
    if flag == write_event_flag
    then elim writebuffer [
      | none ↦ record l { bufqueue_map = m }
      | some out ↦ deliver (record l { bufqueue_map = m }) out
    ]
    else l

-- The first entry with the flag and an object is called, and ends the search.
abbrev pub receiver : ℕ → List (ℕ × Option Target) → Option Target
receiver flag [] = none
receiver flag ((f, none) ∷ rest) = receiver flag rest
receiver flag ((f, some t) ∷ rest) = if f == flag then some t else receiver flag rest

abbrev dispatch : LibEvent → ℕ → Option Target → LibEvent
dispatch l flag none = l
dispatch l flag (some writer) = queue_receive l flag
dispatch l flag (some redis) = record l { redis_notified = suc l.redis_notified }

-- One byte is read; `char` is signed, so that only 1 to 127 are positive.
unfoldable pub do_queue_read : LibEvent → LibEvent
unfolding queue_receive
do_queue_read l = elim l.pipe [
  | [] ↦ l
  | flag ∷ rest ↦
      if ltb 0 flag && ltb flag 128
      then dispatch (record l { pipe = rest }) flag (receiver flag l.queueback)
      else record l { pipe = rest }
]
