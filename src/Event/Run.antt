-- ===== src/Event/Run.antt =====
-- src/event/yylibevent.cpp: what the event thread and the senders do, one after the other. Every call of a
-- handler or of `data_send` is one action, with what the sockets answer in it.
pub mod Touches
pub mod Accepts
pub mod Reads
pub mod Messages
pub mod Ready
pub mod Emptied
pub mod Lost
pub mod Stream
pub mod Delivery
use mms_svr.Prelude.{
  Bool, true, false, ℕ, ◌+◌, ◌<◌, ◌≡◌, ◌≢◌, List, [], ◌∷◌, ◌++◌, Option, some, none, ◌==◌, length,
  if◌then◌else◌,
}
use mms_svr.Prelude.Keys.{nat_eq}
use mms_svr.Event.{
  init, new_lib_event, add_queue_event, Target, LibEvent, Outgoing, Sent, sent_bytes, ReadEnd,
  would_block, Accepted, connection, AllocAnswers, data_send, msg_send, do_queue_read, do_write,
  do_read, do_accept, write_event_flag, redis_event_flag,
}
use mms_svr.Event.Write.{waiting, stream}
use mms_svr.Queues.LockQueueMap.{contents}

-- `sends fd [] answer` is `closefd`; `notifies` is the message of the redis client. The answer is that of the
-- `send` of the message.
pub data Action : Type 0 where
  sends : ℕ → List ℕ → Sent → Action
  notifies : Sent → Action
  reads_queue : Action
  writes : ℕ → Sent → Action
  receives : ℕ → List (List ℕ) → ReadEnd → Action
  accepts : ℕ → Accepted → AllocAnswers → Action

abbrev pub act : LibEvent → Action → Option LibEvent
act l (sends fd bytes answer) = some (data_send l fd bytes write_event_flag answer)
act l (notifies answer) = some (msg_send l redis_event_flag answer)
act l reads_queue = some (do_queue_read l)
act l (writes fd answer) = some (do_write l fd answer)
act l (receives fd pieces stop) = some (do_read l fd pieces stop)
act l (accepts port accepted answers) = do_accept l port accepted answers

-- At least the byte of the flag goes through the socket pair.
abbrev pub Passes : Sent → Type 0
Passes (sent_bytes n) = 0 < n
Passes Sent.again = ⊥
Passes Sent.failed = ⊥

-- The message of the action, if it has one, is not lost.
abbrev pub IsHeard : Action → Type 0
IsHeard (sends fd bytes answer) = Passes answer
IsHeard (notifies answer) = Passes answer
IsHeard a = Unit {0}

-- An action that leaves the connection `fd` open: its message passes, nobody asks to close it, its socket takes all that waits or
-- has no room, it has no error, and no new connection gets its number.
abbrev pub Calm : ℕ → LibEvent → Action → Type 0
Calm fd l (sends j bytes answer) = Passes answer × (j ≡ fd → 0 < length bytes)
Calm fd l (notifies answer) = Passes answer
Calm fd l reads_queue = Unit {0}
Calm fd l (writes j (sent_bytes n)) = j ≡ fd → n ≡ length (waiting l fd)
Calm fd l (writes j Sent.again) = Unit {0}
Calm fd l (writes j Sent.failed) = j ≢ fd
Calm fd l (receives j pieces would_block) = Unit {0}
Calm fd l (receives j pieces stop) = j ≢ fd
Calm fd l (accepts port (connection j) answers) = j ≢ fd
Calm fd l (accepts port accepted answers) = Unit {0}

abbrev pub sent_by : ℕ → Action → List ℕ
sent_by fd (sends j bytes answer) = if j == fd then bytes else []
sent_by fd a = []

-- The actions that lead from one state to another, while `fd` stays open, and what they sent to it.
pub data Run (fd : ℕ) : LibEvent → List ℕ → LibEvent → Type 0 where
  stay : {l : LibEvent} → Run fd l [] l
  then_act :
      {l l' l'' : LibEvent} {sent : List ℕ} (a : Action)
      → Run fd l sent l'
      → Calm fd l' a
      → act l' a ≡ some l''
      → Run fd l (sent ++ sent_by fd a) l''

-- The states of the event loop, from an `Init` that succeeds on, with the objects that are added for messages,
-- while every message passes.
pub data Reached : LibEvent → Type 0 where
  at_start : (has_callback : Bool) → Reached (init (new_lib_event false) has_callback true true).0
  adds :
      {l : LibEvent} (flag : ℕ) (ev : Option Target)
      → Reached l
      → Reached (add_queue_event l flag ev)
  after : {l l' : LibEvent} (a : Action) → Reached l → IsHeard a → act l a ≡ some l' → Reached l'

-- What follows a state, whatever the messages' `send` answers.
pub data Later (l : LibEvent) : LibEvent → Type 0 where
  now : Later l l
  later : {l' l'' : LibEvent} (a : Action) → Later l l' → act l' a ≡ some l'' → Later l l''

-- What waits in the queue for the connection `fd`.
abbrev pub queue_bytes : ℕ → List (Option Outgoing) → List ℕ
queue_bytes fd [] = []
queue_bytes fd (none ∷ q) = queue_bytes fd q
queue_bytes fd (some out ∷ q) =
    if out.fd == fd then out.bytes ++ queue_bytes fd q else queue_bytes fd q

abbrev pub queue : LibEvent → List (Option Outgoing)
queue l = contents l.bufqueue_map write_event_flag

-- Everything that was handed over for the connection `fd`, wherever it is by now.
abbrev pub total : LibEvent → ℕ → List ℕ
total l fd = stream l fd ++ queue_bytes fd (queue l)
