-- ===== src/Event/Run/Ready.antt =====
-- src/event/yylibevent.cpp: the message pipe and the queue stay in step.
use mms_svr.Prelude.{
  ℕ, suc, ◌≡◌, refl, sym, ap, ◌∙◌, List, [], ◌∷◌, ◌++◌, Option, some, none, length, List-cases,
  arith, rest_of,
}
use mms_svr.Prelude.Keys.{nat_eq}
use mms_svr.StateMap.Laws.{UniqueKeys}
use mms_svr.Queues.LockQueueMap.{contents-push, t_def_value-kept}
use mms_svr.Event.{
  true, Sent, LibEvent, Outgoing, connection, writer, data_send, msg_send, do_queue_read,
  write_event_flag, redis_event_flag, receiver, do_accept,
}
use mms_svr.Prelude.{some_inj}
use mms_svr.Queues.LockQueueMap.{push, contents}
use mms_svr.Event.Run.Messages.{messages, messages-append, passed, msg_send-Leaves}
use mms_svr.Event.{Accepted}
use mms_svr.Prelude.{List-cases, inl, inr}
use mms_svr.Event.Run.Reads.{
  after_pop, queue-after_pop, receipt, nothing, buffer, one_read, idle, passes, message,
}
use mms_svr.Event.Run.{
  Passes, contents, IsHeard, Action, sends, notifies, reads_queue, writes, receives, accepts, act,
  queue,
}
use mms_svr.Event.Run.Accepts.{do_accept-Touches}
use mms_svr.Event.Run.Touches.{Touches, deliver-Touches, do_write-Touches, do_read-Touches}

-- Each buffer in the writer's queue has its message in the pipe.
pub record IsReady (l : LibEvent) : Type 0 where
  pub writer_first : receiver write_event_flag l.queueback ≡ some writer
  pub open_pair : l.queue_fd ≡ true
  pub unique : UniqueKeys l.states.hash_map
  pub no_default : l.bufqueue_map.t_def_value ≡ none
  pub balanced : messages l.pipe ≡ length (queue l)

pub Touches-IsReady : (j : ℕ) (l l' : LibEvent) → Touches j l l' → IsReady l → IsReady l'
Touches-IsReady j l l' t v = record {
  writer_first = rw t.queueback v.writer_first;
  open_pair = t.queue_fd ∙ v.open_pair;
  unique = t.unique v.unique;
  no_default = rw t.bufqueue_map v.no_default;
  balanced = rw (t.pipe, t.bufqueue_map) v.balanced;
}

pub length-snoc : {A : Type 0} (xs : List A) (x : A) → length (xs ++ (x ∷ [])) ≡ suc (length xs)
length-snoc [] x = refl
length-snoc (y ∷ xs) x = ap suc (length-snoc xs x)

pub queue-data_send :
    (l : LibEvent) (fd : ℕ) (bytes : List ℕ) (answer : Sent)
    → queue (data_send l fd bytes write_event_flag answer)
      ≡ queue l ++ (some (record { fd = fd; bytes = bytes }) ∷ [])
unfolding data_send
queue-data_send l fd bytes answer =
    ap (λ m. contents m write_event_flag) (msg_send-Leaves _ write_event_flag answer).bufqueue_map
    ∙ contents-push l.bufqueue_map write_event_flag write_event_flag
        (some (record { fd = fd; bytes = bytes }))

data_send-IsReady :
    (l : LibEvent) (fd : ℕ) (bytes : List ℕ) (answer : Sent)
    → Passes answer
    → IsReady l
    → IsReady (data_send l fd bytes write_event_flag answer)
unfolding data_send
data_send-IsReady l fd bytes answer h v =
    let out : Outgoing = record { fd = fd; bytes = bytes } in
    let pushed : LibEvent = record l {
      bufqueue_map = push l.bufqueue_map write_event_flag (some out);
    } in
    let (sent, step, one) = passed pushed write_event_flag answer v.open_pair h in
    rw step (record {
      writer_first = v.writer_first;
      open_pair = v.open_pair;
      unique = v.unique;
      no_default =
          (t_def_value-kept l.bufqueue_map write_event_flag
            (some (record { fd = fd; bytes = bytes }))).0
          ∙ v.no_default;
      balanced = omega (
        arith,
        messages-append l.pipe sent,
        one,
        v.balanced,
        ap length (contents-push l.bufqueue_map write_event_flag write_event_flag (some out)),
        length-snoc (queue l) (some out),
      );
    })

notified-IsReady :
    (l : LibEvent) (answer : Sent)
    → Passes answer
    → IsReady l
    → IsReady (msg_send l redis_event_flag answer)
notified-IsReady l answer h v =
    let (sent, step, no_more) = passed l redis_event_flag answer v.open_pair h in
    rw step (record {
      writer_first = v.writer_first;
      open_pair = v.open_pair;
      unique = v.unique;
      no_default = v.no_default;
      balanced = omega (arith, messages-append l.pipe sent, no_more, v.balanced);
    })

-- The message is out of the pipe, and the buffer is taken out of the queue.
pub after_pop-IsReady :
    (l : LibEvent) (rest : List ℕ)
    → IsReady l
    → l.pipe ≡ write_event_flag ∷ rest
    → IsReady (after_pop (record l { pipe = rest }))
after_pop-IsReady l rest v full = record {
  writer_first = v.writer_first;
  open_pair = v.open_pair;
  unique = v.unique;
  no_default = (t_def_value-kept l.bufqueue_map write_event_flag none).1 ∙ v.no_default;
  balanced =
      one_less (queue l) (sym v.balanced ∙ ap messages full) ∙ sym (ap length (queue-after_pop l));
}
  where
    one_less :
        (q : List (Option Outgoing))
        → length q ≡ suc (messages rest)
        → messages rest ≡ length (rest_of q)
    one_less [] e = absurd (omega (arith, e))
    one_less (x ∷ q) e = omega (arith, e)

pub do_queue_read-IsReady : (l : LibEvent) → IsReady l → IsReady (do_queue_read l)
do_queue_read-IsReady l v = elim (one_read l v.writer_first) [
  | idle empty step ↦ rw step v
  | passes flag rest n full other step ↦ rw step (record {
    writer_first = v.writer_first;
    open_pair = v.open_pair;
    unique = v.unique;
    no_default = v.no_default;
    balanced = sym (ap messages full ∙ rw other refl) ∙ v.balanced;
  })
  | message rest full step ↦
      let w = after_pop-IsReady l rest v full in
      elim (receipt (record l { pipe = rest }) v.no_default) [
        | nothing empty received ↦ rw (step, received) w
        | buffer out others queued received ↦
            rw (step, received) (Touches-IsReady out.fd _ _ (deliver-Touches _ out) w)
      ]
]

-- One turn takes one byte.
pub pipe_read :
    (l : LibEvent) (flag : ℕ) (rest : List ℕ)
    → IsReady l
    → l.pipe ≡ flag ∷ rest
    → (do_queue_read l).pipe ≡ rest
pipe_read l flag rest v full = elim (one_read l v.writer_first) [
  | idle empty step ↦ rw step (absurd (no_byte (sym empty ∙ full)))
  | passes other left n read differs step ↦ rw step (ap rest_of (sym read ∙ full))
  | message left read step ↦ elim (receipt (record l { pipe = left }) v.no_default) [
    | nothing empty received ↦ rw (step, received) (ap rest_of (sym read ∙ full))
    | buffer out others queued received ↦
        rw (step, received)
          ((deliver-Touches (after_pop (record l { pipe = left })) out).pipe
            ∙ ap rest_of (sym read ∙ full))
  ]
]
  where
    no_byte : [] ≡ flag ∷ rest → ⊥
    no_byte e = cc

-- Every action whose message passes keeps the pipe and the queue in step.
pub act-IsReady :
    (l l' : LibEvent) (a : Action) → IsReady l → IsHeard a → act l a ≡ some l' → IsReady l'
unfolding do_accept
act-IsReady l l' (sends fd bytes answer) v h e =
    rw (← some_inj _ l' e) (data_send-IsReady l fd bytes answer h v)
act-IsReady l l' (notifies answer) v h e = rw (← some_inj _ l' e) (notified-IsReady l answer h v)
act-IsReady l l' reads_queue v h e = rw (← some_inj _ l' e) (do_queue_read-IsReady l v)
act-IsReady l l' (writes fd answer) v h e =
    rw (← some_inj _ l' e) (Touches-IsReady fd l _ (do_write-Touches fd l answer) v)
act-IsReady l l' (receives fd pieces stop) v h e =
    rw (← some_inj _ l' e) (Touches-IsReady fd l _ (do_read-Touches fd l pieces stop) v)
act-IsReady l l' (accepts port (connection j) a) v h e =
    Touches-IsReady j l l' (do_accept-Touches port j l l' a e) v
act-IsReady l l' (accepts port Accepted.again a) v h e = rw (← some_inj l l' e) v
act-IsReady l l' (accepts port Accepted.no_files a) v h e = rw (← some_inj l l' e) v
act-IsReady l l' (accepts port Accepted.other_error a) v h e = rw (← some_inj l l' e) v

no_message : {n : ℕ} (p : List ℕ) → p ≡ [] → messages p ≡ suc n → ⊥
no_message p empty e = omega (arith, ap messages empty, e)

pub empty_queue : (l : LibEvent) → IsReady l → l.pipe ≡ [] → queue l ≡ []
empty_queue l v empty = elim (List-cases (queue l)) [
  | inl none_waits ↦ none_waits
  | inr (x, q, full) ↦ absurd (no_message l.pipe empty (v.balanced ∙ ap length full))
]
