-- ===== src/Event/Run/Emptied.antt =====
-- src/event/yylibevent.cpp: no buffer is left in the queue without a message.
use mms_svr.Prelude.{
  ℕ, zero, suc, ◌≡◌, refl, ap, ◌∙◌, List, [], ◌∷◌, ◌++◌, Option, some, none, true, false, Bool,
  length, arith, inl, inr, List-cases,
}
use mms_svr.Prelude.Keys.{nat_eq}
use mms_svr.Event.{
  LibEvent, Target, writer, do_queue_read, write_event_flag, receiver, init, new_lib_event,
  add_queue_event,
}
use mms_svr.Event.Notify.{reads}
use mms_svr.Event.Run.{Reached, at_start, adds, after, queue}
use mms_svr.Event.Run.Ready.{IsReady, act-IsReady, do_queue_read-IsReady, pipe_read, empty_queue}

receiver-append :
    (flag : ℕ) (t : Target) (q p : List (ℕ × Option Target))
    → receiver flag q ≡ some t
    → receiver flag (q ++ p) ≡ some t
receiver-append flag t [] p h = cc
receiver-append flag t ((f, none) ∷ q) p h = receiver-append flag t q p h
receiver-append flag t ((f, some u) ∷ q) p h = ground (arith, receiver-append flag t q p)

init-IsReady : (has_callback : Bool) → IsReady (init (new_lib_event false) has_callback true true).0
unfolding init new_lib_event add_queue_event mms_svr.StateMap.find
init-IsReady has_callback = record {
  writer_first = refl;
  open_pair = refl;
  unique = tt;
  no_default = refl;
  balanced = refl;
}

adds-IsReady :
    (l : LibEvent) (flag : ℕ) (ev : Option Target) → IsReady l → IsReady (add_queue_event l flag ev)
unfolding add_queue_event
adds-IsReady l flag ev v = record {
  writer_first = receiver-append write_event_flag writer l.queueback _ v.writer_first;
  open_pair = v.open_pair;
  unique = v.unique;
  no_default = v.no_default;
  balanced = v.balanced;
}

pub Reached-IsReady : {l : LibEvent} → Reached l → IsReady l
Reached-IsReady (at_start has_callback) = init-IsReady has_callback
Reached-IsReady (adds {l} flag ev r) = adds-IsReady l flag ev (Reached-IsReady r)
Reached-IsReady (after {l} {l' = m} a r heard e) = act-IsReady l m a (Reached-IsReady r) heard e

emptied :
    (n : ℕ) (l : LibEvent)
    → length l.pipe ≡ n
    → IsReady l
    → ((reads n l).pipe ≡ []) × (queue (reads n l) ≡ [])
emptied zero l size v = elim (List-cases l.pipe) [
  | inl empty ↦ (empty, empty_queue l v empty)
  | inr (flag, rest, full) ↦ absurd (omega (arith, size, ap length full))
]
emptied (suc n) l size v = elim (List-cases l.pipe) [
  | inl empty ↦ absurd (omega (arith, size, ap length empty))
  | inr (flag, rest, full) ↦
      emptied n (do_queue_read l)
        (ap length (pipe_read l flag rest v full) ∙ omega (arith, size, ap length full))
        (do_queue_read-IsReady l v)
]

-- In every state that the event loop reaches after an Init that succeeds, as long as send takes at least one
-- byte of every message, in whatever order buffers and messages are sent, the handlers run and objects are added
-- for messages: reading as many bytes as the pipe has leaves the pipe empty and no buffer in the queue.
pub no_lost_buffer :
    (l : LibEvent)
    → Reached l
    → ((reads (length l.pipe) l).pipe ≡ []) × (queue (reads (length l.pipe) l) ≡ [])
no_lost_buffer l r = emptied (length l.pipe) l refl (Reached-IsReady r)
