-- ===== src/Server/Answers.antt =====
-- src/yymm_svr/cmdproc.cpp and src/event/yylibevent.cpp: what a handler of the server sends, on its way through the
-- event loop to the connection.
pub mod Key
use mms_svr.Prelude.{
  ℕ, ◌<◌, ◌≡◌, refl, sym, ap, ◌∙◌, subst, List, [], ◌∷◌, ◌++◌, append-nil, append_assoc, none, some,
  ◌==◌, length, arith, if◌then◌else◌, All,
}
use mms_svr.Prelude.Keys.{nat_eq}
use mms_svr.Event.{sent_bytes, LibEvent, Outgoing, data_send, write_event_flag}
use mms_svr.Event.Write.{stream, bytes_to}
use mms_svr.Event.Notify.{reads}
use mms_svr.Event.Run.{Run, stay, then_act, sends, queue, queue_bytes}
use mms_svr.Event.Run.Ready.{IsReady}
use mms_svr.Event.Run.Stream.{IsOpen}
use mms_svr.Event.Run.Delivery.{run-reads-stream}

-- The buffers of a handler are given to the event loop in their order; an empty one is that of `closefd`. Their
-- messages go through the socket pair whole.
abbrev pub send_all : LibEvent → List Outgoing → LibEvent
send_all l [] = l
send_all l (out ∷ rest) =
    send_all (data_send l out.fd out.bytes write_event_flag (sent_bytes 4)) rest

abbrev pub Fills : ℕ → Outgoing → Type 0
Fills fd out = out.fd ≡ fd → 0 < length out.bytes

one_more :
    (fd : ℕ) (sent : List ℕ) (out : Outgoing) (rest : List Outgoing)
    → (sent ++ (if out.fd == fd then out.bytes else [])) ++ bytes_to fd rest
      ≡ sent ++ bytes_to fd (out ∷ rest)
one_more fd sent out rest = append_assoc sent _ (bytes_to fd rest) ∙ ap (◌++◌ sent) (ground arith)

sends-Run :
    (fd : ℕ) (l m : LibEvent) (sent : List ℕ) (outs : List Outgoing)
    → All (Fills fd) outs
    → Run fd l sent m
    → Run fd l (sent ++ bytes_to fd outs) (send_all m outs)
sends-Run fd l m sent [] filled r = rw (append-nil sent) r
sends-Run fd l m sent (out ∷ rest) filled r =
    subst (λ s. Run fd l s (send_all m (out ∷ rest))) (one_more fd sent out rest)
      (sends-Run fd l (data_send m out.fd out.bytes write_event_flag (sent_bytes 4)) _ rest filled.1
        (then_act (sends out.fd out.bytes (sent_bytes 4)) r (omega arith, filled.0) refl))

-- For an open connection in a state where each buffer in the queue has its message in the pipe, while the messages go
-- through whole: once the pipe has been
-- read empty, the buffers of a handler that do not close the connection stand in its stream, in order, behind
-- everything before.
pub send_all-stream :
    (fd : ℕ) (l : LibEvent) (outs : List Outgoing)
    → IsReady l
    → IsOpen fd l
    → All (Fills fd) outs
    → stream (reads (length (send_all l outs).pipe) (send_all l outs)) fd
      ≡ (stream l fd ++ queue_bytes fd (queue l)) ++ bytes_to fd outs
send_all-stream fd l outs v o filled =
    (run-reads-stream fd l (send_all l outs) (bytes_to fd outs) v o
      (sends-Run fd l l [] outs filled stay)).0
