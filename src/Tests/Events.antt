-- ===== src/Tests/Events.antt =====
-- src/event/yylibevent.cpp with one connection that has three bytes waiting.
use mms_svr.Prelude.{◌≢◌, ◌≡◌, refl, [], ◌∷◌, ◌++◌, true, none, some, arith, take}
use mms_svr.Prelude.Keys.{nat_eq}
use mms_svr.StateMap.{get_state}
use mms_svr.StateMap.Laws.{UniqueKeys}
use mms_svr.Event.{
  shut_down, do_read, FdState, LibEvent, writer, write_event_flag, do_write, data_send, sent_bytes,
}
use mms_svr.Event.Write.{bytes_to, waiting, stream, do_write_sent}
use mms_svr.Event.Receive.{received, reads_of, all_pieces, reads_of-do_read}
use mms_svr.Event.Notify.{reads}
use mms_svr.Event.{init, new_lib_event, add_queue_event, redis, msg_send, redis_event_flag}
use mms_svr.Event.Run.{
  sends, notifies, writes, Run, stay, then_act, Reached, at_start, adds, after, queue, queue_bytes,
}
use mms_svr.Event.Run.Ready.{IsReady}
use mms_svr.Event.Run.Stream.{IsOpen}
use mms_svr.Event.Run.Emptied.{no_lost_buffer}
use mms_svr.Event.Run.Delivery.{run-reads-stream}
use mms_svr.Prelude.{length, false}
use mms_svr.Event.{Sent, message_sent}
use mms_svr.Event.Run.{now, later, Passes}
use mms_svr.Event.Run.Lost.{lost_message}

abbrev pub client : FdState
client = record { writebuffer = 7 ∷ 8 ∷ 9 ∷ []; listen_port = 80; reading = true; writing = true }

abbrev pub connected : LibEvent
connected = record {
  states = record { hash_map = (4, some client) ∷ []; def_value = none };
  bufqueue_map = record { fd_queue_map = []; t_def_value = none };
  queueback = (write_event_flag, some writer) ∷ [];
  queue_fd = true;
  pipe = [];
  has_callback = true;
  calls = [];
  wire = [];
  closed = [];
  redis_notified = 0;
}

found : get_state connected.states 4 ≡ some client
unfolding get_state mms_svr.StateMap.find
found = refl

connected-UniqueKeys : UniqueKeys connected.states.hash_map
unfolding mms_svr.StateMap.find
connected-UniqueKeys = (refl, tt)

do_write_sent_example :
    (bytes_to 4 (do_write connected 4 (sent_bytes 2)).wire
      ≡ bytes_to 4 [] ++ take 2 (waiting connected 4))
    × (waiting (do_write connected 4 (sent_bytes 2)) 4 ≡ [])
do_write_sent_example = do_write_sent connected 4 client 2 found (omega arith) (omega arith)

reads_of-do_read_example :
    (received 4
        (do_read
          (reads_of 4 (((1 ∷ []) ∷ (2 ∷ []) ∷ []) ∷ ((3 ∷ []) ∷ []) ∷ []) connected)
          4
          ((5 ∷ []) ∷ [])
          shut_down).calls
      ≡ received 4 [] ++ all_pieces (((1 ∷ []) ∷ (2 ∷ []) ∷ []) ∷ ((3 ∷ []) ∷ []) ∷ []))
    × (get_state
          (do_read
            (reads_of 4 (((1 ∷ []) ∷ (2 ∷ []) ∷ []) ∷ ((3 ∷ []) ∷ []) ∷ []) connected)
            4
            ((5 ∷ []) ∷ [])
            shut_down).states
          4
        ≡ none)
reads_of-do_read_example =
    reads_of-do_read connected 4 client (((1 ∷ []) ∷ (2 ∷ []) ∷ []) ∷ ((3 ∷ []) ∷ []) ∷ [])
      ((5 ∷ []) ∷ []) shut_down found refl connected-UniqueKeys tt

pub connected-IsReady : IsReady connected
unfolding mms_svr.StateMap.find
connected-IsReady = record {
  writer_first = refl;
  open_pair = refl;
  unique = (refl, tt);
  no_default = refl;
  balanced = refl;
}

pub connected-IsOpen : IsOpen 4 connected
unfolding mms_svr.StateMap.find get_state
connected-IsOpen = record { state = client; found = refl; filled = tt }

abbrev two_sent : LibEvent
two_sent =
    data_send
      (do_write
        (msg_send (data_send connected 4 (1 ∷ 2 ∷ []) write_event_flag (sent_bytes 2))
          redis_event_flag (sent_bytes 4))
        4 (sent_bytes 3))
      4 (3 ∷ []) write_event_flag (sent_bytes 4)

-- Two buffers, the first with half a message, with a message of the redis client and a write between them.
two_sent-Run : Run 4 connected (1 ∷ 2 ∷ 3 ∷ []) two_sent
unfolding data_send msg_send message_sent mms_svr.StateMap.find get_state
two_sent-Run =
    then_act (sends 4 (3 ∷ []) (sent_bytes 4))
      (then_act (writes 4 (sent_bytes 3))
        (then_act (notifies (sent_bytes 4))
          (then_act (sends 4 (1 ∷ 2 ∷ []) (sent_bytes 2)) stay (omega arith, λ e. omega arith) refl)
          (omega arith) refl)
        (λ e. refl) refl)
      (omega arith, λ e. omega arith) refl

run-reads-stream_example :
    (stream (reads (length two_sent.pipe) two_sent) 4
      ≡ (stream connected 4 ++ queue_bytes 4 (queue connected)) ++ (1 ∷ 2 ∷ 3 ∷ []))
    × (queue (reads (length two_sent.pipe) two_sent) ≡ [])
run-reads-stream_example =
    run-reads-stream 4 connected two_sent (1 ∷ 2 ∷ 3 ∷ []) connected-IsReady connected-IsOpen
      two_sent-Run

abbrev sent_at_start : LibEvent
sent_at_start =
    data_send
      (add_queue_event (init (new_lib_event false) true true true).0 redis_event_flag (some redis))
      4 (1 ∷ []) write_event_flag (sent_bytes 4)

sent_at_start-Reached : Reached sent_at_start
sent_at_start-Reached =
    after (sends 4 (1 ∷ []) (sent_bytes 4)) (adds redis_event_flag (some redis) (at_start true))
      (omega arith) refl

no_lost_buffer_example :
    ((reads (length sent_at_start.pipe) sent_at_start).pipe ≡ [])
    × (queue (reads (length sent_at_start.pipe) sent_at_start) ≡ [])
no_lost_buffer_example = no_lost_buffer sent_at_start sent_at_start-Reached

-- A signal interrupts the message of the second buffer; a third buffer follows, and the event thread reads.
abbrev refused_second : LibEvent
refused_second = data_send sent_at_start 5 (2 ∷ []) write_event_flag Sent.again

abbrev third_sent : LibEvent
third_sent = data_send refused_second 6 (3 ∷ []) write_event_flag (sent_bytes 4)

not_passed : ¬ (Passes Sent.again)
not_passed h = elim h [ ]

lost_message_example : (queue (reads 8 third_sent) ≢ []) × ((reads 8 third_sent).queue_fd ≡ false)
lost_message_example =
    lost_message sent_at_start third_sent 5 8 (2 ∷ []) Sent.again sent_at_start-Reached not_passed
      (later (sends 6 (3 ∷ []) (sent_bytes 4)) now refl)
