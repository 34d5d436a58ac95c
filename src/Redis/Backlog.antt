-- ===== src/Redis/Backlog.antt =====
-- src/redis/yyredis.h: commands that were queued when the connection broke.
use mms_svr.Prelude.{
  ℕ, suc, ◌≡◌, refl, sym, ap, ◌∙◌, List, [], ◌∷◌, ◌++◌, append_assoc, append-nil, some, true, false,
  length, length-append, arith, List-cases, inl, inr,
}
use mms_svr.Queues.LockQueue
use mms_svr.Redis.{
  Redis, QueueItem, Context, async_send_command, queue_receive, redis_event_flag, push_command,
}
use mms_svr.Redis.Text.{format_loop-some}

-- A command, of at least one byte, with what it is sent for.
pub record Command : Type 0 where
  pub first : ℕ
  pub rest : List ℕ
  pub privdata : ℕ

abbrev pub token : Command → QueueItem
token c = record { format = c.first ∷ c.rest; privdata = c.privdata }

-- `AsyncSendCommand`, and the event thread's `queue_receive` for its flag, on a connection that takes every
-- command.
pub round : Redis → Command → Redis
round r c =
    queue_receive
      (async_send_command (suc (suc (suc (length c.rest)))) true r c.privdata (c.first ∷ c.rest) 0 0
        false).0
      redis_event_flag (λ _. true) 0 0 false

abbrev pub rounds : Redis → List Command → Redis
rounds r [] = r
rounds r (c ∷ cs) = rounds (round r c) cs

abbrev pub tokens : List Command → List QueueItem
tokens [] = []
tokens (c ∷ cs) = token c ∷ tokens cs

pub record IsConnected (r : Redis) : Type 0 where
  pub context : Context
  pub connected : r.c ≡ some context
  pub based : r.base ≡ true

abbrev pub queued : Redis → List QueueItem
queued r = r.queue.fd_queue

sent_state :
    (r : Redis) (c : Command)
    → IsConnected r
    → (async_send_command
        (suc (suc (suc (length c.rest))))
        true
        r
        c.privdata
        (c.first ∷ c.rest)
        0
        0
        false).0
      ≡ (push_command r c.privdata (some (c.first ∷ c.rest))).0
unfolding async_send_command
sent_state r c v = ground (arith, v.connected, format_loop-some true (c.first ∷ c.rest))

received_state :
    (r : Redis) (t : QueueItem) (rest : List QueueItem)
    → IsConnected r
    → queued r ≡ t ∷ rest
    → queue_receive r redis_event_flag (λ _. true) 0 0 false
      ≡ record r { queue = record r.queue { fd_queue = rest }; issued = r.issued ++ (t ∷ []) }
unfolding queue_receive
received_state r t rest v full = ground (arith, v.connected, v.based, popped r.queue full)
  where
    popped :
        (q : LockQueue.LockQueue QueueItem ℕ)
        → q.fd_queue ≡ t ∷ rest
        → LockQueue.pop q ≡ (record q { fd_queue = rest }, t)
    popped q e = unfold LockQueue.pop in rw (e, LockQueue.pop) refl

-- One round issues the oldest command and queues the new one.
round_lem :
    (r : Redis) (c : Command)
    → IsConnected r
    → IsConnected (round r c)
      × ((round r c).issued ++ queued (round r c) ≡ r.issued ++ (queued r ++ (token c ∷ [])))
      × (length (queued (round r c)) ≡ length (queued r))
unfolding round
round_lem r c v = elim (List-cases (queued r ++ (token c ∷ []))) [
  | inl empty ↦ absurd (omega (arith, ap length empty, length-append (queued r) (token c ∷ [])))
  | inr (t, rest, full) ↦
      let pushed : Redis = (push_command r c.privdata (some (c.first ∷ c.rest))).0 in
      let full' : queued pushed ≡ t ∷ rest = unfold LockQueue.push in full in
      rw
        (
          sent_state r c v,
          received_state pushed t rest
              (record { context = v.context; connected = v.connected; based = v.based }) full',
        )
        (
          record { context = v.context; connected = v.connected; based = v.based },
          append_assoc r.issued (t ∷ []) rest ∙ ap (◌++◌ r.issued) (sym full),
          omega (arith, ap length full, length-append (queued r) (token c ∷ [])),
        )
]

-- On a connection that takes every command, sending any number of commands, each of at least one
-- byte, issues those that were left in the queue first, in order, and leaves as many in the queue
-- as were in it: what a broken connection left behind is never caught up with.
pub backlog_stays :
    (r : Redis) (cs : List Command)
    → IsConnected r
    → ((rounds r cs).issued ++ queued (rounds r cs) ≡ r.issued ++ (queued r ++ tokens cs))
      × (length (queued (rounds r cs)) ≡ length (queued r))
backlog_stays r [] v = (ap (◌++◌ r.issued) (sym (append-nil (queued r))), refl)
backlog_stays r (c ∷ cs) v =
    let (v', moved, same) = round_lem r c v in
    let (all, count) = backlog_stays (round r c) cs v' in
    (
      all
          ∙ sym (append_assoc (round r c).issued (queued (round r c)) (tokens cs))
          ∙ ap (λ (l : List QueueItem). l ++ tokens cs) moved
          ∙ append_assoc r.issued (queued r ++ (token c ∷ [])) (tokens cs)
          ∙ ap (◌++◌ r.issued) (append_assoc (queued r) (token c ∷ []) (tokens cs)),
      count ∙ same,
    )
