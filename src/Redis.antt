-- ===== src/Redis.antt =====
-- src/redis/yyredis.h: `YYRedis`. hiredis is the environment: whether `redisAsyncConnect` gives a usable
-- context, what state a context is in, and whether `redisvAsyncCommand` takes a command are arguments.
pub mod Throttle
pub mod Ticks
pub mod Backlog
pub mod Text
use mms_svr.Prelude.{
  ℕ, zero, suc, ◌+◌, ◌-◌, ◌*◌, ◌%◌, ◌^◌, List, [], ◌∷◌, ◌++◌, Option, none, some, Bool, true, false,
  ◌==◌, ltb, ◌&&◌, ◌||◌, not, length, if◌then◌else◌,
}
use mms_svr.Queues.LockQueue.{LockQueue}
use mms_svr.Queues.LockQueue

abbrev pub redis_event_flag : ℕ
redis_event_flag = 2

-- `QueueItem`, with `format` after the arguments were put in.
pub record QueueItem : Type 0 where
  pub format : List ℕ
  pub privdata : ℕ

-- `_c->c.flags & (REDIS_DISCONNECTING | REDIS_FREEING)`
pub record Context : Type 0 where
  pub closing : Bool

-- `issued` and `attempts` record the calls of `redisvAsyncCommand` that were taken and of
-- `redisAsyncConnect`, `flags` those of `flag_send`.
pub record Redis : Type 0 where
  pub c : Option Context
  pub base : Bool
  pub connecting : Bool
  pub delay_connect_time : ℕ
  pub delay_disconnect : ℕ
  pub queue : LockQueue QueueItem ℕ
  pub issued : List QueueItem
  pub attempts : ℕ
  pub flags : List ℕ

unfoldable pub new_redis : Redis
new_redis = record {
  c = none;
  base = false;
  connecting = false;
  delay_connect_time = 0;
  delay_disconnect = 0;
  queue = LockQueue.init (record { format = []; privdata = 0 }) 0;
  issued = [];
  attempts = 0;
  flags = [];
}

unfoldable pub init : Redis → Bool → ℕ → Redis
init r base delay_connect_time = record r { base = base; delay_connect_time = delay_connect_time }

abbrev pub is_closing : Option Context → Bool
is_closing none = false
is_closing (some c) = c.closing

-- `unsigned int` subtraction
abbrev pub since : ℕ → ℕ → ℕ
since now before = (now + 2 ^ 32 - before) % 2 ^ 32

-- `now` and `now'` are the two calls of `GetTickCount`.
unfoldable pub connect : Redis → ℕ → ℕ → Bool → Redis × Bool
connect r now now' usable =
    if r.connecting || is_closing r.c
    then (r, true)
    else (if not (r.delay_disconnect == 0)
          && ltb (since now r.delay_disconnect) r.delay_connect_time
        then (r, false)
        else (
          record r { delay_disconnect = now'; attempts = suc r.attempts; connecting = usable },
          usable,
        ))

-- `connectCallback` of the build without WIN32; `ok` is `status == REDIS_OK`.
unfoldable pub connect_callback : Redis → Context → Bool → Redis
connect_callback r c ok =
    if ok then record r { c = some c; connecting = false } else record r { connecting = false }

unfoldable pub disconnect_callback : Redis → ℕ → Redis
disconnect_callback r now = record r { c = none; delay_disconnect = now }

-- The loop round `vsnprintf`: `counts` is a library that answers the length of the text when the array is
-- too small, and else it answers -1. `none` is out of fuel.
unfoldable pub format_loop : ℕ → Bool → ℕ → List ℕ → Option (List ℕ)
format_loop zero counts size text = none
format_loop (suc f) counts size text =
    let again = format_loop f counts (if counts then length text + 1 else size * 2) text in
    if ltb (length text) size then some text else again

pub data Sent : Type 0 where
  redis_ok redis_err redis_err_eof hangs : Sent

abbrev pub push_command : Redis → ℕ → Option (List ℕ) → Redis × Sent
push_command r privdata none = (r, hangs)
push_command r privdata (some []) = (r, redis_err_eof)
push_command r privdata (some (x ∷ text)) = (
  record r {
    queue = LockQueue.push r.queue (record { format = x ∷ text; privdata = privdata });
    flags = r.flags ++ (redis_event_flag ∷ []);
  },
  redis_ok,
)

-- The call of `Connect` without a connection is taken to be the one that the class has.
unfoldable pub async_send_command : ℕ → Bool → Redis → ℕ → List ℕ → ℕ → ℕ → Bool → Redis × Sent
unfolding format_loop connect
async_send_command fuel counts r privdata text now now' usable = elim r.c [
  | none ↦ ((if r.base then (connect r now now' usable).0 else r), redis_err)
  | some c ↦ push_command r privdata (format_loop fuel counts 256 text)
]

abbrev pub retry : Redis → ℕ → ℕ → Bool → Redis
retry r now now' usable = if r.base then (connect r now now' usable).0 else r

-- `takes` is what `redisvAsyncCommand` makes of the text.
abbrev pub issue : Redis → QueueItem → (List ℕ → Bool) → ℕ → ℕ → Bool → Redis
issue r token takes now now' usable =
    if takes token.format
    then record r { issued = r.issued ++ (token ∷ []) }
    else retry r now now' usable

unfoldable pub queue_receive : Redis → ℕ → (List ℕ → Bool) → ℕ → ℕ → Bool → Redis
unfolding connect
queue_receive r flag takes now now' usable =
    if flag == redis_event_flag
    then elim r.c [
      | none ↦ retry r now now' usable
      | some c ↦
          if r.base
          then (let (queue, token) = LockQueue.pop r.queue in
              issue (record r { queue = queue }) token takes now now' usable)
          else r
    ]
    else r

-- `Close`, without what hiredis then does.
unfoldable pub close : Redis → Redis
close r = record r { base = false }
