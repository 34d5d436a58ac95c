-- ===== src/Server/Startup.antt =====
-- src/yymm_svr/main.cpp: `main`, with `MmsServer::init` of yymms_svr.cpp and `InitMmsExec` of mmsexecmag.cpp.
pub mod Runs
use mms_svr.Prelude.{
  ℕ, ◌≡◌, refl, sym, ap, ◌∙◌, ◌↔◌, Option, some, none, Bool, true, false, inl, inr, Bool-cases,
  Option-cases, if◌then◌else◌,
}
use mms_svr.Prelude.Int.{ℤ, pos, negsuc}
use mms_svr.Cfg.{Xml, Cfg, Loaded, refused, crashed, loaded, parse_cfg}
use mms_svr.Redis
use mms_svr.Redis.{Redis, new_redis}
use mms_svr.Event
use mms_svr.Event.{
  LibEvent, BindAnswers, bind, new_lib_event, add_queue_event, redis, writer, write_event_flag,
  redis_event_flag, receiver,
}
use mms_svr.Server.Boss
use mms_svr.Server.Boss.{Pool}

-- What the machine answers while the server starts: whether `event_base_new` and the socket pair succeed, the
-- calls of the two listeners, the two ticks of `Connect` and whether `redisAsyncConnect` gives a usable context.
pub record StartAnswers : Type 0 where
  pub base : Bool
  pub pair : Bool
  pub client_port : BindAnswers
  pub mang_port : BindAnswers
  pub now : ℕ
  pub now' : ℕ
  pub usable : Bool

pub record Running : Type 0 where
  pub event : LibEvent
  pub redis_client : Redis
  pub pool : Pool

-- What `main` comes to before the event loop: no configuration, a process that died, a server that could not be
-- initialised, or one that is run.
pub data Ended : Type 0 where
  no_config died init_error : Ended
  running : Running → Ended

abbrev pub delay_connect_time : ℕ
delay_connect_time = 10000

-- `_redis.Init` and `_redis.Connect`
unfoldable pub start_redis : LibEvent → StartAnswers → LibEvent × Redis
start_redis l a = (
  add_queue_event l redis_event_flag (some redis),
  (Redis.connect (Redis.init new_redis true delay_connect_time) a.now a.now' a.usable).0,
)

-- `Init(_threadnum)` and the loop that starts the threads; an array of a negative size throws.
unfoldable pub start_threads : ℤ → LibEvent × Redis → Ended
start_threads (negsuc n) (l, r) = died
start_threads (pos n) (l, r) = running (record { event = l; redis_client = r; pool = Boss.init n })

unfoldable pub init_mms_exec : BindAnswers → Bool
init_mms_exec a = bind a

unfoldable pub init : ℤ → StartAnswers → Ended
unfolding start_redis start_threads init_mms_exec
init thread_num a =
    let (event, ok) = Event.init (new_lib_event false) true a.base a.pair in
    if ok
    then (if bind a.client_port
        then (if init_mms_exec a.mang_port
            then start_threads thread_num (start_redis event a)
            else init_error)
        else init_error)
    else init_error

abbrev pub of_loaded : Loaded → (Cfg → Ended) → Ended
of_loaded refused k = no_config
of_loaded crashed k = died
of_loaded (loaded cfg) k = k cfg

unfoldable pub main : Xml → Cfg → StartAnswers → Ended
unfolding init
main xml g_cfg a = of_loaded (parse_cfg xml g_cfg) (λ cfg. init cfg.workthreads a)
