-- ===== src/Tests/Clients.antt =====
-- src/redis/yyredis.h and src/mysql/yylibmysql.cpp on small inputs.
use mms_svr.Mysql.Results.{Field, StmtRes, new_stmt_res, all_regions, new_stmt_res-AllApart}
use mms_svr.MemStuff.Trace.{AllApart, IsInside}
use mms_svr.Mysqlpp.{YyLibMysqlPp, set_value, time, update, query}
use mms_svr.Mysqlpp.{ExcItem}
use mms_svr.Prelude.{Bool, leb}
use mms_svr.Mysqlpp.Binding.{run_again}
use mms_svr.Cfg.{Xml, Cfg, crashed, servers, parse_cfg}
use mms_svr.Cfg.Missing.{has_all, parse_cfg-crashed}
use mms_svr.Prelude.Int.{pos}
use package.text.Mathlib.Text.{◌==◌ as str_eq}
use mms_svr.MemStuff.{Mallocs}
use mms_svr.Mysql.{
  FieldType, long, Value, text, number, Bind, StmtItem, new_stmt_item, prepare, execute,
}
use mms_svr.Mysql.Binding.{AllHold, bind_all, values, prepare-bind_all-execute}
use mms_svr.Prelude.{
  if◌then◌else◌, Option, none, String, ℕ, All, ◌↔◌, ◌<◌, ◌⊎◌, take, ◌≡◌, ◌≤◌, ◌+◌, ◌-◌, ◌*◌, ◌++◌,
  refl, List, [], ◌∷◌, some, true, false, arith, length,
}
use mms_svr.Redis.{Redis, new_redis, init, connect_callback}
use mms_svr.Redis.Throttle.{Event, connects, disconnects, run, last_tick, attempts_spaced}
use mms_svr.Redis.Ticks.{Timeval, millis, get_tick_count, connect-get_tick_count}
use mms_svr.Redis.{connect}
use mms_svr.Prelude.{ltb, false}
use mms_svr.Redis.Backlog.{Command, rounds, tokens, queued, IsConnected, backlog_stays}

abbrev slow_client : Redis
slow_client = init new_redis true 100

abbrev tries : List Event
tries = connects 1000 false ∷ connects 1050 false ∷ connects 1100 true ∷ disconnects 1120 ∷ []

attempts_spaced_example :
    ((run slow_client tries).attempts - slow_client.attempts) * slow_client.delay_connect_time
    ≤ last_tick 1000 tries - 1000 + slow_client.delay_connect_time
attempts_spaced_example =
    attempts_spaced slow_client 1000 tries (unfold init new_redis in omega arith) (
      omega arith,
      omega arith,
      omega arith,
      (
        omega arith,
        omega arith,
        omega arith,
        (omega arith, omega arith, omega arith, (omega arith, omega arith, omega arith, tt)),
      ),
    )

abbrev connected : Redis
connected = connect_callback slow_client (record { closing = false }) true

abbrev two_commands : List Command
two_commands =
    record { first = 1; rest = []; privdata = 0 }
    ∷ record { first = 2; rest = 3 ∷ []; privdata = 0 }
    ∷ []

connected-IsConnected : IsConnected connected
unfolding connect_callback init
connected-IsConnected = record {
  context = record { closing = false };
  connected = refl;
  based = refl;
}

backlog_stays_example :
    ((rounds connected two_commands).issued ++ queued (rounds connected two_commands)
      ≡ connected.issued ++ (queued connected ++ tokens two_commands))
    × (length (queued (rounds connected two_commands)) ≡ length (queued connected))
backlog_stays_example = backlog_stays connected two_commands connected-IsConnected

abbrev works_both : Mallocs
works_both = record { header = true; block = true }

abbrev given : List (Value × Mallocs × Mallocs)
given =
    (text (65 ∷ []), works_both, works_both)
    ∷ (number long (1 ∷ 0 ∷ 0 ∷ 0 ∷ []), works_both, works_both)
    ∷ []

abbrev two_params : StmtItem
two_params = prepare (new_stmt_item true) (some 2)

both_bound : (t : StmtItem) × (bind_all two_params given ≡ some t)
unfolding prepare mms_svr.Mysql.bind_value mms_svr.MemStuff.alloc mms_svr.MemStuff.place
    mms_svr.MemStuff.appendbuf mms_svr.MemStuff.bump mms_svr.MemStuff.offset_in new_stmt_item
    mms_svr.Mysql.clear mms_svr.MemStuff.clear
both_bound = (_, refl)

prepare-bind_all-execute_example :
    ((2 ≤ length (values given))
      × ((bs : List Bind) × ((execute (both_bound.0)).executed
            ≡ (new_stmt_item true).executed ++ (bs ∷ []))
          × AllHold (take 2 (values given)) bs))
    ⊎ ((length (values given) < 2)
        × ((execute (both_bound.0)).executed ≡ (new_stmt_item true).executed))
prepare-bind_all-execute_example =
    prepare-bind_all-execute (new_stmt_item true) both_bound.0 2 given
      (unfold new_stmt_item in refl) both_bound.1

abbrev a_field : Field
a_field = record { type = long; length = 4; m = works_both; m' = works_both; m'' = works_both }

abbrev a_result : StmtRes
a_result = new_stmt_res true (some (a_field ∷ a_field ∷ [])) true

new_stmt_res-AllApart_example :
    AllApart (all_regions a_result.bind) × All (IsInside a_result.stuff) (all_regions a_result.bind)
new_stmt_res-AllApart_example =
    new_stmt_res-AllApart true true (a_field ∷ a_field ∷ []) (omega arith, (omega arith, tt))

abbrev a_connection : YyLibMysqlPp ℕ
a_connection = record { driver = true; con = true; exc_item = mms_svr.Mysqlpp.clear }

-- A statement with two parameters.
abbrev two_setters : ℕ → ℕ → Bool
two_setters k v = leb k 2

abbrev first_bound : ExcItem ℕ × Bool
first_bound =
    mms_svr.Mysqlpp.Binding.bind_all two_setters (set_value 8 ∷ time ∷ set_value 9 ∷ [])
      (mms_svr.Mysqlpp.prepare a_connection true true).0.exc_item

abbrev bound_again : ExcItem ℕ × Bool
bound_again =
    mms_svr.Mysqlpp.Binding.bind_all two_setters (time ∷ set_value 7 ∷ [])
      (mms_svr.Mysqlpp.run first_bound.0 update)

run_again_example :
    (first_bound.1 ≡ true)
    × (bound_again.1 ≡ false)
    × (bound_again.0.stmt
        ≡ some (record { sets = (1, 8) ∷ (2, 9) ∷ []; runs = (update, (1, 8) ∷ (2, 9) ∷ []) ∷ [] }))
run_again_example =
    run_again two_setters a_connection (set_value 8 ∷ time ∷ set_value 9 ∷ [])
      (time ∷ set_value 7 ∷ []) update 2 refl (λ k v. refl) refl (omega arith)

-- A file with an empty section for redis: the element `servers` is 2, and its child 3.
abbrev child : ℕ → String → Option ℕ
child n name =
    if str_eq name "conf"
    then some 1
    else (if str_eq name "servers" then some 2 else (if str_eq name "redis" then some 3 else none))

abbrev no_port : Xml
no_port = record {
  Element = ℕ;
  load_file = some 0;
  first_child_element = child;
  get_text = λ _. none;
  query_unsigned_text = λ _. none;
  query_int_text = λ _. none;
}

abbrev g_cfg : Cfg
g_cfg = record {
  server_name = [];
  port = 0;
  mangport = 0;
  workthreads = pos 0;
  redis_ip = [];
  redis_port = 0;
  mysql_ip = [];
  mysql_port = 0;
  mysql_user = [];
  mysql_pwd = [];
  mysql_db = [];
}

parse_cfg-crashed_example :
    (parse_cfg no_port g_cfg ≡ crashed)
    ↔ ((e : ℕ) × (servers no_port ≡ some e) × (has_all no_port e ≡ false))
parse_cfg-crashed_example = parse_cfg-crashed no_port g_cfg

-- 200 ms before the ticks wrap, and a second later.
abbrev before_wrap : Timeval
before_wrap = record { sec = 4294967; usec = 96000 }

abbrev after_wrap : Timeval
after_wrap = record { sec = 4294968; usec = 96000 }

abbrev lost : Redis
lost = record {
  c = none;
  base = true;
  connecting = false;
  delay_connect_time = 10000;
  delay_disconnect = 4294967096;
  queue = record { fd_queue = []; t_def_value = record { format = []; privdata = 0 }; dt = 0 };
  issued = [];
  attempts = 1;
  flags = [];
}

connect-get_tick_count_example : connect lost (get_tick_count (some after_wrap)) 800 true ≡ (
    if ltb (millis after_wrap - millis before_wrap) 10000
    then (lost, false)
    else (record lost { delay_disconnect = 800; attempts = 2; connecting = true }, true))
connect-get_tick_count_example =
    connect-get_tick_count lost before_wrap after_wrap 800 true refl (unfold get_tick_count in refl)
      refl (omega arith) (omega arith)
