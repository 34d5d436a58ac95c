-- ===== src/Tests/Startups.antt =====
-- src/yymm_svr/main.cpp with a file in which everything is there, and a machine that refuses nothing.
use mms_svr.Prelude.{ℕ, ◌≡◌, refl, [], ◌∷◌, some, true}
use mms_svr.Prelude.Int.{pos}
use mms_svr.Cfg.{Xml, Cfg, loaded, parse_cfg}
use mms_svr.Event.{BindAnswers, bind, redis, writer, write_event_flag, redis_event_flag, receiver}
use mms_svr.Server.Startup.{StartAnswers, Running, running, main}
use mms_svr.Server.Startup.Runs.{Starts, main-Starts}

abbrev whole_file : Xml
whole_file = record {
  Element = ℕ;
  load_file = some 0;
  first_child_element = λ e name. some 0;
  get_text = λ e. some (49 ∷ []);
  query_unsigned_text = λ e. some 80;
  query_int_text = λ e. some (pos 2);
}

abbrev no_values : Cfg
no_values = record {
  server_name = [];
  port = 0;
  mangport = 0;
  workthreads = pos 0;
  redis_ip = [];
  redis_port = 0;
  mysql_ip = [];
  mysql_port = 0;
  mysql_user = [];
  mysql_pwd = [];
  mysql_db = [];
}

abbrev bound : BindAnswers
bound = record { bind = true; listen = true; malloc = true }

abbrev good_start : StartAnswers
good_start = record {
  base = true;
  pair = true;
  client_port = bound;
  mang_port = bound;
  now = 5;
  now' = 6;
  usable = true;
}

first_state : (r : Running) × (main whole_file no_values good_start ≡ running r)
unfolding main mms_svr.Server.Startup.init mms_svr.Server.Startup.init_mms_exec
    mms_svr.Server.Startup.start_threads parse_cfg mms_svr.Cfg.read_servers mms_svr.Cfg.read_mms
    mms_svr.Cfg.read_redis mms_svr.Cfg.read_mysql mms_svr.Event.init bind
first_state = (_, refl)

main-Starts_example : Starts whole_file no_values good_start
main-Starts_example = main-Starts whole_file no_values good_start first_state.0 first_state.1
