-- ===== src/Tests/Accounts.antt =====
-- src/yymm_svr/cmdproc.cpp: a server whose parser reads every text as the log-in of the user 7.
use mms_svr.Prelude.{◌%◌, arith}
use mms_svr.Server.Boss.{init, data_receive, receives}
use mms_svr.Server.Boss.Wakeups.{jobs}
use mms_svr.Server.Boss.Order.{of_fd}
use mms_svr.Server.System.{System, start, SystemReach, at_start, after, moves, order_and_accounts}
use mms_svr.Server.Accounts.Served.{Served-WellFormed}
use mms_svr.Server.Accounts.Pieces.{json_process-append}
use mms_svr.Server.Process.{json_process}
use mms_svr.Protocol.Frame.{success, parse_cmd}
use mms_svr.Tests.Ciphers.{padding}
use mms_svr.Prelude.{List, ◌++◌, ℕ, ◌≡◌, refl, [], ◌∷◌, none, some}
use mms_svr.Prelude.Keys.{nat_eq}
use mms_svr.StateMap.{get_state}
use mms_svr.Json.{object, member, end, int}
use mms_svr.Prelude.Int.{pos}
use mms_svr.Protocol.Commands
use mms_svr.Protocol.Commands.{id_of}
use mms_svr.Protocol.Frame.{Parser, parse_cmd}
use mms_svr.Protocol.Frame.RoundTrip.{members}
use mms_svr.Server.{Env, ItemData, MmsServer, item, new_server}
use mms_svr.Server.Shell.{finished}
use mms_svr.Server.Boss.{BossInfo}
use mms_svr.Server.Close.{process_data}
use mms_svr.Server.Accounts.Served.{started, processed, one_account_each}
use mms_svr.Tests.Ciphers.{padding}
use mms_svr.Tests.Servers.{small_env, seven}

abbrev login_text : Parser
login_text text = some (
    object (
      member "cmd" (int (pos (id_of (Commands.login seven))))
        (member "obj" (object (members padding (Commands.login seven))) end)))

abbrev login_env : Env
login_env = record small_env { parse = login_text }

abbrev log_in : BossInfo
log_in = record { buf = some (0x17 ∷ 5 ∷ 0 ∷ 1 ∷ 2 ∷ []); fd = 4; port = 80 }

logs_in :
    (s : MmsServer login_env) × (process_data login_env 1 1 (new_server login_env) log_in none
      ≡ finished s)
unfolding process_data get_state mms_svr.StateMap.find new_server parse_cmd
    mms_svr.Protocol.Read.look_for_map mms_svr.Protocol.Read.read mms_svr.Protocol.Read.read_login
    mms_svr.Protocol.Read.foreach mms_svr.Yyssl.Base64.base64decode mms_svr.Server.Process.turn
    mms_svr.Server.Login.on_login mms_svr.Server.Login.login_state mms_svr.Server.Login.login_cmd
    mms_svr.Server.Login.check_white_list mms_svr.Server.change
logs_in = (_, refl)

found_again : get_state logs_in.0.fds 4 ≡ some 0
unfolding logs_in get_state mms_svr.StateMap.find mms_svr.StateMap.add_state mms_svr.Server.closefd
    mms_svr.Server.send_cmd mms_svr.Protocol.Frame.format_cmd mms_svr.Protocol.Print.print_login_res
    mms_svr.Yyssl.Base64.base64encode mms_svr.Json.tos_int
found_again = refl

one_account_each_example :
    ((i : ItemData login_env) × (item login_env logs_in.0 0 ≡ some i)
      × (i.fd ≡ 4)
      × (i.readbuffer ≡ some []))
    × ((other : ℕ) → get_state logs_in.0.fds other ≡ some 0 → other ≡ 4)
one_account_each_example =
    one_account_each login_env logs_in.0 4 0 (processed 1 1 log_in none started logs_in.1)
      found_again

abbrev login_frame : List ℕ
login_frame = 0x17 ∷ 5 ∷ 0 ∷ 1 ∷ 2 ∷ []

parsed_login : parse_cmd login_text padding 0 login_frame 0 ≡ success (Commands.login seven) 5
unfolding parse_cmd mms_svr.Protocol.Read.look_for_map mms_svr.Protocol.Read.read
    mms_svr.Protocol.Read.read_login mms_svr.Protocol.Read.foreach mms_svr.Yyssl.Base64.base64decode
parsed_login = refl

logs_in_again :
    (s : MmsServer login_env) × (json_process login_env 0 2 logs_in.0 4 (some login_frame) none
      ≡ finished s)
    × (get_state s.fds 4 ≡ some 0)
unfolding logs_in json_process mms_svr.Server.Process.json_loop get_state mms_svr.StateMap.find
    parse_cmd mms_svr.StateMap.add_state mms_svr.Server.closefd mms_svr.Server.send_cmd
    mms_svr.Protocol.Frame.format_cmd mms_svr.Protocol.Print.print_login_res
    mms_svr.Yyssl.Base64.base64encode mms_svr.Json.tos_int mms_svr.Protocol.Read.look_for_map
    mms_svr.Protocol.Read.read mms_svr.Protocol.Read.read_login mms_svr.Protocol.Read.foreach
    mms_svr.Yyssl.Base64.base64decode mms_svr.Server.Process.turn mms_svr.Server.Login.on_login
    mms_svr.Server.Login.login_state mms_svr.Server.Login.login_cmd
    mms_svr.Server.Login.check_white_list mms_svr.Server.change
logs_in_again = (_, refl, refl)

json_process-append_example :
    json_process login_env 0 2 logs_in.0 4 (some (login_frame ++ login_frame)) none
    ≡ json_process login_env 0 1 logs_in_again.0 4 (some login_frame) none
json_process-append_example =
    json_process-append login_env 0 1 logs_in.0 logs_in_again.0 4 0 login_frame login_frame none
      (Commands.login seven)
      (Served-WellFormed login_env logs_in.0 (processed 1 1 log_in none started logs_in.1)) refl
      found_again parsed_login (λ e. cc) logs_in_again.1 logs_in_again.2

abbrev received_log_in : System login_env 2
received_log_in = record (start login_env 2) {
  pool = data_receive 2 (start login_env 2).pool log_in;
}

received_log_in-SystemReach : SystemReach login_env 2 received_log_in
unfolding start init data_receive
received_log_in-SystemReach =
    after at_start (moves _ (receives (0x17 ∷ 5 ∷ 0 ∷ 1 ∷ 2 ∷ []) 4 80 refl refl) (λ i info e. e))

order_and_accounts_example :
    (of_fd 4 received_log_in.pool.started ++ of_fd 4 (jobs received_log_in.pool (4 % 2))
      ≡ of_fd 4 received_log_in.pool.received)
    × ((id other : ℕ)
        → get_state received_log_in.svr.fds 4 ≡ some id
        → get_state received_log_in.svr.fds other ≡ some id
        → other ≡ 4)
order_and_accounts_example =
    order_and_accounts login_env 2 received_log_in 4 (omega arith) received_log_in-SystemReach refl
