-- ===== src/Server/Process.antt =====
-- src/yymm_svr/cmdproc.cpp: `JsonProcess`. `buf` is the object behind both `buf` and the `readbuffer` of the
-- account data, which is written back when the loop ends; only this connection's worker reads it.
pub mod Strangers
pub mod Accounts
pub mod Wrapped
pub mod Handshake
pub mod Batches
pub mod Ends
use mms_svr.Prelude.{
  ℕ, zero, suc, List, [], ◌∷◌, ◌++◌, Option, none, some, true, ◌==◌, drop, if◌then◌else◌,
}
use mms_svr.Prelude.Keys.{nat_eq}
use mms_svr.StateMap.{del_state, get_state}
use mms_svr.Protocol.Commands
use mms_svr.Protocol.Commands.{Cmd}
use mms_svr.Protocol.Read.{ReadResult, ok, rejected, crash}
use mms_svr.Protocol.Compress.{aes_un_format}
use mms_svr.Protocol.Frame.{Parsed, success, crashed, parse_cmd}
use mms_svr.Server.{Env, ItemData, MmsServer, item, change, send_cmd, closefd}
use mms_svr.Server.Shell.{Run, finished, died, stuck, shell_exec, open_url, shell_exit}
use mms_svr.Server.Login.{Mysql, on_login}

module _ (env : Env) where
  -- What a command makes of the server; the process can end, and `loops` is no outcome of the code.
  pub data Done : Type 0 where
    next : MmsServer env → Done
    dies loops : Done

  unfoldable pub on_open_url : MmsServer env → ℕ → ℕ → ItemData env → MmsServer env
  unfolding open_url shell_exec
  on_open_url svr fd state i =
      if i.shell_client_fd == 0
      then (let (svr', succ) = shell_exec env svr state in
          send_cmd env svr' fd (Commands.open_url_res (record { succ = succ; url = [] })))
      else send_cmd env (open_url env svr i.shell_client_fd state) fd
          (Commands.open_url_res (record { succ = true; url = [] }))

  unfoldable pub on_logout : MmsServer env → ℕ → ℕ → ItemData env → MmsServer env
  unfolding shell_exit
  on_logout svr fd state i =
      let svr' = shell_exit env (send_cmd env svr fd (Commands.logout_res i.yy_id)) state in
      record svr' { user_data = del_state svr'.user_data i.yy_id; fds = del_state svr'.fds fd }

  -- A command without a wrapping, on a connection that has account data. The assert stops the process.
  unfoldable pub on_command : MmsServer env → ℕ → ℕ → ItemData env → Cmd → Done
  unfolding on_open_url on_logout
  on_command svr fd state i (Commands.comp_rsa c) = dies
  on_command svr fd state i (Commands.login1 c) = next (
      send_cmd env
        (change env svr state (λ j. record j { uid = c.uid; account = c.user; pwd = c.pwd })) fd
        (Commands.login1_res true))
  on_command svr fd state i (Commands.logout c) = next (on_logout svr fd state i)
  on_command svr fd state i (Commands.open_url c) = next (
      on_open_url
        (change env svr state (λ j. record j {
          channel_id = c.channel_id;
          sub_channel_id = c.sub_channel_id;
          url = c.url;
        }))
        fd state i)
  on_command svr fd state i _ = next svr

  abbrev pub unwrapped : MmsServer env → ReadResult Cmd → (Cmd → Done) → Done
  unwrapped svr (ok c) k = k c
  unwrapped svr rejected k = next svr
  unwrapped svr crash k = dies

  -- The jumps to `NextRun`, one for each wrapping.
  unfoldable pub next_run : ℕ → MmsServer env → ℕ → ℕ → ItemData env → Cmd → Done
  unfolding on_command
  next_run zero svr fd state i c = loops
  next_run (suc f) svr fd state i (Commands.comp_aes c) =
      unwrapped svr
        (aes_un_format env.parse env.evp env.junk env.aes_lib env.garbage i.aes c.ser_string)
        (λ real. next_run f svr fd state i real)
  next_run (suc f) svr fd state i c = on_command svr fd state i c

  -- The server, the account data of the connection, and the buffer after one turn of the loop.
  pub data Turn : Type 0 where
    turned : MmsServer env → Option ℕ → List ℕ → Turn
    gone out_of_fuel : Turn

  abbrev pub of_done : Done → Option ℕ → List ℕ → Turn
  of_done (next svr) state buf = turned svr state buf
  of_done dies state buf = gone
  of_done loops state buf = out_of_fuel

  abbrev pub of_login : Option (MmsServer env) × ℕ → List ℕ → Turn
  of_login (none, id) buf = gone
  of_login (some svr, id) buf = turned svr (some id) buf

  abbrev pub on_other : ℕ → MmsServer env → ℕ → ℕ → Option (ItemData env) → Cmd → List ℕ → Turn
  on_other f svr fd id none c buf = turned svr (some id) buf
  on_other f svr fd id (some i) c buf = of_done (next_run f svr fd id i c) (some id) buf

  -- Without account data only a login is taken; any other command leaves the buffer as it is.
  unfoldable pub turn : ℕ → MmsServer env → ℕ → Option ℕ → List ℕ → Mysql → Parsed → Turn
  turn f svr fd state buf mysql (success (Commands.login c) offset) =
      of_login (on_login env svr fd state c buf mysql) (drop offset buf)
  turn f svr fd none buf mysql (success c offset) = turned svr none buf
  turn f svr fd (some id) buf mysql (success c offset) =
      on_other f svr fd id (item env svr id) c (drop offset buf)
  turn f svr fd state buf mysql crashed = gone
  turn f svr fd state buf mysql _ = turned (closefd env svr fd) state []

  abbrev pub leave : MmsServer env → Option ℕ → Run env
  leave svr none = finished svr
  leave svr (some id) = finished (change env svr id (λ i. record i { readbuffer = some [] }))

  abbrev pub turn_again : Turn → (MmsServer env → Option ℕ → List ℕ → Run env) → Run env
  turn_again (turned svr state []) k = leave svr state
  turn_again (turned svr state (x ∷ buf)) k = k svr state (x ∷ buf)
  turn_again gone k = died
  turn_again out_of_fuel k = stuck

  unfoldable pub json_loop : ℕ → ℕ → MmsServer env → ℕ → Option ℕ → List ℕ → Mysql → Run env
  unfolding turn
  json_loop nest zero svr fd state buf mysql = stuck
  json_loop nest (suc f) svr fd state buf mysql =
      turn_again (turn nest svr fd state buf mysql (parse_cmd env.parse env.evp env.junk buf 0))
        (λ svr' state' buf'. json_loop nest f svr' fd state' buf' mysql)

  abbrev pub kept : Option (ItemData env) → List ℕ
  kept none = []
  kept (some i) = bytes_of i.readbuffer
    where
      bytes_of : Option (List ℕ) → List ℕ
      bytes_of none = []
      bytes_of (some b) = b

  abbrev pub gathered : MmsServer env → Option ℕ → List ℕ → List ℕ
  gathered svr none readbuffer = readbuffer
  gathered svr (some id) readbuffer = kept (item env svr id) ++ readbuffer

  unfoldable pub json_process : ℕ → ℕ → MmsServer env → ℕ → Option (List ℕ) → Mysql → Run env
  unfolding json_loop
  json_process nest f svr fd none mysql = finished svr
  json_process nest f svr fd (some readbuffer) mysql =
      let state = get_state svr.fds fd in
      if fd == 0
      then finished svr
      else json_loop nest f svr fd state (gathered svr state readbuffer) mysql
