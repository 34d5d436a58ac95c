-- ===== src/Server/Shell.antt =====
-- src/yymm_svr/mmsexecmag.cpp: the shell clients, processes that the server starts for its users. The
-- start of a process is kept in `shells`; it is the branch where the call returns.
use mms_svr.Prelude.{
  zero, suc, suc, ℕ, List, [], ◌∷◌, ◌++◌, Option, none, some, Bool, true, false, ◌==◌, drop,
  if◌then◌else◌,
}
use mms_svr.Prelude.Keys.{nat_eq}
use mms_svr.StateMap.{get_state}
use mms_svr.Protocol.Commands
use mms_svr.Protocol.Commands.{Cmd}
use mms_svr.Protocol.Frame.{Parsed, success, crashed, parse_cmd}
use mms_svr.Server.{Env, MmsServer, item, change, send_cmd}

module _ (env : Env) where
  -- How a loop over a buffer ends: with a server, with the process gone, or out of fuel.
  pub data Run : Type 0 where
    finished : MmsServer env → Run
    died stuck : Run

  unfoldable pub shell_exec : MmsServer env → ℕ → MmsServer env × Bool
  shell_exec svr state = elim (item env svr state) [
    | none ↦ (svr, false)
    | some i ↦
        if i.shell_client_fd == 0
        then (record svr { shells = svr.shells ++ (i.yy_id ∷ []) }, true)
        else (svr, false)
  ]

  unfoldable pub open_url : MmsServer env → ℕ → ℕ → MmsServer env
  open_url svr fd state = elim (item env svr state) [
    | none ↦ svr
    | some i ↦ send_cmd env svr fd (
        Commands.mms_open_url (record {
          uid = i.uid;
          yy_id = i.yy_id;
          channel_id = i.channel_id;
          sub_channel_id = i.sub_channel_id;
          url = i.url;
          user = i.account;
          tick = i.pwd;
        }))
  ]

  unfoldable pub shell_exit : MmsServer env → ℕ → MmsServer env
  shell_exit svr state = elim (item env svr state) [
    | none ↦ svr
    | some i ↦
        if i.shell_client_fd == 0
        then svr
        else send_cmd env svr i.shell_client_fd (Commands.mms_exit i.yy_id)
  ]

  -- A command of a shell client.
  unfoldable pub shell_command : MmsServer env → ℕ → Cmd → MmsServer env
  unfolding open_url
  shell_command svr fd (Commands.svr_init c) = elim (get_state svr.user_data c.yy_id) [
    | none ↦ svr
    | some state ↦ open_url (change env svr state (λ i. record i { shell_client_fd = fd })) fd state
  ]
  shell_command svr fd _ = svr

  abbrev pub shell_step : MmsServer env → ℕ → List ℕ → Parsed → Option (MmsServer env × List ℕ)
  shell_step svr fd buf (success c offset) = some (shell_command svr fd c, drop offset buf)
  shell_step svr fd buf crashed = none
  shell_step svr fd buf _ = some (svr, [])

  abbrev pub shell_next : Option (MmsServer env × List ℕ) → (MmsServer env → List ℕ → Run) → Run
  shell_next none k = died
  shell_next (some (svr, [])) k = finished svr
  shell_next (some (svr, x ∷ buf)) k = k svr (x ∷ buf)

  unfoldable pub process_mms_exec_data : ℕ → MmsServer env → ℕ → List ℕ → Run
  process_mms_exec_data zero svr fd buf = stuck
  process_mms_exec_data (suc f) svr fd buf =
      shell_next (shell_step svr fd buf (parse_cmd env.parse env.evp env.junk buf 0))
        (λ svr' buf'. process_mms_exec_data f svr' fd buf')
