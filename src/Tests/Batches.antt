-- ===== src/Tests/Batches.antt =====
-- src/yymm_svr/cmdproc.cpp: two log-outs of one client in one buffer.
use mms_svr.Prelude.{ℕ, ◌≡◌, refl, List, [], ◌∷◌, some, none}
use mms_svr.Prelude.Keys.{nat_eq}
use mms_svr.StateMap.{get_state}
use mms_svr.Protocol.Commands
use mms_svr.Protocol.Commands.{Cmd}
use mms_svr.Server.{ItemData, MmsServer, item, change}
use mms_svr.Server.Shell.{finished}
use mms_svr.Server.Process.{next, next_run, json_process}
use mms_svr.Server.Process.Batches.{IsRequest, handles, nothing, format_all, json_process-Handles}
use mms_svr.Tests.Ciphers.{padding, padding-EvpLaws}
use mms_svr.Tests.Frames.{readable}
use mms_svr.Tests.Servers.{small_env, one_user, her_account}

logged_out :
    (t : MmsServer small_env) × (next_run small_env 1 one_user 4 0 her_account (Commands.logout 7)
      ≡ next t)
    × (item small_env t 0 ≡ some her_account)
unfolding next_run mms_svr.Server.Process.on_command mms_svr.Server.Process.on_logout
    mms_svr.Server.Shell.shell_exit mms_svr.Server.send_cmd mms_svr.Protocol.Frame.format_cmd
    mms_svr.Protocol.Print.print mms_svr.Protocol.Print.print_logout mms_svr.Json.tos_int
    mms_svr.Server.new_item_data
logged_out = (_, refl, refl)

logged_out_again :
    (t : MmsServer small_env) × (next_run small_env 1 logged_out.0 4 0 her_account
        (Commands.logout 7)
      ≡ next t)
unfolding next_run mms_svr.Server.Process.on_command
logged_out_again = (_, refl)

two_frames :
    (bytes : List ℕ) × (format_all padding (Commands.logout 7 ∷ Commands.logout 7 ∷ [])
      ≡ some bytes)
unfolding mms_svr.Protocol.Frame.format_cmd mms_svr.Protocol.Print.print
    mms_svr.Protocol.Print.print_logout mms_svr.Json.tos_int mms_svr.Json.tos_uint
two_frames = (_, refl)

found : get_state one_user.fds 4 ≡ some 0
unfolding get_state mms_svr.StateMap.find
found = refl

logout-IsRequest : IsRequest small_env padding-EvpLaws 1 4 0 none (Commands.logout 7)
logout-IsRequest = record { readable = readable; no_login = refl }

json_process-Handles_example :
    json_process small_env 1 2 one_user 4 (some two_frames.0) none
    ≡ finished (change small_env logged_out_again.0 0 (λ i. record i { readbuffer = some [] }))
json_process-Handles_example =
    json_process-Handles small_env padding-EvpLaws 1 4 0 none one_user logged_out_again.0
      (Commands.logout 7) (Commands.logout 7 ∷ []) two_frames.0 refl found refl
      (logout-IsRequest, (logout-IsRequest, tt))
      (handles her_account refl logged_out.1
        (handles her_account logged_out.2 logged_out_again.1 nothing))
      two_frames.1
