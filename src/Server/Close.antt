-- ===== src/Server/Close.antt =====
-- src/yymm_svr/cmdproc.cpp and yymms_svr.cpp: what a worker does with a buffer, and `fd_close`, which makes a
-- log-out of a connection that ended and queues it as if the client had sent it. `redis_cb` is also here.
pub mod Logout
use mms_svr.Prelude.{
  Bool, true, false, ℕ, ◌+◌, ◌%◌, List, [], ◌∷◌, ◌++◌, Option, none, some, ◌==◌, if◌then◌else◌,
}
use mms_svr.Prelude.Keys.{nat_eq}
use mms_svr.StateMap.{get_state}
use mms_svr.Json.{codes}
use mms_svr.Protocol.Commands
use mms_svr.Protocol.Frame.{format_cmd}
use mms_svr.Server.{Env, ItemData, MmsServer, item}
use mms_svr.Server.Shell.{Run, finished, process_mms_exec_data}
use mms_svr.Server.Login.{Mysql}
use mms_svr.Server.Process.{json_process}
use mms_svr.Server.Boss.{BossInfo, Pool, data_receive, post}

-- `data_receive`, with its post.
unfoldable pub receive : ℕ → Pool → BossInfo → Pool
unfolding data_receive post
receive threadnum s info =
    let after = data_receive threadnum s info in
    elim after.posting [ none ↦ after | some i ↦ post after i ]

module _ (env : Env) where
  unfoldable pub process_data : ℕ → ℕ → MmsServer env → BossInfo → Mysql → Run env
  unfolding json_process process_mms_exec_data
  process_data nest f svr info mysql = elim info.buf [
    | none ↦ finished svr
    | some buf ↦
        if info.port == env.mangport
        then process_mms_exec_data env f svr info.fd buf
        else json_process env nest f svr info.fd (some buf) mysql
  ]

  abbrev pub logout_with : ℕ → Option (List ℕ) → Option BossInfo
  logout_with fd none = none
  logout_with fd (some str) = some (record { buf = some str; fd = fd; port = env.port })

  -- The buffer that `fd_close` makes of an account.
  unfoldable pub logout_of : ℕ → ItemData env → Option BossInfo
  unfolding format_cmd
  logout_of fd i = logout_with fd (format_cmd env.evp (some (Commands.logout i.yy_id)) [])

  abbrev pub receive_if : ℕ → Pool → Option BossInfo → Pool
  receive_if threadnum s none = s
  receive_if threadnum s (some info) = receive threadnum s info

  abbrev pub logout_if : ℕ → Option (ItemData env) → Option BossInfo
  logout_if fd none = none
  logout_if fd (some i) = logout_of fd i

  unfoldable pub fd_close : ℕ → Pool → MmsServer env → ℕ → Pool
  unfolding logout_of receive
  fd_close threadnum s svr fd = elim (get_state svr.fds fd) [
    | none ↦ s
    | some id ↦ receive_if threadnum s (logout_if fd (item env svr id))
  ]

  -- `redisReply`: an array of texts, or something else. A nil element has no text.
  pub data Reply : Type 0 where
    array : List (Option (List ℕ)) → Reply
    other : Reply

  -- Each text goes with its NUL; `none` is a copy from NULL.
  abbrev pub echo : List (Option (List ℕ)) → Option (List ℕ)
  echo [] = some []
  echo (none ∷ rest) = none
  echo (some str ∷ rest) = elim (echo rest) [ none ↦ none | some more ↦ some (str ++ (0 ∷ more)) ]

  abbrev pub sent_echo : MmsServer env → ℕ → Option (List ℕ) → Option (MmsServer env)
  sent_echo svr fd none = none
  sent_echo svr fd (some text) = some (record svr {
    events = svr.events ++ (record { fd = fd; bytes = codes "reply is:\r\n" ++ text } ∷ []);
  })

  unfoldable pub redis_cb : MmsServer env → Option Reply → ℕ → Option (MmsServer env)
  redis_cb svr none fd = some svr
  redis_cb svr (some other) fd = some svr
  redis_cb svr (some (array element)) fd = sent_echo svr fd (echo element)

  -- `getCallback`; `attached` is whether the context still has its client.
  unfoldable pub get_callback : MmsServer env → Bool → Option Reply → ℕ → Option (MmsServer env)
  unfolding redis_cb
  get_callback svr false reply privdata = some svr
  get_callback svr true none privdata = some svr
  get_callback svr true (some reply) privdata = redis_cb svr (some reply) privdata
