-- ===== src/Server/Close/Logout.antt =====
-- src/yymm_svr/cmdproc.cpp: a connection that ends is logged out.
use mms_svr.Prelude.{none, none≢some}
use mms_svr.Server.Accounts.{WellFormed, shape}
use mms_svr.Prelude.{
  ap, ℕ, suc, ◌%◌, ◌≡◌, ◌∙◌, refl, List, [], ◌∷◌, ◌++◌, some, false, ◌==◌, drop, length, arith,
}
use mms_svr.Prelude.Keys.{nat_eq}
use mms_svr.StateMap.{get_state}
use mms_svr.Yyssl.Base64.{EvpLaws}
use mms_svr.Protocol.Commands
use mms_svr.Protocol.Compress.RoundTrip.{IsReadable, parse_cmd_alone}
use mms_svr.Server.{Env, ItemData, MmsServer, item}
use mms_svr.Server.Shell.{finished}
use mms_svr.Server.Login.{Mysql}
use mms_svr.Server.Process.{json_process}
use mms_svr.Server.Process.Accounts.{json_loop_logout}
use mms_svr.Server.Boss.{data_receive, BossInfo, Pool, post}
use mms_svr.Server.Boss.Wakeups.{Balanced, data_receive-posting, jobs, jobs-push}
use mms_svr.Server.Close.{receive, process_data, logout_of, receive_if, fd_close}

drop_all : (l : List ℕ) → drop (length l) l ≡ []
drop_all [] = refl
drop_all (x ∷ l) = drop_all l

-- The account `i` of the connection.
pub record IsConnected (env : Env) (svr : MmsServer env) (fd id : ℕ) (i : ItemData env)
    : Type 0 where
  pub real : (fd == 0) ≡ false
  pub found : get_state svr.fds fd ≡ some id
  pub there : item env svr id ≡ some i

module _ (env : Env) (laws : EvpLaws env.evp) where
  fd_close-jobs :
      (n : ℕ) (s : Pool) (svr : MmsServer env) (fd id : ℕ) (i : ItemData env) (info : BossInfo)
      → IsConnected env svr fd id i
      → Balanced n s
      → logout_of env fd i ≡ some info
      → info.fd ≡ fd
      → jobs (fd_close env n s svr fd) (fd % n) ≡ jobs s (fd % n) ++ (info ∷ [])
  unfolding fd_close receive
  fd_close-jobs n s svr fd id i info c v made same =
      let closed : fd_close env n s svr fd ≡ receive n s info =
        rw (c.found, fd_close, c.there) (ap (receive_if env n s) made) in
      let posted : receive n s info ≡ post (data_receive n s info) (info.fd % n) =
        rw (data_receive-posting n s info v, receive) refl in
      rw (closed, posted) (unfold post in (jobs-push n s info (fd % n) v ∙ rw same (ground arith)))

  -- With different ports for clients and management, balanced workers, well-formed account data and
  -- an EVP coder with its laws: when a connection, not descriptor 0, with an account ends whose log-
  -- out command the parser reads, `fd_close` queues a log-out behind the other buffers of its
  -- worker, and when that is processed with the account as it was, with fuel for one turn, the
  -- connection and the user id lead to no account data any more, while all other connections keep
  -- theirs.
  pub fd_close_logs_out :
      (n nest f : ℕ) (s : Pool) (svr : MmsServer env) (fd id : ℕ) (i : ItemData env) (mysql : Mysql)
      → (env.port == env.mangport) ≡ false
      → Balanced n s
      → IsConnected env svr fd id i
      → WellFormed env svr none
      → IsReadable env.parse env.evp (Commands.logout i.yy_id)
      → (info : BossInfo) × (svr' : MmsServer env) × (jobs (fd_close env n s svr fd) (fd % n)
          ≡ jobs s (fd % n) ++ (info ∷ []))
        × (process_data env (suc nest) (suc f) svr info mysql ≡ finished svr')
        × (get_state svr'.fds fd ≡ none)
        × (get_state svr'.user_data i.yy_id ≡ none)
        × ((j : ℕ) → (fd == j) ≡ false → get_state svr'.fds j ≡ get_state svr.fds j)
  unfolding process_data json_process
  fd_close_logs_out n nest f s svr fd id i mysql ports v c w readable =
      let (bytes, formatted, parsed) =
        parse_cmd_alone env.parse env.evp laws env.junk (Commands.logout i.yy_id) readable in
      let nothing_kept : i.readbuffer ≡ some [] =
        w.emptied id i.fd i.readbuffer (λ e. none≢some e) (ap (shape env) c.there) in
      let info : BossInfo = record { buf = some bytes; fd = fd; port = env.port } in
      let (svr', ran, fds, users, others) =
        json_loop_logout env nest f svr fd id i.yy_id (length bytes) i bytes mysql w.unique_fds
          w.unique_users c.there parsed (drop_all bytes) in
      (
        info,
        svr',
        fd_close-jobs n s svr fd id i info c v (unfold logout_of in rw formatted refl) refl,
        rw (ports, c.found, c.real, c.there, nothing_kept) ran,
        fds ∙ w.no_fd,
        users ∙ w.no_user,
        others,
      )
