-- ===== src/Server/System.antt =====
-- src/yymm_svr/yymms_svr.cpp: the whole server, the event thread and the workers with the account data.
use mms_svr.Prelude.{ℕ, ◌<◌, ◌%◌, ◌≡◌, List, [], ◌++◌, Option, none, some, Bool, false, ◌==◌}
use mms_svr.Prelude.Keys.{nat_eq}
use mms_svr.StateMap.{get_state}
use mms_svr.Protocol.Commands
use mms_svr.Protocol.Frame.{format_cmd}
use mms_svr.Server.{Env, ItemData, MmsServer, item, new_server}
use mms_svr.Server.Shell.{finished}
use mms_svr.Server.Login.{Mysql}
use mms_svr.Server.Boss.{
  Pool, BossInfo, busy, init, data_receive, process_done, Step, receives, finishes, Reach, here,
  later,
}
use mms_svr.Server.Boss.Wakeups.{jobs}
use mms_svr.Server.Boss.Order.{of_fd, connection_order}
use mms_svr.Server.Close.{process_data, logout_with, logout_of, logout_if, Reply, get_callback}
use mms_svr.Server.Accounts.Served.{Served, started, processed, replied, one_account_each}

module _ (env : Env) (threadnum : ℕ) where
  pub record System : Type 0 where
    pub pool : Pool
    pub svr : MmsServer env

  unfoldable pub start : System
  start = record { pool = init threadnum; svr = new_server env }

  -- `moves` is a step of the threads that ends no call of `_process_data`. `handles` ends one: `svr` changes then,
  -- at once. `closes` is `fd_close` up to its post. A call that ends the process, or never ends, has no step.
  pub data SystemStep (s : System) : System → Type 0 where
    moves :
        (p : Pool)
        → Step threadnum s.pool p
        → ((i : ℕ) (info : BossInfo) → s.pool.pc i ≡ busy info → p.pc i ≡ busy info)
        → SystemStep s (record s { pool = p })
    handles :
        (i nest f : ℕ) (info : BossInfo) (mysql : Mysql) (t : MmsServer env)
        → i < threadnum
        → s.pool.pc i ≡ busy info
        → process_data env nest f s.svr info mysql ≡ finished t
        → SystemStep s (record { pool = process_done s.pool i; svr = t })
    closes :
        (fd id : ℕ) (info : BossInfo)
        → s.pool.posting ≡ none
        → s.pool.stopping ≡ false
        → get_state s.svr.fds fd ≡ some id
        → logout_if env fd (item env s.svr id) ≡ some info
        → SystemStep s (record s { pool = data_receive threadnum s.pool info })
    answers :
        (attached : Bool) (reply : Option (Reply env)) (fd : ℕ) (t : MmsServer env)
        → get_callback env s.svr attached reply fd ≡ some t
        → SystemStep s (record s { svr = t })

  pub data SystemReach : System → Type 0 where
    at_start : SystemReach start
    after : {s t : System} → SystemReach s → SystemStep s t → SystemReach t

  -- A log-out is queued like a buffer that was received.
  logout_received :
      (fd : ℕ) (i : Option (ItemData env)) (info : BossInfo)
      → logout_if env fd i ≡ some info
      → (bytes : List ℕ) × (info ≡ record { buf = some bytes; fd = fd; port = env.port })
  logout_received fd none info e = cc
  logout_received fd (some i) info e =
      made (format_cmd env.evp (some (Commands.logout i.yy_id)) []) (unfold logout_of in e)
    where
      made :
          (r : Option (List ℕ))
          → logout_with env fd r ≡ some info
          → (bytes : List ℕ) × (info ≡ record { buf = some bytes; fd = fd; port = env.port })
      made none q = cc
      made (some str) q = (str, cc)

  SystemStep-Reach :
      (s t : System)
      → SystemStep s t
      → Reach threadnum (init threadnum) s.pool × Served env s.svr
      → Reach threadnum (init threadnum) t.pool × Served env t.svr
  SystemStep-Reach s t (moves p st quiet) (r, h) = (later r st, h)
  SystemStep-Reach s t (handles i nest f info mysql u lt at ran) (r, h) =
      (later r (finishes i info lt at), processed nest f info mysql h ran)
  SystemStep-Reach s t (closes fd id info free running found made) (r, h) =
      let (bytes, same) = logout_received fd (item env s.svr id) info made in
      (rw same (later r (receives bytes fd env.port free running)), h)
  SystemStep-Reach s t (answers attached reply fd u ran) (r, h) =
      (r, replied attached reply fd h ran)

  pub SystemReach-Reach :
      (s : System) → SystemReach s → Reach threadnum (init threadnum) s.pool × Served env s.svr
  SystemReach-Reach _ at_start = unfold start in (here, started)
  SystemReach-Reach _ (after {s} {t} r st) = SystemStep-Reach s t st (SystemReach-Reach s r)

  -- With at least one worker, in every state that the whole server reaches, however its threads
  -- interleave and connections end: of a connection, not descriptor 0, the buffers and log-outs
  -- whose processing was started, followed by those that wait, are those that came, in this order;
  -- and if it leads to an account, no other connection leads to the same.
  pub order_and_accounts :
      (s : System) (fd : ℕ)
      → 0 < threadnum
      → SystemReach s
      → (fd == 0) ≡ false
      → (of_fd fd s.pool.started ++ of_fd fd (jobs s.pool (fd % threadnum))
          ≡ of_fd fd s.pool.received)
        × ((id other : ℕ)
            → get_state s.svr.fds fd ≡ some id
            → get_state s.svr.fds other ≡ some id
            → other ≡ fd)
  order_and_accounts s fd some_worker r real =
      let (pool, svr) = SystemReach-Reach s r in
      (
        connection_order fd some_worker pool real,
        λ id other found again. (one_account_each env s.svr fd id svr found).1 other again,
      )
