-- ===== src/Server/Boss/Leaving.antt =====
-- src/yymm_svr/yymms_svr.cpp: the end of `run`. A worker leaves at its exit flag, whatever its queue holds.
use mms_svr.Queues.Bossmultiworker
use mms_svr.Prelude.{ℕ, ◌<◌, ◌≡◌, ap, List, Option, none, true, arith}
use mms_svr.Server.Boss.{Pool, waiting, gone, BossInfo, init, wake, work, Step, wakes, Reach}
use mms_svr.Server.Boss.Wakeups.{jobs, held, flag, is_posting, Reach-Balanced, init-Balanced}

pub record HasStopped (i : ℕ) (queue : List BossInfo) (s : Pool) : Type 0 where
  pub stopped : s.stopping ≡ true
  pub raised : s.exitflag i ≡ true
  pub kept : jobs s i ≡ queue

-- In every state that the threads reach, a worker before `sem_wait` whose exit flag was raised can
-- take a step when nothing is about to be posted, and from behind `sem_wait` it leaves.
pub exit_wakes :
    {n : ℕ} {s : Pool} (i : ℕ)
    → 0 < n
    → Reach n (init n) s
    → i < n
    → s.exitflag i ≡ true
    → s.posting ≡ none
    → s.pc i ≡ waiting
    → (Step n s (wake s i)) × ((work (wake s i) i).pc i ≡ gone)
unfolding work wake
exit_wakes {n} {s} i some_worker r lt raised free at =
    let v = Reach-Balanced (init-Balanced n some_worker) r in
    (
      wakes i lt at (
          omega (
            arith,
            v.counted i lt,
            ap held at,
            ap flag raised,
            ap (λ (p : Option ℕ). is_posting p i) free,
          )),
      ground arith,
    )
