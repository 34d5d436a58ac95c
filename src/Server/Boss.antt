-- ===== src/Server/Boss.antt =====
-- src/yymm_svr/yymms_svr.cpp: the worker threads. The event thread puts the buffers of a connection into
-- the queue of one worker and posts its semaphore; a step is one access to what the threads share.
pub mod Threads
pub mod Asserts
pub mod Wakeups
pub mod Order
pub mod Leaving
use mms_svr.Prelude.{
  zero, ℕ, suc, ◌+◌, ◌-◌, ◌%◌, ◌<◌, ◌≡◌, List, [], ◌∷◌, ◌++◌, Option, none, some, Bool, true, false,
  ◌==◌, if◌then◌else◌,
}
use mms_svr.Prelude.Int.{pos}
use mms_svr.Queues.Bossmultiworker.{Bossmultiworker}
use mms_svr.Queues.Bossmultiworker

pub record BossInfo : Type 0 where
  pub buf : Option (List ℕ)
  pub fd : ℕ
  pub port : ℕ

-- `BossInfo()`, which `PopJob` gives for an empty queue.
unfoldable pub no_info : BossInfo
no_info = record { buf = none; fd = 0; port = 0 }

-- Where a worker stands in `work_thread`: before `sem_wait`, behind it, in `_process_data`, or ended.
pub data Pc : Type 0 where
  waiting woken gone : Pc
  busy : BossInfo → Pc

-- `MmsServer` with its `thread_data`, the number of workers a parameter. The data of a thread are its index in
-- `sem`, `exitflag` and `pc`. The event thread stands between
-- a push and its post at `posting`; `stopping` is after `_event.Run()`. `received` and `started` record what
-- `data_receive` took and what `_process_data` was called with.
pub record Pool : Type 0 where
  pub boss : Bossmultiworker BossInfo (Option ℕ)
  pub sem : ℕ → ℕ
  pub exitflag : ℕ → Bool
  pub pc : ℕ → Pc
  pub posting : Option ℕ
  pub stopping : Bool
  pub received : List BossInfo
  pub started : List BossInfo

abbrev pub update {ℓ} : {A : Type ℓ} → (ℕ → A) → ℕ → A → ℕ → A
update f i v j = if i == j then v else f j

-- The loop of `init`, the threads' data set for the first `k` workers.
unfoldable pub with_threads :
    ℕ → Bossmultiworker BossInfo (Option ℕ) → Bossmultiworker BossInfo (Option ℕ)
with_threads zero b = b
with_threads (suc k) b = Bossmultiworker.set_worker (with_threads k b) (pos k) (some k)

abbrev pub no_boss : Bossmultiworker BossInfo (Option ℕ)
no_boss = record { works = 0; workers = []; t_def_value = no_info; t_def_touch = none }

-- `init`: every worker has its thread, its semaphore at 0.
unfoldable pub init : ℕ → Pool
unfolding with_threads
init threadnum = record {
  boss = with_threads threadnum (Bossmultiworker.init no_boss threadnum);
  sem = λ _. 0;
  exitflag = λ _. false;
  pc = λ _. waiting;
  posting = none;
  stopping = false;
  received = [];
  started = [];
}

-- `info.fd == 0 || info.buf == NULL`
abbrev pub is_usable : BossInfo → Bool
is_usable info = elim info.buf [ none ↦ false | some _ ↦ if info.fd == 0 then false else true ]

-- `data_receive` with a buffer, up to the post, which is to the semaphore of the thread's data if there is any.
unfoldable pub data_receive : ℕ → Pool → BossInfo → Pool
data_receive threadnum s info =
    let boss = (Bossmultiworker.push_job s.boss (pos (info.fd % threadnum)) info).0 in
    record s {
      boss = boss;
      posting = Bossmultiworker.get_worker_touch boss (pos (info.fd % threadnum));
      received = s.received ++ (info ∷ []);
    }

unfoldable pub post : Pool → ℕ → Pool
post s i = record s { sem = update s.sem i (suc (s.sem i)); posting = none }

-- `_exitflag = true` in `run`, up to the post.
unfoldable pub raise : Pool → ℕ → Pool
raise s i = elim (Bossmultiworker.get_worker_touch s.boss (pos i)) [
  | none ↦ record s { stopping = true }
  | some d ↦ record s { exitflag = update s.exitflag d true; posting = some d; stopping = true }
]

-- `sem_wait` returns.
unfoldable pub wake : Pool → ℕ → Pool
wake s i = record s { sem = update s.sem i (s.sem i - 1); pc = update s.pc i woken }

-- What a worker behind `sem_wait` does.
unfoldable pub take_job : Pool → ℕ → Pool
take_job s i =
    let info = (Bossmultiworker.pop_job s.boss (pos i)).1 in
    record s {
      boss = (Bossmultiworker.pop_job s.boss (pos i)).0;
      pc = update s.pc i (if is_usable info then busy info else waiting);
      started = if is_usable info then s.started ++ (info ∷ []) else s.started;
    }

unfoldable pub work : Pool → ℕ → Pool
unfolding take_job
work s i = if s.exitflag i then record s { pc = update s.pc i gone } else take_job s i

unfoldable pub process_done : Pool → ℕ → Pool
process_done s i = record s { pc = update s.pc i waiting }

-- One step of the event thread or of a worker.
pub data Step (threadnum : ℕ) (s : Pool) : Pool → Type 0 where
  receives :
      (bytes : List ℕ) (fd port : ℕ)
      → s.posting ≡ none
      → s.stopping ≡ false
      → Step threadnum s
          (data_receive threadnum s (record { buf = some bytes; fd = fd; port = port }))
  posts : (i : ℕ) → s.posting ≡ some i → Step threadnum s (post s i)
  raises :
      (i : ℕ)
      → i < threadnum
      → s.posting ≡ none
      → s.exitflag i ≡ false
      → Step threadnum s (raise s i)
  wakes : (i : ℕ) → i < threadnum → s.pc i ≡ waiting → 0 < s.sem i → Step threadnum s (wake s i)
  works : (i : ℕ) → i < threadnum → s.pc i ≡ woken → Step threadnum s (work s i)
  finishes :
      (i : ℕ) (info : BossInfo)
      → i < threadnum
      → s.pc i ≡ busy info
      → Step threadnum s (process_done s i)

pub data Reach (threadnum : ℕ) (s : Pool) : Pool → Type 0 where
  here : Reach threadnum s s
  later : {t u : Pool} → Reach threadnum s t → Step threadnum t u → Reach threadnum s u
