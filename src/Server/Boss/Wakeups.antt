-- ===== src/Server/Boss/Wakeups.antt =====
-- src/yymm_svr/yymms_svr.cpp: no wake-up is lost. A worker's semaphore counts its jobs.
use mms_svr.Queues.Bossmultiworker.{get_worker_touch}
use mms_svr.Queues.Bossmultiworker.Touch.{get_worker_touch-push_job, get_worker_touch-pop_job}
use mms_svr.Server.Boss.Threads.{init-IsFresh}
use mms_svr.Prelude.{
  inr, inl, ℕ, ◌+◌, ◌%◌, ◌<◌, ◌≡◌, ◌≢◌, refl, ap, ◌∙◌, List, [], ◌∷◌, ◌++◌, Option, none, some,
  Bool, true, false, ◌==◌, if◌then◌else◌, length, length-append, rest_of, arith, Bool-cases, ==_iff,
}
use native.Mathlib.Nat.{mod-lt}
use mms_svr.Prelude.Int.{pos, int_eq}
use mms_svr.Queues.Bossmultiworker.{
  Bossmultiworker, contents, accepts, contents-push, contents-pop, accepts-push, accepts-pop,
  accepts_in_range, init-IsValid, init-works, init_empty,
}
use mms_svr.Queues.Bossmultiworker
use mms_svr.Server.Boss.{
  Pool, Pc, waiting, woken, gone, busy, BossInfo, update, is_usable, init, data_receive, post,
  raise, wake, work, take_job, process_done, Step, receives, posts, raises, wakes, works, finishes,
  Reach, here, later,
}

abbrev pub jobs : Pool → ℕ → List BossInfo
jobs s i = contents s.boss (pos i)

-- What a worker has taken off its semaphore and not used up.
abbrev pub held : Pc → ℕ
held waiting = 0
held woken = 1
held gone = 1
held (busy _) = 0

abbrev pub is_posting : Option ℕ → ℕ → ℕ
is_posting none i = 0
is_posting (some j) i = if j == i then 1 else 0

abbrev pub flag : Bool → ℕ
flag true = 1
flag false = 0

-- Posts and jobs balance for every worker.
pub record Balanced (threadnum : ℕ) (s : Pool) : Type 0 where
  pub some_worker : 0 < threadnum
  pub allocated : (i : ℕ) → i < threadnum → accepts s.boss (pos i) ≡ true
  pub touched : (i : ℕ) → i < threadnum → get_worker_touch s.boss (pos i) ≡ some i
  pub counted :
      (i : ℕ)
      → i < threadnum
      → s.sem i + is_posting s.posting i + held (s.pc i) ≡ length (jobs s i) + flag (s.exitflag i)

pub jobs-push :
    (n : ℕ) (s : Pool) (info : BossInfo) (i : ℕ)
    → Balanced n s
    → jobs (data_receive n s info) i
      ≡ (if info.fd % n == i then jobs s i ++ (info ∷ []) else jobs s i)
unfolding data_receive
jobs-push n s info i v =
    contents-push s.boss (pos (info.fd % n)) (pos i) info
    ∙ rw (v.allocated (info.fd % n) (mod-lt info.fd v.some_worker)) (ground arith)

pub data_receive-posting :
    (n : ℕ) (s : Pool) (info : BossInfo)
    → Balanced n s
    → (data_receive n s info).posting ≡ some (info.fd % n)
unfolding data_receive
data_receive-posting n s info v =
    get_worker_touch-push_job s.boss (pos (info.fd % n)) (pos (info.fd % n)) info
    ∙ v.touched (info.fd % n) (mod-lt info.fd v.some_worker)

pub raise_lem :
    (n : ℕ) (s : Pool) (i : ℕ)
    → i < n
    → Balanced n s
    → raise s i
      ≡ record s { exitflag = update s.exitflag i true; posting = some i; stopping = true }
unfolding raise
raise_lem n s i lt v = rw (v.touched i lt, raise) refl

receive-Balanced :
    (n : ℕ) (s : Pool) (info : BossInfo)
    → s.posting ≡ none
    → Balanced n s
    → Balanced n (data_receive n s info)
receive-Balanced n s info free v = record {
  some_worker = v.some_worker;
  allocated = λ j lt.
      unfold data_receive in
      (accepts-push s.boss (pos (info.fd % n)) (pos j) info ∙ v.allocated j lt);
  touched = λ j lt.
      unfold data_receive in
      (get_worker_touch-push_job s.boss (pos (info.fd % n)) (pos j) info ∙ v.touched j lt);
  counted = λ j lt.
      rw (jobs-push n s info j v, data_receive-posting n s info v)
        (unfold data_receive in counted_after j lt);
}
  where
    counted_after :
        (j : ℕ)
        → j < n
        → s.sem j + is_posting (some (info.fd % n)) j + held (s.pc j)
          ≡ length (if info.fd % n == j then jobs s j ++ (info ∷ []) else jobs s j)
            + flag (s.exitflag j)
    counted_after j lt = ground (
      arith,
      v.counted j lt,
      length-append (jobs s j) (info ∷ []),
      ap (λ (p : Option ℕ). is_posting p j) free,
    )

pub jobs-pop :
    (s : Pool) (i j : ℕ)
    → contents (Bossmultiworker.pop_job s.boss (pos i)).0 (pos j)
      ≡ (if i == j then rest_of (jobs s j) else jobs s j)
jobs-pop s i j = contents-pop s.boss (pos i) (pos j) ∙ ground arith

pub length-rest_of : (xs : List BossInfo) → 0 < length xs → length (rest_of xs) + 1 ≡ length xs
length-rest_of [] h = absurd (omega arith)
length-rest_of (x ∷ xs) h = omega arith

held_taken : (usable : Bool) (info : BossInfo) → held (if usable then busy info else waiting) ≡ 0
held_taken true info = refl
held_taken false info = refl

take-Balanced :
    (n : ℕ) (s : Pool) (i : ℕ)
    → i < n
    → s.pc i ≡ woken
    → s.exitflag i ≡ false
    → Balanced n s
    → Balanced n (take_job s i)
unfolding take_job
take-Balanced n s i lt at up v = record {
  some_worker = v.some_worker;
  allocated = λ j lt'. accepts-pop s.boss (pos i) (pos j) ∙ v.allocated j lt';
  touched = λ j lt'. get_worker_touch-pop_job s.boss (pos i) (pos j) ∙ v.touched j lt';
  counted = λ j lt'. rw (jobs-pop s i j) (counted_after j lt');
}
  where
    info : BossInfo
    info = (Bossmultiworker.pop_job s.boss (pos i)).1

    counted_after :
        (j : ℕ)
        → j < n
        → s.sem j
            + is_posting s.posting j
            + held (update s.pc i (if is_usable info then busy info else waiting) j)
          ≡ length (if i == j then rest_of (jobs s j) else jobs s j) + flag (s.exitflag j)
    counted_after j lt' = elim (Bool-cases (i == j)) [
      | inl same ↦
          let e : i ≡ j = (==_iff i j).0 same in
          let at' : s.pc j ≡ woken = rw (← e) at in
          let up' : s.exitflag j ≡ false = rw (← e) up in
          let some_job : 0 < length (jobs s j) =
            omega (arith, v.counted j lt', ap held at', ap flag up') in
          rw (same, held_taken (is_usable info) info)
            (omega (
              arith,
              v.counted j lt',
              ap held at',
              ap flag up',
              length-rest_of (jobs s j) some_job,
            ))
      | inr other ↦ rw other (v.counted j lt')
    ]

work-Balanced :
    (n : ℕ) (s : Pool) (i : ℕ) → i < n → s.pc i ≡ woken → Balanced n s → Balanced n (work s i)
unfolding work
work-Balanced n s i lt at v = elim (Bool-cases (s.exitflag i)) [
  | inl down ↦ rw down (record {
    some_worker = v.some_worker;
    allocated = v.allocated;
    touched = v.touched;
    counted = λ j lt'. ground (arith, v.counted j lt');
  })
  | inr up ↦ rw up (take-Balanced n s i lt at up v)
]

pub init-Balanced : (n : ℕ) → 0 < n → Balanced n (init n)
init-Balanced n h = record {
  some_worker = h;
  allocated = λ i lt. (init-IsFresh n i lt).known;
  touched = λ i lt. (init-IsFresh n i lt).touched lt;
  counted = λ i lt. rw (init-IsFresh n i lt).empty (unfold init in omega arith);
}

pub Step-Balanced : {n : ℕ} {s t : Pool} → Step n s t → Balanced n s → Balanced n t
unfolding post wake process_done
Step-Balanced {n} {s} (receives bytes fd port free running) v =
    receive-Balanced n s (record { buf = some bytes; fd = fd; port = port }) free v
Step-Balanced (posts i at) v = record {
  some_worker = v.some_worker;
  allocated = v.allocated;
  touched = v.touched;
  counted = λ j lt. ground (arith, v.counted j lt);
}
Step-Balanced {n} {s} (raises i lt free down) v = rw (raise_lem n s i lt v) (record {
  some_worker = v.some_worker;
  allocated = v.allocated;
  touched = v.touched;
  counted = λ j lt'. ground (arith, v.counted j lt');
})
Step-Balanced (wakes i lt at some_post) v = record {
  some_worker = v.some_worker;
  allocated = v.allocated;
  touched = v.touched;
  counted = λ j lt'. ground (arith, v.counted j lt');
}
Step-Balanced (works i lt at) v = work-Balanced _ _ i lt at v
Step-Balanced (finishes i info lt at) v = record {
  some_worker = v.some_worker;
  allocated = v.allocated;
  touched = v.touched;
  counted = λ j lt'. ground (arith, v.counted j lt');
}

pub Reach-Balanced : {n : ℕ} {s t : Pool} → Balanced n s → Reach n s t → Balanced n t
Reach-Balanced v here = v
Reach-Balanced v (later r st) = Step-Balanced st (Reach-Balanced v r)

-- In every state that the threads reach, a worker that waits while its queue has a job can take a
-- step, unless the event thread is just about to post its semaphore.
pub no_lost_wakeup :
    {n : ℕ} {s : Pool} (i : ℕ)
    → 0 < n
    → Reach n (init n) s
    → i < n
    → s.pc i ≡ waiting
    → 0 < length (jobs s i)
    → s.posting ≢ some i
    → Step n s (wake s i)
no_lost_wakeup {n} {s} i some_worker r lt at some_job free =
    let v = Reach-Balanced (init-Balanced n some_worker) r in
    wakes i lt at (omega (arith, v.counted i lt, ap held at, not_posting s.posting free))
  where
    not_posting : (p : Option ℕ) → p ≢ some i → is_posting p i ≡ 0
    not_posting none free = refl
    not_posting (some j) free = elim (Bool-cases (j == i)) [
      | inl same ↦ absurd (free (ap some ((==_iff j i).0 same)))
      | inr other ↦ rw other refl
    ]
