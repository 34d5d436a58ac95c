-- ===== src/Tests/Workers.antt =====
-- src/yymm_svr/yymms_svr.cpp with two workers: a buffer of the connection 5, which the worker 1 serves.
use mms_svr.Prelude.{true, ◌≡◌, ◌<◌, refl, [], ◌∷◌, some, arith, length, length-append, ap}
use mms_svr.Server.Boss.{
  waiting, Pool, BossInfo, init, data_receive, post, raise, wake, Step, receives, posts, raises,
  Reach, here, later,
}
use mms_svr.Server.Boss.Wakeups.{
  jobs, jobs-push, init-Balanced, Balanced, Reach-Balanced, raise_lem, data_receive-posting,
  no_lost_wakeup,
}

abbrev one_buffer : BossInfo
one_buffer = record { buf = some (7 ∷ []); fd = 5; port = 80 }

abbrev received_one : Pool
received_one = data_receive 2 (init 2) one_buffer

abbrev posted_one : Pool
posted_one = post received_one 1

abbrev raised_one : Pool
raised_one = raise posted_one 1

abbrev stopped_one : Pool
stopped_one = post raised_one 1

received_one-Reach : Reach 2 (init 2) received_one
unfolding init
received_one-Reach = later here (receives (7 ∷ []) 5 80 refl refl)

received_one_posting : received_one.posting ≡ some 1
received_one_posting = data_receive-posting 2 (init 2) one_buffer (init-Balanced 2 (omega arith))

posted_one-Reach : Reach 2 (init 2) posted_one
posted_one-Reach = later received_one-Reach (posts 1 received_one_posting)

posted_one-Balanced : Balanced 2 posted_one
posted_one-Balanced = Reach-Balanced (init-Balanced 2 (omega arith)) posted_one-Reach

raised_one_fields :
    (raised_one.stopping ≡ true) × (raised_one.exitflag 1 ≡ true) × (raised_one.posting ≡ some 1)
raised_one_fields =
    rw (raise_lem 2 posted_one 1 (omega arith) posted_one-Balanced) (refl, refl, refl)

waits : posted_one.pc 1 ≡ waiting
unfolding post data_receive init
waits = refl

stopped_one-Reach : Reach 2 (init 2) stopped_one
stopped_one-Reach =
    later
      (later posted_one-Reach
        (raises 1 (omega arith) (unfold post in refl) (unfold post data_receive init in refl)))
      (posts 1 raised_one_fields.2)

still_waits : stopped_one.pc 1 ≡ waiting
unfolding post
still_waits = rw (raise_lem 2 posted_one 1 (omega arith) posted_one-Balanced) waits

one_job : 0 < length (jobs posted_one 1)
unfolding post
one_job = omega (
  arith,
  ap length (jobs-push 2 (init 2) one_buffer 1 (init-Balanced 2 (omega arith))),
  length-append (jobs (init 2) 1) (one_buffer ∷ []),
)

no_lost_wakeup_example : Step 2 posted_one (wake posted_one 1)
no_lost_wakeup_example =
    no_lost_wakeup 1 (omega arith) posted_one-Reach (omega arith) waits one_job
      (λ e. unfold post in cc)
