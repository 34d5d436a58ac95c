-- ===== src/Server/Boss/Threads.antt =====
-- src/yymm_svr/yymms_svr.cpp: the workers after the loop of `init`.
use mms_svr.Prelude.{
  ℕ, zero, suc, ◌<◌, ◌≤◌, ◌≡◌, ◌∙◌, [], Option, some, true, ◌==◌, arith, Bool-cases, inl, inr,
}
use mms_svr.Prelude.Int.{pos, int_eq}
use mms_svr.Queues.Bossmultiworker.{
  Bossmultiworker, get_worker_touch, contents, accepts, accepts_in_range, init-IsValid, init-works,
  init_empty,
}
use mms_svr.Queues.Bossmultiworker
use mms_svr.Queues.Bossmultiworker.Touch.{set_worker_lem}
use mms_svr.Server.Boss.{BossInfo, no_boss, with_threads, init}

-- A worker that is there, with its own data if it is one of the first `k`, and no jobs.
pub record IsFresh (b : Bossmultiworker BossInfo (Option ℕ)) (k i : ℕ) : Type 0 where
  pub known : accepts b (pos i) ≡ true
  pub empty : contents b (pos i) ≡ []
  pub touched : i < k → get_worker_touch b (pos i) ≡ some i

with_threads-IsFresh :
    (n k i : ℕ) → k ≤ n → i < n → IsFresh (with_threads k (Bossmultiworker.init no_boss n)) k i
unfolding with_threads
with_threads-IsFresh n zero i le lt = record {
  known =
      (accepts_in_range (Bossmultiworker.init no_boss n) i (init-IsValid no_boss n)).1
        (rw (init-works no_boss n) lt);
  empty = init_empty no_boss n i;
  touched = λ l. absurd (omega (arith, l));
}
with_threads-IsFresh n (suc k) i le lt =
    let before : Bossmultiworker BossInfo (Option ℕ) =
      with_threads k (Bossmultiworker.init no_boss n) in
    let fresh = with_threads-IsFresh n k i (omega arith) lt in
    let (touch, jobs, known) =
      set_worker_lem before (pos k) (pos i) (some k)
        (with_threads-IsFresh n k k (omega arith) (omega arith)).known in
    record {
      known = known ∙ fresh.known;
      empty = jobs ∙ fresh.empty;
      touched = λ l. touch ∙ elim (Bool-cases (k == i)) [
        | inl same ↦ ground (arith, same)
        | inr other ↦ ground (arith, fresh.touched)
      ];
    }

pub init-IsFresh : (n i : ℕ) → i < n → IsFresh (init n).boss n i
unfolding init
init-IsFresh n i lt = with_threads-IsFresh n n i (omega arith) lt
