-- ===== src/Server/Boss/Asserts.antt =====
-- include/util.h and src/yymm_svr/yymms_svr.cpp: the asserts of the worker pool.
use mms_svr.Prelude.{ℕ, ◌<◌, ◌%◌, ◌≡◌, true, false, ltb, inl, inr, Bool-cases}
use mms_svr.Prelude.Int.{pos}
use native.Mathlib.Nat.{mod-lt}
use mms_svr.Queues.Bossmultiworker.{Bossmultiworker, worker_at, asserted, accepts}
use mms_svr.Server.Boss.{Pool, init, Reach}
use mms_svr.Server.Boss.Wakeups.{Reach-Balanced, init-Balanced}

module _ {ℓ κ} {T : Type ℓ} {Touch : Type κ} where
  pub accepts-asserted :
      (b : Bossmultiworker T Touch) (i : ℕ) → accepts b (pos i) ≡ true → asserted b (pos i) ≡ true
  unfolding worker_at asserted
  accepts-asserted b i known = elim (Bool-cases (ltb i b.works)) [
    | inl within ↦ within
    | inr out ↦ absurd (no_worker (rw out at known))
  ]
    where
      no_worker : false ≡ true → ⊥
      no_worker e = cc

-- In every state that the threads reach, the worker of a connection and each worker's own index pass the asserts.
pub asserts_hold :
    {n : ℕ} {s : Pool} (fd i : ℕ)
    → 0 < n
    → Reach n (init n) s
    → i < n
    → (asserted s.boss (pos (fd % n)) ≡ true) × (asserted s.boss (pos i) ≡ true)
asserts_hold {n} {s} fd i some_worker r lt =
    let v = Reach-Balanced (init-Balanced n some_worker) r in
    (
      accepts-asserted s.boss (fd % n) (v.allocated (fd % n) (mod-lt fd some_worker)),
      accepts-asserted s.boss i (v.allocated i lt),
    )
