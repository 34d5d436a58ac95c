-- ===== src/Queues/Bossmultiworker/Touch.antt =====
-- include/util.h: the datum of a worker in `UTIL::Bossmultiworker`, and what the other operations leave.
use mms_svr.Prelude.{◌≡◌, refl, true, ◌++◌, [], ◌∷◌, arith, if◌then◌else◌, Option-cases, inl, inr}
use mms_svr.Prelude.Int.{ℤ, eq_int, eq_int_iff}
use mms_svr.Queues.Bossmultiworker.{
  worker_at, Bossmultiworker, set_worker, get_worker_touch, push_job, pop_job, worker_at-put,
  pop_job_cases, accepts, contents,
}

module _ {ℓ κ} {T : Type ℓ} {Touch : Type κ} where
  pub get_worker_touch-push_job :
      (b : Bossmultiworker T Touch) (id j : ℤ) (t : T)
      → get_worker_touch (push_job b id t).0 j ≡ get_worker_touch b j
  unfolding push_job get_worker_touch
  get_worker_touch-push_job b id j t = elim (Option-cases (worker_at b id)) [
    | inl absent ↦ ground arith
    | inr (q, there) ↦ ground (
      arith,
      worker_at-put b id j (record q { jobs = q.jobs ++ (t ∷ []) }) q there,
      eq_int_iff id j,
    )
  ]

  pub get_worker_touch-pop_job :
      (b : Bossmultiworker T Touch) (id j : ℤ)
      → get_worker_touch (pop_job b id).0 j ≡ get_worker_touch b j
  unfolding get_worker_touch
  get_worker_touch-pop_job b id j = elim (pop_job_cases b id) [
    | inl (empty, same) ↦ rw same refl
    | inr (q, t, rest, there, full, popped) ↦
        rw popped
          (ground (arith, worker_at-put b id j (record q { jobs = rest }) q there, eq_int_iff id j))
  ]

  -- A new datum is the worker's own, and changes no queue.
  pub set_worker_lem :
      (b : Bossmultiworker T Touch) (id j : ℤ) (x : Touch)
      → accepts b id ≡ true
      → (get_worker_touch (set_worker b id x) j ≡ (if eq_int id j then x else get_worker_touch b j))
        × (contents (set_worker b id x) j ≡ contents b j)
        × (accepts (set_worker b id x) j ≡ accepts b j)
  unfolding set_worker get_worker_touch
  set_worker_lem b id j x known = elim (Option-cases (worker_at b id)) [
    | inl absent ↦ ground arith
    | inr (q, there) ↦
        let put : _ = worker_at-put b id j (record q { touch = x }) q there in
        (
          ground (arith, put, eq_int_iff id j),
          ground (arith, put, eq_int_iff id j),
          ground (arith, put, eq_int_iff id j),
        )
  ]
