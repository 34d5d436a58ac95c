-- ===== src/Queues/Bossmultiworker.antt =====
-- include/util.h: `UTIL::Bossmultiworker`, an array of workers with a job queue, a datum and a mutex
-- each. Each operation asserts its index first: where `asserted` is false, a build with asserts ends there, and one
-- with NDEBUG, which the build files do not define, comes to the early return that the operations below have.
-- Server/Boss/Asserts is about the indices of the server.
pub mod Touch
use mms_svr.Prelude.{
  zero, suc, ℕ, ◌<◌, ◌≡◌, refl, Bool, true, false, ◌&&◌, Option, List, [], ◌∷◌, ◌++◌, none, some,
  arith, if◌then◌else◌, ltb, rest_of, List-cases, Option-cases, inl, inr, get_elem?, set, replicate,
  length, length-set, length-replicate, get_elem?-set_self, get_elem?-set_ne, ◌==◌, Bool-cases,
  ==_iff, sym, ◌∙◌, none≢some, ◌⊎◌, ◌↔◌, lt→ltb, ltb→lt, some_of_lt, lt-length_of_some,
}
use mathlib.Core.Bool.{false≢true}
use mms_svr.Prelude.Int.{ℤ, pos, negsuc, eq_int, eq_int_iff, int_eq}
use mms_svr.Queues.Bossworker.{Worker, jobs_of, is_some}
use mms_svr.Queues.Fifo.{KeyedQueue, Op, run, served, sent, fifo}

pub record Bossmultiworker {ℓ κ} (T : Type ℓ) (Touch : Type κ) : Type (ℓ ⊔ κ) where
  pub works : ℕ
  pub workers : List (Worker T Touch)
  pub t_def_value : T
  pub t_def_touch : Touch

abbrev pub nat_of : ℤ → ℕ
nat_of (pos n) = n
nat_of (negsuc n) = 0

module _ {ℓ κ} {T : Type ℓ} {Touch : Type κ} where
  unfoldable pub init : Bossmultiworker T Touch → ℕ → Bossmultiworker T Touch
  init b num_workers = record b {
    works = num_workers;
    workers = replicate num_workers (record { jobs = []; touch = b.t_def_touch });
  }

  -- `assert(id >= 0 && id < _works)`
  unfoldable pub asserted : Bossmultiworker T Touch → ℤ → Bool
  asserted b (negsuc id) = false
  asserted b (pos id) = ltb id b.works

  -- `id >= 0 && id < _works`, and the worker that the index then names.
  unfoldable pub worker_at : Bossmultiworker T Touch → ℤ → Option (Worker T Touch)
  worker_at b (negsuc id) = none
  worker_at b (pos id) = if ltb id b.works then get_elem? b.workers id else none

  abbrev put : Bossmultiworker T Touch → ℤ → Worker T Touch → Bossmultiworker T Touch
  put b id w = record b { workers = set b.workers (nat_of id) w }

  unfoldable pub set_worker : Bossmultiworker T Touch → ℤ → Touch → Bossmultiworker T Touch
  set_worker b id touch = elim (worker_at b id) [
    | none ↦ b
    | some w ↦ put b id (record w { touch = touch })
  ]

  unfoldable pub get_worker_touch : Bossmultiworker T Touch → ℤ → Touch
  get_worker_touch b id = elim (worker_at b id) [ none ↦ b.t_def_touch | some w ↦ w.touch ]

  unfoldable pub push_job : Bossmultiworker T Touch → ℤ → T → Bossmultiworker T Touch × Bool
  push_job b id t = elim (worker_at b id) [
    | none ↦ (b, false)
    | some w ↦ (put b id (record w { jobs = w.jobs ++ (t ∷ []) }), true)
  ]

  pop_from : Bossmultiworker T Touch → ℤ → Worker T Touch → List T → Bossmultiworker T Touch × T
  pop_from b id w [] = (b, b.t_def_value)
  pop_from b id w (t ∷ rest) = (put b id (record w { jobs = rest }), t)

  unfoldable pub pop_job : Bossmultiworker T Touch → ℤ → Bossmultiworker T Touch × T
  unfolding pop_from
  pop_job b id = elim (worker_at b id) [
    | none ↦ (b, b.t_def_value)
    | some w ↦ pop_from b id w w.jobs
  ]

  -- Writing back a worker that is there changes what its index names, and nothing else.
  pub worker_at-put :
      (b : Bossmultiworker T Touch) (i j : ℤ) (w v : Worker T Touch)
      → worker_at b i ≡ some v
      → worker_at (put b i w) j ≡ (if eq_int i j then some w else worker_at b j)
  unfolding worker_at
  worker_at-put b (negsuc i) j w v h = cc
  worker_at-put b (pos i) (negsuc j) w v h = refl
  worker_at-put b (pos i) (pos j) w v h = elim (Bool-cases (ltb i b.works)) [
    | inr out ↦ absurd (none≢some (rw out at h))
    | inl within ↦ elim (Bool-cases (i == j)) [
      | inl same ↦
          let e : i ≡ j = (==_iff i j).0 same in
          rw (same, ← e, within)
            (get_elem?-set_self b.workers i w (lt-length_of_some b.workers i v (rw within at h)))
      | inr other ↦
          rw
            (
              other,
              get_elem?-set_ne b.workers i j w (λ e. false≢true (sym other ∙ (==_iff i j).1 e)),
            )
            refl
    ]
  ]

  no_jobs :
      (n i : ℕ) (w : Worker T Touch) → w.jobs ≡ [] → jobs_of (get_elem? (replicate n w) i) ≡ []
  no_jobs zero i w e = refl
  no_jobs (suc n) zero w e = e
  no_jobs (suc n) (suc i) w e = no_jobs n i w e

  pub init-works : (b : Bossmultiworker T Touch) (n : ℕ) → (init b n).works ≡ n
  unfolding init
  init-works b n = refl

  pub init_empty :
      (b : Bossmultiworker T Touch) (n i : ℕ) → jobs_of (worker_at (init b n) (pos i)) ≡ []
  unfolding init worker_at
  init_empty b n i = elim (Bool-cases (ltb i n)) [
    | inl within ↦ rw within (no_jobs n i _ refl)
    | inr out ↦ rw out refl
  ]

  -- Every index below `_works` has a worker.
  pub record IsValid (b : Bossmultiworker T Touch) : Type 0 where
    pub allocated : length b.workers ≡ b.works

  pub init-IsValid : (b : Bossmultiworker T Touch) (n : ℕ) → IsValid (init b n)
  unfolding init
  init-IsValid b n = record { allocated = length-replicate n _ }

  -- No operation changes the number of workers.
  pub set_worker-IsValid :
      (b : Bossmultiworker T Touch) (id : ℤ) (touch : Touch)
      → IsValid b
      → IsValid (set_worker b id touch)
  unfolding set_worker
  set_worker-IsValid b id touch v = elim (Option-cases (worker_at b id)) [
    | inl absent ↦ rw (absent, set_worker) v
    | inr (w, there) ↦
        rw (there, set_worker) (record { allocated = length-set b.workers _ _ ∙ v.allocated })
  ]

  pub push_job-IsValid :
      (b : Bossmultiworker T Touch) (id : ℤ) (t : T) → IsValid b → IsValid (push_job b id t).0
  unfolding push_job
  push_job-IsValid b id t v = elim (Option-cases (worker_at b id)) [
    | inl absent ↦ rw (absent, push_job) v
    | inr (w, there) ↦
        rw (there, push_job) (record { allocated = length-set b.workers _ _ ∙ v.allocated })
  ]

  abbrev pub contents : Bossmultiworker T Touch → ℤ → List T
  contents b id = jobs_of (worker_at b id)

  abbrev pub accepts : Bossmultiworker T Touch → ℤ → Bool
  accepts b id = is_some (worker_at b id)

  pub contents-push :
      (b : Bossmultiworker T Touch) (id j : ℤ) (t : T)
      → contents (push_job b id t).0 j
        ≡ (if eq_int id j && accepts b id then contents b j ++ (t ∷ []) else contents b j)
  unfolding push_job
  contents-push b id j t = elim (Option-cases (worker_at b id)) [
    | inl absent ↦ ground (arith, eq_int_iff id j)
    | inr (q, there) ↦ ground (
      arith,
      worker_at-put b id j (record q { jobs = q.jobs ++ (t ∷ []) }) q there,
      eq_int_iff id j,
    )
  ]

  pub accepts-push :
      (b : Bossmultiworker T Touch) (id j : ℤ) (t : T) → accepts (push_job b id t).0 j ≡ accepts b j
  unfolding push_job
  accepts-push b id j t = elim (Option-cases (worker_at b id)) [
    | inl absent ↦ ground arith
    | inr (q, there) ↦ ground (
      arith,
      worker_at-put b id j (record q { jobs = q.jobs ++ (t ∷ []) }) q there,
      eq_int_iff id j,
    )
  ]

  -- What `PopJob` does, by the state of the worker.
  pub pop_job_cases :
      (b : Bossmultiworker T Touch) (id : ℤ)
      → ((contents b id ≡ []) × (pop_job b id ≡ (b, b.t_def_value)))
        ⊎ ((q : Worker T Touch) × (t : T) × (rest : List T) × (worker_at b id ≡ some q)
            × (q.jobs ≡ t ∷ rest)
            × (pop_job b id ≡ (put b id (record q { jobs = rest }), t)))
  unfolding pop_job
  pop_job_cases b id = elim (Option-cases (worker_at b id)) [
    | inl absent ↦ inl (ground arith, ground arith)
    | inr (q, there) ↦ elim (List-cases q.jobs) [
      | inl empty ↦ inl (ground arith, ground arith)
      | inr (t, rest, full) ↦ inr (q, t, rest, there, full, ground arith)
    ]
  ]

  pub contents-pop :
      (b : Bossmultiworker T Touch) (id j : ℤ)
      → contents (pop_job b id).0 j ≡ (if eq_int id j then rest_of (contents b j) else contents b j)
  contents-pop b id j = elim (pop_job_cases b id) [
    | inl (empty, same) ↦ rw same (ground (arith, eq_int_iff id j))
    | inr (q, t, rest, there, full, popped) ↦
        rw popped
          (ground (arith, worker_at-put b id j (record q { jobs = rest }) q there, eq_int_iff id j))
  ]

  pub accepts-pop :
      (b : Bossmultiworker T Touch) (id j : ℤ) → accepts (pop_job b id).0 j ≡ accepts b j
  accepts-pop b id j = elim (pop_job_cases b id) [
    | inl (empty, same) ↦ rw same refl
    | inr (q, t, rest, there, full, popped) ↦
        rw popped
          (ground (arith, worker_at-put b id j (record q { jobs = rest }) q there, eq_int_iff id j))
  ]

  pub pop_front :
      (b : Bossmultiworker T Touch) (id : ℤ) (v : T) (vs : List T)
      → contents b id ≡ v ∷ vs
      → (pop_job b id).1 ≡ v
  pop_front b id v vs h = ground (arith, pop_job_cases b id)

  -- Where every index below `_works` has a worker, an index names one exactly when it lies in that
  -- range.
  pub accepts_in_range :
      (b : Bossmultiworker T Touch) (id : ℕ)
      → IsValid b
      → (accepts b (pos id) ≡ true) ↔ (id < b.works)
  unfolding worker_at
  accepts_in_range b id v = elim (Bool-cases (ltb id b.works)) [
    | inr out ↦
        rw out ((λ h. absurd (false≢true h)), λ h. absurd (false≢true (sym out ∙ lt→ltb _ _ h)))
    | inl within ↦
        let found : (w : Worker T Touch) × (get_elem? b.workers id ≡ some w) =
          some_of_lt b.workers id (omega (arith, v.allocated, ltb→lt id b.works within)) in
        rw (within, found.1) ((λ _. ltb→lt id b.works within), λ _. refl)
  ]

  unfoldable pub bossmultiworker : KeyedQueue (Bossmultiworker T Touch) ℤ T
  bossmultiworker = record {
    push = λ b id t. (push_job b id t).0;
    pop = λ b id. pop_job b id;
    accepts = accepts;
    contents = contents;
    contents-push = λ b k j t. contents-push b k j t;
    contents-pop = λ b k j. contents-pop b k j;
    pop_front = λ b k v vs h. pop_front b k v vs h;
    accepts-push = λ b k j t. accepts-push b k j t;
    accepts-pop = λ b k j. accepts-pop b k j;
  }

  -- For any sequence of jobs pushed and popped, what the pops of a worker returned, followed by what is
  -- left, is what was there, followed by the jobs that were accepted for it, in this order.
  pub bossmultiworker_fifo :
      (b : Bossmultiworker T Touch) (ops : List (Op ℤ T)) (j : ℤ)
      → served bossmultiworker b ops j ++ contents (run bossmultiworker b ops) j
        ≡ contents b j ++ sent bossmultiworker b ops j
  unfolding bossmultiworker
  bossmultiworker_fifo b ops j = fifo bossmultiworker b ops j
