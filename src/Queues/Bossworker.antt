-- ===== src/Queues/Bossworker.antt =====
-- include/util.h: `UTIL::Bossworker`, a job queue and a datum for each worker that was set. The map
-- holds pointers, NULL by default; a worker is only reached through the map, so what the code writes
-- through a pointer is a new value at its key.
use mms_svr.Prelude.{
  ◌≡◌, refl, ◌⊎◌, Bool, true, false, ◌&&◌, ◌||◌, Option, List, [], ◌∷◌, ◌++◌, none, some, arith,
  if◌then◌else◌, rest_of, List-cases, Option-cases, inl, inr,
}
use mms_svr.Prelude.Keys.{Eq}
use mms_svr.StateMap.{StateMap, add_state, get_state}
use mms_svr.StateMap.Laws.{get_state-add_state}
use mms_svr.Queues.Fifo.{KeyedQueue, Op, run, served, sent, fifo}

pub record Worker {ℓ κ} (T : Type ℓ) (Touch : Type κ) : Type (ℓ ⊔ κ) where
  pub jobs : List T
  pub touch : Touch

pub record Bossworker {ℓ κ μ} (K : Type ℓ) (T : Type κ) (Touch : Type μ) : Type (ℓ ⊔ κ ⊔ μ) where
  pub workers : StateMap K (Option (Worker T Touch))
  pub t_def_value : T
  pub t_def_touch : Touch

abbrev pub jobs_of {κ μ} : {T : Type κ} {Touch : Type μ} → Option (Worker T Touch) → List T
jobs_of none = []
jobs_of (some w) = w.jobs

abbrev pub is_some {ℓ} : {A : Type ℓ} → Option A → Bool
is_some none = false
is_some (some a) = true

module _ {ℓ κ μ} {K : Type ℓ} {T : Type κ} {Touch : Type μ} ⦃e : Eq K⦄ where
  abbrev put : Bossworker K T Touch → K → Worker T Touch → Bossworker K T Touch
  put b id w = record b { workers = add_state b.workers id (some w) }

  unfoldable pub set_worker : Bossworker K T Touch → K → Touch → Bossworker K T Touch
  set_worker b id touch = elim (get_state b.workers id) [
    | some q ↦ put b id (record q { touch = touch })
    | none ↦ put b id (record { jobs = []; touch = touch })
  ]

  unfoldable pub get_worker_touch : Bossworker K T Touch → K → Touch
  get_worker_touch b id = elim (get_state b.workers id) [ some q ↦ q.touch | none ↦ b.t_def_touch ]

  unfoldable pub push_job : Bossworker K T Touch → K → T → Bossworker K T Touch × Bool
  push_job b id t = elim (get_state b.workers id) [
    | some q ↦ (put b id (record q { jobs = q.jobs ++ (t ∷ []) }), true)
    | none ↦ (b, false)
  ]

  -- The first entry leaves the queue of a worker that has one.
  pop_from : Bossworker K T Touch → K → Worker T Touch → List T → Bossworker K T Touch × T
  pop_from b id q [] = (b, b.t_def_value)
  pop_from b id q (t ∷ rest) = (put b id (record q { jobs = rest }), t)

  unfoldable pub pop_job : Bossworker K T Touch → K → Bossworker K T Touch × T
  unfolding pop_from
  pop_job b id = elim (get_state b.workers id) [
    | some q ↦ pop_from b id q q.jobs
    | none ↦ (b, b.t_def_value)
  ]

  abbrev pub contents : Bossworker K T Touch → K → List T
  contents b id = jobs_of (get_state b.workers id)

  abbrev pub accepts : Bossworker K T Touch → K → Bool
  accepts b id = is_some (get_state b.workers id)

  -- A new datum for a worker keeps its jobs and those of all others.
  pub set_worker-keeps :
      (b : Bossworker K T Touch) (id j : K) (touch : Touch)
      → (get_worker_touch (set_worker b id touch) j
          ≡ (if e.beq id j then touch else get_worker_touch b j))
        × (contents (set_worker b id touch) j ≡ contents b j)
        × (accepts (set_worker b id touch) j ≡ (e.beq id j || accepts b j))
  unfolding set_worker get_worker_touch
  set_worker-keeps b id j touch = elim (Option-cases (get_state b.workers id)) [
    | inl absent ↦ ground (
      arith,
      get_state-add_state b.workers id j (some (record { jobs = []; touch = touch })),
      e.beq_iff id j,
    )
    | inr (q, there) ↦ ground (
      arith,
      get_state-add_state b.workers id j (some (record q { touch = touch })),
      e.beq_iff id j,
    )
  ]

  pub contents-push :
      (b : Bossworker K T Touch) (id j : K) (t : T)
      → contents (push_job b id t).0 j
        ≡ (if e.beq id j && accepts b id then contents b j ++ (t ∷ []) else contents b j)
  unfolding push_job
  contents-push b id j t = elim (Option-cases (get_state b.workers id)) [
    | inl absent ↦ ground (arith, e.beq_iff id j)
    | inr (q, there) ↦ ground (
      arith,
      get_state-add_state b.workers id j (some (record q { jobs = q.jobs ++ (t ∷ []) })),
      e.beq_iff id j,
    )
  ]

  pub accepts-push :
      (b : Bossworker K T Touch) (id j : K) (t : T) → accepts (push_job b id t).0 j ≡ accepts b j
  unfolding push_job
  accepts-push b id j t = elim (Option-cases (get_state b.workers id)) [
    | inl absent ↦ ground arith
    | inr (q, there) ↦ ground (
      arith,
      get_state-add_state b.workers id j (some (record q { jobs = q.jobs ++ (t ∷ []) })),
      e.beq_iff id j,
    )
  ]

  -- What `pop_job` does, by the state of the worker.
  pub pop_job_cases :
      (b : Bossworker K T Touch) (id : K)
      → ((contents b id ≡ []) × (pop_job b id ≡ (b, b.t_def_value)))
        ⊎ ((q : Worker T Touch) × (t : T) × (rest : List T) × (get_state b.workers id ≡ some q)
            × (q.jobs ≡ t ∷ rest)
            × (pop_job b id ≡ (put b id (record q { jobs = rest }), t)))
  unfolding pop_job
  pop_job_cases b id = elim (Option-cases (get_state b.workers id)) [
    | inl absent ↦ inl (ground arith, ground arith)
    | inr (q, there) ↦ elim (List-cases q.jobs) [
      | inl empty ↦ inl (ground arith, ground arith)
      | inr (t, rest, full) ↦ inr (q, t, rest, there, full, ground arith)
    ]
  ]

  pub contents-pop :
      (b : Bossworker K T Touch) (id j : K)
      → contents (pop_job b id).0 j ≡ (if e.beq id j then rest_of (contents b j) else contents b j)
  contents-pop b id j = elim (pop_job_cases b id) [
    | inl (empty, same) ↦ rw same (ground (arith, e.beq_iff id j))
    | inr (q, t, rest, there, full, popped) ↦ rw popped (
        ground (
          arith,
          get_state-add_state b.workers id j (some (record q { jobs = rest })),
          e.beq_iff id j,
        ))
  ]

  pub accepts-pop : (b : Bossworker K T Touch) (id j : K) → accepts (pop_job b id).0 j ≡ accepts b j
  accepts-pop b id j = elim (pop_job_cases b id) [
    | inl (empty, same) ↦ rw same refl
    | inr (q, t, rest, there, full, popped) ↦ rw popped (
        ground (
          arith,
          get_state-add_state b.workers id j (some (record q { jobs = rest })),
          e.beq_iff id j,
        ))
  ]

  pub pop_front :
      (b : Bossworker K T Touch) (id : K) (v : T) (vs : List T)
      → contents b id ≡ v ∷ vs
      → (pop_job b id).1 ≡ v
  pop_front b id v vs h = ground (arith, pop_job_cases b id)

  unfoldable pub bossworker : KeyedQueue (Bossworker K T Touch) K T
  bossworker = record {
    push = λ b id t. (push_job b id t).0;
    pop = λ b id. pop_job b id;
    accepts = accepts;
    contents = contents;
    contents-push = λ b k j t. contents-push b k j t;
    contents-pop = λ b k j. contents-pop b k j;
    pop_front = λ b k v vs h. pop_front b k v vs h;
    accepts-push = λ b k j t. accepts-push b k j t;
    accepts-pop = λ b k j. accepts-pop b k j;
  }

  -- For any sequence of jobs pushed and popped, what the pops of a worker returned, followed by what is
  -- left, is what was there, followed by the jobs that were accepted for it, in this order.
  pub bossworker_fifo :
      (b : Bossworker K T Touch) (ops : List (Op K T)) (j : K)
      → served bossworker b ops j ++ contents (run bossworker b ops) j
        ≡ contents b j ++ sent bossworker b ops j
  unfolding bossworker
  bossworker_fifo b ops j = fifo bossworker b ops j
