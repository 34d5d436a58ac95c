-- ===== src/Queues/LockQueueMap.antt =====
-- src/event/lockqueuemap.h: `LockQueueMap`, a map from keys to queues behind one mutex.
use mms_svr.Prelude.{
  ◌≡◌, refl, ◌⊎◌, Option, true, ◌&&◌, List, [], ◌∷◌, ◌++◌, none, some, arith, if◌then◌else◌,
  rest_of, List-cases, Option-cases, inl, inr,
}
use mms_svr.Prelude.Keys.{Eq, beq_refl}
use mms_svr.StateMap.{find, assign}
use mms_svr.StateMap.Laws.{find-assign, find-cons, assign-cons}
use mms_svr.Queues.Fifo.{KeyedQueue, Op, run, served, sent, fifo}

pub record LockQueueMap {ℓ κ} (T : Type ℓ) (T1 : Type κ) : Type (ℓ ⊔ κ) where
  pub fd_queue_map : List (T × List T1)
  pub t_def_value : T1

abbrev pub queue_of {κ} : {T1 : Type κ} → Option (List T1) → List T1
queue_of none = []
queue_of (some queue) = queue

module _ {ℓ κ} {T : Type ℓ} {T1 : Type κ} ⦃e : Eq T⦄ where
  pub init : T1 → LockQueueMap T T1
  init t_def_value = record { fd_queue_map = []; t_def_value = t_def_value }

  unfoldable pub pop : LockQueueMap T T1 → T → LockQueueMap T T1 × T1
  pop m s = elim (find s m.fd_queue_map) [
    | none ↦ (m, m.t_def_value)
    | some [] ↦ (m, m.t_def_value)
    | some (t ∷ rest) ↦ (record m { fd_queue_map = assign s rest m.fd_queue_map }, t)
  ]

  -- The first half of `push`: an empty queue for a key that has none.
  with_queue : T → List (T × List T1) → List (T × List T1)
  with_queue s m = elim (find s m) [ none ↦ (s, []) ∷ m | some _ ↦ m ]

  unfoldable pub push : LockQueueMap T T1 → T → T1 → LockQueueMap T T1
  unfolding with_queue
  push m s t =
      let m' = with_queue s m.fd_queue_map in
      elim (find s m') [
        | none ↦ record m { fd_queue_map = m' }
        | some queue ↦ record m { fd_queue_map = assign s (queue ++ (t ∷ [])) m' }
      ]

  abbrev pub contents : LockQueueMap T T1 → T → List T1
  contents m s = queue_of (find s m.fd_queue_map)

  push_absent :
      (m : LockQueueMap T T1) (s : T) (t : T1)
      → find s m.fd_queue_map ≡ none
      → push m s t ≡ record m { fd_queue_map = (s, t ∷ []) ∷ m.fd_queue_map }
  unfolding push
  push_absent m s t absent =
      rw (absent, push, with_queue)
        (rw (find-cons, push, beq_refl s)
          (rw (absent, with_queue) (rw (assign-cons, beq_refl s) refl)))

  pub contents-push :
      (m : LockQueueMap T T1) (s j : T) (t : T1)
      → contents (push m s t) j
        ≡ (if e.beq s j && true then contents m j ++ (t ∷ []) else contents m j)
  contents-push m s j t = elim (Option-cases (find s m.fd_queue_map)) [
    | inl absent ↦ rw (push_absent m s t absent, find-cons) (ground (arith, absent, e.beq_iff s j))
    | inr (queue, there) ↦
        unfold push in
        ground (arith, find-assign s j (queue ++ (t ∷ [])) queue m.fd_queue_map, e.beq_iff s j)
  ]

  pub contents-pop :
      (m : LockQueueMap T T1) (s j : T)
      → contents (pop m s).0 j ≡ (if e.beq s j then rest_of (contents m j) else contents m j)
  unfolding pop
  contents-pop m s j = elim (Option-cases (find s m.fd_queue_map)) [
    | inl absent ↦ ground (arith, e.beq_iff s j)
    | inr (queue, there) ↦ popped queue there (List-cases queue)
  ]
    where
      popped :
          (queue : List T1)
          → find s m.fd_queue_map ≡ some queue
          → (queue ≡ []) ⊎ ((t : T1) × (rest : List T1) × (queue ≡ t ∷ rest))
          → contents (pop m s).0 j ≡ (if e.beq s j then rest_of (contents m j) else contents m j)
      popped queue there (inl empty) = ground (arith, e.beq_iff s j)
      popped queue there (inr (t, rest, full)) =
          ground (arith, find-assign s j rest queue m.fd_queue_map, e.beq_iff s j)

  pub pop_front :
      (m : LockQueueMap T T1) (s : T) (v : T1) (vs : List T1)
      → contents m s ≡ v ∷ vs
      → (pop m s).1 ≡ v
  unfolding pop
  pop_front m s v vs h = ground arith

  -- Without a value under the key, `pop` gives the default, which no operation changes.
  pub pop_empty : (m : LockQueueMap T T1) (s : T) → contents m s ≡ [] → (pop m s).1 ≡ m.t_def_value
  unfolding pop
  pop_empty m s h = ground arith

  pub t_def_value-kept :
      (m : LockQueueMap T T1) (s : T) (t : T1)
      → ((push m s t).t_def_value ≡ m.t_def_value) × ((pop m s).0.t_def_value ≡ m.t_def_value)
  unfolding push pop
  t_def_value-kept m s t = ground arith

  unfoldable pub lock_queue_map : KeyedQueue (LockQueueMap T T1) T T1
  lock_queue_map = record {
    push = λ m s t. push m s t;
    pop = λ m s. pop m s;
    accepts = λ _ _. true;
    contents = contents;
    contents-push = λ m k j t. contents-push m k j t;
    contents-pop = λ m k j. contents-pop m k j;
    pop_front = λ m k v vs h. pop_front m k v vs h;
    accepts-push = λ m k j t. refl;
    accepts-pop = λ m k j. refl;
  }

  -- For any sequence of pushes and pops, what the pops of a key returned, followed by what is left, is
  -- what was there, followed by what was pushed under the key, in this order.
  pub lock_queue_map_fifo :
      (m : LockQueueMap T T1) (ops : List (Op T T1)) (j : T)
      → served lock_queue_map m ops j ++ contents (run lock_queue_map m ops) j
        ≡ contents m j ++ sent lock_queue_map m ops j
  unfolding lock_queue_map
  lock_queue_map_fifo m ops j = fifo lock_queue_map m ops j
