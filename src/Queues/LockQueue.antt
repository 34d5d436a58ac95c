-- ===== src/Queues/LockQueue.antt =====
-- src/event/lockqueue.h: `LockQueue`, a queue behind a mutex, with a default for an empty queue.
use mms_svr.Prelude.{
  ◌≡◌, refl, ◌⊎◌, Bool, true, ◌&&◌, List, [], ◌∷◌, ◌++◌, arith, if◌then◌else◌, rest_of, List-cases,
  inl, inr,
}
use mms_svr.Prelude.Keys.{Eq}
use mms_svr.Queues.Fifo.{KeyedQueue}

pub record LockQueue {ℓ κ} (T : Type ℓ) (D : Type κ) : Type (ℓ ⊔ κ) where
  pub fd_queue : List T
  pub t_def_value : T
  pub dt : D

module _ {ℓ κ} {T : Type ℓ} {D : Type κ} where
  pub init : T → D → LockQueue T D
  init t_def_value dt = record { fd_queue = []; t_def_value = t_def_value; dt = dt }

  unfoldable pub pop : LockQueue T D → LockQueue T D × T
  pop q = elim q.fd_queue [ [] ↦ (q, q.t_def_value) | t ∷ rest ↦ (record q { fd_queue = rest }, t) ]

  unfoldable pub push : LockQueue T D → T → LockQueue T D
  push q t = record q { fd_queue = q.fd_queue ++ (t ∷ []) }

  -- `pop` takes the oldest entry, and on an empty queue gives the default and changes nothing.
  pub pop-push_cases :
      (q : LockQueue T D)
      → ((q.fd_queue ≡ []) × (pop q ≡ (q, q.t_def_value)))
        ⊎ ((t : T) × (rest : List T) × (q.fd_queue ≡ t ∷ rest)
            × (pop q ≡ (record q { fd_queue = rest }, t)))
  unfolding pop
  pop-push_cases q = elim (List-cases q.fd_queue) [
    | inl e ↦ inl (e, ground arith)
    | inr (t, rest, e) ↦ inr (t, rest, e, ground arith)
  ]

-- One queue is a family with a single key.
pub data Only : Type 0 where
  only : Only

abbrev only_eq : Only → Only → Bool
only_eq only only = true

pub only_eq_iff : (a b : Only) → (only_eq a b ≡ true) × (a ≡ b)
only_eq_iff only only = (refl, refl)

instance abbrev pub Only-eq : Eq Only
Only-eq = record {
  beq = only_eq;
  beq_iff = λ a b. ((λ _. (only_eq_iff a b).1), λ _. (only_eq_iff a b).0);
}

module _ {ℓ κ} {T : Type ℓ} {D : Type κ} where
  abbrev pub contents : LockQueue T D → Only → List T
  contents q k = q.fd_queue

  pub contents-push :
      (q : LockQueue T D) (k j : Only) (t : T)
      → contents (push q t) j
        ≡ (if only_eq k j && true then contents q j ++ (t ∷ []) else contents q j)
  unfolding push
  contents-push q only only t = refl

  pub contents-pop :
      (q : LockQueue T D) (k j : Only)
      → contents (pop q).0 j ≡ (if only_eq k j then rest_of (contents q j) else contents q j)
  unfolding pop
  contents-pop q only only = ground arith

  pub pop_front :
      (q : LockQueue T D) (k : Only) (v : T) (vs : List T) → contents q k ≡ v ∷ vs → (pop q).1 ≡ v
  unfolding pop
  pop_front q k v vs e = ground arith

  unfoldable pub lock_queue : KeyedQueue (LockQueue T D) Only T
  lock_queue = record {
    push = λ q _ t. push q t;
    pop = λ q _. pop q;
    accepts = λ _ _. true;
    contents = contents;
    contents-push = λ q k j t. contents-push q k j t;
    contents-pop = λ q k j. contents-pop q k j;
    pop_front = λ q k v vs e. pop_front q k v vs e;
    accepts-push = λ q k j t. refl;
    accepts-pop = λ q k j. refl;
  }
