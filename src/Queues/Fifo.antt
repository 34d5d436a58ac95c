-- ===== src/Queues/Fifo.antt =====
-- What a family of queues promises: per key, what is popped is what was pushed, in the order of the
-- pushes. The classes of src/event and include/util.h fill the interface.
use mms_svr.Prelude.{
  ◌≡◌, refl, sym, Bool, ◌&&◌, List, [], ◌∷◌, ◌++◌, append-nil, append_assoc, arith, if◌then◌else◌,
  Bool-cases, inl, inr, rest_of, ◌∙◌,
}
use mms_svr.Prelude.Keys.{Eq}

pub record KeyedQueue {ℓ κ μ} (S : Type ℓ) (K : Type κ) ⦃e : Eq K⦄ (V : Type μ)
    : Type (ℓ ⊔ κ ⊔ μ) where
  pub push : S → K → V → S
  pub pop : S → K → S × V
  pub accepts : S → K → Bool
  pub contents : S → K → List V
  pub contents-push :
      (s : S) (k j : K) (v : V)
      → contents (push s k v) j
        ≡ (if e.beq k j && accepts s k then contents s j ++ (v ∷ []) else contents s j)
  pub contents-pop :
      (s : S) (k j : K)
      → contents (pop s k).0 j ≡ (if e.beq k j then rest_of (contents s j) else contents s j)
  pub pop_front : (s : S) (k : K) (v : V) (vs : List V) → contents s k ≡ v ∷ vs → (pop s k).1 ≡ v
  pub accepts-push : (s : S) (k j : K) (v : V) → accepts (push s k v) j ≡ accepts s j
  pub accepts-pop : (s : S) (k j : K) → accepts (pop s k).0 j ≡ accepts s j

pub data Op {κ μ} (K : Type κ) (V : Type μ) : Type (κ ⊔ μ) where
  pushes : K → V → Op K V
  pops : K → Op K V

-- An answer counts if the queue was not empty.
abbrev answer {ℓ} : {A : Type ℓ} → List A → A → List A → List A
answer [] v rest = rest
answer (_ ∷ _) v rest = v ∷ rest

module _ {ℓ κ μ} {S : Type ℓ} {K : Type κ} ⦃e : Eq K⦄ {V : Type μ} (q : KeyedQueue S K V) where
  pub run : S → List (Op K V) → S
  run s [] = s
  run s (pushes k v ∷ ops) = run (q.push s k v) ops
  run s (pops k ∷ ops) = run (q.pop s k).0 ops

  -- What `pop` returns for the key `j`, where it found the queue not empty.
  pub served : S → List (Op K V) → K → List V
  served s [] j = []
  served s (pushes k v ∷ ops) j = served (q.push s k v) ops j
  served s (pops k ∷ ops) j =
      let rest = served (q.pop s k).0 ops j in
      if e.beq k j then answer (q.contents s k) (q.pop s k).1 rest else rest

  -- What was pushed under the key `j` and accepted.
  pub sent : S → List (Op K V) → K → List V
  sent s [] j = []
  sent s (pushes k v ∷ ops) j =
      let rest = sent (q.push s k v) ops j in if e.beq k j && q.accepts s k then v ∷ rest else rest
  sent s (pops k ∷ ops) j = sent (q.pop s k).0 ops j

  -- A `pop` of the key moves the front of its queue to what was served.
  answered :
      (xs : List V) (s : S) (k j : K) (ops : List (Op K V))
      → q.contents s k ≡ xs
      → k ≡ j
      → served (q.pop s k).0 ops j ++ q.contents (run (q.pop s k).0 ops) j
        ≡ q.contents (q.pop s k).0 j ++ sent (q.pop s k).0 ops j
      → answer xs (q.pop s k).1 (served (q.pop s k).0 ops j) ++ q.contents (run (q.pop s k).0 ops) j
        ≡ q.contents s j ++ sent (q.pop s k).0 ops j
  answered [] s k j ops found same rest =
      rest ∙ ground (arith, found, q.contents-pop s k j, e.beq_iff k j)
  answered (x ∷ xs) s k j ops found same rest =
      ground (arith, rest, found, q.pop_front s k x xs, q.contents-pop s k j, e.beq_iff k j)

  pub fifo :
      (s : S) (ops : List (Op K V)) (j : K)
      → served s ops j ++ q.contents (run s ops) j ≡ q.contents s j ++ sent s ops j
  unfolding run served sent
  fifo s [] j = sym (append-nil (q.contents s j))
  fifo s (pushes k v ∷ ops) j = elim (Bool-cases (e.beq k j && q.accepts s k)) [
    | inl taken ↦
        fifo (q.push s k v) ops j
        ∙ rw (q.contents-push s k j v, taken) (append_assoc (q.contents s j) (v ∷ []) _)
    | inr refused ↦ fifo (q.push s k v) ops j ∙ rw (q.contents-push s k j v, refused) refl
  ]
  fifo s (pops k ∷ ops) j = elim (Bool-cases (e.beq k j)) [
    | inl same ↦ rw same (
        answered (q.contents s k) s k j ops refl ((e.beq_iff k j).0 same)
          (fifo (q.pop s k).0 ops j))
    | inr other ↦ rw other (fifo (q.pop s k).0 ops j ∙ rw (q.contents-pop s k j, other) refl)
  ]
