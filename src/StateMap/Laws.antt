-- ===== src/StateMap/Laws.antt =====
-- include/event_hash.h: the map operations against a map from keys to values.
use mms_svr.Prelude.{
  ◌≡◌, refl, List, [], ◌∷◌, none, some, arith, if◌then◌else◌, Option-cases, inl, inr,
}
use mms_svr.Prelude.Keys.{Eq}
use mms_svr.StateMap.{StateMap, find, assign, erase, add_state, del_state, get_state}

module _ {ℓ κ} {K : Type ℓ} {V : Type κ} ⦃e : Eq K⦄ where
  -- No key stands twice.
  abbrev pub UniqueKeys : List (K × V) → Type κ
  UniqueKeys [] = Unit {κ}
  UniqueKeys ((k, v) ∷ m) = (find k m ≡ none) × UniqueKeys m

  pub find-cons :
      (k j : K) (v : V) (m : List (K × V))
      → find k ((j, v) ∷ m) ≡ (if e.beq j k then some v else find k m)
  unfolding find
  find-cons k j v m = refl

  pub assign-cons :
      (k j : K) (v w : V) (m : List (K × V))
      → assign k v ((j, w) ∷ m) ≡ (if e.beq j k then (j, v) ∷ m else (j, w) ∷ assign k v m)
  unfolding assign
  assign-cons k j v w m = refl

  pub find-assign :
      (k j : K) (v w : V) (m : List (K × V))
      → find k m ≡ some w
      → find j (assign k v m) ≡ (if e.beq k j then some v else find j m)
  unfolding find assign
  find-assign k j v w [] h = cc
  find-assign k j v w ((i, x) ∷ m) h =
      ground (arith, e.beq_iff i k, e.beq_iff k j, e.beq_iff i j, find-assign k j v w m)

  pub find-erase :
      (k j : K) (m : List (K × V))
      → UniqueKeys m
      → find j (erase k m) ≡ (if e.beq k j then none else find j m)
  unfolding find erase
  find-erase k j [] u = ground arith
  find-erase k j ((i, x) ∷ m) u =
      ground (arith, e.beq_iff i k, e.beq_iff k j, e.beq_iff i j, find-erase k j m)

  -- A key that is not there is not there after an assignment or an erasure either.
  assign_absent :
      (k j : K) (v : V) (m : List (K × V)) → find j m ≡ none → find j (assign k v m) ≡ none
  unfolding find assign
  assign_absent k j v [] h = h
  assign_absent k j v ((i, x) ∷ m) h = ground (arith, assign_absent k j v m)

  erase_absent : (k j : K) (m : List (K × V)) → find j m ≡ none → find j (erase k m) ≡ none
  unfolding find erase
  erase_absent k j [] h = h
  erase_absent k j ((i, x) ∷ m) h = ground (arith, erase_absent k j m)

  assign-UniqueKeys : (k : K) (v : V) (m : List (K × V)) → UniqueKeys m → UniqueKeys (assign k v m)
  unfolding assign
  assign-UniqueKeys k v [] u = u
  assign-UniqueKeys k v ((i, x) ∷ m) u =
      ground (arith, assign_absent k i v m, assign-UniqueKeys k v m)

  erase-UniqueKeys : (k : K) (m : List (K × V)) → UniqueKeys m → UniqueKeys (erase k m)
  unfolding erase
  erase-UniqueKeys k [] u = u
  erase-UniqueKeys k ((i, x) ∷ m) u = ground (arith, erase_absent k i m, erase-UniqueKeys k m)

  -- Adding or deleting a state keeps every key at most once in a map that has no double keys.
  pub state_map-UniqueKeys :
      (s : StateMap K V) (k : K) (v : V)
      → UniqueKeys s.hash_map
      → UniqueKeys (add_state s k v).hash_map × UniqueKeys (del_state s k).hash_map
  unfolding add_state del_state
  state_map-UniqueKeys s k v u =
      ground (arith, assign-UniqueKeys k v s.hash_map, erase-UniqueKeys k s.hash_map)

  -- After `add_state` the key has the new state and every other key has what it had.
  pub get_state-add_state :
      (s : StateMap K V) (k j : K) (v : V)
      → get_state (add_state s k v) j ≡ (if e.beq k j then v else get_state s j)
  unfolding get_state add_state find
  get_state-add_state s k j v = elim (Option-cases (find k s.hash_map)) [
    | inl absent ↦ ground arith
    | inr (w, there) ↦ ground (arith, find-assign k j v w s.hash_map)
  ]

  -- In a map without double keys, after `del_state` the key has the default value and every other
  -- key has what it had.
  pub get_state-del_state :
      (s : StateMap K V) (k j : K)
      → UniqueKeys s.hash_map
      → get_state (del_state s k) j ≡ (if e.beq k j then s.def_value else get_state s j)
  unfolding get_state del_state
  get_state-del_state s k j u = ground (arith, e.beq_iff k j, find-erase k j s.hash_map)

  pub def_value-kept :
      (s : StateMap K V) (k : K) (v : V)
      → ((add_state s k v).def_value ≡ s.def_value) × ((del_state s k).def_value ≡ s.def_value)
  unfolding add_state del_state
  def_value-kept s k v = ground arith
