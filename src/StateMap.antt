-- ===== src/StateMap.antt =====
-- include/event_hash.h: the templates `hash_map_lock` and `hash_map_unlock`, a hash map with a
-- default value. The standard container is an association list with `find`, `insert`, `erase` and
-- assignment through `operator[]`; a mutex makes each operation of the locked variant one step.
pub mod Laws
pub mod Refines
use mms_svr.Prelude.{List, [], ◌∷◌, Option, none, some, if◌then◌else◌}
use mms_svr.Prelude.Keys.{Eq}

pub record StateMap {ℓ κ} (K : Type ℓ) (V : Type κ) : Type (ℓ ⊔ κ) where
  pub hash_map : List (K × V)
  pub def_value : V

module _ {ℓ κ} {K : Type ℓ} {V : Type κ} ⦃e : Eq K⦄ where
  unfoldable pub find : K → List (K × V) → Option V
  find k [] = none
  find k ((j, v) ∷ m) = if e.beq j k then some v else find k m

  -- `_hash_map[fd] = state` for a key that is there.
  unfoldable pub assign : K → V → List (K × V) → List (K × V)
  assign k v [] = []
  assign k v ((j, w) ∷ m) = if e.beq j k then (j, v) ∷ m else (j, w) ∷ assign k v m

  -- `_hash_map.erase(iter)` at the entry that `find` gives.
  unfoldable pub erase : K → List (K × V) → List (K × V)
  erase k [] = []
  erase k ((j, w) ∷ m) = if e.beq j k then m else (j, w) ∷ erase k m

  unfoldable pub add_state : StateMap K V → K → V → StateMap K V
  add_state s fd state = elim (find fd s.hash_map) [
    | some _ ↦ record s { hash_map = assign fd state s.hash_map }
    | none ↦ record s { hash_map = (fd, state) ∷ s.hash_map }
  ]

  unfoldable pub del_state : StateMap K V → K → StateMap K V
  del_state s fd = elim (find fd s.hash_map) [
    | some _ ↦ record s { hash_map = erase fd s.hash_map }
    | none ↦ s
  ]

  unfoldable pub get_state : StateMap K V → K → V
  get_state s fd = elim (find fd s.hash_map) [ some state ↦ state | none ↦ s.def_value ]
