-- ===== src/StateMap/Refines.antt =====
-- include/event_hash.h: the map as a function from keys to states.
use mms_svr.Prelude.{◌≡◌, refl, ap, ◌∙◌, List, [], ◌∷◌, if◌then◌else◌}
use mms_svr.Prelude.Keys.{Eq}
use mms_svr.StateMap.{StateMap, add_state, del_state, get_state}
use mms_svr.StateMap.Laws.{
  UniqueKeys, get_state-add_state, get_state-del_state, state_map-UniqueKeys, def_value-kept,
}

pub data Change {ℓ κ} (K : Type ℓ) (V : Type κ) : Type (ℓ ⊔ κ) where
  adds : K → V → Change K V
  dels : K → Change K V

module _ {ℓ κ} {K : Type ℓ} {V : Type κ} ⦃e : Eq K⦄ where
  abbrev pub apply : StateMap K V → Change K V → StateMap K V
  apply s (adds k v) = add_state s k v
  apply s (dels k) = del_state s k

  abbrev pub apply_all : StateMap K V → List (Change K V) → StateMap K V
  apply_all s [] = s
  apply_all s (c ∷ cs) = apply_all (apply s c) cs

  -- The same on functions from keys to states, `d` the state of a key that is not there.
  abbrev pub updated : V → (K → V) → Change K V → K → V
  updated d f (adds k v) j = if e.beq k j then v else f j
  updated d f (dels k) j = if e.beq k j then d else f j

  abbrev pub updated_all : V → (K → V) → List (Change K V) → K → V
  updated_all d f [] = f
  updated_all d f (c ∷ cs) = updated_all d (updated d f c) cs

  pub get_state-apply :
      (s : StateMap K V) (c : Change K V) (j : K)
      → UniqueKeys s.hash_map
      → get_state (apply s c) j ≡ updated s.def_value (get_state s) c j
  get_state-apply s (adds k v) j u = get_state-add_state s k j v
  get_state-apply s (dels k) j u = get_state-del_state s k j u

  pub apply-UniqueKeys :
      (s : StateMap K V) (c : Change K V) → UniqueKeys s.hash_map → UniqueKeys (apply s c).hash_map
  apply-UniqueKeys s (adds k v) u = (state_map-UniqueKeys s k v u).0
  apply-UniqueKeys s (dels k) u = (state_map-UniqueKeys s k s.def_value u).1

  pub apply-def_value : (s : StateMap K V) (c : Change K V) → (apply s c).def_value ≡ s.def_value
  apply-def_value s (adds k v) = (def_value-kept s k v).0
  apply-def_value s (dels k) = (def_value-kept s k s.def_value).1

  pub updated-all_same :
      (d : V) (f g : K → V) (cs : List (Change K V)) (j : K)
      → ((i : K) → f i ≡ g i)
      → updated_all d f cs j ≡ updated_all d g cs j
  updated-all_same d f g cs j same = ap (λ h. updated_all d h cs j) (λ i x. same x i)

  -- In a map without double keys, any sequence of additions and deletions does to what a key leads to what the same
  -- updates do to a function from keys to states, and no key is double afterwards.
  pub state_map_refines :
      (s : StateMap K V) (cs : List (Change K V)) (j : K)
      → UniqueKeys s.hash_map
      → (get_state (apply_all s cs) j ≡ updated_all s.def_value (get_state s) cs j)
        × UniqueKeys (apply_all s cs).hash_map
  state_map_refines s [] j u = (refl, u)
  state_map_refines s (c ∷ cs) j u =
      let (after, unique) = state_map_refines (apply s c) cs j (apply-UniqueKeys s c u) in
      (
        after
            ∙ ap (λ d. updated_all d (get_state (apply s c)) cs j) (apply-def_value s c)
            ∙ updated-all_same s.def_value _ _ cs j (λ i. get_state-apply s c i u),
        unique,
      )

  abbrev pub key : Change K V → K
  key (adds k v) = k
  key (dels k) = k
