-- ===== src/Server/Accounts.antt =====
-- src/yymm_svr/cmdproc.cpp and cmdproc.h: what holds of the account data whenever no buffer is processed, and
-- what the operations leave of an account.
pub mod Logins
pub mod Commands
pub mod Loops
pub mod Served
pub mod Turns
pub mod Pieces
use mms_svr.Prelude.{
  get_elem?, ℕ, ◌≡◌, ◌≢◌, refl, sym, ap, ◌∙◌, List, [], Option, none, some, true, false, ◌==◌,
  Bool-cases, Option-cases, inl, inr, ==_iff, get_elem?-set_self, get_elem?-set_ne,
  lt-length_of_some, ne_of_false,
}
use mms_svr.Prelude.Keys.{nat_eq}
use mms_svr.StateMap.{StateMap, get_state}
use mms_svr.StateMap.Laws.{UniqueKeys}
use mms_svr.Protocol.Commands.{Cmd}
use mms_svr.Server.{Env, ItemData, MmsServer, item, change, send_cmd, closefd}
use mms_svr.Server.Frames.{SameAccounts}

module _ (env : Env) where
  -- The connection of an account and its `readbuffer`.
  abbrev pub shape : Option (ItemData env) → Option (ℕ × Option (List ℕ))
  shape none = none
  shape (some i) = some (i.fd, i.readbuffer)

  -- `current` is the account whose buffer is being processed. Every connection leads to an account of its own,
  -- and no account but the current one keeps bytes.
  pub record WellFormed (svr : MmsServer env) (current : Option ℕ) : Type 0 where
    pub unique_fds : UniqueKeys svr.fds.hash_map
    pub unique_users : UniqueKeys svr.user_data.hash_map
    pub no_fd : svr.fds.def_value ≡ none
    pub no_user : svr.user_data.def_value ≡ none
    pub owned :
        (fd id : ℕ)
        → get_state svr.fds fd ≡ some id
        → (b : Option (List ℕ)) × (shape (item env svr id) ≡ some (fd, b))
    pub emptied :
        (id fd : ℕ) (b : Option (List ℕ))
        → current ≢ some id
        → shape (item env svr id) ≡ some (fd, b)
        → b ≡ some []

  -- The maps are the same, and all accounts keep their connection and their bytes.
  pub record SameShape (s t : MmsServer env) : Type 0 where
    pub fds : t.fds ≡ s.fds
    pub user_data : t.user_data ≡ s.user_data
    pub shapes : (id : ℕ) → shape (item env t id) ≡ shape (item env s id)

  pub SameShape-refl : (s : MmsServer env) → SameShape s s
  SameShape-refl s = record { fds = refl; user_data = refl; shapes = λ id. refl }

  pub SameShape-trans : {s t u : MmsServer env} → SameShape s t → SameShape t u → SameShape s u
  SameShape-trans h g = record {
    fds = g.fds ∙ h.fds;
    user_data = g.user_data ∙ h.user_data;
    shapes = λ id. g.shapes id ∙ h.shapes id;
  }

  pub SameAccounts-SameShape : {s t : MmsServer env} → SameAccounts env s t → SameShape s t
  SameAccounts-SameShape h = record {
    fds = h.fds;
    user_data = h.user_data;
    shapes = λ id. ap (λ (l : List (ItemData env)). shape (get_elem? l id)) h.items;
  }

  -- An update of an account that leaves its connection and its bytes.
  abbrev pub Keeps : (ItemData env → ItemData env) → Type 0
  Keeps f = (i : ItemData env) → shape (some (f i)) ≡ shape (some i)

  pub change-shape :
      (svr : MmsServer env) (id : ℕ) (f : ItemData env → ItemData env) (j : ℕ)
      → (id == j) ≡ false
      → item env (change env svr id f) j ≡ item env svr j
  unfolding change
  change-shape svr id f j other = elim (Option-cases (get_elem? svr.items id)) [
    | inl absent ↦ rw absent refl
    | inr (i, there) ↦ rw there (get_elem?-set_ne svr.items id j (f i) (ne_of_false id j other))
  ]

  pub change-SameShape :
      (svr : MmsServer env) (id : ℕ) (f : ItemData env → ItemData env)
      → Keeps f
      → SameShape svr (change env svr id f)
  unfolding change
  change-SameShape svr id f keeps = record { fds = refl; user_data = refl; shapes = kept }
    where
      kept_at :
          (r : Option (ItemData env))
          → item env svr id ≡ r
          → shape (item env (change env svr id f) id) ≡ shape r
      kept_at none absent = unfold change in rw absent (ap shape absent)
      kept_at (some i) there =
          unfold change in
          rw there (
            ap shape
              (get_elem?-set_self svr.items id (f i) (lt-length_of_some svr.items id i there))
            ∙ keeps i)

      kept : (j : ℕ) → shape (item env (change env svr id f) j) ≡ shape (item env svr j)
      kept j = elim (Bool-cases (id == j)) [
        | inl same ↦ rw (← (==_iff id j).0 same) (kept_at (item env svr id) refl)
        | inr other ↦ ap shape (change-shape svr id f j other)
      ]

  pub SameShape-WellFormed :
      {s t : MmsServer env} {current : Option ℕ}
      → SameShape s t
      → WellFormed s current
      → WellFormed t current
  SameShape-WellFormed {s} {t} h v = record {
    unique_fds = rw h.fds v.unique_fds;
    unique_users = rw h.user_data v.unique_users;
    no_fd = rw h.fds v.no_fd;
    no_user = rw h.user_data v.no_user;
    owned = λ fd id found.
        let (b, there) = v.owned fd id (rw h.fds at found) in (b, h.shapes id ∙ there);
    emptied = λ id fd b away there. v.emptied id fd b away (sym (h.shapes id) ∙ there);
  }
