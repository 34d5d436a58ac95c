-- ===== src/Server/Frames.antt =====
-- src/yymm_svr/cmdproc.cpp and mmsexecmag.cpp: what sending a command leaves alone.
use mms_svr.Prelude.{
  inr, inl, ℕ, ◌≡◌, refl, ◌∙◌, [], some, ◌==◌, length, Option-cases, Bool-cases, get_elem?-set_self,
  lt-length_of_some,
}
use mms_svr.Protocol.Commands.{Cmd}
use mms_svr.Protocol.Frame.{format_cmd}
use mms_svr.Server.{Env, ItemData, MmsServer, item, change, send_cmd, closefd}
use mms_svr.Server.Shell.{shell_exit}

module _ (env : Env) where
  -- The account data and the maps are the same.
  pub record SameAccounts (s t : MmsServer env) : Type 0 where
    pub items : t.items ≡ s.items
    pub fds : t.fds ≡ s.fds
    pub user_data : t.user_data ≡ s.user_data

  pub SameAccounts-refl : (s : MmsServer env) → SameAccounts s s
  SameAccounts-refl s = record { items = refl; fds = refl; user_data = refl }

  pub SameAccounts-trans :
      {s t u : MmsServer env} → SameAccounts s t → SameAccounts t u → SameAccounts s u
  SameAccounts-trans h g = record {
    items = g.items ∙ h.items;
    fds = g.fds ∙ h.fds;
    user_data = g.user_data ∙ h.user_data;
  }

  pub send_cmd-SameAccounts :
      (svr : MmsServer env) (fd : ℕ) (c : Cmd) → SameAccounts svr (send_cmd env svr fd c)
  unfolding send_cmd
  send_cmd-SameAccounts svr fd c = elim (Option-cases (format_cmd env.evp (some c) [])) [
    | inl unprinted ↦ rw (unprinted, send_cmd) (SameAccounts-refl svr)
    | inr (str, printed) ↦
        rw (printed, send_cmd)
          (elim (Bool-cases (length str == 0)) [
            | inl empty ↦ rw empty (SameAccounts-refl svr)
            | inr full ↦ rw full (record { items = refl; fds = refl; user_data = refl })
          ])
  ]

  pub closefd-SameAccounts : (svr : MmsServer env) (fd : ℕ) → SameAccounts svr (closefd env svr fd)
  unfolding closefd
  closefd-SameAccounts svr fd = record { items = refl; fds = refl; user_data = refl }

  pub shell_exit-SameAccounts :
      (svr : MmsServer env) (id : ℕ) → SameAccounts svr (shell_exit env svr id)
  unfolding shell_exit
  shell_exit-SameAccounts svr id = elim (Option-cases (item env svr id)) [
    | inl absent ↦ rw (absent, shell_exit) (SameAccounts-refl svr)
    | inr (i, there) ↦
        rw (there, shell_exit)
          (elim (Bool-cases (i.shell_client_fd == 0)) [
            | inl alone ↦ rw alone (SameAccounts-refl svr)
            | inr connected ↦ rw connected (send_cmd-SameAccounts svr i.shell_client_fd _)
          ])
  ]

  pub change-maps :
      (svr : MmsServer env) (id : ℕ) (f : ItemData env → ItemData env)
      → ((change env svr id f).fds ≡ svr.fds) × ((change env svr id f).user_data ≡ svr.user_data)
  unfolding change
  change-maps svr id f = (refl, refl)

  pub item-change :
      (svr : MmsServer env) (id : ℕ) (f : ItemData env → ItemData env) (i : ItemData env)
      → item env svr id ≡ some i
      → item env (change env svr id f) id ≡ some (f i)
  unfolding change
  item-change svr id f i there =
      rw there (get_elem?-set_self svr.items id (f i) (lt-length_of_some svr.items id i there))
