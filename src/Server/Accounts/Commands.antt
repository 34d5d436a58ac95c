-- ===== src/Server/Accounts/Commands.antt =====
-- src/yymm_svr/cmdproc.cpp and mmsexecmag.cpp: the commands keep the account data well-formed.
use mms_svr.Prelude.{
  ℕ, zero, suc, ◌≡◌, refl, sym, ◌∙◌, Option, none, none≢some, true, ◌==◌, Bool-cases, Option-cases,
  inl, inr,
}
use mms_svr.Prelude.Keys.{nat_eq}
use mms_svr.StateMap.{get_state, del_state}
use mms_svr.StateMap.Laws.{get_state-del_state, state_map-UniqueKeys, def_value-kept}
use mms_svr.Protocol.Commands
use mms_svr.Protocol.Commands.{Cmd}
use mms_svr.Protocol.Read.{ReadResult, ok, rejected, crash}
use mms_svr.Protocol.Compress.{aes_un_format}
use mms_svr.Server.{Env, ItemData, MmsServer, item, send_cmd}
use mms_svr.Server.Shell.{shell_exec, shell_exit, open_url, shell_command}
use mms_svr.Server.Frames.{
  SameAccounts, SameAccounts-refl, SameAccounts-trans, send_cmd-SameAccounts,
  shell_exit-SameAccounts,
}
use mms_svr.Server.Process.{next, unwrapped, on_open_url, on_logout, on_command, next_run}
use mms_svr.Server.Accounts.{
  WellFormed, SameShape, SameShape-refl, SameShape-trans, SameAccounts-SameShape, change-SameShape,
  SameShape-WellFormed,
}

module _ (env : Env) where
  next_inj : (s t : MmsServer env) → next s ≡ next t → s ≡ t
  next_inj s t e = cc

  open_url-SameAccounts :
      (svr : MmsServer env) (fd id : ℕ) → SameAccounts env svr (open_url env svr fd id)
  unfolding open_url
  open_url-SameAccounts svr fd id = elim (Option-cases (item env svr id)) [
    | inl absent ↦ rw (absent, open_url) (SameAccounts-refl env svr)
    | inr (i, there) ↦ rw (there, open_url) (send_cmd-SameAccounts env svr fd _)
  ]

  shell_exec-SameAccounts :
      (svr : MmsServer env) (id : ℕ) → SameAccounts env svr (shell_exec env svr id).0
  unfolding shell_exec
  shell_exec-SameAccounts svr id = elim (Option-cases (item env svr id)) [
    | inl absent ↦ rw (absent, shell_exec) (SameAccounts-refl env svr)
    | inr (i, there) ↦
        rw (there, shell_exec)
          (elim (Bool-cases (i.shell_client_fd == 0)) [
            | inl alone ↦ rw alone (record { items = refl; fds = refl; user_data = refl })
            | inr busy ↦ rw busy (SameAccounts-refl env svr)
          ])
  ]

  -- A command of a shell client changes the shell of one account.
  pub shell_command-SameShape :
      (svr : MmsServer env) (fd : ℕ) (c : Cmd) → SameShape env svr (shell_command env svr fd c)
  unfolding shell_command
  shell_command-SameShape svr fd (Commands.svr_init c) =
      elim (Option-cases (get_state svr.user_data c.yy_id)) [
        | inl absent ↦ rw (absent, shell_command) (SameShape-refl env svr)
        | inr (id, found) ↦
            rw (found, shell_command)
              (SameShape-trans env (change-SameShape env svr id _ (λ j. refl))
                (SameAccounts-SameShape env (open_url-SameAccounts _ fd id)))
      ]
  shell_command-SameShape svr fd _ = SameShape-refl env svr

  on_open_url-SameAccounts :
      (svr : MmsServer env) (fd id : ℕ) (i : ItemData env)
      → SameAccounts env svr (on_open_url env svr fd id i)
  unfolding on_open_url
  on_open_url-SameAccounts svr fd id i = elim (Bool-cases (i.shell_client_fd == 0)) [
    | inl alone ↦
        rw (alone, on_open_url)
          (SameAccounts-trans env (shell_exec-SameAccounts svr id)
            (send_cmd-SameAccounts env (shell_exec env svr id).0 fd _))
    | inr busy ↦
        rw (busy, on_open_url)
          (SameAccounts-trans env (open_url-SameAccounts svr i.shell_client_fd id)
            (send_cmd-SameAccounts env (open_url env svr i.shell_client_fd id) fd _))
  ]

  -- Without one connection and one user id the rest stays well-formed.
  removed-WellFormed :
      (svr : MmsServer env) (fd yy_id : ℕ) (current : Option ℕ)
      → WellFormed env svr current
      → WellFormed env
          (record svr { user_data = del_state svr.user_data yy_id; fds = del_state svr.fds fd })
          current
  removed-WellFormed svr fd yy_id current v = record {
    unique_fds = (state_map-UniqueKeys svr.fds fd none v.unique_fds).1;
    unique_users = (state_map-UniqueKeys svr.user_data yy_id none v.unique_users).1;
    no_fd = (def_value-kept svr.fds fd none).1 ∙ v.no_fd;
    no_user = (def_value-kept svr.user_data yy_id none).1 ∙ v.no_user;
    owned = λ j id found. elim (Bool-cases (fd == j)) [
      | inl same ↦ absurd (
          none≢some (
            sym v.no_fd
            ∙ sym (get_state-del_state svr.fds fd j v.unique_fds ∙ rw same refl)
            ∙ found))
      | inr other ↦
          v.owned j id (sym (get_state-del_state svr.fds fd j v.unique_fds ∙ rw other refl) ∙ found)
    ];
    emptied = v.emptied;
  }

  on_logout-WellFormed :
      (svr : MmsServer env) (fd id : ℕ) (i : ItemData env) (current : Option ℕ)
      → WellFormed env svr current
      → WellFormed env (on_logout env svr fd id i) current
  unfolding on_logout
  on_logout-WellFormed svr fd id i current v =
      let sent : MmsServer env = send_cmd env svr fd (Commands.logout_res i.yy_id) in
      removed-WellFormed (shell_exit env sent id) fd i.yy_id current (
        SameShape-WellFormed env
          (SameAccounts-SameShape env (
            SameAccounts-trans env (send_cmd-SameAccounts env svr fd (Commands.logout_res i.yy_id))
              (shell_exit-SameAccounts env sent id)))
          v)

  on_command-WellFormed :
      (svr svr' : MmsServer env) (fd id : ℕ) (i : ItemData env) (c : Cmd) (current : Option ℕ)
      → WellFormed env svr current
      → on_command env svr fd id i c ≡ next svr'
      → WellFormed env svr' current
  unfolding on_command
  on_command-WellFormed svr svr' fd id i (Commands.comp_rsa c) current v e = cc
  on_command-WellFormed svr svr' fd id i (Commands.login1 c) current v e =
      rw (← next_inj _ svr' e) (
        SameShape-WellFormed env
          (SameShape-trans env (change-SameShape env svr id _ (λ j. refl)) (
            SameAccounts-SameShape env (send_cmd-SameAccounts env _ fd (Commands.login1_res true))))
          v)
  on_command-WellFormed svr svr' fd id i (Commands.logout c) current v e =
      rw (← next_inj _ svr' e) (on_logout-WellFormed svr fd id i current v)
  on_command-WellFormed svr svr' fd id i (Commands.open_url c) current v e =
      rw (← next_inj _ svr' e) (
        SameShape-WellFormed env
          (SameShape-trans env (change-SameShape env svr id _ (λ j. refl))
            (SameAccounts-SameShape env (on_open_url-SameAccounts _ fd id i)))
          v)
  on_command-WellFormed svr svr' fd id i _ current v e = rw (← next_inj svr svr' e) v

  pub next_run-WellFormed :
      (f : ℕ) (svr svr' : MmsServer env) (fd id : ℕ) (i : ItemData env) (c : Cmd)
      (current : Option ℕ)
      → WellFormed env svr current
      → next_run env f svr fd id i c ≡ next svr'
      → WellFormed env svr' current
  unfolding next_run
  next_run-WellFormed zero svr svr' fd id i c current v e = cc
  next_run-WellFormed (suc f) svr svr' fd id i (Commands.comp_aes c) current v e =
      inside (aes_un_format env.parse env.evp env.junk env.aes_lib env.garbage i.aes c.ser_string)
        (λ real e. next_run-WellFormed f svr svr' fd id i real current v e) e
    where
      inside :
          (r : ReadResult Cmd)
          → ((real : Cmd)
              → next_run env f svr fd id i real ≡ next svr'
              → WellFormed env svr' current)
          → unwrapped env svr r (λ real. next_run env f svr fd id i real) ≡ next svr'
          → WellFormed env svr' current
      inside (ok real) after e = after real e
      inside rejected after e = rw (← next_inj svr svr' e) v
      inside crash after e = cc
  next_run-WellFormed (suc f) svr svr' fd id i c current v e =
      on_command-WellFormed svr svr' fd id i c current v e
