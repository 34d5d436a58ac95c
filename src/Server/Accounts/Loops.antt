-- ===== src/Server/Accounts/Loops.antt =====
-- src/yymm_svr/cmdproc.cpp, mmsexecmag.cpp and yymms_svr.cpp: a buffer that is processed leaves the account data
-- well-formed.
use mms_svr.Prelude.{some_inj, ne_of_false}
use mms_svr.Prelude.{
  ℕ, zero, suc, ◌≡◌, refl, sym, ap, ◌∙◌, List, [], ◌∷◌, Option, none, some, none≢some, ◌==◌, drop,
  Bool-cases, Option-cases, inl, inr, ==_iff,
}
use mms_svr.Prelude.Keys.{nat_eq}
use mms_svr.StateMap.{get_state}
use mms_svr.Protocol.Commands
use mms_svr.Protocol.Commands.{Cmd}
use mms_svr.Protocol.Frame.{Parsed, success, crashed, parse_cmd}
use mms_svr.Server.{Env, ItemData, MmsServer, item, change}
use mms_svr.Server.Frames.{closefd-SameAccounts, item-change}
use mms_svr.Server.Shell.{
  Run, finished, died, stuck, shell_command, shell_step, shell_next, process_mms_exec_data,
}
use mms_svr.Server.Login.{Mysql, on_login}
use mms_svr.Server.Boss.{BossInfo}
use mms_svr.Server.Close.{process_data}
use mms_svr.Server.Process.{
  Done, next, dies, loops, next_run, of_done, of_login, on_other, Turn, turned, gone, out_of_fuel,
  turn, turn_again, gathered, json_loop, json_process,
}
use mms_svr.Server.Accounts.{
  shape, WellFormed, SameAccounts-SameShape, change-shape, SameShape-WellFormed,
}
use mms_svr.Server.Accounts.Logins.{on_login-WellFormed}
use mms_svr.Server.Accounts.Commands.{shell_command-SameShape, next_run-WellFormed}

module _ (env : Env) where
  -- Whatever account comes to be the current one, the others still keep no bytes.
  weaken :
      (svr : MmsServer env) (current : Option ℕ)
      → WellFormed env svr none
      → WellFormed env svr current
  weaken svr current v = record {
    unique_fds = v.unique_fds;
    unique_users = v.unique_users;
    no_fd = v.no_fd;
    no_user = v.no_user;
    owned = v.owned;
    emptied = λ id fd b away there. v.emptied id fd b (λ e. none≢some e) there;
  }

  abbrev TurnKeeps : Turn env → Type 0
  TurnKeeps (turned svr state buf) = WellFormed env svr state
  TurnKeeps gone = Unit {0}
  TurnKeeps out_of_fuel = Unit {0}

  abbrev RunKeeps : Run env → Type 0
  RunKeeps (finished svr) = WellFormed env svr none
  RunKeeps died = Unit {0}
  RunKeeps stuck = Unit {0}

  login-Keeps :
      (r : Option (MmsServer env) × ℕ) (buf : List ℕ)
      → ((svr : MmsServer env) → r.0 ≡ some svr → WellFormed env svr (some r.1))
      → TurnKeeps (of_login env r buf)
  login-Keeps (none, id) buf h = tt
  login-Keeps (some svr, id) buf h = h svr refl

  done-Keeps :
      (d : Done env) (state : Option ℕ) (buf : List ℕ)
      → ((svr : MmsServer env) → d ≡ next svr → WellFormed env svr state)
      → TurnKeeps (of_done env d state buf)
  done-Keeps (next svr) state buf h = h svr refl
  done-Keeps dies state buf h = tt
  done-Keeps loops state buf h = tt

  other-Keeps :
      (nest : ℕ) (svr : MmsServer env) (fd id : ℕ) (i : Option (ItemData env)) (c : Cmd)
      (buf : List ℕ)
      → WellFormed env svr (some id)
      → TurnKeeps (on_other env nest svr fd id i c buf)
  other-Keeps nest svr fd id none c buf v = v
  other-Keeps nest svr fd id (some i) c buf v =
      done-Keeps (next_run env nest svr fd id i c) (some id) buf
        (λ svr' e. next_run-WellFormed env nest svr svr' fd id i c (some id) v e)

  turn-Keeps :
      (nest : ℕ) (svr : MmsServer env) (fd : ℕ) (state : Option ℕ) (buf : List ℕ) (mysql : Mysql)
      (p : Parsed)
      → WellFormed env svr state
      → TurnKeeps (turn env nest svr fd state buf mysql p)
  unfolding turn
  turn-Keeps nest svr fd state buf mysql (success (Commands.login c) offset) v =
      login-Keeps (on_login env svr fd state c buf mysql) (drop offset buf)
        (λ svr' e. on_login-WellFormed env svr svr' fd state c buf mysql v e)
  turn-Keeps nest svr fd none buf mysql (success c offset) v = v
  turn-Keeps nest svr fd (some id) buf mysql (success c offset) v =
      other-Keeps nest svr fd id (item env svr id) c (drop offset buf) v
  turn-Keeps nest svr fd state buf mysql crashed v = tt
  turn-Keeps nest svr fd state buf mysql _ v =
      SameShape-WellFormed env (SameAccounts-SameShape env (closefd-SameAccounts env svr fd)) v

  abbrev wipe : ItemData env → ItemData env
  wipe i = record i { readbuffer = some [] }

  wiped :
      (svr : MmsServer env) (id fd : ℕ) (b : Option (List ℕ))
      → shape env (item env svr id) ≡ some (fd, b)
      → shape env (item env (change env svr id wipe) id) ≡ some (fd, some [])
  wiped svr id fd b there = elim (Option-cases (item env svr id)) [
    | inl absent ↦ absurd (none≢some (ap (shape env) (sym absent) ∙ there))
    | inr (i, found) ↦
        ap (shape env) (item-change env svr id wipe i found)
        ∙ ap (λ (j : ℕ). some (j, some [])) (same_fd i (ap (shape env) (sym found) ∙ there))
  ]
    where
      same_fd : (i : ItemData env) → shape env (some i) ≡ some (fd, b) → i.fd ≡ fd
      same_fd i e = cc

  wiped_bytes :
      (svr : MmsServer env) (id fd : ℕ) (b : Option (List ℕ))
      → shape env (item env (change env svr id wipe) id) ≡ some (fd, b)
      → b ≡ some []
  wiped_bytes svr id fd b there = elim (Option-cases (item env svr id)) [
    | inl absent ↦
        let gone_too : item env (change env svr id wipe) id ≡ none =
          unfold change in rw absent absent in
        absurd (none≢some (ap (shape env) (sym gone_too) ∙ there))
    | inr (i, found) ↦ bytes i (ap (shape env) (sym (item-change env svr id wipe i found)) ∙ there)
  ]
    where
      bytes : (i : ItemData env) → shape env (some (wipe i)) ≡ some (fd, b) → b ≡ some []
      bytes i e = cc

  leave-WellFormed :
      (svr : MmsServer env) (id : ℕ)
      → WellFormed env svr (some id)
      → WellFormed env (change env svr id wipe) none
  leave-WellFormed svr id v = record {
    unique_fds = unfold change in v.unique_fds;
    unique_users = unfold change in v.unique_users;
    no_fd = unfold change in v.no_fd;
    no_user = unfold change in v.no_user;
    owned = λ fd j found.
        let (b, there) = v.owned fd j (unfold change in found) in
        elim (Bool-cases (id == j)) [
          | inl same ↦
              let e : id ≡ j = (==_iff id j).0 same in
              (some [], rw (← e) (wiped svr id fd b (rw (← e) at there)))
          | inr other ↦ (b, ap (shape env) (change-shape env svr id wipe j other) ∙ there)
        ];
    emptied = λ j fd b away there. elim (Bool-cases (id == j)) [
      | inl same ↦ wiped_bytes svr id fd b (rw (← (==_iff id j).0 same) at there)
      | inr other ↦
          v.emptied j fd b (λ e. ne_of_false id j other (some_inj id j e))
            (sym (ap (shape env) (change-shape env svr id wipe j other)) ∙ there)
    ];
  }

  again-Keeps :
      (t : Turn env) (k : MmsServer env → Option ℕ → List ℕ → Run env)
      → TurnKeeps t
      → ((svr : MmsServer env) (state : Option ℕ) (buf : List ℕ)
          → WellFormed env svr state
          → RunKeeps (k svr state buf))
      → RunKeeps (turn_again env t k)
  again-Keeps (turned svr none []) k v h = v
  again-Keeps (turned svr (some id) []) k v h = leave-WellFormed svr id v
  again-Keeps (turned svr state (x ∷ buf)) k v h = h svr state (x ∷ buf) v
  again-Keeps gone k v h = tt
  again-Keeps out_of_fuel k v h = tt

  json_loop-Keeps :
      (nest f : ℕ) (svr : MmsServer env) (fd : ℕ) (state : Option ℕ) (buf : List ℕ) (mysql : Mysql)
      → WellFormed env svr state
      → RunKeeps (json_loop env nest f svr fd state buf mysql)
  unfolding json_loop
  json_loop-Keeps nest zero svr fd state buf mysql v = tt
  json_loop-Keeps nest (suc f) svr fd state buf mysql v =
      again-Keeps
        (turn env nest svr fd state buf mysql (parse_cmd env.parse env.evp env.junk buf 0)) _
        (turn-Keeps nest svr fd state buf mysql (parse_cmd env.parse env.evp env.junk buf 0) v)
        (λ svr' state' buf' v'. json_loop-Keeps nest f svr' fd state' buf' mysql v')

  json_process-Keeps :
      (nest f : ℕ) (svr : MmsServer env) (fd : ℕ) (buf : Option (List ℕ)) (mysql : Mysql)
      → WellFormed env svr none
      → RunKeeps (json_process env nest f svr fd buf mysql)
  unfolding json_process
  json_process-Keeps nest f svr fd none mysql v = v
  json_process-Keeps nest f svr fd (some buf) mysql v = elim (Bool-cases (fd == 0)) [
    | inl unreal ↦ rw unreal v
    | inr real ↦ rw real (
        json_loop-Keeps nest f svr fd (get_state svr.fds fd)
          (gathered env svr (get_state svr.fds fd) buf) mysql (weaken svr (get_state svr.fds fd) v))
  ]

  shell-Keeps :
      (f : ℕ) (svr : MmsServer env) (fd : ℕ) (buf : List ℕ)
      → WellFormed env svr none
      → RunKeeps (process_mms_exec_data env f svr fd buf)
  unfolding process_mms_exec_data
  shell-Keeps zero svr fd buf v = tt
  shell-Keeps (suc f) svr fd buf v =
      step_keeps (λ t rest w. shell-Keeps f t fd rest w)
        (parse_cmd env.parse env.evp env.junk buf 0)
    where
      next_keeps :
          ((t : MmsServer env) (rest : List ℕ)
            → WellFormed env t none
            → RunKeeps (process_mms_exec_data env f t fd rest))
          → (t : MmsServer env) (rest : List ℕ) → WellFormed env t none
          → RunKeeps (
              shell_next env
                (some (t, rest))
                (λ svr' buf'. process_mms_exec_data env f svr' fd buf'))
      next_keeps h t [] w = w
      next_keeps h t (x ∷ rest) w = h t (x ∷ rest) w

      step_keeps :
          ((t : MmsServer env) (rest : List ℕ)
            → WellFormed env t none
            → RunKeeps (process_mms_exec_data env f t fd rest))
          → (p : Parsed)
          → RunKeeps (
              shell_next env
                (shell_step env svr fd buf p)
                (λ svr' buf'. process_mms_exec_data env f svr' fd buf'))
      step_keeps h (success c offset) =
          next_keeps h (shell_command env svr fd c) (drop offset buf)
            (SameShape-WellFormed env (shell_command-SameShape env svr fd c) v)
      step_keeps h crashed = tt
      step_keeps h _ = v

  data-Keeps :
      (nest f : ℕ) (svr : MmsServer env) (info : BossInfo) (mysql : Mysql)
      → WellFormed env svr none
      → RunKeeps (process_data env nest f svr info mysql)
  unfolding process_data
  data-Keeps nest f svr info mysql v = elim (Option-cases info.buf) [
    | inl nothing ↦ rw (nothing, process_data) v
    | inr (buf, there) ↦
        rw (there, process_data)
          (elim (Bool-cases (info.port == env.mangport)) [
            | inl managed ↦ rw managed (shell-Keeps f svr info.fd buf v)
            | inr client ↦ rw client (json_process-Keeps nest f svr info.fd (some buf) mysql v)
          ])
  ]

  -- When a worker has processed a buffer, of whatever bytes and from a client or a shell client, the account
  -- data is well-formed if it was: each connection leads to an account of its own that knows it, no key stands
  -- twice, and no account keeps bytes.
  pub process_data-WellFormed :
      (nest f : ℕ) (svr svr' : MmsServer env) (info : BossInfo) (mysql : Mysql)
      → WellFormed env svr none
      → process_data env nest f svr info mysql ≡ finished svr'
      → WellFormed env svr' none
  process_data-WellFormed nest f svr svr' info mysql v ran =
      rw ran at (data-Keeps nest f svr info mysql v)
