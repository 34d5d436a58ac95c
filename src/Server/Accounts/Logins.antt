-- ===== src/Server/Accounts/Logins.antt =====
-- src/yymm_svr/cmdproc.cpp: a login keeps the account data well-formed.
use mms_svr.Protocol.Compress.{rsa_format}
use mms_svr.Prelude.{
  some_inj, true, ℕ, zero, suc, ◌≡◌, ◌≢◌, ◌<◌, refl, sym, ap, ◌∙◌, List, [], ◌∷◌, ◌++◌, Option,
  none, some, none≢some, false, ◌==◌, Bool-cases, Option-cases, inl, inr, ==_iff, length,
  lt-length_of_some, get_elem?, arith,
}
use mms_svr.Prelude.Keys.{nat_eq}
use mms_svr.StateMap.{get_state, add_state}
use mms_svr.StateMap.Laws.{get_state-add_state, state_map-UniqueKeys, def_value-kept}
use mms_svr.Yyssl.Aes.{aes_set_key}
use mms_svr.Protocol.Commands
use mms_svr.Protocol.Commands.{Cmd, Login}
use mms_svr.Server.{Env, ItemData, MmsServer, item, change, send_cmd, closefd, new_item_data}
use mms_svr.Server.Login.{Mysql, on_login, login_state, login_cmd, logged_in, check_white_list}
use mms_svr.Server.Frames.{SameAccounts-trans, send_cmd-SameAccounts, closefd-SameAccounts}
use mms_svr.Server.Process.Accounts.{send_key-SameAccounts, last_elem}
use mms_svr.Server.Accounts.{
  shape, WellFormed, SameShape, SameShape-refl, SameShape-trans, SameAccounts-SameShape,
  change-SameShape, SameShape-WellFormed,
}

snoc_elem :
    {A : Type 0} (xs : List A) (x : A) (j : ℕ)
    → j ≢ length xs
    → get_elem? (xs ++ (x ∷ [])) j ≡ get_elem? xs j
snoc_elem [] x zero away = absurd (away refl)
snoc_elem [] x (suc j) away = refl
snoc_elem (y ∷ ys) x zero away = refl
snoc_elem (y ∷ ys) x (suc j) away = snoc_elem ys x j (λ e. away (ap suc e))

lt-ne : (x y : ℕ) → x < y → x ≢ y
lt-ne x y lt e = omega (arith, lt, e)

module _ (env : Env) where
  shape_index :
      (svr : MmsServer env) (id fd : ℕ) (b : Option (List ℕ))
      → shape env (item env svr id) ≡ some (fd, b)
      → id < length svr.items
  shape_index svr id fd b there = elim (Option-cases (item env svr id)) [
    | inl absent ↦ absurd (none≢some (ap (shape env) (sym absent) ∙ there))
    | inr (i, found) ↦ lt-length_of_some svr.items id i found
  ]

  login_cmd-SameShape :
      (svr svr' : MmsServer env) (fd id : ℕ) (mysql : Mysql)
      → login_cmd env svr fd id mysql ≡ some svr'
      → SameShape env svr svr'
  unfolding login_cmd
  login_cmd-SameShape svr svr' fd id mysql ran = elim (Option-cases (item env svr id)) [
    | inl absent ↦
        rw (← some_inj svr svr' (sym (rw (absent, login_cmd) refl) ∙ ran)) (SameShape-refl env svr)
    | inr (i, there) ↦ elim (Bool-cases (check_white_list i.uid mysql)) [
      | inl welcome ↦ SameShape-trans env (change-SameShape env svr id _ (λ j. refl)) (
          SameAccounts-SameShape env (
            send_key-SameAccounts env
              (change env svr id (λ j. record j {
                aes = aes_set_key env.aes_lib j.aes (some (env.gen_aes_key svr.logins));
              }))
              svr' fd
              (rsa_format env.parse env.evp env.junk env.rsa_lib env.rsa_garbage i.rsa (
                some (
                  Commands.login_res
                    (record { token_succ = true; aeskey = env.gen_aes_key svr.logins }))))
              (sym (rw (there, login_cmd) (rw welcome refl)) ∙ ran)))
      | inr barred ↦
          let refusal : Cmd = Commands.login_res (record { token_succ = false; aeskey = [] }) in
          rw
            (← some_inj (closefd env (send_cmd env svr fd refusal) fd) svr'
              (sym (rw (there, login_cmd) (rw barred refl)) ∙ ran))
            (SameAccounts-SameShape env (
              SameAccounts-trans env (send_cmd-SameAccounts env svr fd refusal)
                (closefd-SameAccounts env (send_cmd env svr fd refusal) fd)))
    ]
  ]

  login_state-WellFormed :
      (svr : MmsServer env) (fd : ℕ) (state : Option ℕ) (yy_id : ℕ) (buf : List ℕ)
      → WellFormed env svr state
      → let (svr1, id) = login_state env svr fd state yy_id buf in WellFormed env svr1 (some id)
  unfolding login_state
  login_state-WellFormed svr fd (some state) yy_id buf v = v
  login_state-WellFormed svr fd none yy_id buf v = record {
    unique_fds = (state_map-UniqueKeys svr.fds fd (some n) v.unique_fds).0;
    unique_users = (state_map-UniqueKeys svr.user_data yy_id (some n) v.unique_users).0;
    no_fd = (def_value-kept svr.fds fd (some n)).0 ∙ v.no_fd;
    no_user = (def_value-kept svr.user_data yy_id (some n)).0 ∙ v.no_user;
    owned = owned_after;
    emptied = λ id j b away there.
        v.emptied id j b (λ e. none≢some e)
          (ap (shape env) (sym (snoc_elem svr.items fresh id (λ e. away (ap some (sym e)))))
            ∙ there);
  }
    where
      n : ℕ
      n = length svr.items

      fresh : ItemData env
      fresh = record (new_item_data env) { fd = fd; readbuffer = some buf }

      owned_after :
          (j id : ℕ)
          → get_state (add_state svr.fds fd (some n)) j ≡ some id
          → (b : Option (List ℕ)) × (shape env (get_elem? (svr.items ++ (fresh ∷ [])) id)
              ≡ some (j, b))
      owned_after j id found = elim (Bool-cases (fd == j)) [
        | inl same ↦
            let mine : n ≡ id =
              some_inj n id
                (sym (get_state-add_state svr.fds fd j (some n) ∙ rw same refl) ∙ found) in
            (
              some buf,
              rw (← mine, ← (==_iff fd j).0 same) (ap (shape env) (last_elem svr.items fresh)),
            )
        | inr other ↦
            let (b, there) =
              v.owned j id
                (sym (get_state-add_state svr.fds fd j (some n) ∙ rw other refl) ∙ found) in
            (
              b,
              ap (shape env) (
                    snoc_elem svr.items fresh id (λ e. lt-ne id n (shape_index svr id j b there) e))
                  ∙ there,
            )
      ]

  pub on_login-WellFormed :
      (svr svr' : MmsServer env) (fd : ℕ) (state : Option ℕ) (login : Login) (buf : List ℕ)
      (mysql : Mysql)
      → WellFormed env svr state
      → (on_login env svr fd state login buf mysql).0 ≡ some svr'
      → WellFormed env svr' (some (on_login env svr fd state login buf mysql).1)
  unfolding on_login
  on_login-WellFormed svr svr' fd state login buf mysql v ran =
      let (svr1, id) = login_state env svr fd state login.yy_id buf in
      let v1 = login_state-WellFormed svr fd state login.yy_id buf v in
      let changed =
        change-SameShape env svr1 id (logged_in env login (env.get_tick_count svr1.logins))
          (λ j. refl) in
      SameShape-WellFormed env
        (SameShape-trans env
          (record { fds = changed.fds; user_data = changed.user_data; shapes = changed.shapes })
          (login_cmd-SameShape _ svr' fd id mysql ran))
        v1

  -- A second login changes no account's connection or bytes.
  pub on_login-SameShape :
      (svr svr' : MmsServer env) (fd id : ℕ) (login : Login) (buf : List ℕ) (mysql : Mysql)
      → (on_login env svr fd (some id) login buf mysql).0 ≡ some svr'
      → SameShape env svr svr'
  unfolding on_login login_state
  on_login-SameShape svr svr' fd id login buf mysql ran =
      let changed =
        change-SameShape env svr id (logged_in env login (env.get_tick_count svr.logins))
          (λ j. refl) in
      SameShape-trans env
        (record { fds = changed.fds; user_data = changed.user_data; shapes = changed.shapes })
        (login_cmd-SameShape _ svr' fd id mysql ran)
