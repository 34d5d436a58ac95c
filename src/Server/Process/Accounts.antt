-- ===== src/Server/Process/Accounts.antt =====
-- src/yymm_svr/cmdproc.cpp: what a login and a logout do to the two maps of the account data.
use mms_svr.Prelude.{
  some_inj, inr, inl, ℕ, suc, ◌≡◌, refl, sym, ap, ◌∙◌, List, [], ◌∷◌, ◌++◌, Option, none, some,
  true, false, ◌==◌, length, drop, get_elem?, Bool-cases, ==_refl,
}
use mms_svr.Prelude.Keys.{nat_eq}
use mms_svr.StateMap.{StateMap, add_state, del_state, get_state}
use mms_svr.StateMap.Laws.{UniqueKeys, get_state-add_state, get_state-del_state}
use mms_svr.Protocol.Commands
use mms_svr.Protocol.Commands.{Cmd, Login}
use mms_svr.Protocol.Frame.{success, parse_cmd}
use mms_svr.Server.{closefd, Env, ItemData, MmsServer, item, change, send_cmd, new_item_data}
use mms_svr.Server.Shell.{finished}
use mms_svr.Server.Login.{
  Mysql, on_login, login_state, login_cmd, logged_in, send_key, check_white_list,
}
use mms_svr.Protocol.Read.{ReadResult, ok, rejected, crash}
use mms_svr.Yyssl.Aes.{aes_set_key}
use mms_svr.Protocol.Compress.{rsa_format}
use mms_svr.Yyssl.Rsa.{YyRsa, set_rsa_key_text}
use mms_svr.Server.Frames.{
  SameAccounts-refl, SameAccounts, SameAccounts-trans, send_cmd-SameAccounts,
  shell_exit-SameAccounts, closefd-SameAccounts, change-maps, item-change,
}
use mms_svr.Server.Process.{on_logout, on_command, next_run, turn, turned, json_loop}

pub last_elem : {A : Type 0} (xs : List A) (x : A) → get_elem? (xs ++ (x ∷ [])) (length xs) ≡ some x
last_elem [] x = refl
last_elem (y ∷ xs) x = last_elem xs x

module _ (env : Env) where
  on_logout-maps :
      (svr : MmsServer env) (fd id : ℕ) (i : ItemData env)
      → ((on_logout env svr fd id i).fds ≡ del_state svr.fds fd)
        × ((on_logout env svr fd id i).user_data ≡ del_state svr.user_data i.yy_id)
  unfolding on_logout
  on_logout-maps svr fd id i =
      let sent : MmsServer env = send_cmd env svr fd (Commands.logout_res i.yy_id) in
      let same =
        SameAccounts-trans env (send_cmd-SameAccounts env svr fd (Commands.logout_res i.yy_id))
          (shell_exit-SameAccounts env sent id) in
      (
        ap (λ (m : StateMap ℕ (Option ℕ)). del_state m fd) same.fds,
        ap (λ (m : StateMap ℕ (Option ℕ)). del_state m i.yy_id) same.user_data,
      )

  logout_turn :
      (nest : ℕ) (svr : MmsServer env) (fd id yy_id offset : ℕ) (i : ItemData env) (buf : List ℕ)
      (mysql : Mysql)
      → item env svr id ≡ some i
      → turn env (suc nest) svr fd (some id) buf mysql (success (Commands.logout yy_id) offset)
        ≡ turned (on_logout env svr fd id i) (some id) (drop offset buf)
  unfolding turn next_run on_command
  logout_turn nest svr fd id yy_id offset i buf mysql there = rw there refl

  -- A logout that is the last command of the buffer ends the loop, and afterwards neither the connection nor
  -- the user id leads to account data; all other connections keep theirs.
  pub json_loop_logout :
      (nest f : ℕ) (svr : MmsServer env) (fd id yy_id offset : ℕ) (i : ItemData env) (buf : List ℕ)
      (mysql : Mysql)
      → UniqueKeys svr.fds.hash_map
      → UniqueKeys svr.user_data.hash_map
      → item env svr id ≡ some i
      → parse_cmd env.parse env.evp env.junk buf 0 ≡ success (Commands.logout yy_id) offset
      → drop offset buf ≡ []
      → (svr' : MmsServer env) × (json_loop env (suc nest) (suc f) svr fd (some id) buf mysql
          ≡ finished svr')
        × (get_state svr'.fds fd ≡ svr.fds.def_value)
        × (get_state svr'.user_data i.yy_id ≡ svr.user_data.def_value)
        × ((j : ℕ) → (fd == j) ≡ false → get_state svr'.fds j ≡ get_state svr.fds j)
  unfolding json_loop
  json_loop_logout nest f svr fd id yy_id offset i buf mysql unique_fds unique_users there parsed
        last =
      let after : MmsServer env = on_logout env svr fd id i in
      let (fds_after, users_after) = on_logout-maps svr fd id i in
      (
        change env after id (λ j. record j { readbuffer = some [] }),
        rw (parsed, logout_turn nest svr fd id yy_id offset i buf mysql there, last) refl,
        unfold change in
            (ap (λ (m : StateMap ℕ (Option ℕ)). get_state m fd) fds_after
              ∙ get_state-del_state svr.fds fd fd unique_fds
              ∙ rw (==_refl fd) refl),
        unfold change in
            (ap (λ (m : StateMap ℕ (Option ℕ)). get_state m i.yy_id) users_after
              ∙ get_state-del_state svr.user_data i.yy_id i.yy_id unique_users
              ∙ rw (==_refl i.yy_id) refl),
        λ j other.
            unfold change in
            (ap (λ (m : StateMap ℕ (Option ℕ)). get_state m j) fds_after
              ∙ get_state-del_state svr.fds fd j unique_fds
              ∙ rw other refl),
      )

  pub send_key-SameAccounts :
      (s s' : MmsServer env) (fd : ℕ) (r : ReadResult (List ℕ))
      → send_key env s fd r ≡ some s'
      → SameAccounts env s s'
  send_key-SameAccounts s s' fd (ok text) e =
      rw (← some_inj _ s' e) (send_cmd-SameAccounts env s fd _)
  send_key-SameAccounts s s' fd rejected e = rw (← some_inj s s' e) (SameAccounts-refl env s)
  send_key-SameAccounts s s' fd crash e = cc

  -- The account of a login: known by its connection, with the data of the command.
  pub record IsAccount (svr : MmsServer env) (id fd : ℕ) (login : Login) : Type 0 where
    pub account : ItemData env
    pub stored : item env svr id ≡ some account
    pub same_fd : account.fd ≡ fd
    pub same_user : account.yy_id ≡ login.yy_id
    pub same_token : account.token ≡ login.token
    pub same_key : account.rsa_str ≡ login.rsakey
    pub key_set :
        (old : YyRsa env.rsa_lib) × (account.rsa ≡ set_rsa_key_text env.rsa_lib old login.rsakey [])

  IsAccount-kept :
      (s t : MmsServer env) (id fd : ℕ) (login : Login)
      → SameAccounts env s t
      → IsAccount s id fd login
      → IsAccount t id fd login
  IsAccount-kept s t id fd login same a = record {
    account = a.account;
    stored = ap (λ (l : List (ItemData env)). get_elem? l id) same.items ∙ a.stored;
    same_fd = a.same_fd;
    same_user = a.same_user;
    same_token = a.same_token;
    same_key = a.same_key;
    key_set = a.key_set;
  }

  -- `LoginCmd` changes the key of one account and sends an answer.
  login_cmd-maps :
      (svr svr' : MmsServer env) (fd id : ℕ) (login : Login) (mysql : Mysql)
      → IsAccount svr id fd login
      → login_cmd env svr fd id mysql ≡ some svr'
      → (svr'.fds ≡ svr.fds) × (svr'.user_data ≡ svr.user_data) × IsAccount svr' id fd login
  unfolding login_cmd
  login_cmd-maps svr svr' fd id login mysql a ran =
      elim (Bool-cases (check_white_list a.account.uid mysql)) [
        | inl welcome ↦
            let keyed : MmsServer env = change env svr id (λ j. record j {
              aes = aes_set_key env.aes_lib j.aes (some (env.gen_aes_key svr.logins));
            }) in
            let same : SameAccounts env keyed svr' =
              send_key-SameAccounts keyed svr' fd
                (rsa_format env.parse env.evp env.junk env.rsa_lib env.rsa_garbage a.account.rsa (
                  some (
                    Commands.login_res
                      (record { token_succ = true; aeskey = env.gen_aes_key svr.logins }))))
                (sym (rw (a.stored, login_cmd) (rw welcome refl)) ∙ ran) in
            let keyed_account : IsAccount keyed id fd login = record {
              account = record a.account {
                aes = aes_set_key env.aes_lib a.account.aes (some (env.gen_aes_key svr.logins));
              };
              stored = item-change env svr id _ a.account a.stored;
              same_fd = a.same_fd;
              same_user = a.same_user;
              same_token = a.same_token;
              same_key = a.same_key;
              key_set = a.key_set;
            } in
            let (fds, users) = change-maps env svr id (λ j. record j {
              aes = aes_set_key env.aes_lib j.aes (some (env.gen_aes_key svr.logins));
            }) in
            (
              same.fds ∙ fds,
              same.user_data ∙ users,
              IsAccount-kept keyed svr' id fd login same keyed_account,
            )
        | inr barred ↦
            let refusal : Cmd = Commands.login_res (record { token_succ = false; aeskey = [] }) in
            let same : SameAccounts env svr svr' =
              rw
                (← some_inj (closefd env (send_cmd env svr fd refusal) fd) svr'
                  (sym (rw (a.stored, login_cmd) (rw barred refl)) ∙ ran))
                (SameAccounts-trans env (send_cmd-SameAccounts env svr fd refusal)
                  (closefd-SameAccounts env (send_cmd env svr fd refusal) fd)) in
            (same.fds, same.user_data, IsAccount-kept svr svr' id fd login same a)
      ]

  changed-IsAccount :
      (svr : MmsServer env) (id fd tick : ℕ) (login : Login) (i : ItemData env) (n : ℕ)
      → item env svr id ≡ some i
      → i.fd ≡ fd
      → IsAccount (record (change env svr id (logged_in env login tick)) { logins = n }) id fd login
  changed-IsAccount svr id fd tick login i n there same = record {
    account = logged_in env login tick i;
    stored = item-change env svr id (logged_in env login tick) i there;
    same_fd = same;
    same_user = refl;
    same_token = refl;
    same_key = refl;
    key_set = (i.rsa, refl);
  }

  -- After a login on a connection without account data that does not end the process, the connection and the user
  -- id of the command lead to the same new account, which holds the connection, the user id, the token and the
  -- text of the key of the command, and whose RSA keys were set from that text; no other connection's account data
  -- changed place.
  pub on_login-registers :
      (svr svr' : MmsServer env) (fd : ℕ) (login : Login) (buf : List ℕ) (mysql : Mysql)
      → (on_login env svr fd none login buf mysql).0 ≡ some svr'
      → (get_state svr'.fds fd ≡ some (length svr.items))
        × (get_state svr'.user_data login.yy_id ≡ some (length svr.items))
        × IsAccount svr' (length svr.items) fd login
        × ((j : ℕ) → (fd == j) ≡ false → get_state svr'.fds j ≡ get_state svr.fds j)
  unfolding on_login login_state
  on_login-registers svr svr' fd login buf mysql ran =
      let id : ℕ = length svr.items in
      let tick : ℕ = env.get_tick_count svr.logins in
      let fresh : ItemData env = record (new_item_data env) { fd = fd; readbuffer = some buf } in
      let svr1 : MmsServer env = record svr {
        items = svr.items ++ (fresh ∷ []);
        fds = add_state svr.fds fd (some id);
        user_data = add_state svr.user_data login.yy_id (some id);
      } in
      let there : item env svr1 id ≡ some fresh = last_elem svr.items fresh in
      let (fds, users, a) =
        login_cmd-maps _ svr' fd id login mysql
          (changed-IsAccount svr1 id fd tick login fresh _ there refl) ran in
      let (fds1, users1) = change-maps env svr1 id (logged_in env login tick) in
      (
        ap (λ (m : StateMap ℕ (Option ℕ)). get_state m fd) (fds ∙ fds1)
            ∙ get_state-add_state svr.fds fd fd (some id)
            ∙ rw (==_refl fd) refl,
        ap (λ (m : StateMap ℕ (Option ℕ)). get_state m login.yy_id) (users ∙ users1)
            ∙ get_state-add_state svr.user_data login.yy_id login.yy_id (some id)
            ∙ rw (==_refl login.yy_id) refl,
        a,
        λ j other.
            ap (λ (m : StateMap ℕ (Option ℕ)). get_state m j) (fds ∙ fds1)
            ∙ get_state-add_state svr.fds fd j (some id)
            ∙ rw other refl,
      )

  -- A second login on a connection that has account data, and which does not end the process,
  -- changes the account to the data of the command and leaves the map of the user ids as it was.
  pub on_login_again :
      (svr svr' : MmsServer env) (fd id : ℕ) (i : ItemData env) (login : Login) (buf : List ℕ)
      (mysql : Mysql)
      → item env svr id ≡ some i
      → i.fd ≡ fd
      → (on_login env svr fd (some id) login buf mysql).0 ≡ some svr'
      → IsAccount svr' id fd login × (svr'.user_data ≡ svr.user_data)
  unfolding on_login login_state
  on_login_again svr svr' fd id i login buf mysql there same ran =
      let tick : ℕ = env.get_tick_count svr.logins in
      let (fds, users, a) =
        login_cmd-maps _ svr' fd id login mysql
          (changed-IsAccount svr id fd tick login i _ there same) ran in
      (a, users ∙ (change-maps env svr id (logged_in env login tick)).1)
