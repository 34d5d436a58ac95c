-- ===== src/Server/Login.antt =====
-- src/yymm_svr/cmdproc.cpp: `LoginCmd` and `CheckWhiteList`, and the login branch of `JsonProcess`.
use mms_svr.Prelude.{
  ℕ, suc, List, [], ◌∷◌, ◌++◌, Option, none, some, Bool, true, false, length, if◌then◌else◌,
}
use mms_svr.Prelude.Keys.{nat_eq}
use mms_svr.StateMap.{add_state}
use mms_svr.Yyssl.Aes.{aes_set_key}
use mms_svr.Yyssl.Rsa.{set_rsa_key_text}
use mms_svr.Protocol.Commands
use mms_svr.Protocol.Commands.{Cmd, Login}
use mms_svr.Protocol.Read.{ReadResult, ok, rejected, crash}
use mms_svr.Protocol.Compress.{rsa_format}
use mms_svr.Server.{Env, ItemData, MmsServer, item, change, new_item_data, send_cmd, closefd}

-- The database connection: NULL or without a handle is `none`, and else it answers a query for a user
-- id with rows.
abbrev pub Mysql : Type 0
Mysql = Option (ℕ → List (List ℕ))

-- The rows are fetched and their values are dropped.
abbrev pub fetch : List (List ℕ) → Bool
fetch [] = true
fetch (row ∷ rows) = fetch rows

unfoldable pub check_white_list : ℕ → Mysql → Bool
check_white_list uid none = false
check_white_list uid (some query) = fetch (query uid)

module _ (env : Env) where
  abbrev pub send_key : MmsServer env → ℕ → ReadResult (List ℕ) → Option (MmsServer env)
  send_key svr fd (ok text) =
      some (send_cmd env svr fd (Commands.comp_rsa (record { version = 0; ser_string = text })))
  send_key svr fd rejected = some svr
  send_key svr fd crash = none

  -- `none` is a crash.
  unfoldable pub login_cmd : MmsServer env → ℕ → ℕ → Mysql → Option (MmsServer env)
  login_cmd svr fd state mysql = elim (item env svr state) [
    | none ↦ some svr
    | some i ↦
        if check_white_list i.uid mysql
        then (let key = env.gen_aes_key svr.logins in
            send_key
              (change env svr state
                (λ j. record j { aes = aes_set_key env.aes_lib j.aes (some key) }))
              fd
              (rsa_format env.parse env.evp env.junk env.rsa_lib env.rsa_garbage i.rsa
                (some (Commands.login_res (record { token_succ = true; aeskey = key })))))
        else some (
            closefd env
              (send_cmd env svr fd
                (Commands.login_res (record { token_succ = false; aeskey = [] })))
              fd)
  ]

  -- The account data of the connection, new if it has none.
  unfoldable pub login_state : MmsServer env → ℕ → Option ℕ → ℕ → List ℕ → MmsServer env × ℕ
  login_state svr fd (some state) yy_id buf = (svr, state)
  login_state svr fd none yy_id buf =
      let state = length svr.items in
      (
        record svr {
          items = svr.items ++ (record (new_item_data env) { fd = fd; readbuffer = some buf } ∷ []);
          fds = add_state svr.fds fd (some state);
          user_data = add_state svr.user_data yy_id (some state);
        },
        state,
      )

  abbrev pub logged_in : Login → ℕ → ItemData env → ItemData env
  logged_in login tick i = record i {
    yy_id = login.yy_id;
    token = login.token;
    rsa_str = login.rsakey;
    rsa = set_rsa_key_text env.rsa_lib i.rsa login.rsakey [];
    login_time = tick;
  }

  unfoldable pub on_login :
      MmsServer env → ℕ → Option ℕ → Login → List ℕ → Mysql → Option (MmsServer env) × ℕ
  unfolding login_state
  on_login svr fd state login buf mysql =
      let (svr1, id) = login_state svr fd state login.yy_id buf in
      let svr2 = change env svr1 id (logged_in login (env.get_tick_count svr1.logins)) in
      (login_cmd (record svr2 { logins = suc svr2.logins }) fd id mysql, id)
