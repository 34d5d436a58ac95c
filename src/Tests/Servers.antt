-- ===== src/Tests/Servers.antt =====
-- src/yymm_svr/cmdproc.cpp with the libraries of the other tests and no account data.
use mms_svr.Server.Accounts.{shape}
use mms_svr.Server.{item}
use mms_svr.Prelude.{zero, suc}
use mms_svr.Server.Accounts.{WellFormed}
use mms_svr.Protocol.Read.{ok}
use mms_svr.Protocol.Compress.{aes_format}
use mms_svr.Yyssl.Aes.{AesLaws, YyAes, aes_set_key, new_aes}
use mms_svr.Server.Process.Wrapped.{next_run-aes_format}
use mms_svr.Server.Boss.{BossInfo, init}
use mms_svr.Server.Boss.Wakeups.{jobs, init-Balanced}
use mms_svr.Server.Close.{fd_close, process_data}
use mms_svr.Server.Close.Logout.{IsConnected, fd_close_logs_out}
use mms_svr.StateMap.Laws.{UniqueKeys}
use mms_svr.Yyssl.Aes.{AesLib}
use mms_svr.Server.Process.Ends.{EnvSizes, json_loop-ne-stuck}
use mms_svr.Protocol.Commands.{Login}
use mms_svr.Server.Login.{on_login}
use mms_svr.Server.Process.Accounts.{IsAccount, on_login-registers}
use mms_svr.Json.{Json}
use mms_svr.Protocol.Commands.{Login}
use mms_svr.Prelude.{
  ◌++◌, replicate, take_all, Option, length-take_bound, take, ◌==◌, arith, ◌≢◌, ℕ, ◌≡◌, refl, List,
  [], ◌∷◌, none, some, true, false,
}
use mms_svr.Prelude.Keys.{nat_eq}
use mms_svr.StateMap.{get_state}
use mms_svr.Yyssl.Rsa.{RsaLib}
use mms_svr.Protocol.Commands
use mms_svr.Protocol.Frame.{parse_cmd}
use mms_svr.Server.{new_item_data, ItemData, Env, MmsServer, closefd}
use mms_svr.Server.Shell.{finished, stuck}
use mms_svr.Server.Login.{on_login, check_white_list}
use mms_svr.Server.Process.{next_run, json_loop, json_process}
use mms_svr.Server.Process.Strangers.{json_process_stranger, is_error}
use mms_svr.Tests.Ciphers.{padding-EvpLaws, padding, plain_aes}
use mms_svr.Tests.Frames.{readable, one_text, parsed}

abbrev no_rsa : RsaLib
no_rsa = record {
  Key = List ℕ;
  generate_key = none;
  check_key = λ _. false;
  private_dup = λ k. some k;
  public_dup = λ k. some k;
  d2i_public = λ t. some t;
  d2i_private = λ t. some t;
  i2d_public = λ k. some k;
  i2d_private = λ k. some k;
  public_encrypt = λ _ b. some b;
  private_decrypt = λ _ b. some b;
}

-- No more than a block is written.
abbrev pub cut_aes : AesLib
cut_aes = record plain_aes { aes_decrypt = λ b k. take 16 b }

abbrev pub small_env : Env
small_env = record {
  parse = one_text;
  evp = padding;
  aes_lib = cut_aes;
  rsa_lib = no_rsa;
  junk = 0;
  garbage = replicate 16 0;
  rsa_garbage = [];
  gen_aes_key = λ n. n ∷ [];
  get_tick_count = λ n. n;
  port = 80;
  mangport = 81;
}

abbrev pub nobody : MmsServer small_env
nobody = record {
  items = [];
  fds = record { hash_map = []; def_value = none };
  user_data = record { hash_map = []; def_value = none };
  events = [];
  shells = [];
  logins = 0;
}

abbrev log_out : List ℕ
log_out = 0x17 ∷ 5 ∷ 0 ∷ 1 ∷ 2 ∷ []

not_known : get_state nobody.fds 4 ≡ none
unfolding get_state mms_svr.StateMap.find
not_known = refl

json_process_stranger_example : json_process small_env 3 100 nobody 4 (some log_out) none ≡ stuck
json_process_stranger_example =
    json_process_stranger small_env 3 4 none 100 nobody (Commands.logout 7) 5 0x17
      (5 ∷ 0 ∷ 1 ∷ 2 ∷ []) refl not_known parsed refl

no_frame : is_error (parse_cmd one_text padding 0 (1 ∷ 2 ∷ 3 ∷ []) 0) ≡ true
unfolding parse_cmd
no_frame = refl

small_env-EnvSizes : EnvSizes small_env
small_env-EnvSizes = record {
  bounded = λ text tree e. rw (← unwrapped _ tree e) (tt, ((tt, tt), tt));
  evp_laws = padding-EvpLaws;
  aes_sizes = record { length-aes_decrypt = λ b key. length-take_bound 16 b };
}
  where
    unwrapped : (a b : Json) → some a ≡ some b → a ≡ b
    unwrapped a b e = cc

json_loop-ne-stuck_example : json_loop small_env 5 6 nobody 4 (some 0) log_out none ≢ stuck
json_loop-ne-stuck_example =
    json_loop-ne-stuck small_env small_env-EnvSizes 5 6 nobody 4 0 log_out none (omega arith)
      (omega arith)

-- The connection 4 logs in as the user 7, and the data base is not there.
abbrev pub seven : Login
seven = record { yy_id = 7; token = 1 ∷ []; rsakey = 2 ∷ [] }

let_in :
    (svr : MmsServer small_env) × ((on_login small_env nobody 4 none seven [] none).0 ≡ some svr)
unfolding on_login mms_svr.Server.Login.login_state mms_svr.Server.Login.login_cmd check_white_list
    mms_svr.Server.change
let_in = (_, refl)

on_login-registers_example :
    (get_state let_in.0.fds 4 ≡ some 0)
    × (get_state let_in.0.user_data 7 ≡ some 0)
    × IsAccount small_env let_in.0 0 4 seven
    × ((j : ℕ) → (4 == j) ≡ false → get_state let_in.0.fds j ≡ get_state nobody.fds j)
on_login-registers_example = on_login-registers small_env nobody let_in.0 4 seven [] none let_in.1

abbrev pub her_account : ItemData small_env
her_account = record (new_item_data small_env) { fd = 4; readbuffer = some []; yy_id = 7 }

-- The connection 4 belongs to the user 7.
abbrev pub one_user : MmsServer small_env
one_user = record nobody {
  items = her_account ∷ [];
  fds = record { hash_map = (4, some 0) ∷ []; def_value = none };
  user_data = record { hash_map = (7, some 0) ∷ []; def_value = none };
}

alone : (k : ℕ) → UniqueKeys {V = Option ℕ} ((k, some 0) ∷ [])
unfolding mms_svr.StateMap.find
alone k = (refl, tt)

abbrev eight : Login
eight = record { yy_id = 8; token = 1 ∷ []; rsakey = 2 ∷ [] }

let_in_again :
    (svr : MmsServer small_env) × ((on_login small_env one_user 4 (some 0) eight [] none).0
      ≡ some svr)
unfolding on_login mms_svr.Server.Login.login_state mms_svr.Server.Login.login_cmd check_white_list
    mms_svr.Server.change
let_in_again = (_, refl)

pub cut_aes-AesLaws : AesLaws cut_aes
cut_aes-AesLaws = record {
  length-aes_encrypt = λ b key full. full;
  aes_decrypt-aes_encrypt = λ b key full. take_all 16 b (omega (arith, full));
}

abbrev her_key : YyAes cut_aes
her_key = aes_set_key cut_aes (new_aes cut_aes) (some (1 ∷ []))

abbrev keyed_account : ItemData small_env
keyed_account = record her_account { aes = her_key }

next_run-aes_format_example :
    (ser : List ℕ) × (aes_format one_text padding 0 cut_aes
        (replicate 16 5)
        her_key
        (some (Commands.logout 7))
      ≡ ok ser)
    × (next_run small_env 2 one_user 4 0 keyed_account
          (Commands.comp_aes (record { version = 1; ser_string = ser }))
        ≡ next_run small_env 1 one_user 4 0 keyed_account (Commands.logout 7))
next_run-aes_format_example =
    next_run-aes_format small_env padding-EvpLaws cut_aes-AesLaws 1 1 one_user 4 0 keyed_account
      (new_aes cut_aes) (1 ∷ []) (replicate 16 5) (Commands.logout 7) refl readable refl refl

her_account-IsConnected : IsConnected small_env one_user 4 0 her_account
unfolding get_state mms_svr.StateMap.find
her_account-IsConnected = record { real = refl; found = refl; there = refl }

one_owner : (fd id : ℕ) → get_state one_user.fds fd ≡ some id → (fd ≡ 4) × (id ≡ 0)
unfolding get_state mms_svr.StateMap.find
one_owner fd id found = ground arith

no_bytes :
    (id fd : ℕ) (b : Option (List ℕ))
    → shape small_env (item small_env one_user id) ≡ some (fd, b)
    → b ≡ some []
no_bytes zero fd b there = cc
no_bytes (suc id) fd b there = cc

one_user-WellFormed : WellFormed small_env one_user none
one_user-WellFormed = record {
  unique_fds = alone 4;
  unique_users = alone 7;
  no_fd = refl;
  no_user = refl;
  owned =
      λ fd id found. let (hers, first) = one_owner fd id found in (some [], rw (hers, first) refl);
  emptied = λ id fd b away there. no_bytes id fd b there;
}

fd_close_logs_out_example :
    (info : BossInfo) × (svr : MmsServer small_env) × (jobs
        (fd_close small_env 2 (init 2) one_user 4)
        0
      ≡ jobs (init 2) 0 ++ (info ∷ []))
    × (process_data small_env 1 1 one_user info none ≡ finished svr)
    × (get_state svr.fds 4 ≡ none)
    × (get_state svr.user_data 7 ≡ none)
    × ((j : ℕ) → (4 == j) ≡ false → get_state svr.fds j ≡ get_state one_user.fds j)
fd_close_logs_out_example =
    fd_close_logs_out small_env padding-EvpLaws 2 0 0 (init 2) one_user 4 0 her_account none refl
      (init-Balanced 2 (omega arith)) her_account-IsConnected one_user-WellFormed readable
