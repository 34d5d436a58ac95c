-- ===== src/Tests/Handshakes.antt =====
-- src/yymm_svr/cmdproc.cpp: a client logs in, with a parser that knows three texts by their ids.
use mms_svr.Prelude.{
  true, get_elem?, ℕ, ◌≡◌, refl, List, [], ◌∷◌, ◌++◌, Option, some, none, ◌==◌, length, replicate,
  arith, if◌then◌else◌,
}
use mms_svr.Prelude.Keys.{nat_eq}
use mms_svr.Prelude.Int.{pos}
use mms_svr.Json.{Json, object, member, end, int}
use mms_svr.Protocol.Commands
use mms_svr.Protocol.Commands.{Cmd, Login, id_of}
use mms_svr.Protocol.Print.{print}
use mms_svr.Protocol.Frame.{Parser, cmd_text}
use mms_svr.Protocol.Frame.RoundTrip.{members}
use mms_svr.Protocol.Compress.{rsa_format}
use mms_svr.Protocol.Compress.RoundTrip.{IsReadable}
use mms_svr.Protocol.Read.{ok}
use mms_svr.Yyssl.Rsa.{RsaLib, YyRsa}
use mms_svr.Server.{new_item_data, Env, MmsServer}
use mms_svr.Server.Process.Handshake.Answer.{wrapped, her_rsa, IsClient}
use mms_svr.Tests.Ciphers.{same, padding, padding-EvpLaws}
use mms_svr.Tests.Servers.{small_env, cut_aes, cut_aes-AesLaws}
use mms_svr.Tests.Ciphers.{same-Inverse}
use mms_svr.Server.{ItemData, item}
use mms_svr.Server.Login.{on_login}
use mms_svr.Server.Process.{next_run}
use mms_svr.Server.Process.Handshake.{login_key_exchange}
use mms_svr.Server.Process.Handshake.Answer.{session_aes}
use mms_svr.Server.Answers.{send_all}
use mms_svr.Server.Answers.Key.{after_reading, key_arrives}
use mms_svr.Event.{Outgoing}
use mms_svr.Event.Write.{stream}
use mms_svr.Event.Run.{queue, queue_bytes}
use mms_svr.Tests.Events.{connected, connected-IsReady, connected-IsOpen}
use mms_svr.Protocol.Frame.{success, parse_cmd}
use mms_svr.Protocol.Compress.{rsa_un_format, aes_format}

abbrev session_login : Login
session_login = record { yy_id = 7; token = []; rsakey = 5 ∷ [] }

abbrev the_answer : Cmd
the_answer = Commands.login_res (record { token_succ = true; aeskey = 1 ∷ [] })

abbrev pair : RsaLib
pair = record small_env.rsa_lib { public_encrypt = λ _. same; private_decrypt = λ _. same }

sealed :
    (text : List ℕ) × (rsa_format small_env.parse padding 0 pair
        (replicate 128 0)
        (her_rsa (record small_env { rsa_lib = pair }) session_login)
        (some the_answer)
      ≡ ok text)
unfolding rsa_format mms_svr.Protocol.Frame.format_cmd mms_svr.Yyssl.Rsa.rsa_public_encrypt
    mms_svr.Yyssl.Rsa.set_rsa_key_text mms_svr.Yyssl.Rsa.set_rsa_key mms_svr.Yyssl.Blocks.encrypt
    mms_svr.Yyssl.Blocks.encrypt_loop mms_svr.Yyssl.Blocks.copy_block
    mms_svr.Yyssl.Base64.base64encode mms_svr.Protocol.Print.print_login_res mms_svr.Json.tos_int
    mms_svr.Yyssl.Rsa.new_rsa
sealed = (_, refl)

abbrev tree_of : Cmd → Json
tree_of c =
    object (member "cmd" (int (pos (id_of c))) (member "obj" (object (members padding c)) end))

-- The last digit of the id.
abbrev by_digit : Option ℕ → Option Json
by_digit none = none
by_digit (some digit) =
    if digit == b'0'
    then some (tree_of (wrapped small_env sealed.0))
    else (if digit == b'2' then some (tree_of the_answer) else some (tree_of (Commands.logout 7)))

abbrev three_texts : Parser
three_texts text = by_digit (get_elem? text 10)

abbrev session_env : Env
session_env = record small_env {
  parse = three_texts;
  rsa_lib = pair;
  rsa_garbage = replicate 128 0;
}

abbrev no_accounts : MmsServer session_env
no_accounts = record {
  items = [];
  fds = record { hash_map = []; def_value = none };
  user_data = record { hash_map = []; def_value = none };
  events = [];
  shells = [];
  logins = 0;
}

answer_text : (text : List ℕ) × (print padding the_answer ≡ some text)
unfolding print mms_svr.Protocol.Print.print_login_res mms_svr.Json.tos_int
    mms_svr.Yyssl.Base64.base64encode
answer_text = (_, refl)

the_answer-IsReadable : IsReadable three_texts padding the_answer
unfolding answer_text cmd_text mms_svr.Json.tos_int
the_answer-IsReadable = record {
  text = answer_text.0;
  ints = tt;
  printed = answer_text.1;
  parsed = refl;
  short = omega arith;
}

wrapped_text : (text : List ℕ) × (print padding (wrapped session_env sealed.0) ≡ some text)
unfolding print mms_svr.Protocol.Print.print_comp mms_svr.Json.tos_int
wrapped_text = (_, refl)

wrapped-IsReadable : IsReadable three_texts padding (wrapped session_env sealed.0)
unfolding wrapped_text sealed cmd_text mms_svr.Json.tos_int
wrapped-IsReadable = record {
  text = wrapped_text.0;
  ints = omega arith;
  printed = wrapped_text.1;
  parsed = refl;
  short = omega arith;
}

logout_text : (text : List ℕ) × (print padding (Commands.logout 7) ≡ some text)
unfolding print mms_svr.Protocol.Print.print_logout mms_svr.Json.tos_uint mms_svr.Json.tos_int
logout_text = (_, refl)

logout-IsReadable : IsReadable three_texts padding (Commands.logout 7)
unfolding logout_text cmd_text mms_svr.Json.tos_int
logout-IsReadable = record {
  text = logout_text.0;
  ints = omega arith;
  printed = logout_text.1;
  parsed = refl;
  short = omega arith;
}

abbrev her_receiver : YyRsa pair
her_receiver = record { public_key = none; private_key = some (5 ∷ []) }

her_pair-IsClient : IsClient session_env session_login her_receiver
her_pair-IsClient = record {
  public = 5 ∷ [];
  private = 5 ∷ [];
  some_text = omega arith;
  reads_public = refl;
  has_private = refl;
  inverse = same-Inverse 128;
}

-- A later state, in which the account of another connection has the key.
abbrev later_account : ItemData session_env
later_account = record (new_item_data session_env) {
  fd = 5;
  aes = session_aes session_env no_accounts;
}

abbrev later_server : MmsServer session_env
later_server = record no_accounts { logins = 3 }

login_key_exchange_example :
    (svr' : MmsServer session_env) × (i : ItemData session_env) × (bytes ser : List ℕ) × ((on_login
        session_env no_accounts 4 none session_login []
        (some (λ _. []))).0
      ≡ some svr')
    × (svr'.events ≡ [] ++ (record { fd = 4; bytes = bytes } ∷ []))
    × (parse_cmd three_texts padding 0 bytes 0
        ≡ success (wrapped session_env sealed.0) (length bytes))
    × (rsa_un_format three_texts padding 0 pair (replicate 128 9) her_receiver sealed.0
        ≡ ok the_answer)
    × (item session_env svr' 0 ≡ some i)
    × (i.aes ≡ session_aes session_env no_accounts)
    × (aes_format three_texts padding 0 cut_aes
          (replicate 16 5)
          (session_aes session_env no_accounts)
          (some (Commands.logout 7))
        ≡ ok ser)
    × (next_run session_env 2 svr' 4 0 i
          (Commands.comp_aes (record { version = 0; ser_string = ser }))
        ≡ next_run session_env 1 svr' 4 0 i (Commands.logout 7))
    × (next_run session_env 2 later_server 5 1 later_account
          (Commands.comp_aes (record { version = 0; ser_string = ser }))
        ≡ next_run session_env 1 later_server 5 1 later_account (Commands.logout 7))
unfolding rsa_format
login_key_exchange_example =
    login_key_exchange session_env padding-EvpLaws cut_aes-AesLaws no_accounts 4 1 session_login
      her_receiver [] sealed.0 (replicate 16 5) (replicate 128 9) (λ _. []) (Commands.logout 7)
      later_server 5 1 later_account her_pair-IsClient refl refl refl refl the_answer-IsReadable
      wrapped-IsReadable logout-IsReadable sealed.1 refl

key_arrives_example :
    (svr' : MmsServer session_env) × (outs : List Outgoing) × (bytes : List ℕ) × ((on_login
        session_env no_accounts 4 none session_login []
        (some (λ _. []))).0
      ≡ some svr')
    × (svr'.events ≡ [] ++ outs)
    × (stream (after_reading (send_all connected outs)) 4
        ≡ (stream connected 4 ++ queue_bytes 4 (queue connected)) ++ bytes)
    × (parse_cmd three_texts padding 0 bytes 0
        ≡ success (wrapped session_env sealed.0) (length bytes))
    × (rsa_un_format three_texts padding 0 pair (replicate 128 9) her_receiver sealed.0
        ≡ ok the_answer)
unfolding rsa_format
key_arrives_example =
    key_arrives session_env padding-EvpLaws no_accounts connected 4 session_login her_receiver []
      sealed.0 (replicate 128 9) (λ _. []) connected-IsReady connected-IsOpen her_pair-IsClient refl
      refl the_answer-IsReadable wrapped-IsReadable sealed.1
