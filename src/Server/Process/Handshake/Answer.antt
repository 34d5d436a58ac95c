-- ===== src/Server/Process/Handshake/Answer.antt =====
-- src/yymm_svr/cmdproc.cpp: `LoginCmd` after a first login, up to the frame with the wrapped key.
use mms_svr.Prelude.{
  Option, ℕ, ◌<◌, ◌≡◌, refl, ap, List, [], ◌∷◌, ◌++◌, some, true, false, ◌==◌, length, arith,
}
use mms_svr.Prelude.Keys.{nat_eq}
use mms_svr.Protocol.Commands
use mms_svr.Protocol.Commands.{Cmd, Login}
use mms_svr.Protocol.Read.{ok}
use mms_svr.Protocol.Frame.{format_cmd}
use mms_svr.Protocol.Compress.{rsa_format}
use mms_svr.Yyssl.Blocks.RoundTrip.{Inverse}
use mms_svr.Yyssl.Aes.{aes_set_key}
use mms_svr.Yyssl.Rsa.{if_text, YyRsa, new_rsa, set_rsa_key_text, k_bytes}
use mms_svr.Server.Login.{login_cmd, logged_in}
use mms_svr.Server.Process.Strangers.{check_white_list_lem}
use mms_svr.Server.{YyAes, Env, ItemData, MmsServer, item, change, send_cmd, new_item_data}
use mms_svr.Prelude.{ℕ, suc, none, refl}
use mms_svr.Protocol.Frame.{success, parse_cmd}
use mms_svr.Protocol.Frame.Rejects.{parse_cmd-takes}
use mms_svr.Protocol.Compress.{rsa_un_format}
use mms_svr.Protocol.Compress.RoundTrip.{IsReadable, parse_cmd_alone, rsa_un_format-rsa_format}
use mms_svr.Yyssl.Base64.{EvpLaws}
use mms_svr.Yyssl.Aes.{new_aes}
use mms_svr.Server.Login.{on_login, login_state}
use mms_svr.Server.Frames.{item-change}
use mms_svr.Server.Process.Accounts.{last_elem}
use mms_svr.StateMap.{add_state}

module _ (env : Env) where
  send_cmd_sent :
      (svr : MmsServer env) (fd : ℕ) (cmd : Cmd) (bytes : List ℕ)
      → format_cmd env.evp (some cmd) [] ≡ some bytes
      → 0 < length bytes
      → send_cmd env svr fd cmd
        ≡ record svr { events = svr.events ++ (record { fd = fd; bytes = bytes } ∷ []) }
  unfolding send_cmd
  send_cmd_sent svr fd cmd bytes formatted positive =
      rw (formatted, send_cmd) (rw (not_zero (length bytes) positive) refl)
    where
      not_zero : (n : ℕ) → 0 < n → (n == 0) ≡ false
      not_zero n positive = ground arith

  -- The account data that a first login leaves before it is answered.
  abbrev pub fresh_account : ℕ → ℕ → Login → List ℕ → ItemData env
  fresh_account fd tick login buf =
      logged_in env login tick (record (new_item_data env) { fd = fd; readbuffer = some buf })

  abbrev pub welcome : MmsServer env → Cmd
  welcome svr =
      Commands.login_res (record { token_succ = true; aeskey = env.gen_aes_key svr.logins })

  abbrev pub wrapped : List ℕ → Cmd
  wrapped text = Commands.comp_rsa (record { version = 0; ser_string = text })

  abbrev give_key : MmsServer env → ℕ → List ℕ → MmsServer env
  give_key svr id key =
      change env svr id (λ j. record j { aes = aes_set_key env.aes_lib j.aes (some key) })

  give_key-events :
      (svr : MmsServer env) (id : ℕ) (key : List ℕ) → (give_key svr id key).events ≡ svr.events
  unfolding change
  give_key-events svr id key = refl

  -- A connected database lets everybody in, and the answer is a frame with the wrapped key.
  key_sent :
      (svr : MmsServer env) (fd id : ℕ) (i : ItemData env) (query : ℕ → List (List ℕ))
      (text bytes : List ℕ)
      → item env svr id ≡ some i
      → rsa_format env.parse env.evp env.junk env.rsa_lib env.rsa_garbage i.rsa (some (welcome svr))
        ≡ ok text
      → format_cmd env.evp (some (wrapped text)) [] ≡ some bytes
      → 0 < length bytes
      → let keyed = give_key svr id (env.gen_aes_key svr.logins) in
        login_cmd env svr fd id (some query)
        ≡ some (record keyed { events = keyed.events ++ (record { fd = fd; bytes = bytes } ∷ []) })
  unfolding login_cmd
  key_sent svr fd id i query text bytes there sealed formatted positive =
      rw (there, login_cmd)
        (rw ((check_white_list_lem i.uid i.uid query query).1, sealed)
          (ap some (send_cmd_sent _ fd _ bytes formatted positive)))

  -- The key pair of a client: what its login tells the server to encrypt with, it decrypts.
  pub record IsClient (login : Login) (receiver : YyRsa env.rsa_lib) : Type 0 where
    pub public : env.rsa_lib.Key
    pub private : env.rsa_lib.Key
    pub some_text : 0 < length login.rsakey
    pub reads_public : env.rsa_lib.d2i_public login.rsakey ≡ some public
    pub has_private : receiver.private_key ≡ some private
    pub inverse :
        Inverse k_bytes (env.rsa_lib.public_encrypt public) (env.rsa_lib.private_decrypt private)

  abbrev pub her_rsa : Login → YyRsa env.rsa_lib
  her_rsa login = set_rsa_key_text env.rsa_lib (new_rsa env.rsa_lib) login.rsakey []

  if_text_read :
      (text : List ℕ) (read : List ℕ → Option env.rsa_lib.Key)
      → 0 < length text
      → if_text env.rsa_lib text read ≡ read text
  if_text_read [] read positive = absurd (omega arith)
  if_text_read (x ∷ xs) read positive = refl

  set_public :
      (login : Login) (receiver : YyRsa env.rsa_lib) (v : IsClient login receiver)
      → (her_rsa login).public_key ≡ some v.public
  unfolding set_rsa_key_text mms_svr.Yyssl.Rsa.set_rsa_key
  set_public login receiver v =
      rw (if_text_read login.rsakey env.rsa_lib.d2i_public v.some_text) (rw v.reads_public refl)

  -- The answer to the next login that succeeds, and the key that is in it.
  abbrev pub answer : MmsServer env → Cmd
  answer svr = welcome (record svr { logins = suc svr.logins })

  abbrev pub session_aes : MmsServer env → YyAes env.aes_lib
  session_aes svr =
      aes_set_key env.aes_lib (new_aes env.aes_lib) (some (env.gen_aes_key (suc svr.logins)))

  -- A login on a connection without account data, with the database connected.
  fresh_login :
      (svr : MmsServer env) (fd : ℕ) (login : Login) (buf text bytes : List ℕ)
      (query : ℕ → List (List ℕ))
      → rsa_format env.parse env.evp env.junk env.rsa_lib env.rsa_garbage
          (her_rsa login)
          (some (answer svr))
        ≡ ok text
      → format_cmd env.evp (some (wrapped text)) [] ≡ some bytes
      → 0 < length bytes
      → (svr' : MmsServer env) × (i : ItemData env) × ((on_login env svr fd none login buf
            (some query)).0
          ≡ some svr')
        × (svr'.events ≡ svr.events ++ (record { fd = fd; bytes = bytes } ∷ []))
        × (item env svr' (length svr.items) ≡ some i)
        × (i.aes ≡ session_aes svr)
  unfolding on_login login_state new_item_data change
  fresh_login svr fd login buf text bytes query sealed formatted positive =
      let id : ℕ = length svr.items in
      let tick : ℕ = env.get_tick_count svr.logins in
      let fresh : ItemData env = record (new_item_data env) { fd = fd; readbuffer = some buf } in
      let svr1 : MmsServer env = record svr {
        items = svr.items ++ (fresh ∷ []);
        fds = add_state svr.fds fd (some id);
        user_data = add_state svr.user_data login.yy_id (some id);
      } in
      let known : MmsServer env = change env svr1 id (logged_in env login tick) in
      let svr2 : MmsServer env = record known { logins = suc svr.logins } in
      let there : item env svr2 id ≡ some (logged_in env login tick fresh) =
        item-change env svr1 id (logged_in env login tick) fresh (last_elem svr.items fresh) in
      let keyed : MmsServer env = give_key svr2 id (env.gen_aes_key (suc svr.logins)) in
      (
        record keyed { events = keyed.events ++ (record { fd = fd; bytes = bytes } ∷ []) },
        _,
        key_sent svr2 fd id (logged_in env login tick fresh) query text bytes there sealed formatted
            positive,
        refl,
        item-change env svr2 id _ (logged_in env login tick fresh) there,
        refl,
      )

  -- What the client of a first login makes of the frame that it gets.
  pub key_received :
      (laws : EvpLaws env.evp) (svr : MmsServer env) (fd : ℕ) (login : Login)
      (receiver : YyRsa env.rsa_lib) (buf text rsa_garbage : List ℕ) (query : ℕ → List (List ℕ))
      → IsClient login receiver
      → length env.rsa_garbage ≡ k_bytes
      → length rsa_garbage ≡ k_bytes
      → IsReadable env.parse env.evp (answer svr)
      → IsReadable env.parse env.evp (wrapped text)
      → rsa_format env.parse env.evp env.junk env.rsa_lib env.rsa_garbage
          (her_rsa login)
          (some (answer svr))
        ≡ ok text
      → (svr' : MmsServer env) × (i : ItemData env) × (bytes : List ℕ) × ((on_login env svr fd none
            login buf
            (some query)).0
          ≡ some svr')
        × (svr'.events ≡ svr.events ++ (record { fd = fd; bytes = bytes } ∷ []))
        × (0 < length bytes)
        × (parse_cmd env.parse env.evp env.junk bytes 0 ≡ success (wrapped text) (length bytes))
        × (rsa_un_format env.parse env.evp env.junk env.rsa_lib rsa_garbage receiver text
            ≡ ok (answer svr))
        × (item env svr' (length svr.items) ≡ some i)
        × (i.aes ≡ session_aes svr)
  key_received laws svr fd login receiver buf text rsa_garbage query client whole1 whole2
        readable_answer readable_frame sealed =
      let (bytes, formatted, parsed) =
        parse_cmd_alone env.parse env.evp laws env.junk (wrapped text) readable_frame in
      let (three, _) = parse_cmd-takes env.parse env.evp env.junk bytes 0 _ _ parsed in
      let positive : 0 < length bytes = omega (arith, three) in
      let (svr', i, logged, sent, there, keyed) =
        fresh_login svr fd login buf text bytes query sealed formatted positive in
      let opened =
        rsa_un_format-rsa_format env.parse env.evp laws env.junk env.rsa_lib (her_rsa login)
          receiver client.public client.private env.rsa_garbage rsa_garbage text _
          (set_public login receiver client) client.has_private client.inverse readable_answer
          whole1 whole2 sealed in
      (svr', i, bytes, logged, sent, positive, parsed, opened, there, keyed)
