-- ===== src/Server/Process/Handshake.antt =====
-- src/yymm_svr/cmdproc.cpp: `LoginCmd`. The key of a session goes to the client under the client's own RSA key.
pub mod Answer
use mms_svr.Prelude.{
  subst, ◌∙◌, sym, Option, ℕ, ◌<◌, ◌≡◌, refl, ap, List, [], ◌∷◌, ◌++◌, some, true, false, ◌==◌,
  length, arith,
}
use mms_svr.Prelude.Keys.{nat_eq}
use mms_svr.Protocol.Commands
use mms_svr.Protocol.Commands.{Cmd, Login}
use mms_svr.Protocol.Read.{ok}
use mms_svr.Protocol.Frame.{format_cmd}
use mms_svr.Protocol.Compress.{rsa_format}
use mms_svr.Yyssl.Blocks.RoundTrip.{Inverse}
use mms_svr.Yyssl.Aes.{aes_set_key}
use mms_svr.Yyssl.Rsa.{if_text, YyRsa, new_rsa, set_rsa_key_text, k_bytes}
use mms_svr.Server.Login.{login_cmd, logged_in}
use mms_svr.Server.Process.Strangers.{check_white_list_lem}
use mms_svr.Server.{YyAes, Env, ItemData, MmsServer, item, change, send_cmd, new_item_data}
use mms_svr.Prelude.{ℕ, suc, none, refl}
use mms_svr.Protocol.Frame.{success, parse_cmd}
use mms_svr.Protocol.Frame.Rejects.{parse_cmd-takes}
use mms_svr.Protocol.Compress.{rsa_un_format, aes_format}
use mms_svr.Protocol.Compress.RoundTrip.{IsReadable, parse_cmd_alone, rsa_un_format-rsa_format}
use mms_svr.Yyssl.Base64.{EvpLaws}
use mms_svr.Yyssl.Aes.{AesLaws, new_aes, aes_block_size}
use mms_svr.Server.Login.{on_login, login_state}
use mms_svr.Server.Frames.{item-change}
use mms_svr.Server.Process.{next_run}
use mms_svr.Server.Process.Accounts.{last_elem}
use mms_svr.Server.Process.Wrapped.{next_run-aes_format}
use mms_svr.StateMap.{add_state}
use mms_svr.Server.Process.Handshake.Answer.{
  IsClient, her_rsa, welcome, wrapped, answer, session_aes, key_received,
}

ok_inj : (a b : List ℕ) → ok a ≡ ok b → a ≡ b
ok_inj a b e = cc

module _ (env : Env) where
  -- For EVP and AES functions with their laws, stacks of the right sizes, a client with its own RSA key pair, the
  -- database connected, and an answer to the login, a frame around its wrapping and a command that have numbers
  -- below 2^31, texts that the JSON parser reads and frames below 32768 bytes: when the answer to a first login
  -- could be wrapped, the connection gets one more frame; the client reads it, unwraps it with its private key and
  -- finds the session's key, which the new account holds; and the command wrapped with that key is handled as the
  -- command itself, in the state that the login leaves and in any state for an account that holds the session's
  -- key.
  pub login_key_exchange :
      (laws : EvpLaws env.evp) (aes_laws : AesLaws env.aes_lib) (svr : MmsServer env) (fd f : ℕ)
      (login : Login) (receiver : YyRsa env.rsa_lib) (buf text garbage rsa_garbage : List ℕ)
      (query : ℕ → List (List ℕ)) (c : Cmd) (later : MmsServer env) (later_fd state : ℕ)
      (j : ItemData env)
      → IsClient env login receiver
      → length env.rsa_garbage ≡ k_bytes
      → length rsa_garbage ≡ k_bytes
      → length env.garbage ≡ aes_block_size
      → length garbage ≡ aes_block_size
      → IsReadable env.parse env.evp (answer env svr)
      → IsReadable env.parse env.evp (wrapped env text)
      → IsReadable env.parse env.evp c
      → rsa_format env.parse env.evp env.junk env.rsa_lib env.rsa_garbage
          (her_rsa env login)
          (some (answer env svr))
        ≡ ok text
      → j.aes ≡ session_aes env svr
      → (svr' : MmsServer env) × (i : ItemData env) × (bytes ser : List ℕ) × ((on_login env svr fd
            none login buf
            (some query)).0
          ≡ some svr')
        × (svr'.events ≡ svr.events ++ (record { fd = fd; bytes = bytes } ∷ []))
        × (parse_cmd env.parse env.evp env.junk bytes 0 ≡ success (wrapped env text) (length bytes))
        × (rsa_un_format env.parse env.evp env.junk env.rsa_lib rsa_garbage receiver text
            ≡ ok (answer env svr))
        × (item env svr' (length svr.items) ≡ some i)
        × (i.aes ≡ session_aes env svr)
        × (aes_format env.parse env.evp env.junk env.aes_lib garbage (session_aes env svr) (some c)
            ≡ ok ser)
        × (next_run env
              (suc f)
              svr'
              fd
              (length svr.items)
              i
              (Commands.comp_aes (record { version = 0; ser_string = ser }))
            ≡ next_run env f svr' fd (length svr.items) i c)
        × (next_run env
              (suc f)
              later
              later_fd
              state
              j
              (Commands.comp_aes (record { version = 0; ser_string = ser }))
            ≡ next_run env f later later_fd state j c)
  login_key_exchange laws aes_laws svr fd f login receiver buf text garbage rsa_garbage query c
        later later_fd state j client whole1 whole2 whole3 whole4 readable_answer readable_frame
        readable sealed holds =
      let (svr', i, bytes, logged, sent, positive, parsed, opened, there, keyed) =
        key_received env laws svr fd login receiver buf text rsa_garbage query client whole1 whole2
          readable_answer readable_frame sealed in
      let (ser, given, same) =
        next_run-aes_format env laws aes_laws f 0 svr' fd (length svr.items) i (new_aes env.aes_lib)
          (env.gen_aes_key (suc svr.logins)) garbage c keyed readable whole4 whole3 in
      let (ser', given', same') =
        next_run-aes_format env laws aes_laws f 0 later later_fd state j (new_aes env.aes_lib)
          (env.gen_aes_key (suc svr.logins)) garbage c holds readable whole4 whole3 in
      let wrapped_by_session : aes_format env.parse env.evp env.junk env.aes_lib garbage
            (session_aes env svr) (some c)
          ≡ ok ser =
        rw (← keyed) given in
      let one_text : ser' ≡ ser = ok_inj ser' ser (sym given' ∙ rw holds wrapped_by_session) in
      (
        svr',
        i,
        bytes,
        ser,
        logged,
        sent,
        parsed,
        opened,
        there,
        keyed,
        wrapped_by_session,
        same,
        subst
            (λ (t : List ℕ).
              next_run env (suc f) later later_fd state j
                (Commands.comp_aes (record { version = 0; ser_string = t }))
              ≡ next_run env f later later_fd state j c)
            one_text same',
      )
