-- ===== src/Server/Answers/Key.antt =====
-- src/yymm_svr/cmdproc.cpp and src/event/yylibevent.cpp: the answer to a log-in, from the handler to the client.
use mms_svr.Prelude.{ℕ, ◌≡◌, ap, ◌∙◌, List, [], ◌∷◌, ◌++◌, append-nil, none, some, length, ==_refl}
use mms_svr.Prelude.Keys.{nat_eq}
use mms_svr.Protocol.Commands.{Login}
use mms_svr.Protocol.Read.{ok}
use mms_svr.Protocol.Frame.{success, parse_cmd}
use mms_svr.Protocol.Compress.{rsa_format, rsa_un_format}
use mms_svr.Protocol.Compress.RoundTrip.{IsReadable}
use mms_svr.Yyssl.Base64.{EvpLaws}
use mms_svr.Yyssl.Rsa.{YyRsa, k_bytes}
use mms_svr.Event.{LibEvent, Outgoing}
use mms_svr.Event.Write.{stream, bytes_to}
use mms_svr.Event.Notify.{reads}
use mms_svr.Event.Run.{queue, queue_bytes}
use mms_svr.Event.Run.Ready.{IsReady}
use mms_svr.Event.Run.Stream.{IsOpen}
use mms_svr.Server.{Env, MmsServer}
use mms_svr.Server.Login.{on_login}
use mms_svr.Server.Process.Handshake.Answer.{IsClient, her_rsa, wrapped, answer, key_received}
use mms_svr.Server.Answers.{send_all, send_all-stream}

abbrev pub after_reading : LibEvent → LibEvent
after_reading l = reads (length l.pipe) l

only_bytes :
    (fd : ℕ) (bytes : List ℕ) → bytes_to fd (record { fd = fd; bytes = bytes } ∷ []) ≡ bytes
only_bytes fd bytes = rw (==_refl fd) (append-nil bytes)

-- With EVP functions with their laws, stacks of the right sizes, the database connected, a client with its own
-- RSA key pair, an answer to the login and a frame around its wrapping that have numbers below 2^31, texts that
-- the JSON parser reads and frames below 32768 bytes, and an open connection in a state with a valid message
-- descriptor where each buffer in the queue has its message in the pipe: when the answer to a first login could
-- be wrapped, the handler gives the event loop one buffer; with its message sent whole and the pipe read empty,
-- the stream of the connection ends with it, behind everything before; and the client reads it as a frame whose
-- text it unwraps with its private key to the answer with the session's key.
pub key_arrives :
    (env : Env) (laws : EvpLaws env.evp) (svr : MmsServer env) (l : LibEvent) (fd : ℕ)
    (login : Login) (receiver : YyRsa env.rsa_lib) (buf text rsa_garbage : List ℕ)
    (query : ℕ → List (List ℕ))
    → IsReady l
    → IsOpen fd l
    → IsClient env login receiver
    → length env.rsa_garbage ≡ k_bytes
    → length rsa_garbage ≡ k_bytes
    → IsReadable env.parse env.evp (answer env svr)
    → IsReadable env.parse env.evp (wrapped env text)
    → rsa_format env.parse env.evp env.junk env.rsa_lib env.rsa_garbage
        (her_rsa env login)
        (some (answer env svr))
      ≡ ok text
    → (svr' : MmsServer env) × (outs : List Outgoing) × (bytes : List ℕ) × ((on_login env svr fd
          none login buf
          (some query)).0
        ≡ some svr')
      × (svr'.events ≡ svr.events ++ outs)
      × (stream (after_reading (send_all l outs)) fd
          ≡ (stream l fd ++ queue_bytes fd (queue l)) ++ bytes)
      × (parse_cmd env.parse env.evp env.junk bytes 0 ≡ success (wrapped env text) (length bytes))
      × (rsa_un_format env.parse env.evp env.junk env.rsa_lib rsa_garbage receiver text
          ≡ ok (answer env svr))
key_arrives env laws svr l fd login receiver buf text rsa_garbage query ready still_open client
      whole1 whole2 readable_answer readable_frame sealed =
    let (svr', i, bytes, logged, sent, positive, parsed, opened, there, keyed) =
      key_received env laws svr fd login receiver buf text rsa_garbage query client whole1 whole2
        readable_answer readable_frame sealed in
    let outs : List Outgoing = record { fd = fd; bytes = bytes } ∷ [] in
    let arrived = send_all-stream fd l outs ready still_open ((λ e. positive), tt) in
    (
      svr',
      outs,
      bytes,
      logged,
      sent,
      arrived ∙ ap (◌++◌ (stream l fd ++ queue_bytes fd (queue l))) (only_bytes fd bytes),
      parsed,
      opened,
    )
