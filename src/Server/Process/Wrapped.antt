-- ===== src/Server/Process/Wrapped.antt =====
-- src/yymm_svr/cmdproc.cpp: the label `NextRun`. A command that was wrapped with the account's key is handled
-- as the command itself.
use mms_svr.Prelude.{length, ℕ, suc, ◌≡◌, refl, List, some}
use mms_svr.Yyssl.Base64.{EvpLaws}
use mms_svr.Yyssl.Aes.{AesLaws, YyAes, aes_set_key, aes_block_size}
use mms_svr.Protocol.Commands
use mms_svr.Protocol.Commands.{Cmd}
use mms_svr.Protocol.Read.{ok}
use mms_svr.Protocol.Compress.{aes_format}
use mms_svr.Protocol.Compress.RoundTrip.{IsReadable, aes_un_format-aes_format}
use mms_svr.Server.{Env, ItemData, MmsServer}
use mms_svr.Server.Process.{next_run}

-- With an EVP coder and an AES with their laws and blocks of the right size on both stacks: a
-- command that the parser reads, wrapped with the key of the account, is handled as the command
-- itself.
pub next_run-aes_format :
    (env : Env) (laws : EvpLaws env.evp) (aes_laws : AesLaws env.aes_lib) (f version : ℕ)
    (svr : MmsServer env) (fd id : ℕ) (i : ItemData env) (old : YyAes env.aes_lib)
    (key garbage : List ℕ) (c : Cmd)
    → i.aes ≡ aes_set_key env.aes_lib old (some key)
    → IsReadable env.parse env.evp c
    → length garbage ≡ aes_block_size
    → length env.garbage ≡ aes_block_size
    → (ser : List ℕ) × (aes_format env.parse env.evp env.junk env.aes_lib garbage i.aes (some c)
        ≡ ok ser)
      × (next_run env
            (suc f)
            svr
            fd
            id
            i
            (Commands.comp_aes (record { version = version; ser_string = ser }))
          ≡ next_run env f svr fd id i c)
unfolding next_run
next_run-aes_format env laws aes_laws f version svr fd id i old key garbage c keyed readable whole
      whole' =
    let (ser, wrapped, back) =
      aes_un_format-aes_format env.parse env.evp laws env.junk env.aes_lib aes_laws old key garbage
        env.garbage c readable whole whole' in
    (ser, rw keyed wrapped, rw keyed (rw back refl))
