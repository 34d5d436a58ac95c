-- ===== src/Protocol/Compress.antt =====
-- src/yymm_svr/jsonprotocol.h: `Format` and `UnFormat` of `YYJson_Comp_RSA` and `YYJson_Comp_AES`: a
-- command inside an encrypted and base64-encoded text.
pub mod RoundTrip
use mms_svr.Prelude.{ℕ, List, [], ◌∷◌, Option, none, some}
use mms_svr.Yyssl.Blocks.{Outcome, done, refused, outside, thrown, stuck}
use mms_svr.Yyssl.Base64.{EvpLib, base64encode, base64decode}
use mms_svr.Yyssl.Aes.{AesLib, YyAes, aes_encrypt, aes_decrypt}
use mms_svr.Yyssl.Rsa.{RsaLib, YyRsa, rsa_public_encrypt, rsa_private_decrypt}
use mms_svr.Protocol.Commands.{Cmd}
use mms_svr.Protocol.Read.{ReadResult, ok, rejected, crash}
use mms_svr.Protocol.Frame.{Parsed, success, crashed, Parser, parse_cmd, format_cmd}

-- The next step after a `bool` function.
abbrev pub then_read : {A : Type 0} → Outcome → (List ℕ → ReadResult A) → ReadResult A
then_read (done s) k = k s
then_read refused k = rejected
then_read outside k = crash
then_read thrown k = crash
then_read stuck k = crash

abbrev pub of_parsed : Parsed → ReadResult Cmd
of_parsed (success c offset) = ok c
of_parsed crashed = crash
of_parsed _ = rejected

abbrev pub of_format : Option (List ℕ) → (List ℕ → ReadResult (List ℕ)) → ReadResult (List ℕ)
of_format none k = rejected
of_format (some s) k = k s

module _ (parse : Parser) (evp : EvpLib) (junk : ℕ) where
  -- The new `serString`, from a way to encrypt.
  abbrev pub format_with : (List ℕ → Outcome) → Option Cmd → ReadResult (List ℕ)
  format_with encrypt jobj =
      of_format (format_cmd evp jobj [])
        (λ s. then_read (encrypt s) (λ e. then_read (base64encode evp e) (λ t. ok t)))

  abbrev pub un_format_with : (List ℕ → Outcome) → List ℕ → ReadResult Cmd
  un_format_with decrypt [] = rejected
  un_format_with decrypt (x ∷ xs) =
      then_read (base64decode evp (x ∷ xs))
        (λ e. then_read (decrypt e) (λ s. of_parsed (parse_cmd parse evp junk s 0)))

  module _ (lib : AesLib) (garbage : List ℕ) where
    unfoldable pub aes_format : YyAes lib → Option Cmd → ReadResult (List ℕ)
    aes_format aes jobj = format_with (aes_encrypt lib aes garbage) jobj

    unfoldable pub aes_un_format : YyAes lib → List ℕ → ReadResult Cmd
    aes_un_format aes ser_string = un_format_with (aes_decrypt lib aes garbage) ser_string

  module _ (lib : RsaLib) (garbage : List ℕ) where
    unfoldable pub rsa_format : YyRsa lib → Option Cmd → ReadResult (List ℕ)
    rsa_format rsa jobj = format_with (rsa_public_encrypt lib rsa garbage) jobj

    unfoldable pub rsa_un_format : YyRsa lib → List ℕ → ReadResult Cmd
    rsa_un_format rsa ser_string = un_format_with (rsa_private_decrypt lib rsa garbage) ser_string
