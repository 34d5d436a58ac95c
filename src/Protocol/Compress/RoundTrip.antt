-- ===== src/Protocol/Compress/RoundTrip.antt =====
-- src/yymm_svr/jsonprotocol.h: a command that was wrapped in an encrypted text comes back.
use mms_svr.Prelude.{
  Option, ℕ, ◌+◌, ◌<◌, ◌≡◌, refl, ap, sym, ◌∙◌, List, [], ◌∷◌, some, length, arith, List-cases, inl,
  inr, append-nil,
}
use mms_svr.Yyssl.Blocks.{Outcome, done}
use mms_svr.Yyssl.Blocks.{refused, outside, thrown, stuck}
use mms_svr.Yyssl.Blocks.RoundTrip.{Inverse}
use mms_svr.Yyssl.Rsa.{
  RsaLib, YyRsa, k_bytes, rsa_public_encrypt, rsa_private_decrypt,
  rsa_private_decrypt-rsa_public_encrypt,
}
use mms_svr.Protocol.Compress.{rsa_format, rsa_un_format, of_format, then_read}
use mms_svr.Prelude.{Option}
use mms_svr.Protocol.Read.{ReadResult}
use mms_svr.Yyssl.Base64.{EvpLib, EvpLaws, base64decode, base64_fits}
use mms_svr.Yyssl.Aes.{
  AesLib, AesLaws, YyAes, aes_set_key, aes_encrypt, aes_decrypt, aes_block_size,
  aes_decrypt-aes_encrypt,
}
use mms_svr.Protocol.Commands.{Cmd}
use mms_svr.Protocol.Print.{print}
use mms_svr.Protocol.Read.{ok}
use mms_svr.Protocol.Frame.{Parser, success, parse_cmd, format_cmd, cmd_text}
use mms_svr.Protocol.Frame.RoundTrip.{HasInts, ParsesAs, parse_cmd-format_cmd}
use mms_svr.Protocol.Compress.{
  YyRsa, RsaLib, then_read, of_format, rsa_un_format, rsa_format, rsa_private_decrypt, ReadResult,
  aes_format, aes_un_format, un_format_with, format_with,
}

-- What a parser has to make of a command whose frame goes through.
pub record IsReadable (parse : Parser) (evp : EvpLib) (c : Cmd) : Type 0 where
  pub text : List ℕ
  pub ints : HasInts c
  pub printed : print evp c ≡ some text
  pub parsed : ParsesAs parse evp c text
  pub short : length (cmd_text c text) + 3 < 32768

-- An encrypted text has its offset byte.
encrypted_some :
    (lib : AesLib) (keyed : YyAes lib) (garbage secret bytes : List ℕ)
    → aes_decrypt lib keyed garbage secret ≡ done bytes
    → 0 < length secret
unfolding aes_decrypt mms_svr.Yyssl.Blocks.decrypt
encrypted_some lib keyed garbage [] bytes e = absurd (no_text e)
  where
    no_text : Outcome.refused ≡ done bytes → ⊥
    no_text q = cc
encrypted_some lib keyed garbage (x ∷ xs) bytes e = omega arith

decrypted_some :
    (lib : RsaLib) (receiver : YyRsa lib) (private : lib.Key) (garbage secret bytes : List ℕ)
    → receiver.private_key ≡ some private
    → rsa_private_decrypt lib receiver garbage secret ≡ done bytes
    → 0 < length secret
unfolding rsa_private_decrypt mms_svr.Yyssl.Blocks.decrypt
decrypted_some lib receiver private garbage [] bytes there e = absurd (no_text (rw there at e))
  where
    no_text : Outcome.refused ≡ done bytes → ⊥
    no_text q = cc
decrypted_some lib receiver private garbage (x ∷ xs) bytes there e = omega arith

module _ (parse : Parser) (evp : EvpLib) (laws : EvpLaws evp) (junk : ℕ) where
  -- A frame that ends the text.
  pub parse_cmd_alone :
      (c : Cmd)
      → IsReadable parse evp c
      → (bytes : List ℕ) × (format_cmd evp (some c) [] ≡ some bytes)
        × (parse_cmd parse evp junk bytes 0 ≡ success c (length bytes))
  parse_cmd_alone c v =
      let (bytes, formatted, size, back) =
        parse_cmd-format_cmd parse evp laws junk c v.text [] 0 v.ints v.printed v.parsed v.short in
      let same : 0 + length bytes ≡ length bytes = omega arith in
      (bytes, formatted, (rw (append-nil bytes) at back) ∙ ap (success c) same)

  -- A way back from an encryption is a way back from the text in base64.
  un_format-format :
      (encrypt decrypt : List ℕ → Outcome) (c : Cmd) (bytes secret : List ℕ)
      → format_cmd evp (some c) [] ≡ some bytes
      → parse_cmd parse evp junk bytes 0 ≡ success c (length bytes)
      → encrypt bytes ≡ done secret
      → decrypt secret ≡ done bytes
      → 0 < length secret
      → (format_with parse evp junk encrypt (some c) ≡ ok (evp.evp_encode secret))
        × (un_format_with parse evp junk decrypt (evp.evp_encode secret) ≡ ok c)
  un_format-format encrypt decrypt c bytes secret formatted parsed sent back some_byte = (
    rw (formatted, sent, (base64_fits evp laws secret).0) refl,
    elim (List-cases (evp.evp_encode secret)) [
      | inl empty ↦ absurd (omega (arith, ap length empty, laws.length-evp_encode secret))
      | inr (x, xs, letters) ↦
          let decoded : base64decode evp (x ∷ xs) ≡ done secret =
            ap (base64decode evp) (sym letters)
            ∙ (base64_fits evp laws (evp.evp_encode secret)).1
            ∙ ap done (laws.evp_decode-evp_encode secret) in
          rw letters (rw decoded (rw back (rw parsed refl)))
    ],
  )

  -- With an EVP coder and an AES with their laws, a command that the parser reads, wrapped with a
  -- key by Format and unwrapped with the same key by UnFormat, comes back, whatever blocks the
  -- stacks hold on both sides.
  pub aes_un_format-aes_format :
      (lib : AesLib) (aes_laws : AesLaws lib) (aes : YyAes lib) (key garbage garbage' : List ℕ)
      (c : Cmd)
      → IsReadable parse evp c
      → length garbage ≡ aes_block_size
      → length garbage' ≡ aes_block_size
      → let keyed = aes_set_key lib aes (some key) in
        (ser : List ℕ) × (aes_format parse evp junk lib garbage keyed (some c) ≡ ok ser)
        × (aes_un_format parse evp junk lib garbage' keyed ser ≡ ok c)
  unfolding aes_format aes_un_format
  aes_un_format-aes_format lib aes_laws aes key garbage garbage' c v whole whole' =
      let (bytes, formatted, parsed) = parse_cmd_alone c v in
      let (secret, sent, back) =
        aes_decrypt-aes_encrypt lib aes_laws aes key garbage garbage' bytes whole whole' in
      let (wrapped, back_again) =
        un_format-format (aes_encrypt lib (aes_set_key lib aes (some key)) garbage)
          (aes_decrypt lib (aes_set_key lib aes (some key)) garbage') c bytes secret formatted
          parsed sent back
          (encrypted_some lib (aes_set_key lib aes (some key)) garbage' secret bytes back) in
      (evp.evp_encode secret, wrapped, back_again)

  of_format-ok :
      (r : Option (List ℕ)) (s ser : List ℕ) (k : List ℕ → ReadResult (List ℕ))
      → r ≡ some s
      → of_format r k ≡ ok ser
      → k s ≡ ok ser
  of_format-ok r s ser k there e = rw there at e

  ok_inj : (s t : List ℕ) → ok s ≡ ok t → s ≡ t
  ok_inj s t e = cc

  -- A `Format` that succeeded has encrypted the frame.
  then_read-ok :
      (o : Outcome) (ser : List ℕ) (k : List ℕ → ReadResult (List ℕ))
      → then_read o k ≡ ok ser
      → (s : List ℕ) × (o ≡ done s) × (k s ≡ ok ser)
  then_read-ok (done s) ser k e = (s, refl, e)
  then_read-ok refused ser k e = cc
  then_read-ok outside ser k e = cc
  then_read-ok thrown ser k e = cc
  then_read-ok stuck ser k e = cc

  -- With an EVP coder and with key pairs whose block operations are inverse to each other, whatever
  -- blocks of the right size the stacks hold on both sides: when the holder of the public key could
  -- wrap a command that the parser reads, the holder of the private key unwraps that command.
  pub rsa_un_format-rsa_format :
      (lib : RsaLib) (sender receiver : YyRsa lib) (public private : lib.Key)
      (garbage garbage' ser : List ℕ) (c : Cmd)
      → sender.public_key ≡ some public
      → receiver.private_key ≡ some private
      → Inverse k_bytes (lib.public_encrypt public) (lib.private_decrypt private)
      → IsReadable parse evp c
      → length garbage ≡ k_bytes
      → length garbage' ≡ k_bytes
      → rsa_format parse evp junk lib garbage sender (some c) ≡ ok ser
      → rsa_un_format parse evp junk lib garbage' receiver ser ≡ ok c
  unfolding rsa_format rsa_un_format
  rsa_un_format-rsa_format lib sender receiver public private garbage garbage' ser c has_public
        has_private inverse v whole whole' sent =
      let (bytes, formatted, parsed) = parse_cmd_alone c v in
      let (secret, encrypted, rest) =
        then_read-ok (rsa_public_encrypt lib sender garbage bytes) ser _
          (of_format-ok (format_cmd evp (some c) []) bytes ser _ formatted sent) in
      let back =
        rsa_private_decrypt-rsa_public_encrypt lib sender receiver public private garbage garbage'
          bytes secret has_public has_private inverse whole whole' encrypted in
      let (wrapped, unwrapped) =
        un_format-format (rsa_public_encrypt lib sender garbage)
          (rsa_private_decrypt lib receiver garbage') c bytes secret formatted parsed encrypted back
          (decrypted_some lib receiver private garbage' secret bytes has_private back) in
      rw (← ok_inj (evp.evp_encode secret) ser (sym wrapped ∙ sent)) unwrapped
