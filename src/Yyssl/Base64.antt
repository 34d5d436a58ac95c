-- ===== src/Yyssl/Base64.antt =====
-- include/yyssl.h: `YYSSL::YYBase64`, with OpenSSL's coder as a parameter. Both functions size
-- `outbuf` first, let the coder write into it, cut it to what was written and return true.
use mms_svr.Prelude.{
  ap, ◌∙◌, ℕ, ◌+◌, ◌*◌, ◌/◌, ◌≤◌, ◌≡◌, refl, List, length, ltb, if◌then◌else◌, arith, le→ltb,
}
use mms_svr.Yyssl.Blocks.{Outcome, done, outside}

-- All that `EVP_EncodeUpdate` and `EVP_EncodeFinal` write for a text, and the decoder's pair; the
-- codes by which the decoder reports bad input are not looked at.
pub record EvpLib : Type 0 where
  pub evp_encode : List ℕ → List ℕ
  pub evp_decode : List ℕ → List ℕ

-- PEM: four letters for three bytes, and a newline for each line of 48 bytes or less.
pub record EvpLaws (lib : EvpLib) : Type 0 where
  pub length-evp_encode :
      (s : List ℕ) → length (lib.evp_encode s) ≡ (length s + 2) / 3 * 4 + (length s + 47) / 48
  pub length-evp_decode : (s : List ℕ) → length (lib.evp_decode s) * 4 ≤ length s * 3
  pub evp_decode-evp_encode : (s : List ℕ) → lib.evp_decode (lib.evp_encode s) ≡ s

module _ (lib : EvpLib) where
  abbrev written_into : ℕ → List ℕ → Outcome
  written_into room text = if ltb room (length text) then outside else done text

  abbrev pem_len : ℕ → ℕ
  pem_len size = let base64_len = (size + 2) / 3 * 4 + 1 in base64_len + base64_len / 64

  unfoldable pub base64encode : List ℕ → Outcome
  base64encode inbuf = written_into (pem_len (length inbuf)) (lib.evp_encode inbuf)

  unfoldable pub base64decode : List ℕ → Outcome
  base64decode inbuf = written_into ((length inbuf + 2) / 4 * 3 + 1) (lib.evp_decode inbuf)

  -- For a coder with the lengths of PEM, the sizes that the code computes are enough in both
  -- directions.
  pub base64_fits :
      (laws : EvpLaws lib) (s : List ℕ)
      → (base64encode s ≡ done (lib.evp_encode s)) × (base64decode s ≡ done (lib.evp_decode s))
  unfolding base64encode base64decode
  base64_fits laws s = (
    rw
        (le→ltb (pem_len (length s)) (length (lib.evp_encode s))
          (omega (arith, laws.length-evp_encode s)))
        refl,
    rw
        (le→ltb ((length s + 2) / 4 * 3 + 1) (length (lib.evp_decode s))
          (omega (arith, laws.length-evp_decode s)))
        refl,
  )

  -- Decoding gives back what was encoded.
  pub base64decode-base64encode :
      (laws : EvpLaws lib) (s : List ℕ)
      → (text : List ℕ) × (base64encode s ≡ done text) × (base64decode text ≡ done s)
  base64decode-base64encode laws s = (
    lib.evp_encode s,
    (base64_fits laws s).0,
    (base64_fits laws (lib.evp_encode s)).1 ∙ ap done (laws.evp_decode-evp_encode s),
  )
