-- ===== src/Yyssl/Rsa.antt =====
-- include/yyssl.h: `YYSSL::YYRSA`. OpenSSL's RSA is a parameter; a key pointer is an `Option`.
use mms_svr.Prelude.{
  ℕ, ◌≡◌, List, [], ◌∷◌, ◌++◌, Option, none, some, Bool, true, length, arith, if◌then◌else◌,
}
use mms_svr.Yyssl.Blocks.{Outcome, done, refused, encrypt, decrypt}
use mms_svr.Yyssl.Blocks.RoundTrip.{Inverse, decrypt-encrypt}

abbrev pub k_bytes : ℕ
k_bytes = 128

-- The functions of OpenSSL that the class calls. `none` is NULL, a negative result or a length that is
-- not positive.
pub record RsaLib : Type 1 where
  pub Key : Type 0
  pub generate_key : Option Key
  pub check_key : Key → Bool
  pub private_dup : Key → Option Key
  pub public_dup : Key → Option Key
  pub d2i_public : List ℕ → Option Key
  pub d2i_private : List ℕ → Option Key
  pub i2d_public : Key → Option (List ℕ)
  pub i2d_private : Key → Option (List ℕ)
  pub public_encrypt : Key → List ℕ → Option (List ℕ)
  pub private_decrypt : Key → List ℕ → Option (List ℕ)

module _ (lib : RsaLib) where
  pub record YyRsa : Type 0 where
    pub public_key : Option lib.Key
    pub private_key : Option lib.Key

  unfoldable pub new_rsa : YyRsa
  new_rsa = record { public_key = none; private_key = none }

  -- The public and the private key, or `return false`.
  unfoldable pub gen_rsa_key : Option (Option lib.Key × Option lib.Key)
  gen_rsa_key = elim lib.generate_key [
    | none ↦ none
    | some rsa ↦ if lib.check_key rsa then some (lib.public_dup rsa, lib.private_dup rsa) else none
  ]

  -- `buf` with the printed key behind it, or `return false`.
  unfoldable pub rsa_pub_key_to_string : Option lib.Key → List ℕ → Option (List ℕ)
  rsa_pub_key_to_string none buf = none
  rsa_pub_key_to_string (some key) buf = elim (lib.i2d_public key) [
    | none ↦ none
    | some text ↦ some (buf ++ text)
  ]

  unfoldable pub rsa_priv_key_to_string : Option lib.Key → List ℕ → Option (List ℕ)
  rsa_priv_key_to_string none buf = none
  rsa_priv_key_to_string (some key) buf = elim (lib.i2d_private key) [
    | none ↦ none
    | some text ↦ some (buf ++ text)
  ]

  abbrev or_else : Option lib.Key → Option lib.Key → Option lib.Key
  or_else (some key) old = some key
  or_else none old = old

  -- A NULL key leaves the old one in place.
  unfoldable pub set_rsa_key : YyRsa → Option lib.Key → Option lib.Key → YyRsa
  set_rsa_key rsa publickey privatekey = record {
    public_key = or_else publickey rsa.public_key;
    private_key = or_else privatekey rsa.private_key;
  }

  abbrev pub if_text : List ℕ → (List ℕ → Option lib.Key) → Option lib.Key
  if_text [] read = none
  if_text (x ∷ xs) read = read (x ∷ xs)

  unfoldable pub set_rsa_key_text : YyRsa → List ℕ → List ℕ → YyRsa
  set_rsa_key_text rsa publickey privatekey =
      set_rsa_key rsa (if_text publickey lib.d2i_public) (if_text privatekey lib.d2i_private)

  unfoldable pub rsa_public_encrypt : YyRsa → List ℕ → List ℕ → Outcome
  rsa_public_encrypt rsa garbage inbuf = elim rsa.public_key [
    | none ↦ refused
    | some key ↦ encrypt k_bytes true (lib.public_encrypt key) garbage inbuf
  ]

  unfoldable pub rsa_private_decrypt : YyRsa → List ℕ → List ℕ → Outcome
  rsa_private_decrypt rsa garbage inbuf = elim rsa.private_key [
    | none ↦ refused
    | some key ↦ decrypt k_bytes (lib.private_decrypt key) garbage inbuf
  ]

  -- What the holder of the public key encrypts, the holder of the private key decrypts.
  pub rsa_private_decrypt-rsa_public_encrypt :
      (sender receiver : YyRsa) (public private : lib.Key) (garbage garbage' inbuf res : List ℕ)
      → sender.public_key ≡ some public
      → receiver.private_key ≡ some private
      → Inverse k_bytes (lib.public_encrypt public) (lib.private_decrypt private)
      → length garbage ≡ k_bytes
      → length garbage' ≡ k_bytes
      → rsa_public_encrypt sender garbage inbuf ≡ done res
      → rsa_private_decrypt receiver garbage' res ≡ done inbuf
  unfolding rsa_public_encrypt rsa_private_decrypt
  rsa_private_decrypt-rsa_public_encrypt sender receiver public private garbage garbage' inbuf res
        has_public has_private inverse h g e =
      rw has_private (
        decrypt-encrypt k_bytes (lib.public_encrypt public) (lib.private_decrypt private) inverse
          (omega arith) (omega arith) true garbage garbage' inbuf res h g (rw has_public at e))
