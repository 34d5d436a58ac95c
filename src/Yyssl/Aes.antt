-- ===== src/Yyssl/Aes.antt =====
-- include/yyssl.h: `YYSSL::YYAES`. OpenSSL's AES is a parameter.
use mms_svr.Prelude.{ℕ, ◌≡◌, refl, List, Option, none, some, false, length, arith}
use mms_svr.Yyssl.Blocks.{Outcome, done, encrypt, decrypt}
use mms_svr.Yyssl.Blocks.RoundTrip.{Inverse, decrypt-encrypt, encrypt_total}

abbrev pub aes_block_size : ℕ
aes_block_size = 16

-- `AES_KEY` and the block functions. A key schedule for each direction comes from the same user key.
pub record AesLib : Type 1 where
  pub AesKey : Type 0
  pub zero_key : AesKey
  pub set_encrypt_key : List ℕ → AesKey
  pub set_decrypt_key : List ℕ → AesKey
  pub aes_encrypt : List ℕ → AesKey → List ℕ
  pub aes_decrypt : List ℕ → AesKey → List ℕ

-- One block in, one block out, and the two directions of one user key undo one another.
pub record AesLaws (lib : AesLib) : Type 0 where
  pub length-aes_encrypt :
      (b key : List ℕ)
      → length b ≡ aes_block_size
      → length (lib.aes_encrypt b (lib.set_encrypt_key key)) ≡ aes_block_size
  pub aes_decrypt-aes_encrypt :
      (b key : List ℕ)
      → length b ≡ aes_block_size
      → lib.aes_decrypt (lib.aes_encrypt b (lib.set_encrypt_key key)) (lib.set_decrypt_key key) ≡ b

module _ (lib : AesLib) where
  pub record YyAes : Type 0 where
    pub encryptkey : lib.AesKey
    pub decryptkey : lib.AesKey

  unfoldable pub new_aes : YyAes
  new_aes = record { encryptkey = lib.zero_key; decryptkey = lib.zero_key }

  -- `none` is the NULL pointer.
  unfoldable pub aes_set_key : YyAes → Option (List ℕ) → YyAes
  aes_set_key aes none = aes
  aes_set_key aes (some key) = record {
    encryptkey = lib.set_encrypt_key key;
    decryptkey = lib.set_decrypt_key key;
  }

  unfoldable pub aes_encrypt : YyAes → List ℕ → List ℕ → Outcome
  aes_encrypt aes garbage inbuf =
      encrypt aes_block_size false (λ b. some (lib.aes_encrypt b aes.encryptkey)) garbage inbuf

  unfoldable pub aes_decrypt : YyAes → List ℕ → List ℕ → Outcome
  aes_decrypt aes garbage inbuf =
      decrypt aes_block_size (λ b. some (lib.aes_decrypt b aes.decryptkey)) garbage inbuf

  -- For every key and every text the encryption succeeds, and the decryption with the same key gives
  -- the text back, whatever the stack holds.
  pub aes_decrypt-aes_encrypt :
      (laws : AesLaws lib) (aes : YyAes) (key garbage garbage' inbuf : List ℕ)
      → length garbage ≡ aes_block_size
      → length garbage' ≡ aes_block_size
      → let keyed = aes_set_key aes (some key) in
        (res : List ℕ) × (aes_encrypt keyed garbage inbuf ≡ done res)
        × (aes_decrypt keyed garbage' res ≡ done inbuf)
  unfolding aes_set_key aes_encrypt aes_decrypt
  aes_decrypt-aes_encrypt laws aes key garbage garbage' inbuf h g = (sent.0, sent.1, back)
    where
      enc : List ℕ → Option (List ℕ)
      enc b = some (lib.aes_encrypt b (lib.set_encrypt_key key))

      dec : List ℕ → Option (List ℕ)
      dec b = some (lib.aes_decrypt b (lib.set_decrypt_key key))

      inverse : Inverse aes_block_size enc dec
      inverse = record {
        length-enc = λ b c full e. ground (arith, laws.length-aes_encrypt b key full);
        dec-enc = λ b c full e. ground (arith, laws.aes_decrypt-aes_encrypt b key full);
      }

      sent : (res : List ℕ) × (encrypt aes_block_size false enc garbage inbuf ≡ done res)
      sent =
          encrypt_total aes_block_size enc dec inverse (omega arith) (omega arith) false garbage
            inbuf (λ b. (_, refl))

      back : decrypt aes_block_size dec garbage' sent.0 ≡ done inbuf
      back =
          decrypt-encrypt aes_block_size enc dec inverse (omega arith) (omega arith) false garbage
            garbage' inbuf sent.0 h g sent.1
