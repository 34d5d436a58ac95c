-- ===== src/Tests/Ciphers.antt =====
-- include/yyssl.h with ciphers that leave a block as it is, and a coder that pads.
use mms_svr.Prelude.{
  ◌≤◌, ◌⊎◌, ◌<◌, ℕ, zero, suc, ◌+◌, ◌*◌, ◌/◌, ◌-◌, ◌≡◌, refl, ◌∙◌, inr, List, [], ◌∷◌, ◌++◌, true,
  Option, some, arith, length, take, replicate, length-append, length-replicate, take_all,
  length-take_bound,
}
use mms_svr.Yyssl.Blocks.{Outcome, done, outside, thrown, stuck, encrypt, decrypt}
use mms_svr.Yyssl.Blocks.RoundTrip.{Inverse, decrypt-encrypt}
use mms_svr.Yyssl.Blocks.Faults.{decrypt_bad_offset}
use mms_svr.Yyssl.Aes.{AesLib, AesLaws}
use mms_svr.Yyssl.Base64.{EvpLib, EvpLaws}

abbrev pub same : List ℕ → Option (List ℕ)
same b = some b

pub same-Inverse : (n : ℕ) → Inverse n same same
same-Inverse n = record {
  length-enc = λ b c full e. kept b c full e;
  dec-enc = λ b c full e. back b c e;
}
  where
    kept : (b c : List ℕ) → length b ≡ n → some b ≡ some c → length c ≡ n
    kept b c full e = cc

    back : (b c : List ℕ) → some b ≡ some c → some c ≡ some b
    back b c e = cc

abbrev four_zeros : List ℕ
four_zeros = 0 ∷ 0 ∷ 0 ∷ 0 ∷ []

abbrev five_bytes : List ℕ
five_bytes = 1 ∷ 2 ∷ 3 ∷ 4 ∷ 5 ∷ []

encrypted :
    encrypt 4 true same four_zeros five_bytes ≡ done (1 ∷ 1 ∷ 2 ∷ 3 ∷ 4 ∷ 5 ∷ 0 ∷ 0 ∷ 0 ∷ [])
unfolding encrypt mms_svr.Yyssl.Blocks.encrypt_loop mms_svr.Yyssl.Blocks.copy_block
encrypted = refl

decrypt-encrypt_example :
    decrypt 4 same (9 ∷ 9 ∷ 9 ∷ 9 ∷ []) (1 ∷ 1 ∷ 2 ∷ 3 ∷ 4 ∷ 5 ∷ 0 ∷ 0 ∷ 0 ∷ []) ≡ done five_bytes
decrypt-encrypt_example =
    decrypt-encrypt 4 same same (same-Inverse 4) (omega arith) (omega arith) true four_zeros
      (9 ∷ 9 ∷ 9 ∷ 9 ∷ []) five_bytes (1 ∷ 1 ∷ 2 ∷ 3 ∷ 4 ∷ 5 ∷ 0 ∷ 0 ∷ 0 ∷ []) refl refl encrypted

decrypt_bad_offset_example :
    ((127 < 200) × (decrypt 4 same four_zeros (200 ∷ 1 ∷ 2 ∷ 3 ∷ 4 ∷ []) ≡ thrown))
    ⊎ ((200 ≤ 127) × (decrypt 4 same four_zeros (200 ∷ 1 ∷ 2 ∷ 3 ∷ 4 ∷ []) ≡ outside))
decrypt_bad_offset_example =
    decrypt_bad_offset 4 same (omega arith) four_zeros (1 ∷ 2 ∷ 3 ∷ 4 ∷ []) 200 (inr (omega arith))
      (omega arith) refl total
  where
    total : (b : List ℕ) → (c : List ℕ) × (same b ≡ some c)
    total b = (b, refl)

abbrev pub plain_aes : AesLib
plain_aes = record {
  AesKey = List ℕ;
  zero_key = [];
  set_encrypt_key = λ k. k;
  set_decrypt_key = λ k. k;
  aes_encrypt = λ b k. b;
  aes_decrypt = λ b k. b;
}

plain_aes-AesLaws : AesLaws plain_aes
plain_aes-AesLaws = record {
  length-aes_encrypt = λ b key full. full;
  aes_decrypt-aes_encrypt = λ b key full. refl;
}

-- Zeros and a one in front of the text, up to the length of the real code.
abbrev strip : List ℕ → List ℕ
strip [] = []
strip (zero ∷ xs) = strip xs
strip (suc x ∷ xs) = xs

abbrev pem_length : ℕ → ℕ
pem_length n = (n + 2) / 3 * 4 + (n + 47) / 48

abbrev pad : List ℕ → List ℕ
pad [] = []
pad (x ∷ xs) = replicate (pem_length (suc (length xs)) - suc (suc (length xs))) 0 ++ (1 ∷ x ∷ xs)

strip-replicate : (n : ℕ) (xs : List ℕ) → strip (replicate n 0 ++ (1 ∷ xs)) ≡ xs
strip-replicate zero xs = refl
strip-replicate (suc n) xs = strip-replicate n xs

length-pad : (s : List ℕ) → length (pad s) ≡ pem_length (length s)
length-pad [] = refl
length-pad (x ∷ xs) =
    let n : ℕ = length xs in
    length-append (replicate (pem_length (suc n) - suc (suc n)) 0) (1 ∷ x ∷ xs)
    ∙ omega (arith, length-replicate {A = ℕ} (pem_length (suc n) - suc (suc n)) 0)

abbrev pub padding : EvpLib
padding = record { evp_encode = pad; evp_decode = λ s. take (length s * 3 / 4) (strip s) }

pub padding-EvpLaws : EvpLaws padding
padding-EvpLaws = record {
  length-evp_encode = length-pad;
  length-evp_decode = λ s. omega (arith, length-take_bound (length s * 3 / 4) (strip s));
  evp_decode-evp_encode = back;
}
  where
    back : (s : List ℕ) → take (length (pad s) * 3 / 4) (strip (pad s)) ≡ s
    back [] = refl
    back (x ∷ xs) =
        rw (strip-replicate (pem_length (suc (length xs)) - suc (suc (length xs))) (x ∷ xs))
          (take_all (length (pad (x ∷ xs)) * 3 / 4) (x ∷ xs) (omega (arith, length-pad (x ∷ xs))))
