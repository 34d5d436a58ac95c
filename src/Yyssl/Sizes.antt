-- ===== src/Yyssl/Sizes.antt =====
-- include/yyssl.h: an AES-decrypted text is shorter than what was decrypted.
use mms_svr.Prelude.{
  inr, Option-cases, inl, ℕ, zero, suc, ◌+◌, ◌%◌, ◌<◌, ◌≤◌, ◌≡◌, refl, sym, ◌∙◌, List, [], ◌∷◌,
  ◌++◌, some, false, ◌==◌, ltb, length, take, drop, length-drop, length-append, length-take_bound,
  arith, Bool-cases, ==_iff,
}
use mms_svr.Yyssl.Blocks.{
  Outcome, done, refused, outside, thrown, stuck, BlockFn, copy_block, append_block, append_part,
  and_then, decrypt_loop, decrypt,
}
use mms_svr.Yyssl.Aes.{AesLib, YyAes, aes_block_size, aes_decrypt}

done_inj : (a b : List ℕ) → done a ≡ done b → a ≡ b
done_inj a b e = cc

append_block-le :
    (off : ℕ) (rest to out out' : List ℕ)
    → length to ≤ 16
    → append_block 16 off rest to out ≡ done out'
    → length out' ≤ length out + 16
unfolding append_block append_part
append_block-le off (y ∷ ys) to out out' h e =
    rw (← done_inj (out ++ to) out' e) (omega (arith, length-append out to))
append_block-le off [] to out out' h e = elim (Bool-cases (off == 0)) [
  | inl whole ↦
      rw (← done_inj (out ++ to) out' (rw whole at e)) (omega (arith, length-append out to))
  | inr part ↦ elim (Bool-cases (ltb 127 off)) [
    | inl negative ↦ absurd (thrown≢done (rw (part, negative) at e))
    | inr positive ↦ elim (Bool-cases (ltb 16 off)) [
      | inl above ↦ absurd (outside≢done (rw (part, positive, above) at e))
      | inr good ↦
          rw (← done_inj (out ++ take off to) out' (rw (part, positive, good) at e))
            (omega (arith, length-append out (take off to), length-take_bound off to, small good))
    ]
  ]
]
  where
    thrown≢done : {l : List ℕ} → thrown ≡ done l → ⊥
    thrown≢done q = cc

    outside≢done : {l : List ℕ} → outside ≡ done l → ⊥
    outside≢done q = cc

    small : ltb 16 off ≡ false → off ≤ 16
    small good = ground arith

and_then_done :
    (r : Outcome) (k : List ℕ → Outcome) (res : List ℕ)
    → and_then r k ≡ done res
    → (out : List ℕ) × (r ≡ done out) × (k out ≡ done res)
and_then_done (done out) k res e = (out, refl, e)
and_then_done refused k res e = cc
and_then_done outside k res e = cc
and_then_done thrown k res e = cc
and_then_done stuck k res e = cc

-- `append_block` cannot write more than a block for each block that is read.
decrypt_loop-le :
    (dec : BlockFn) (short : (b c : List ℕ) → dec b ≡ some c → length c ≤ 16) (off f : ℕ)
    (rest from out res : List ℕ)
    → length rest % 16 ≡ 0
    → decrypt_loop 16 dec off f rest from out ≡ done res
    → length res ≤ length out + length rest
unfolding decrypt_loop
decrypt_loop-le dec short off zero rest from out res whole e = cc
decrypt_loop-le dec short off (suc f) [] from out res whole e =
    rw (← done_inj out res e) (omega arith)
decrypt_loop-le dec short off (suc f) (x ∷ xs) from out res whole e =
    elim (Option-cases (dec (copy_block 16 (x ∷ xs) from))) [
      | inl bad ↦ absurd (refused≢done (sym (rw (bad, decrypt_loop) refl) ∙ e))
      | inr (to, good) ↦
          let (out', put, rest_done) =
            and_then_done (append_block 16 off (drop 16 (x ∷ xs)) to out)
              (λ out'.
                decrypt_loop 16 dec off f (drop 16 (x ∷ xs)) (copy_block 16 (x ∷ xs) from) out')
              res (sym (rw (good, decrypt_loop) refl) ∙ e) in
          omega (
            arith,
            append_block-le off (drop 16 (x ∷ xs)) to out out'
                (short (copy_block 16 (x ∷ xs) from) to good) put,
            decrypt_loop-le dec short off f (drop 16 (x ∷ xs)) (copy_block 16 (x ∷ xs) from) out'
                res (omega (arith, length-drop 16 (x ∷ xs))) rest_done,
            length-drop 16 (x ∷ xs),
          )
    ]
  where
    refused≢done : {l : List ℕ} → refused ≡ done l → ⊥
    refused≢done q = cc

-- The output of the block function fits into the array of a block.
pub record AesSizes (lib : AesLib) : Type 0 where
  pub length-aes_decrypt :
      (b : List ℕ) (key : lib.AesKey) → length (lib.aes_decrypt b key) ≤ aes_block_size

-- What `AESDecrypt` gives is shorter than its input.
pub length-aes_decrypt :
    (lib : AesLib) (sizes : AesSizes lib) (aes : YyAes lib) (garbage inbuf res : List ℕ)
    → aes_decrypt lib aes garbage inbuf ≡ done res
    → length res < length inbuf
unfolding aes_decrypt decrypt
length-aes_decrypt lib sizes aes garbage [] res e = cc
length-aes_decrypt lib sizes aes garbage (off ∷ inbuf) res e =
    elim (Bool-cases (suc (length inbuf) % 16 == 1)) [
      | inl whole ↦ omega (
        arith,
        decrypt_loop-le dec short off (suc (length inbuf)) inbuf garbage [] res
            (omega (arith, (==_iff (suc (length inbuf) % 16) 1).0 whole)) (rw whole at e),
      )
      | inr part ↦ absurd (refused≢done (rw part at e))
    ]
  where
    dec : BlockFn
    dec b = some (lib.aes_decrypt b aes.decryptkey)

    short : (b c : List ℕ) → dec b ≡ some c → length c ≤ 16
    short b c e = rw (← inj e) (sizes.length-aes_decrypt b aes.decryptkey)
      where
        inj : {a b : List ℕ} → some a ≡ some b → a ≡ b
        inj q = cc

    refused≢done : {l : List ℕ} → refused ≡ done l → ⊥
    refused≢done q = cc
