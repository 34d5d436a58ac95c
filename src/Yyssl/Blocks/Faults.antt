-- ===== src/Yyssl/Blocks/Faults.antt =====
-- include/yyssl.h: what the decryption does with input that no encryption gave.
use mms_svr.Prelude.{
  ltb→le, ltb→lt, ltb, ◌≤◌, ℕ, zero, suc, ◌%◌, ◌<◌, ◌≡◌, ◌≢◌, refl, ap, ◌⊎◌, inl, inr, List, [],
  ◌∷◌, ◌++◌, some, arith, length, drop, length-drop, Option-cases, Bool-cases, ◌==◌, List-cases,
  ==_iff,
}
use mms_svr.Yyssl.Blocks.{
  Outcome, done, refused, outside, thrown, stuck, BlockFn, copy_block, and_then, append_part,
  append_block, decrypt_loop, decrypt,
}

and_then-ne-stuck :
    (r : Outcome) (k : List ℕ → Outcome)
    → r ≢ stuck
    → ((out : List ℕ) → k out ≢ stuck)
    → and_then r k ≢ stuck
and_then-ne-stuck (done out) k h g = g out
and_then-ne-stuck refused k h g = λ e. cc
and_then-ne-stuck outside k h g = λ e. cc
and_then-ne-stuck thrown k h g = λ e. cc
and_then-ne-stuck stuck k h g = h

module _ (n : ℕ) (dec : BlockFn) (pos : 0 < n) where
  append_first :
      (off : ℕ) (rest to out : List ℕ)
      → 0 < length rest
      → append_block n off rest to out ≡ done (out ++ to)
  unfolding append_block
  append_first off [] to out h = absurd (omega arith)
  append_first off (x ∷ xs) to out h = refl

  append_block-ne-stuck : (off : ℕ) (rest to out : List ℕ) → append_block n off rest to out ≢ stuck
  unfolding append_block
  append_block-ne-stuck off [] to out e = ground arith
  append_block-ne-stuck off (x ∷ xs) to out e = ground arith

  decrypt_loop-ne-stuck :
      (off f : ℕ) (rest from out : List ℕ)
      → length rest < f
      → decrypt_loop n dec off f rest from out ≢ stuck
  unfolding decrypt_loop
  decrypt_loop-ne-stuck off zero rest from out h = absurd (omega arith)
  decrypt_loop-ne-stuck off (suc f) [] from out h = λ e. cc
  decrypt_loop-ne-stuck off (suc f) (x ∷ xs) from out h =
      elim (Option-cases (dec (copy_block n (x ∷ xs) from))) [
        | inl bad ↦ rw (bad, decrypt_loop) (λ e. cc)
        | inr (to, good) ↦
            rw (good, decrypt_loop)
              (and_then-ne-stuck _ _ (append_block-ne-stuck off (drop n (x ∷ xs)) to out) (λ out'.
                decrypt_loop-ne-stuck off f (drop n (x ∷ xs)) _ out'
                  (omega (arith, length-drop n (x ∷ xs)))))
      ]

  -- The loop of the decryption ends on every input, for blocks of at least one byte.
  pub decrypt-ne-stuck : (garbage inbuf : List ℕ) → decrypt n dec garbage inbuf ≢ stuck
  unfolding decrypt
  decrypt-ne-stuck garbage [] = λ e. cc
  decrypt-ne-stuck garbage (off ∷ inbuf) = elim (Bool-cases (suc (length inbuf) % n == 1)) [
    | inl whole ↦
        rw whole (decrypt_loop-ne-stuck off (suc (length inbuf)) inbuf garbage [] (omega arith))
    | inr part ↦ rw part (λ e. cc)
  ]

  -- The offset byte counts more than a block, or is negative as a `char`.
  abbrev pub IsBadOffset : ℕ → Type 0
  IsBadOffset off = (n < off) ⊎ (127 < off)

  -- What the offset byte leads to: a read behind the array, or an exception.
  abbrev IsFault : ℕ → Outcome → Type 0
  IsFault off r = ((n < off) × (off ≤ 127) × (r ≡ outside)) ⊎ ((127 < off) × (r ≡ thrown))

  append_bad :
      (off : ℕ) (r : Outcome) (to out : List ℕ) → IsFault off r → append_block n off [] to out ≡ r
  unfolding append_block append_part
  append_bad off r to out (inl (above, small, e)) = ground arith
  append_bad off r to out (inr (negative, e)) = ground arith

  ended : (off : ℕ) (r : Outcome) (k : List ℕ → Outcome) → IsFault off r → and_then r k ≡ r
  ended off r k (inl (above, small, e)) = rw e refl
  ended off r k (inr (negative, e)) = rw e refl

  loop_bad :
      (off f : ℕ) (r : Outcome) (rest from out : List ℕ)
      → IsFault off r
      → length rest < f
      → 0 < length rest
      → ((b : List ℕ) → (c : List ℕ) × (dec b ≡ some c))
      → decrypt_loop n dec off f rest from out ≡ r
  unfolding decrypt_loop
  loop_bad off zero r rest from out bad fuel h total = absurd (omega arith)
  loop_bad off (suc f) r [] from out bad fuel h total = absurd (omega arith)
  loop_bad off (suc f) r (x ∷ xs) from out bad fuel h total =
      let (to, good) = total (copy_block n (x ∷ xs) from) in
      rw (good, decrypt_loop)
        (elim (List-cases (drop n (x ∷ xs))) [
          | inl last ↦
              rw (last, append_bad off r to out bad)
                (ended off r (λ out'. decrypt_loop n dec off f [] (copy_block n (x ∷ xs) from) out')
                  bad)
          | inr (y, ys, more) ↦
              let still : 0 < length (drop n (x ∷ xs)) = omega (arith, ap length more) in
              rw (append_first off (drop n (x ∷ xs)) to out still) (
                loop_bad off f r (drop n (x ∷ xs)) _ (out ++ to) bad
                  (omega (arith, length-drop n (x ∷ xs))) still total)
        ])

  decrypt_fault :
      (garbage inbuf : List ℕ) (off : ℕ) (r : Outcome)
      → IsFault off r
      → 0 < length inbuf
      → suc (length inbuf) % n ≡ 1
      → ((b : List ℕ) → (c : List ℕ) × (dec b ≡ some c))
      → decrypt n dec garbage (off ∷ inbuf) ≡ r
  unfolding decrypt
  decrypt_fault garbage inbuf off r bad h whole total =
      rw ((==_iff _ 1).1 whole)
        (loop_bad off (suc (length inbuf)) r inbuf garbage [] bad (omega arith) h total)

  -- With blocks of at least one byte, at least one block, all blocks whole, and a block operation that does not
  -- fail, for an offset byte above the block size or negative as a char: if it is negative the append of the last
  -- block throws, and otherwise it reads behind its array.
  pub decrypt_bad_offset :
      (garbage inbuf : List ℕ) (off : ℕ)
      → IsBadOffset off
      → 0 < length inbuf
      → suc (length inbuf) % n ≡ 1
      → ((b : List ℕ) → (c : List ℕ) × (dec b ≡ some c))
      → ((127 < off) × (decrypt n dec garbage (off ∷ inbuf) ≡ thrown))
        ⊎ ((off ≤ 127) × (decrypt n dec garbage (off ∷ inbuf) ≡ outside))
  decrypt_bad_offset garbage inbuf off bad h whole total = elim (Bool-cases (ltb 127 off)) [
    | inl test ↦
        let negative : 127 < off = ltb→lt 127 off test in
        inl (negative, decrypt_fault garbage inbuf off thrown (inr (negative, refl)) h whole total)
    | inr test ↦
        let small : off ≤ 127 = ltb→le 127 off test in
        inr (
          small,
          decrypt_fault garbage inbuf off outside (inl (above small, small, refl)) h whole total,
        )
  ]
    where
      above : off ≤ 127 → n < off
      above small = elim bad [ inl h ↦ h | inr g ↦ absurd (omega (arith, g, small)) ]
