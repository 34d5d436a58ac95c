-- ===== src/Yyssl/Blocks/RoundTrip.antt =====
-- include/yyssl.h: the block loops undo one another.
use mms_svr.Prelude.{
  ℕ, zero, suc, ◌+◌, ◌%◌, ◌<◌, ◌≤◌, ◌≡◌, refl, sym, ap, ◌∙◌, ◌⊎◌, inl, inr, List, [], ◌∷◌, ◌++◌,
  some, Bool, true, false, arith, length, if◌then◌else◌, drop, replicate, length-append,
  length-drop, length-replicate, drop-append, take-append-drop, append_assoc, append-nil,
  Option-cases, List-cases, ◌==◌,
}
use native.Mathlib.Nat.{mod-eq_of_lt, mod-add-mod}
use mms_svr.Yyssl.Blocks.{
  done, refused, BlockFn, copy_block, encrypt_loop, append_block, and_then, decrypt_loop, encrypt,
  decrypt,
}
use mms_svr.Yyssl.Blocks.Copies.{
  mod_zero, mod_less, mod_plus, length-copy_block, copy_block_full, copy_block_long, append_last,
  append_more,
}

-- The two block operations are inverse to each other on full blocks.
pub record Inverse (n : ℕ) (enc dec : BlockFn) : Type 0 where
  pub length-enc : (b c : List ℕ) → length b ≡ n → enc b ≡ some c → length c ≡ n
  pub dec-enc : (b c : List ℕ) → length b ≡ n → enc b ≡ some c → dec c ≡ some b

module _ (n : ℕ) (enc dec : BlockFn) (inv : Inverse n enc dec) (pos : 1 < n) (small : n ≤ 128) where
  decrypt_step :
      (off f : ℕ) (rest from out to : List ℕ)
      → 0 < length rest
      → dec (copy_block n rest from) ≡ some to
      → decrypt_loop n dec off (suc f) rest from out
        ≡ and_then
            (append_block n off (drop n rest) to out)
            (λ out'. decrypt_loop n dec off f (drop n rest) (copy_block n rest from) out')
  unfolding decrypt_loop
  decrypt_step off f [] from out to h e = absurd (omega arith)
  decrypt_step off f (x ∷ xs) from out to h e = rw (e, decrypt_loop) refl

  loop_end :
      (off f : ℕ) (from out : List ℕ) → 0 < f → decrypt_loop n dec off f [] from out ≡ done out
  unfolding decrypt_loop
  loop_end off zero from out h = absurd (omega arith)
  loop_end off (suc f) from out h = refl

  -- What the encryption loop appends for `rest`, and that the decryption loop takes it back.
  pub record Encoded (rest c : List ℕ) : Type 0 where
    pub whole : length c % n ≡ 0
    pub empty : rest ≡ [] → c ≡ []
    pub nonempty : 0 < length rest → 0 < length c
    pub back :
        (f : ℕ) (from out : List ℕ)
        → length c < f
        → length from ≡ n
        → decrypt_loop n dec (length rest % n) f c from out ≡ done (out ++ rest)

  Encoded-nil : Encoded [] []
  Encoded-nil = record {
    whole = mod_zero n pos;
    empty = λ e. refl;
    nonempty = λ h. absurd (omega arith);
    back = nothing_back;
  }
    where
      nothing_back :
          (f : ℕ) (from out : List ℕ)
          → 0 < f
          → length from ≡ n
          → decrypt_loop n dec (0 % n) f [] from out ≡ done (out ++ [])
      nothing_back zero from out h g = absurd (omega arith)
      nothing_back (suc f) from out h g = rw (append-nil out) (unfold decrypt_loop in refl)

  -- One block: what the decryption loop does with `to` in front of an encoded rest.
  Encoded-block :
      (rest from to c : List ℕ)
      → 0 < length rest
      → length from ≡ n
      → enc (copy_block n rest from) ≡ some to
      → Encoded (drop n rest) c
      → Encoded rest (to ++ c)
  Encoded-block rest from to c some_rest h e coded = record {
    whole = rw (length-append to c, long) (mod_plus (length c) n pos ∙ coded.whole);
    empty = λ none'. absurd (omega (arith, ap length none'));
    nonempty = λ _. rw (length-append to c) (omega (arith, long));
    back = λ f from' out fuel g. back_block f from' out (List-cases (drop n rest)) fuel g;
  }
    where
      b : List ℕ
      b = copy_block n rest from

      full : length b ≡ n
      full = length-copy_block n rest from h

      long : length to ≡ n
      long = inv.length-enc b to full e

      all_taken : drop n rest ≡ [] → length rest ≤ n
      all_taken last = omega (arith, ap length last, length-drop n rest)

      rest_back :
          (f : ℕ) (out : List ℕ)
          → length c < f
          → 0 < length (drop n rest)
          → decrypt_loop n dec (length rest % n) f c to (out ++ b) ≡ done (out ++ rest)
      rest_back f out fuel some_more =
          let over : n ≤ length rest = omega (arith, length-drop n rest) in
          let off : length (drop n rest) % n ≡ length rest % n =
            ap (λ (k : ℕ). k % n) (length-drop n rest) ∙ mod_less (length rest) n pos over in
          let whole_rest : b ++ drop n rest ≡ rest =
            ap (λ (l : List ℕ). l ++ drop n rest) (copy_block_long n rest from h over)
            ∙ take-append-drop n rest in
          rw off at (coded.back f to (out ++ b) fuel long)
          ∙ ap done (append_assoc out b (drop n rest) ∙ ap (λ (l : List ℕ). out ++ l) whole_rest)

      back_block :
          (f : ℕ) (from' out : List ℕ)
          → (drop n rest ≡ []) ⊎ ((x : ℕ) × (xs : List ℕ) × (drop n rest ≡ x ∷ xs))
          → length (to ++ c) < f
          → length from' ≡ n
          → decrypt_loop n dec (length rest % n) f (to ++ c) from' out ≡ done (out ++ rest)
      back_block zero from' out cases fuel g = absurd (omega arith)
      back_block (suc f) from' out cases fuel g =
          let sum : length (to ++ c) ≡ n + length c =
            length-append to c ∙ ap (λ (k : ℕ). k + length c) long in
          let same : copy_block n (to ++ c) from' ≡ to = copy_block_full n to c from' long g in
          let plain : dec (copy_block n (to ++ c) from') ≡ some b =
            ap dec same ∙ inv.dec-enc b to full e in
          let left : drop n (to ++ c) ≡ c = drop-append to c n (sym long) in
          decrypt_step (length rest % n) f (to ++ c) from' out b (omega (arith, sum)) plain
          ∙ rw (left, same)
              (elim cases [
                | inl last ↦ rw (coded.empty last) (
                    rw (append_last n rest from out pos small h some_rest (all_taken last))
                      (loop_end (length rest % n) f to (out ++ rest) (omega (arith, sum))))
                | inr (x, xs, more) ↦
                    rw
                      (append_more n (length rest % n) c b out
                        (coded.nonempty (rw more (omega arith))))
                      (rest_back f out (omega (arith, sum)) (rw more (omega arith)))
              ])

  encrypt_loop-Encoded :
      (reset : Bool) (f : ℕ) (rest from out res : List ℕ)
      → length rest < f
      → length from ≡ n
      → encrypt_loop n reset enc f rest from out ≡ done res
      → (c : List ℕ) × (res ≡ out ++ c) × Encoded rest c
  unfolding encrypt_loop
  encrypt_loop-Encoded reset zero rest from out res fuel h e = absurd (omega arith)
  encrypt_loop-Encoded reset (suc f) [] from out res fuel h e =
      ([], ground (arith, append-nil out), Encoded-nil)
  encrypt_loop-Encoded reset (suc f) (x ∷ xs) from out res fuel h e =
      let fill : List ℕ = if reset then replicate n 0 else from in
      let wide : length fill ≡ n = filled reset in
      let b : List ℕ = copy_block n (x ∷ xs) fill in
      elim (Option-cases (enc b)) [
        | inl refusal ↦ absurd (refused≢done (sym (rw (refusal, encrypt_loop) refl) ∙ e))
        | inr (to, got) ↦
            let (c, res_eq, coded) =
              encrypt_loop-Encoded reset f (drop n (x ∷ xs)) b (out ++ to) res
                (omega (arith, length-drop n (x ∷ xs))) (length-copy_block n (x ∷ xs) fill wide)
                (sym (rw (got, encrypt_loop) refl) ∙ e) in
            (
              to ++ c,
              res_eq ∙ append_assoc out to c,
              Encoded-block (x ∷ xs) fill to c (omega arith) wide got coded,
            )
      ]
    where
      filled : (r : Bool) → length (if r then replicate n 0 else from) ≡ n
      filled true = length-replicate n 0
      filled false = h

      refused≢done : {l : List ℕ} → refused ≡ done l → ⊥
      refused≢done q = cc

  one_more : (k : ℕ) → k % n ≡ 0 → suc k % n ≡ 1
  one_more k h =
      let e : suc k ≡ k + 1 = omega arith in
      let f : k % n + 1 ≡ 1 = omega arith in
      ap (λ (j : ℕ). j % n) e
      ∙ sym (mod-add-mod k n 1)
      ∙ ap (λ (j : ℕ). j % n) f
      ∙ mod-eq_of_lt {n = 1} {m = n} pos

  -- For inverse operations on blocks of 2 to 128 bytes, what was encrypted is decrypted to the same
  -- bytes, whatever the stack holds on either side.
  pub decrypt-encrypt :
      (reset : Bool) (garbage garbage' inbuf res : List ℕ)
      → length garbage ≡ n
      → length garbage' ≡ n
      → encrypt n reset enc garbage inbuf ≡ done res
      → decrypt n dec garbage' res ≡ done inbuf
  unfolding encrypt decrypt
  decrypt-encrypt reset garbage garbage' inbuf res h g e =
      let (c, res_eq, coded) =
        encrypt_loop-Encoded reset (suc (length inbuf)) inbuf garbage _ res (omega arith) h e in
      let frame : (suc (length c) % n == 1) ≡ true =
        ap (λ (k : ℕ). k == 1) (one_more (length c) coded.whole) in
      rw (res_eq, frame) (coded.back (suc (length c)) garbage' [] (omega arith) g)

  encrypt_loop_total :
      (reset : Bool) (f : ℕ) (rest from out : List ℕ)
      → length rest < f
      → ((b : List ℕ) → (c : List ℕ) × (enc b ≡ some c))
      → (res : List ℕ) × (encrypt_loop n reset enc f rest from out ≡ done res)
  unfolding encrypt_loop
  encrypt_loop_total reset zero rest from out fuel total = absurd (omega arith)
  encrypt_loop_total reset (suc f) [] from out fuel total = (out, refl)
  encrypt_loop_total reset (suc f) (x ∷ xs) from out fuel total =
      let b : List ℕ = copy_block n (x ∷ xs) (if reset then replicate n 0 else from) in
      let (to, got) = total b in
      let (res, ran) =
        encrypt_loop_total reset f (drop n (x ∷ xs)) b (out ++ to)
          (omega (arith, length-drop n (x ∷ xs))) total in
      (res, rw (got, encrypt_loop) ran)

  -- A block operation that never fails makes encryption succeed on every input.
  pub encrypt_total :
      (reset : Bool) (garbage inbuf : List ℕ)
      → ((b : List ℕ) → (c : List ℕ) × (enc b ≡ some c))
      → (res : List ℕ) × (encrypt n reset enc garbage inbuf ≡ done res)
  unfolding encrypt
  encrypt_total reset garbage inbuf total =
      encrypt_loop_total reset (suc (length inbuf)) inbuf garbage _ (omega arith) total
