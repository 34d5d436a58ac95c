-- ===== src/Yyssl/Blocks/Copies.antt =====
-- include/yyssl.h: what the block loops copy in and out, and remainders of block sizes.
use mms_svr.Prelude.{
  ℕ, ◌+◌, ◌-◌, ◌%◌, ◌<◌, ◌≤◌, ◌≡◌, refl, sym, ap, ◌∙◌, inl, inr, List, [], ◌∷◌, ◌++◌, false, arith,
  length, take, length-append, length-take_le, length-drop, take-append, take_all, drop_all,
  append-nil, Bool-cases, length-take_bound, ◌==◌, ==_iff, ne_of_false, le→ltb,
}
use native.Mathlib.Nat.{mod-eq_of_lt, mod-eq-sub-mod}
use mms_svr.Yyssl.Blocks.{done, copy_block, append_part, append_block}

pub mod_zero : (n : ℕ) → 1 < n → 0 % n ≡ 0
mod_zero n h = mod-eq_of_lt {n = 0} {m = n} (omega arith)

pub mod_less : (k n : ℕ) → 1 < n → n ≤ k → (k - n) % n ≡ k % n
mod_less k n h le = sym (mod-eq-sub-mod le)

pub mod_self : (n : ℕ) → 1 < n → n % n ≡ 0
mod_self n h =
    let e : n - n ≡ 0 = omega arith in
    sym (mod_less n n h (omega arith)) ∙ ap (λ (k : ℕ). k % n) e ∙ mod_zero n h

pub mod_plus : (k n : ℕ) → 1 < n → (n + k) % n ≡ k % n
mod_plus k n h =
    let e : n + k - n ≡ k = omega arith in
    sym (mod_less (n + k) n h (omega arith)) ∙ ap (λ (j : ℕ). j % n) e

-- A short block keeps the end of `from`.
pub length-copy_block :
    (n : ℕ) (rest from : List ℕ) → length from ≡ n → length (copy_block n rest from) ≡ n
unfolding copy_block
length-copy_block n rest from h =
    length-append (take n rest) _
    ∙ omega (arith, length-drop (length (take n rest)) from, length-take_bound n rest)

pub copy_block_full :
    (n : ℕ) (to more from : List ℕ)
    → length to ≡ n
    → length from ≡ n
    → copy_block n (to ++ more) from ≡ to
unfolding copy_block
copy_block_full n to more from full h =
    rw (take-append to more n (sym full), drop_all (length to) from (omega arith)) (append-nil to)

pub copy_block_long :
    (n : ℕ) (rest from : List ℕ)
    → length from ≡ n
    → n ≤ length rest
    → copy_block n rest from ≡ take n rest
unfolding copy_block
copy_block_long n rest from h long =
    rw (drop_all (length (take n rest)) from (omega (arith, length-take_le n rest long)))
      (append-nil (take n rest))

pub append_part_done :
    (n : ℕ) (rest from out : List ℕ)
    → length rest < n
    → n ≤ 128
    → 0 < length rest
    → append_block n (length rest) [] (copy_block n rest from) out ≡ done (out ++ rest)
unfolding append_block append_part copy_block
append_part_done n rest from out below small some_rest =
    let nonzero : (length rest == 0) ≡ false = ground arith in
    let all : take n rest ≡ rest = take_all n rest (omega arith) in
    rw (nonzero, le→ltb 127 (length rest) (omega arith), le→ltb n (length rest) (omega arith), all)
      (ap (λ (l : List ℕ). done (out ++ l)) (take-append rest _ (length rest) refl))

-- The last block holds the rest at its front, and the offset byte says how much of it counts.
pub append_last :
    (n : ℕ) (rest from out : List ℕ)
    → 1 < n
    → n ≤ 128
    → length from ≡ n
    → 0 < length rest
    → length rest ≤ n
    → append_block n (length rest % n) [] (copy_block n rest from) out ≡ done (out ++ rest)
append_last n rest from out pos small h some_rest short = elim (Bool-cases (length rest == n)) [
  | inl full ↦
      let e : length rest ≡ n = (==_iff _ _).0 full in
      let zero_off : length rest % n ≡ 0 = ap (λ (k : ℕ). k % n) e ∙ mod_self n pos in
      let all : copy_block n rest from ≡ rest =
        copy_block_long n rest from h (omega arith) ∙ take_all n rest short in
      rw (zero_off, all) (unfold append_block in refl)
  | inr part ↦
      let below : length rest < n = omega (arith, ne_of_false (length rest) n part) in
      let off : length rest % n ≡ length rest = mod-eq_of_lt below in
      rw off (append_part_done n rest from out below small some_rest)
]

pub append_more :
    (n off : ℕ) (rest to out : List ℕ)
    → 0 < length rest
    → append_block n off rest to out ≡ done (out ++ to)
unfolding append_block
append_more n off [] to out h = absurd (omega arith)
append_more n off (x ∷ xs) to out h = refl
