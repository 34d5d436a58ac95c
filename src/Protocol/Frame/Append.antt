-- ===== src/Protocol/Frame/Append.antt =====
-- src/yymm_svr/jsonprotocol.h: `ParseCmd` does not look behind its frame.
use mms_svr.Prelude.{
  ℕ, zero, suc, ◌+◌, ◌-◌, ◌*◌, ◌≤◌, ◌≡◌, refl, ap, List, [], ◌∷◌, ◌++◌, ◌==◌, ◌||◌, ltb, length,
  length-append, take, arith, Bool-cases, inl, inr, ltb→le, le→ltb,
}
use mms_svr.Yyssl.Base64.{EvpLib}
use mms_svr.Protocol.Commands.{Cmd}
use mms_svr.Protocol.Frame.{success, Parser, parse_cmd, of_sized, pre_char}
use mms_svr.Protocol.Frame.Rejects.{esc≢success, crashed≢success, bufsize≢success}

take_before : (n : ℕ) (xs ys : List ℕ) → n ≤ length xs → take n (xs ++ ys) ≡ take n xs
take_before zero xs ys h = refl
take_before (suc n) [] ys h = absurd (omega arith)
take_before (suc n) (x ∷ xs) ys h = ap (◌∷◌ x) (take_before n xs ys (omega arith))

module _ (parse : Parser) (evp : EvpLib) (junk : ℕ) where
  of_sized-append :
      (j offset o : ℕ) (text b : List ℕ) (c : Cmd)
      → of_sized parse evp junk j (suc (suc (suc (length text)))) text offset ≡ success c o
      → of_sized parse evp junk j (suc (suc (suc (length (text ++ b))))) (text ++ b) offset
        ≡ success c o
  of_sized-append j offset o text b c e = elim (Bool-cases (ltb j 3 || ltb 32767 j)) [
    | inl bad ↦ absurd (crashed≢success (rw bad at e))
    | inr good ↦ elim (Bool-cases (ltb (suc (suc (suc (length text)))) j)) [
      | inl short ↦ absurd (bufsize≢success (rw (good, short) at e))
      | inr whole ↦
          let fits : j ≤ suc (suc (suc (length text))) =
            ltb→le (suc (suc (suc (length text)))) j whole in
          rw
            (
              good,
              le→ltb (suc (suc (suc (length (text ++ b))))) j (omega (arith, length-append text b)),
              take_before (j - 3) text b (omega arith),
            )
            (rw (good, whole) at e)
    ]
  ]

  -- What stands behind a frame that parses does not matter.
  pub parse_cmd-append :
      (a b : List ℕ) (offset o : ℕ) (c : Cmd)
      → parse_cmd parse evp junk a offset ≡ success c o
      → parse_cmd parse evp junk (a ++ b) offset ≡ success c o
  unfolding parse_cmd
  parse_cmd-append [] b offset o c e = absurd (bufsize≢success e)
  parse_cmd-append (x ∷ []) b offset o c e = absurd (bufsize≢success e)
  parse_cmd-append (x ∷ lo ∷ []) b offset o c e = absurd (bufsize≢success e)
  parse_cmd-append (x ∷ lo ∷ hi ∷ text) b offset o c e = elim (Bool-cases (x == pre_char)) [
    | inl first ↦ rw first (of_sized-append (lo + 256 * hi) offset o text b c (rw first at e))
    | inr other ↦ absurd (esc≢success (rw other at e))
  ]
