-- ===== src/Protocol/Frame/Rejects.antt =====
-- src/yymm_svr/jsonprotocol.h: `ParseCmd` on input that is no frame, and on numbers out of range.
use mms_svr.Prelude.{
  ℕ, suc, ◌+◌, ◌-◌, ◌*◌, ◌^◌, ◌≤◌, ◌≡◌, refl, inl, inr, List, [], ◌∷◌, Option, none, some, length,
  arith, le→ltb, Bool-cases, ltb, take, ◌==◌, sym, ◌∙◌, ◌||◌, ltb→le,
}
use mms_svr.Prelude.Int.{pos}
use mms_svr.Json.{Json, int, get_int, type_of, object_get, json_type_int}
use mms_svr.Protocol.Read.{ReadResult, ok, rejected, crash, read, look_for_map}
use mms_svr.Yyssl.Base64.{EvpLib}
use mms_svr.Protocol.Commands.{Cmd}
use mms_svr.Protocol.Frame.{
  success, bufsize, esc, json, crashed, Parser, parse_cmd, pre_char, of_tree, of_parts, of_command,
  of_read, of_sized, c_str,
}

-- The number in the two bytes behind the first.
abbrev pub size_field : List ℕ → ℕ
size_field (c ∷ lo ∷ hi ∷ text) = lo + 256 * hi
size_field _ = 0

pub esc≢success : {c : Cmd} {o : ℕ} → esc ≡ success c o → ⊥
esc≢success e = cc

pub json≢success : {c : Cmd} {o : ℕ} → json ≡ success c o → ⊥
json≢success e = cc

pub crashed≢success : {c : Cmd} {o : ℕ} → crashed ≡ success c o → ⊥
crashed≢success e = cc

pub bufsize≢success : {c : Cmd} {o : ℕ} → bufsize ≡ success c o → ⊥
bufsize≢success e = cc

module _ (parse : Parser) (evp : EvpLib) (junk : ℕ) where
  of_read-offset :
      (r : ReadResult Cmd) (offset : ℕ) (c : Cmd) (offset' : ℕ)
      → of_read parse evp junk r offset ≡ success c offset'
      → offset' ≡ offset
  of_read-offset (ok d) offset c offset' e = cc
  of_read-offset rejected offset c offset' e = cc
  of_read-offset crash offset c offset' e = cc

  of_command-offset :
      (found : Option Cmd) (obj : Json) (offset : ℕ) (c : Cmd) (offset' : ℕ)
      → of_command parse evp junk found obj offset ≡ success c offset'
      → offset' ≡ offset
  of_command-offset none obj offset c offset' e = cc
  of_command-offset (some d) obj offset c offset' e =
      of_read-offset (read evp d obj) offset c offset' e

  of_parts-offset :
      (cmd obj : Option Json) (offset : ℕ) (c : Cmd) (offset' : ℕ)
      → of_parts parse evp junk cmd obj offset ≡ success c offset'
      → offset' ≡ offset
  of_parts-offset none obj offset c offset' e = cc
  of_parts-offset (some cmd) none offset c offset' e = cc
  of_parts-offset (some cmd) (some obj) offset c offset' e =
      elim (Bool-cases (type_of cmd == json_type_int)) [
        | inl is_int ↦
            of_command-offset (look_for_map junk (get_int cmd)) obj offset c offset'
              (sym (rw is_int refl) ∙ e)
        | inr other ↦ absurd (json≢success (sym (rw other refl) ∙ e))
      ]

  pub of_tree-offset :
      (tree : Option Json) (offset : ℕ) (c : Cmd) (offset' : ℕ)
      → of_tree parse evp junk tree offset ≡ success c offset'
      → offset' ≡ offset
  of_tree-offset none offset c offset' e = cc
  of_tree-offset (some tree) offset c offset' e =
      of_parts-offset (object_get tree "cmd") (object_get tree "obj") offset c offset' e

  of_sized-takes :
      (jsize len : ℕ) (text : List ℕ) (offset : ℕ) (c : Cmd) (offset' : ℕ)
      → of_sized parse evp junk jsize len text offset ≡ success c offset'
      → (offset + 3 ≤ offset') × (offset' ≤ offset + len)
  of_sized-takes jsize len text offset c offset' e =
      elim (Bool-cases (ltb jsize 3 || ltb 32767 jsize)) [
        | inl bad ↦ absurd (crashed≢success (sym (rw bad refl) ∙ e))
        | inr good ↦ elim (Bool-cases (ltb len jsize)) [
          | inl short ↦ absurd (bufsize≢success (sym (rw (good, short) refl) ∙ e))
          | inr full ↦
              let moved : offset' ≡ offset + jsize =
                of_tree-offset (parse (c_str (take (jsize - 3) text))) (offset + jsize) c offset'
                  (sym (rw (good, full) refl) ∙ e) in
              let wide : 3 ≤ jsize = ground arith in
              (omega arith, omega (arith, ltb→le len jsize full))
        ]
      ]

  -- Every command that is parsed took at least three bytes, and no more than there are.
  pub parse_cmd-takes :
      (bytes : List ℕ) (offset : ℕ) (c : Cmd) (offset' : ℕ)
      → parse_cmd parse evp junk bytes offset ≡ success c offset'
      → (offset + 3 ≤ offset') × (offset' ≤ offset + length bytes)
  unfolding parse_cmd
  parse_cmd-takes [] offset c offset' e = cc
  parse_cmd-takes (a ∷ []) offset c offset' e = cc
  parse_cmd-takes (a ∷ b ∷ []) offset c offset' e = cc
  parse_cmd-takes (a ∷ b ∷ d ∷ text) offset c offset' e = elim (Bool-cases (a == pre_char)) [
    | inr other ↦ absurd (esc≢success (sym (rw other refl) ∙ e))
    | inl first ↦
        of_sized-takes (b + 256 * d) (suc (suc (suc (length text)))) text offset c offset'
          (sym (rw first refl) ∙ e)
  ]

-- An unsigned number from 2^31 on, as the code prints it, is read as 2^31 - 1.
pub get_int_clamps : (n : ℕ) → 2 ^ 31 ≤ n → get_int (int (pos n)) ≡ 2 ^ 31 - 1
get_int_clamps n h = rw (le→ltb n (2 ^ 31) h) refl
