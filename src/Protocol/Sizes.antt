-- ===== src/Protocol/Sizes.antt =====
-- src/yymm_svr/jsonprotocol.h: a text inside a command is no longer than the input it was parsed from.
use mms_svr.Prelude.{
  inr, inl, ℕ, zero, suc, ◌+◌, ◌-◌, ◌*◌, ◌<◌, ◌≤◌, ◌≡◌, refl, ap, List, [], ◌∷◌, Option, none, some,
  ◌==◌, ◌||◌, ltb, length, take, arith, Bool-cases,
}
use mms_svr.Protocol.Frame.Rejects.{esc≢success, json≢success, crashed≢success, bufsize≢success}
use mms_svr.Json.{Json, object_get, get_int, type_of, json_type_int}
use mms_svr.Yyssl.Base64.{EvpLib}
use mms_svr.Protocol.Commands
use mms_svr.Protocol.Commands.{Cmd, Comp}
use mms_svr.Protocol.Read.{
  ReadResult, ok, rejected, crash, map_read, read, read_comp, foreach, look_for_map, fn_map,
}
use mms_svr.Protocol.Frame.Classes.{look_in-All}
use mms_svr.Protocol.Frame.{
  success, Parser, parse_cmd, c_str, of_tree, of_parts, of_command, of_read, of_sized, pre_char,
}
use mms_svr.Protocol.Fits.{Fits, object_get-Fits, foreach-le, ok_of_map}

-- What is taken of json-c: a string of the tree is not longer than the text.
abbrev pub IsBounded : Parser → Type 0
IsBounded parse = (text : List ℕ) (tree : Json) → parse text ≡ some tree → Fits (length text) tree

-- The length of the text that a wrapped command carries.
abbrev pub nested : Cmd → ℕ
nested (Commands.comp_aes c) = length c.ser_string
nested _ = 0

not_nested :
    {A : Type 0} (f : A → Cmd) (r : ReadResult A) (c : Cmd) (k : ℕ)
    → ((a : A) → nested (f a) ≡ 0)
    → map_read f r ≡ ok c
    → nested c ≤ k
not_nested f r c k plain e =
    let (a, got, same) = ok_of_map f r c e in omega (arith, ap nested same, plain a)

read-le :
    (k : ℕ) (evp : EvpLib) (c d : Cmd) (obj : Json)
    → nested c ≤ k
    → Fits k obj
    → read evp c obj ≡ ok d
    → nested d ≤ k
unfolding read
read-le k evp (Commands.comp_aes c) d obj h fits e =
    let (a, got, same) = ok_of_map Commands.comp_aes (foreach read_comp c obj) d e in
    omega (arith, ap nested same, foreach-le k c a obj h fits got)
read-le k evp (Commands.comp_rsa c) d obj h fits e =
    not_nested Commands.comp_rsa _ d k (λ a. refl) e
read-le k evp (Commands.login c) d obj h fits e = not_nested Commands.login _ d k (λ a. refl) e
read-le k evp (Commands.login_res c) d obj h fits e =
    not_nested Commands.login_res _ d k (λ a. refl) e
read-le k evp (Commands.login1 c) d obj h fits e = not_nested Commands.login1 _ d k (λ a. refl) e
read-le k evp (Commands.login1_res c) d obj h fits e =
    not_nested Commands.login1_res _ d k (λ a. refl) e
read-le k evp (Commands.logout c) d obj h fits e = not_nested Commands.logout _ d k (λ a. refl) e
read-le k evp (Commands.logout_res c) d obj h fits e =
    not_nested Commands.logout_res _ d k (λ a. refl) e
read-le k evp (Commands.open_url c) d obj h fits e =
    not_nested Commands.open_url _ d k (λ a. refl) e
read-le k evp (Commands.open_url_res c) d obj h fits e =
    not_nested Commands.open_url_res _ d k (λ a. refl) e
read-le k evp (Commands.mms_open_url c) d obj h fits e =
    not_nested Commands.mms_open_url _ d k (λ a. refl) e
read-le k evp (Commands.mms_stop_play c) d obj h fits e =
    not_nested Commands.mms_stop_play _ d k (λ a. refl) e
read-le k evp (Commands.mms_stop_play_res c) d obj h fits e =
    not_nested Commands.mms_stop_play_res _ d k (λ a. refl) e
read-le k evp (Commands.mms_exit c) d obj h fits e =
    not_nested Commands.mms_exit _ d k (λ a. refl) e
read-le k evp (Commands.svr_init c) d obj h fits e =
    not_nested Commands.svr_init _ d k (λ a. refl) e

IsPlainEntry : ℕ × Commands.Cmd → Type 0
IsPlainEntry entry = nested entry.1 ≡ 0

look_for_map-plain : (junk id : ℕ) (c : Cmd) → look_for_map junk id ≡ some c → nested c ≡ 0
unfolding look_for_map IsPlainEntry
look_for_map-plain junk id c e = look_in-All IsPlainEntry (fn_map junk) id c (omega arith) e

length-c_str : (xs : List ℕ) → length (c_str xs) ≤ length xs
length-c_str [] = omega arith
length-c_str (x ∷ xs) = ground (arith, length-c_str xs)

length-take_shorter : (n : ℕ) (xs : List ℕ) → length (take n xs) ≤ length xs
length-take_shorter zero xs = omega arith
length-take_shorter (suc n) [] = omega arith
length-take_shorter (suc n) (x ∷ xs) = omega (arith, length-take_shorter n xs)

module _ (parse : Parser) (evp : EvpLib) (junk : ℕ) where
  of_read-le :
      (k : ℕ) (r : ReadResult Cmd) (offset : ℕ) (c : Cmd) (offset' : ℕ)
      → ((d : Cmd) → r ≡ ok d → nested d ≤ k)
      → of_read parse evp junk r offset ≡ success c offset'
      → nested c ≤ k
  of_read-le k (ok d) offset c offset' h e = let same : d ≡ c = cc in rw (← same) (h d refl)
  of_read-le k rejected offset c offset' h e = cc
  of_read-le k crash offset c offset' h e = cc

  of_command-le :
      (k : ℕ) (found : Option Cmd) (obj : Json) (offset : ℕ) (c : Cmd) (offset' : ℕ)
      → ((d : Cmd) → found ≡ some d → nested d ≡ 0)
      → Fits k obj
      → of_command parse evp junk found obj offset ≡ success c offset'
      → nested c ≤ k
  of_command-le k none obj offset c offset' plain fits e = cc
  of_command-le k (some d) obj offset c offset' plain fits e =
      of_read-le k (read evp d obj) offset c offset'
        (λ d' got. read-le k evp d d' obj (omega (arith, plain d refl)) fits got) e

  of_parts-le :
      (k : ℕ) (cmd obj : Option Json) (offset : ℕ) (c : Cmd) (offset' : ℕ)
      → ((j : Json) → obj ≡ some j → Fits k j)
      → of_parts parse evp junk cmd obj offset ≡ success c offset'
      → nested c ≤ k
  of_parts-le k none obj offset c offset' fits e = cc
  of_parts-le k (some cmd) none offset c offset' fits e = cc
  of_parts-le k (some cmd) (some obj) offset c offset' fits e =
      elim (Bool-cases (type_of cmd == json_type_int)) [
        | inl is_int ↦
            of_command-le k (look_for_map junk (get_int cmd)) obj offset c offset'
              (look_for_map-plain junk (get_int cmd)) (fits obj refl) (rw is_int at e)
        | inr other ↦ absurd (json≢success (rw other at e))
      ]

  of_tree-le :
      (k : ℕ) (tree : Option Json) (offset : ℕ) (c : Cmd) (offset' : ℕ)
      → ((j : Json) → tree ≡ some j → Fits k j)
      → of_tree parse evp junk tree offset ≡ success c offset'
      → nested c ≤ k
  of_tree-le k none offset c offset' fits e = cc
  of_tree-le k (some tree) offset c offset' fits e =
      of_parts-le k (object_get tree "cmd") (object_get tree "obj") offset c offset'
        (λ j got. object_get-Fits k tree "obj" j (fits tree refl) got) e

  of_sized-le :
      (bounded : IsBounded parse) (jsize len : ℕ) (text : List ℕ) (offset : ℕ) (c : Cmd)
      (offset' : ℕ)
      → of_sized parse evp junk jsize len text offset ≡ success c offset'
      → nested c ≤ length (c_str (take (jsize - 3) text))
  of_sized-le bounded jsize len text offset c offset' e =
      elim (Bool-cases (ltb jsize 3 || ltb 32767 jsize)) [
        | inl bad ↦ absurd (crashed≢success (rw bad at e))
        | inr good ↦ elim (Bool-cases (ltb len jsize)) [
          | inl short ↦ absurd (bufsize≢success (rw (good, short) at e))
          | inr full ↦
              of_tree-le _ (parse (c_str (take (jsize - 3) text))) (offset + jsize) c offset'
                (bounded (c_str (take (jsize - 3) text))) (rw (good, full) at e)
        ]
      ]

  -- The text inside a wrapped command is shorter than the bytes that it was parsed from.
  pub nested-parse_cmd :
      (bounded : IsBounded parse) (bytes : List ℕ) (offset : ℕ) (c : Cmd) (offset' : ℕ)
      → parse_cmd parse evp junk bytes offset ≡ success c offset'
      → nested c < length bytes
  unfolding parse_cmd
  nested-parse_cmd bounded [] offset c offset' e = cc
  nested-parse_cmd bounded (a ∷ []) offset c offset' e = cc
  nested-parse_cmd bounded (a ∷ b ∷ []) offset c offset' e = cc
  nested-parse_cmd bounded (a ∷ lo ∷ hi ∷ text) offset c offset' e =
      elim (Bool-cases (a == pre_char)) [
        | inr other ↦ absurd (esc≢success (rw other at e))
        | inl first ↦ omega (
          arith,
          of_sized-le bounded (lo + 256 * hi) (suc (suc (suc (length text)))) text offset c offset'
              (rw first at e),
          length-c_str (take (lo + 256 * hi - 3) text),
          length-take_shorter (lo + 256 * hi - 3) text,
        )
      ]
