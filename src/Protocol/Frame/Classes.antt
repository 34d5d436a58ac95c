-- ===== src/Protocol/Frame/Classes.antt =====
-- src/yymm_svr/jsonprotocol.h: the class of the command that `ParseCmd` makes is the one of the id in the text.
use mms_svr.Prelude.{
  ℕ, ◌+◌, ◌-◌, ◌*◌, ◌≡◌, refl, sym, ap, ◌∙◌, List, [], ◌∷◌, Option, some, none, true, ◌==◌, ◌||◌,
  ltb, length, drop, take, arith, inl, inr, Bool-cases, All, some_inj, ==_iff,
}
use mms_svr.Json.{Json, object_get, get_int, type_of, json_type_int}
use mms_svr.Yyssl.Base64.{EvpLib}
use mms_svr.Protocol.Commands
use mms_svr.Protocol.Commands.{Cmd, id_of}
use mms_svr.Protocol.Read.{
  ReadResult, ok, rejected, crash, map_read, read, look_for_map, look_in, fn_map,
}
use mms_svr.Protocol.Frame.Rejects.{
  json≢success, crashed≢success, bufsize≢success, esc≢success, of_tree-offset,
}
use mms_svr.Protocol.Frame.{
  Parser, success, parse_cmd, c_str, pre_char, of_read, of_command, of_parts, of_tree, of_sized,
}

same_class :
    {A : Type 0} (f : A → Cmd) (r : ReadResult A) (c : Cmd) (n : ℕ)
    → ((a : A) → id_of (f a) ≡ n)
    → map_read f r ≡ ok c
    → id_of c ≡ n
same_class f (ok a) c n same e = let made : f a ≡ c = cc in ap id_of (sym made) ∙ same a
same_class f rejected c n same e = cc
same_class f crash c n same e = cc

-- Reading a command leaves its class.
read-id_of : (evp : EvpLib) (c d : Cmd) (obj : Json) → read evp c obj ≡ ok d → id_of d ≡ id_of c
unfolding read
read-id_of evp (Commands.comp_rsa c) d obj e = same_class Commands.comp_rsa _ d _ (λ a. refl) e
read-id_of evp (Commands.comp_aes c) d obj e = same_class Commands.comp_aes _ d _ (λ a. refl) e
read-id_of evp (Commands.login c) d obj e = same_class Commands.login _ d _ (λ a. refl) e
read-id_of evp (Commands.login_res c) d obj e = same_class Commands.login_res _ d _ (λ a. refl) e
read-id_of evp (Commands.login1 c) d obj e = same_class Commands.login1 _ d _ (λ a. refl) e
read-id_of evp (Commands.login1_res c) d obj e = same_class Commands.login1_res _ d _ (λ a. refl) e
read-id_of evp (Commands.logout c) d obj e = same_class Commands.logout _ d _ (λ a. refl) e
read-id_of evp (Commands.logout_res c) d obj e = same_class Commands.logout_res _ d _ (λ a. refl) e
read-id_of evp (Commands.open_url c) d obj e = same_class Commands.open_url _ d _ (λ a. refl) e
read-id_of evp (Commands.open_url_res c) d obj e =
    same_class Commands.open_url_res _ d _ (λ a. refl) e
read-id_of evp (Commands.mms_open_url c) d obj e =
    same_class Commands.mms_open_url _ d _ (λ a. refl) e
read-id_of evp (Commands.mms_stop_play c) d obj e =
    same_class Commands.mms_stop_play _ d _ (λ a. refl) e
read-id_of evp (Commands.mms_stop_play_res c) d obj e =
    same_class Commands.mms_stop_play_res _ d _ (λ a. refl) e
read-id_of evp (Commands.mms_exit c) d obj e = same_class Commands.mms_exit _ d _ (λ a. refl) e
read-id_of evp (Commands.svr_init c) d obj e = same_class Commands.svr_init _ d _ (λ a. refl) e

-- What holds of each entry of a table holds of what is found in it.
pub look_in-All :
    (P : ℕ × Cmd → Type 0) (table : List (ℕ × Cmd)) (id : ℕ) (c : Cmd)
    → All P table
    → look_in table id ≡ some c
    → P (id, c)
look_in-All P [] id c h e = cc
look_in-All P ((i, d) ∷ table) id c h e = elim (Bool-cases (i == id)) [
  | inl here ↦
      let same : i ≡ id = (==_iff i id).0 here in rw (← same, ← some_inj d c (rw here at e)) h.0
  | inr further ↦ look_in-All P table id c h.1 (rw further at e)
]

abbrev IsOwnId : ℕ × Cmd → Type 0
IsOwnId entry = id_of entry.1 ≡ entry.0

look_for_map-id_of : (junk id : ℕ) (c : Cmd) → look_for_map junk id ≡ some c → id_of c ≡ id
unfolding look_for_map
look_for_map-id_of junk id c e = look_in-All IsOwnId (fn_map junk) id c (omega arith) e

module _ (parse : Parser) (evp : EvpLib) (junk : ℕ) where
  -- The member `cmd` of a tree is a number, the id of the command.
  pub record Tells (tree : Json) (c : Cmd) : Type 0 where
    pub cmd : Json
    pub found : object_get tree "cmd" ≡ some cmd
    pub number : (type_of cmd == json_type_int) ≡ true
    pub same : get_int cmd ≡ id_of c

  of_read-ok :
      (r : ReadResult Cmd) (offset : ℕ) (c : Cmd) (offset' : ℕ)
      → of_read parse evp junk r offset ≡ success c offset'
      → r ≡ ok c
  of_read-ok (ok d) offset c offset' e = cc
  of_read-ok rejected offset c offset' e = cc
  of_read-ok crash offset c offset' e = cc

  of_command-id :
      (id : ℕ) (found : Option Cmd) (obj : Json) (offset : ℕ) (c : Cmd) (offset' : ℕ)
      → look_for_map junk id ≡ found
      → of_command parse evp junk found obj offset ≡ success c offset'
      → id ≡ id_of c
  of_command-id id none obj offset c offset' there e = cc
  of_command-id id (some d) obj offset c offset' there e = sym (
      read-id_of evp d c obj (of_read-ok (read evp d obj) offset c offset' e)
      ∙ look_for_map-id_of junk id d there)

  of_parts-Tells :
      (tree : Json) (cmd obj : Option Json) (offset : ℕ) (c : Cmd) (offset' : ℕ)
      → object_get tree "cmd" ≡ cmd
      → of_parts parse evp junk cmd obj offset ≡ success c offset'
      → Tells tree c
  of_parts-Tells tree none obj offset c offset' there e = cc
  of_parts-Tells tree (some cmd) none offset c offset' there e = cc
  of_parts-Tells tree (some cmd) (some obj) offset c offset' there e =
      elim (Bool-cases (type_of cmd == json_type_int)) [
        | inl is_int ↦ record {
          cmd = cmd;
          found = there;
          number = is_int;
          same =
              of_command-id (get_int cmd) (look_for_map junk (get_int cmd)) obj offset c offset'
                refl (sym (rw is_int refl) ∙ e);
        }
        | inr other ↦ absurd (json≢success (sym (rw other refl) ∙ e))
      ]

  of_tree-Tells :
      (tree : Option Json) (offset : ℕ) (c : Cmd) (offset' : ℕ)
      → of_tree parse evp junk tree offset ≡ success c offset'
      → (offset' ≡ offset) × ((t : Json) × (tree ≡ some t) × Tells t c)
  of_tree-Tells none offset c offset' e = cc
  of_tree-Tells (some tree) offset c offset' e =
      let tells =
        of_parts-Tells tree (object_get tree "cmd") (object_get tree "obj") offset c offset' refl
          e in
      (of_tree-offset parse evp junk (some tree) offset c offset' e, (tree, refl, tells))

  of_sized-Tells :
      (jsize len : ℕ) (text : List ℕ) (offset : ℕ) (c : Cmd) (offset' : ℕ)
      → of_sized parse evp junk jsize len text offset ≡ success c offset'
      → (offset' ≡ offset + jsize)
        × ((t : Json) × (parse (c_str (take (jsize - 3) text)) ≡ some t) × Tells t c)
  of_sized-Tells jsize len text offset c offset' e =
      elim (Bool-cases (ltb jsize 3 || ltb 32767 jsize)) [
        | inl bad ↦ absurd (crashed≢success (sym (rw bad refl) ∙ e))
        | inr good ↦ elim (Bool-cases (ltb len jsize)) [
          | inl short ↦ absurd (bufsize≢success (sym (rw (good, short) refl) ∙ e))
          | inr full ↦
              of_tree-Tells (parse (c_str (take (jsize - 3) text))) (offset + jsize) c offset'
                (sym (rw (good, full) refl) ∙ e)
        ]
      ]

  -- The command of a frame that is parsed has the class whose id stands as a number under `cmd` in the text of the
  -- frame: its bytes behind the first three, up to a NUL.
  pub parse_cmd-Tells :
      (bytes : List ℕ) (offset : ℕ) (c : Cmd) (offset' : ℕ)
      → parse_cmd parse evp junk bytes offset ≡ success c offset'
      → (t : Json) × (parse (c_str (take (offset' - offset - 3) (drop 3 bytes))) ≡ some t)
        × Tells t c
  unfolding parse_cmd
  parse_cmd-Tells [] offset c offset' e = cc
  parse_cmd-Tells (a ∷ []) offset c offset' e = cc
  parse_cmd-Tells (a ∷ b ∷ []) offset c offset' e = cc
  parse_cmd-Tells (a ∷ b ∷ d ∷ text) offset c offset' e = elim (Bool-cases (a == pre_char)) [
    | inr other ↦ absurd (esc≢success (sym (rw other refl) ∙ e))
    | inl first ↦
        let (moved, (t, read_tree, tells)) =
          of_sized-Tells (b + 256 * d) (length (a ∷ b ∷ d ∷ text)) text offset c offset'
            (sym (rw first refl) ∙ e) in
        let size : offset' - offset ≡ b + 256 * d = omega (arith, moved) in
        (t, rw size read_tree, tells)
  ]
