-- ===== src/Protocol/Frame.antt =====
-- src/yymm_svr/jsonprotocol.h: `YYmmsJson`, the frame round a command: the byte 0x17, the length of
-- the frame in two bytes, lowest first, and the text. The build is that of stdafx.h without WIN32,
-- where `WORD` is a signed 16-bit integer.
pub mod RoundTrip
pub mod Rejects
pub mod Append
pub mod Classes
use mms_svr.Prelude.{
  ℕ, ◌+◌, ◌-◌, ◌*◌, ◌/◌, ◌%◌, ◌^◌, List, [], ◌∷◌, ◌++◌, Option, none, some, Bool, ◌||◌, ltb, ◌==◌,
  length, if◌then◌else◌, take,
}
use mms_svr.Json.{Json, codes, object_get, get_int, type_of, json_type_int, to_cmd_int}
use mms_svr.Yyssl.Base64.{EvpLib}
use mms_svr.Protocol.Commands.{Cmd, id_of}
use mms_svr.Protocol.Print.{print}
use mms_svr.Protocol.Read.{ReadResult, ok, rejected, crash, read, look_for_map}

-- `YYMMSJSON_ERROR`, with the command and the new offset on success, and a crash: an exception that
-- nothing catches, or a read through NULL.
pub data Parsed : Type 0 where
  success : Cmd → ℕ → Parsed
  bufsize esc json unknowed crashed : Parsed

abbrev pub pre_char : ℕ
pre_char = 0x17

-- `c_str()`: the parser reads up to the first NUL.
abbrev pub c_str : List ℕ → List ℕ
c_str [] = []
c_str (x ∷ xs) = if x == 0 then [] else x ∷ c_str xs

-- json-c's `json_tokener_parse_ex`.
abbrev pub Parser : Type 0
Parser = List ℕ → Option Json

module _ (parse : Parser) (evp : EvpLib) (junk : ℕ) where
  abbrev pub of_read : ReadResult Cmd → ℕ → Parsed
  of_read (ok c) offset = success c offset
  of_read rejected offset = unknowed
  of_read crash offset = crashed

  abbrev pub of_command : Option Cmd → Json → ℕ → Parsed
  of_command none obj offset = unknowed
  of_command (some c) obj offset = of_read (read evp c obj) offset

  abbrev pub of_parts : Option Json → Option Json → ℕ → Parsed
  of_parts none obj offset = json
  of_parts (some cmd) none offset = json
  of_parts (some cmd) (some obj) offset =
      if type_of cmd == json_type_int
      then of_command (look_for_map junk (get_int cmd)) obj offset
      else json

  abbrev pub of_tree : Option Json → ℕ → Parsed
  of_tree none offset = json
  of_tree (some tree) offset = of_parts (object_get tree "cmd") (object_get tree "obj") offset

  -- `jsize > len` is a test on signed numbers, and a negative count makes `append` throw.
  abbrev pub of_sized : ℕ → ℕ → List ℕ → ℕ → Parsed
  of_sized jsize len text offset =
      if ltb jsize 3 || ltb 32767 jsize
      then crashed
      else (if ltb len jsize
          then bufsize
          else of_tree (parse (c_str (take (jsize - 3) text))) (offset + jsize))

  unfoldable pub parse_cmd : List ℕ → ℕ → Parsed
  unfolding read look_for_map
  parse_cmd (c ∷ lo ∷ hi ∷ text) offset =
      if c == pre_char
      then of_sized (lo + 256 * hi) (length (c ∷ lo ∷ hi ∷ text)) text offset
      else esc
  parse_cmd _ offset = bufsize

-- The text of a frame.
unfoldable pub cmd_text : Cmd → List ℕ → List ℕ
cmd_text obj str =
    b'{' ∷ (to_cmd_int "cmd" (id_of obj) ++ (codes ",\"obj\":" ++ (str ++ (b'}' ∷ []))))

-- The frame round a text: `WORD len = cmdstr.length() + 3`.
unfoldable pub frame : List ℕ → List ℕ
frame cmdstr =
    let len = (length cmdstr + 3) % 2 ^ 16 in pre_char ∷ (len % 256) ∷ (len / 256) ∷ cmdstr

-- `none` is `return false`.
unfoldable pub format_cmd : EvpLib → Option Cmd → List ℕ → Option (List ℕ)
unfolding print cmd_text frame
format_cmd evp none cmd = none
format_cmd evp (some obj) cmd = elim (print evp obj) [
  | none ↦ none
  | some str ↦ some (cmd ++ frame (cmd_text obj str))
]
