-- ===== src/Tests/Frames.antt =====
-- src/yymm_svr/jsonprotocol.h: the frame of a log-out, with a parser that knows this one text.
use mms_svr.Protocol.Compress.RoundTrip.{IsReadable}
use mms_svr.Prelude.{ℕ, ◌+◌, ◌≡◌, ◌≤◌, ◌<◌, refl, List, [], ◌∷◌, ◌++◌, some, arith, length}
use mms_svr.Json.{Json, object, member, end, int}
use mms_svr.Prelude.Int.{pos}
use mms_svr.Protocol.Commands
use mms_svr.Protocol.Print.{print}
use mms_svr.Protocol.Frame.{c_str}
use mms_svr.Prelude.{take, drop, ◌-◌}
use mms_svr.Protocol.Frame.Classes.{Tells, parse_cmd-Tells}
use mms_svr.Protocol.Frame.{Parser, success, parse_cmd, format_cmd, cmd_text}
use mms_svr.Protocol.Frame.RoundTrip.{members, parse_cmd-format_cmd}
use mms_svr.Protocol.Frame.Rejects.{parse_cmd-takes}
use mms_svr.Tests.Ciphers.{padding, padding-EvpLaws}

abbrev pub one_text : Parser
one_text text = some (
    object (
      member "cmd" (int (pos 1015))
        (member "obj" (object (members padding (Commands.logout 7))) end)))

abbrev printed : List ℕ
printed = mms_svr.Json.codes "{\"yyID\":7}"

prints : print padding (Commands.logout 7) ≡ some printed
unfolding print mms_svr.Protocol.Print.print_logout mms_svr.Json.tos_uint mms_svr.Json.tos_int
prints = refl

short : length (cmd_text (Commands.logout 7) printed) + 3 < 32768
unfolding cmd_text mms_svr.Json.tos_int
short = omega arith

pub readable : IsReadable one_text padding (Commands.logout 7)
readable = record {
  text = printed;
  ints = omega arith;
  printed = prints;
  parsed = refl;
  short = short;
}

parse_cmd-format_cmd_example :
    (bytes : List ℕ) × (format_cmd padding (some (Commands.logout 7)) [] ≡ some bytes)
    × (length bytes ≡ length (cmd_text (Commands.logout 7) printed) + 3)
    × (parse_cmd one_text padding 0 (bytes ++ (5 ∷ [])) 0
        ≡ success (Commands.logout 7) (0 + length bytes))
parse_cmd-format_cmd_example =
    parse_cmd-format_cmd one_text padding padding-EvpLaws 0 (Commands.logout 7) printed (5 ∷ []) 0
      (omega arith) prints refl short

pub parsed :
    parse_cmd one_text padding 0 (0x17 ∷ 5 ∷ 0 ∷ 1 ∷ 2 ∷ []) 0 ≡ success (Commands.logout 7) 5
unfolding parse_cmd mms_svr.Protocol.Read.look_for_map mms_svr.Protocol.Read.read
    mms_svr.Protocol.Read.read_logout mms_svr.Protocol.Read.foreach
parsed = refl

parse_cmd-takes_example : (0 + 3 ≤ 5) × (5 ≤ 0 + 5)
parse_cmd-takes_example =
    parse_cmd-takes one_text padding 0 (0x17 ∷ 5 ∷ 0 ∷ 1 ∷ 2 ∷ []) 0 (Commands.logout 7) 5 parsed

parse_cmd-Tells_example :
    (t : Json) × (one_text (c_str (take (5 - 0 - 3) (drop 3 (0x17 ∷ 5 ∷ 0 ∷ 1 ∷ 2 ∷ [])))) ≡ some t)
    × Tells one_text padding 0 t (Commands.logout 7)
parse_cmd-Tells_example =
    parse_cmd-Tells one_text padding 0 (0x17 ∷ 5 ∷ 0 ∷ 1 ∷ 2 ∷ []) 0 (Commands.logout 7) 5 parsed
