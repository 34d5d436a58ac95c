-- ===== src/Protocol/Frame/RoundTrip.antt =====
-- src/yymm_svr/jsonprotocol.h: a command that was formatted is parsed back.
use mms_svr.Prelude.{
  suc, ℕ, ◌+◌, ◌-◌, ◌*◌, ◌/◌, ◌%◌, ◌^◌, ◌<◌, ◌≡◌, refl, ◌∙◌, ap, List, [], ◌++◌, some, length,
  length-append, take, take-append, arith, le→ltb, lt→ltb,
}
use mms_svr.Prelude.Int.{pos}
use mms_svr.Json.{Json, Members, object, int, string, boolean, member, end}
use mms_svr.Yyssl.Base64.{EvpLib, EvpLaws, base64_fits, base64decode}
use mms_svr.Yyssl.Blocks.{done}
use mms_svr.Protocol.Commands
use mms_svr.Protocol.Commands.{Cmd, id_of}
use mms_svr.Protocol.Print.{print}
use mms_svr.Protocol.Read.{
  ok, read, look_for_map, foreach, read_comp, read_login, read_login_res, read_login1,
  read_login1_res, read_logout, read_open_url, read_open_url_res, read_mms_open_url,
  read_mms_stop_play, read_mms_stop_play_res, read_mms_exit, read_svr_init,
}
use mms_svr.Protocol.Frame.{success, Parser, c_str, parse_cmd, cmd_text, frame, format_cmd, of_tree}

-- An `unsigned int` as a JSON number, and the members that a command is written with.
abbrev uint : ℕ → Json
uint n = int (pos n)

abbrev pub one_id : ℕ → Members
one_id yy_id = member "yyID" (uint yy_id) end

-- The members of each command, in the order of the text. The blobs are given in base64.
module _ (evp : EvpLib) where
  abbrev pub members : Cmd → Members
  members (Commands.comp_rsa c) =
      member "version" (uint c.version) (member "cmd" (string c.ser_string) end)
  members (Commands.comp_aes c) =
      member "version" (uint c.version) (member "cmd" (string c.ser_string) end)
  members (Commands.login c) =
      member "yyID" (uint c.yy_id)
        (member "token" (string c.token) (member "rsa" (string (evp.evp_encode c.rsakey)) end))
  members (Commands.login_res c) =
      member "bSucc" (boolean c.token_succ) (member "key" (string (evp.evp_encode c.aeskey)) end)
  members (Commands.login1 c) =
      member "user" (string c.user) (member "uid" (uint c.uid) (member "pwd" (string c.pwd) end))
  members (Commands.login1_res succ) = member "bSucc" (boolean succ) end
  members (Commands.logout yy_id) = one_id yy_id
  members (Commands.logout_res yy_id) = one_id yy_id
  members (Commands.open_url c) =
      member "url" (string c.url)
        (member "channelID" (uint c.channel_id) (member "subChannelID" (uint c.sub_channel_id) end))
  members (Commands.open_url_res c) =
      member "bSucc" (boolean c.succ) (member "url" (string c.url) end)
  members (Commands.mms_open_url c) = member "uid" (uint c.uid) (
      member "yyID" (uint c.yy_id) (
        member "user" (string c.user) (
          member "tick" (string c.tick) (
            member "channelID" (uint c.channel_id)
              (member "subChannelID" (uint c.sub_channel_id) (member "url" (string c.url) end))))))
  members (Commands.mms_stop_play yy_id) = one_id yy_id
  members (Commands.mms_stop_play_res yy_id) = one_id yy_id
  members (Commands.mms_exit yy_id) = one_id yy_id
  members (Commands.svr_init c) = member "bSucc" (boolean c.succ) (member "yyID" (uint c.yy_id) end)

-- Every number of the command is below 2^31, which `json_object_get_int` gives back.
abbrev IsInt : ℕ → Type 0
IsInt n = n < 2 ^ 31

abbrev pub HasInts : Cmd → Type 0
HasInts (Commands.comp_rsa c) = IsInt c.version
HasInts (Commands.comp_aes c) = IsInt c.version
HasInts (Commands.login c) = IsInt c.yy_id
HasInts (Commands.login1 c) = IsInt c.uid
HasInts (Commands.logout yy_id) = IsInt yy_id
HasInts (Commands.logout_res yy_id) = IsInt yy_id
HasInts (Commands.open_url c) = IsInt c.channel_id × IsInt c.sub_channel_id
HasInts (Commands.mms_open_url c) =
    IsInt c.uid × IsInt c.yy_id × IsInt c.channel_id × IsInt c.sub_channel_id
HasInts (Commands.mms_stop_play yy_id) = IsInt yy_id
HasInts (Commands.mms_stop_play_res yy_id) = IsInt yy_id
HasInts (Commands.mms_exit yy_id) = IsInt yy_id
HasInts (Commands.svr_init c) = IsInt c.yy_id
HasInts _ = Unit {0}

base64decode_encoded :
    (evp : EvpLib) (laws : EvpLaws evp) (s : List ℕ) → base64decode evp (evp.evp_encode s) ≡ done s
base64decode_encoded evp laws s =
    (base64_fits evp laws (evp.evp_encode s)).1 ∙ ap done (laws.evp_decode-evp_encode s)

-- The table has a blank command for the id, and reading the members into it gives the command back.
pub read-members :
    (evp : EvpLib) (laws : EvpLaws evp) (junk : ℕ) (c : Cmd)
    → HasInts c
    → (blank : Cmd) × (look_for_map junk (id_of c) ≡ some blank)
      × (read evp blank (object (members evp c)) ≡ ok c)
unfolding look_for_map read foreach read_comp read_login read_login_res read_login1 read_login1_res
    read_logout read_open_url read_open_url_res read_mms_open_url read_mms_stop_play
    read_mms_stop_play_res read_mms_exit read_svr_init
read-members evp laws junk (Commands.comp_rsa c) h = (_, refl, rw (lt→ltb c.version _ h) refl)
read-members evp laws junk (Commands.comp_aes c) h = (_, refl, rw (lt→ltb c.version _ h) refl)
read-members evp laws junk (Commands.login c) h =
    (_, refl, ground (arith, base64decode_encoded evp laws c.rsakey))
read-members evp laws junk (Commands.login_res c) h =
    (_, refl, ground (arith, base64decode_encoded evp laws c.aeskey))
read-members evp laws junk (Commands.login1 c) h = (_, refl, rw (lt→ltb c.uid _ h) refl)
read-members evp laws junk (Commands.login1_res succ) h = (_, refl, refl)
read-members evp laws junk (Commands.logout yy_id) h = (_, refl, rw (lt→ltb yy_id _ h) refl)
read-members evp laws junk (Commands.logout_res yy_id) h = (_, refl, rw (lt→ltb yy_id _ h) refl)
read-members evp laws junk (Commands.open_url c) (h, g) =
    (_, refl, rw (lt→ltb c.channel_id _ h, lt→ltb c.sub_channel_id _ g) refl)
read-members evp laws junk (Commands.open_url_res c) h = (_, refl, refl)
read-members evp laws junk (Commands.mms_open_url c) (h, g, k, l) = (
  _,
  refl,
  rw (lt→ltb c.uid _ h, lt→ltb c.yy_id _ g, lt→ltb c.channel_id _ k, lt→ltb c.sub_channel_id _ l)
      refl,
)
read-members evp laws junk (Commands.mms_stop_play yy_id) h = (_, refl, rw (lt→ltb yy_id _ h) refl)
read-members evp laws junk (Commands.mms_stop_play_res yy_id) h =
    (_, refl, rw (lt→ltb yy_id _ h) refl)
read-members evp laws junk (Commands.mms_exit yy_id) h = (_, refl, rw (lt→ltb yy_id _ h) refl)
read-members evp laws junk (Commands.svr_init c) h = (_, refl, rw (lt→ltb c.yy_id _ h) refl)

-- What json-c is taken to do with the text of one command: it finds its id and its members.
abbrev pub ParsesAs : Parser → EvpLib → Cmd → List ℕ → Type 0
ParsesAs parse evp c str =
    parse (c_str (cmd_text c str))
    ≡ some (object (member "cmd" (uint (id_of c)) (member "obj" (object (members evp c)) end)))

id_IsInt : (c : Cmd) → IsInt (id_of c)
id_IsInt (Commands.comp_rsa c) = omega arith
id_IsInt _ = omega arith

-- The two length bytes of a short frame, read back as a number.
pub size_bytes :
    (text : List ℕ)
    → length text + 3 < 32768
    → (length text + 3) % 2 ^ 16 % 256 + 256 * ((length text + 3) % 2 ^ 16 / 256) ≡ length text + 3
size_bytes text h = omega arith

-- A short frame is handed to the JSON parser whole, whatever follows it.
pub parse_cmd-frame :
    (parse : Parser) (evp : EvpLib) (junk : ℕ) (text rest : List ℕ) (offset : ℕ)
    → length text + 3 < 32768
    → parse_cmd parse evp junk (frame text ++ rest) offset
      ≡ of_tree parse evp junk (parse (c_str text)) (offset + (length text + 3))
unfolding parse_cmd frame
parse_cmd-frame parse evp junk text rest offset h =
    let n : ℕ = length text + 3 in
    let whole : take (n - 3) (text ++ rest) ≡ text = take-append text rest (n - 3) (omega arith) in
    rw
      (
        size_bytes text h,
        le→ltb n 3 (omega arith),
        le→ltb 32767 n (omega arith),
        le→ltb (suc (suc (suc (length (text ++ rest))))) n (omega (arith, length-append text rest)),
        whole,
      )
      refl

-- A command with numbers below 2^31, whose text the JSON parser takes for its members and whose
-- frame is below 32768 bytes, is parsed back from its frame, with the bytes that follow it left
-- alone: the offset moves by the frame's length.
pub parse_cmd-format_cmd :
    (parse : Parser) (evp : EvpLib) (laws : EvpLaws evp) (junk : ℕ) (c : Cmd) (str rest : List ℕ)
    (offset : ℕ)
    → HasInts c
    → print evp c ≡ some str
    → ParsesAs parse evp c str
    → length (cmd_text c str) + 3 < 32768
    → (bytes : List ℕ) × (format_cmd evp (some c) [] ≡ some bytes)
      × (length bytes ≡ length (cmd_text c str) + 3)
      × (parse_cmd parse evp junk (bytes ++ rest) offset ≡ success c (offset + length bytes))
unfolding format_cmd
parse_cmd-format_cmd parse evp laws junk c str rest offset ints printed parsed short =
    let text : List ℕ = cmd_text c str in
    let (blank, found, back) = read-members evp laws junk c ints in
    let size : length (frame text) ≡ length text + 3 = unfold frame in omega arith in
    (
      frame text,
      rw (printed, format_cmd) refl,
      size,
      parse_cmd-frame parse evp junk text rest offset short
          ∙ rw (parsed, size)
              (rw (lt→ltb (id_of c) (2 ^ 31) (id_IsInt c)) (rw found (rw back refl))),
    )
