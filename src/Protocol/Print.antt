-- ===== src/Protocol/Print.antt =====
-- src/yymm_svr/jsonprotocol.h: `Serialize(std::string &)` of each class. `none` is `return false`, or
-- a fault of the base64 coder.
use mms_svr.Prelude.{ℕ, List, [], ◌∷◌, ◌++◌, Option, none, some, Bool}
use mms_svr.Json.{to_cmd_string, to_cmd_int, to_cmd_uint, to_cmd_bool}
use mms_svr.Yyssl.Blocks.{Outcome, done}
use mms_svr.Yyssl.Base64.{EvpLib, base64encode}
use mms_svr.Protocol.Commands

-- `"{" + members joined by "," + "}"`
abbrev joined : List (List ℕ) → List ℕ
joined [] = b'}' ∷ []
joined (m ∷ ms) = b',' ∷ (m ++ joined ms)

abbrev braces : List ℕ → List (List ℕ) → List ℕ
braces m ms = b'{' ∷ (m ++ joined ms)

abbrev pub encoded : Outcome → (List ℕ → List ℕ) → Option (List ℕ)
encoded (done text) k = some (k text)
encoded _ k = none

unfoldable pub print_comp : Commands.Comp → List ℕ
print_comp c = braces (to_cmd_int "version" c.version) (to_cmd_string "cmd" c.ser_string ∷ [])

module _ (evp : EvpLib) where
  unfoldable pub print_login : Commands.Login → Option (List ℕ)
  print_login c = encoded (base64encode evp c.rsakey) (λ rsa.
      braces (to_cmd_uint "yyID" c.yy_id)
        (to_cmd_string "token" c.token ∷ to_cmd_string "rsa" rsa ∷ []))

  unfoldable pub print_login_res : Commands.LoginRes → Option (List ℕ)
  print_login_res c =
      encoded (base64encode evp c.aeskey)
        (λ aes. braces (to_cmd_bool "bSucc" c.token_succ) (to_cmd_string "key" aes ∷ []))

unfoldable pub print_login1 : Commands.Login1 → List ℕ
print_login1 c =
    braces (to_cmd_string "user" c.user) (to_cmd_uint "uid" c.uid ∷ to_cmd_string "pwd" c.pwd ∷ [])

unfoldable pub print_login1_res : Bool → List ℕ
print_login1_res succ = braces (to_cmd_bool "bSucc" succ) []

unfoldable pub print_logout : ℕ → List ℕ
print_logout yy_id = braces (to_cmd_uint "yyID" yy_id) []

unfoldable pub print_open_url : Commands.OpenUrl → List ℕ
print_open_url c =
    braces (to_cmd_string "url" c.url)
      (to_cmd_uint "channelID" c.channel_id ∷ to_cmd_uint "subChannelID" c.sub_channel_id ∷ [])

unfoldable pub print_open_url_res : Commands.OpenUrlRes → List ℕ
print_open_url_res c = braces (to_cmd_bool "bSucc" c.succ) (to_cmd_string "url" c.url ∷ [])

unfoldable pub print_mms_open_url : Commands.MmsOpenUrl → List ℕ
print_mms_open_url c = braces (to_cmd_uint "uid" c.uid) (
    to_cmd_uint "yyID" c.yy_id
    ∷ to_cmd_string "user" c.user
    ∷ to_cmd_string "tick" c.tick
    ∷ to_cmd_uint "channelID" c.channel_id
    ∷ to_cmd_uint "subChannelID" c.sub_channel_id
    ∷ to_cmd_string "url" c.url
    ∷ [])

-- `YYJson_MMS_StopPlay`, `YYJson_MMS_StopPlay_res` and `YYJson_MMS_Exit`
unfoldable pub print_mms_stop_play : ℕ → List ℕ
print_mms_stop_play yy_id = braces (to_cmd_uint "yyID" yy_id) []

unfoldable pub print_mms_stop_play_res : ℕ → List ℕ
print_mms_stop_play_res yy_id = braces (to_cmd_uint "yyID" yy_id) []

unfoldable pub print_mms_exit : ℕ → List ℕ
print_mms_exit yy_id = braces (to_cmd_uint "yyID" yy_id) []

unfoldable pub print_svr_init : Commands.SvrInit → List ℕ
print_svr_init c = braces (to_cmd_bool "bSucc" c.succ) (to_cmd_uint "yyID" c.yy_id ∷ [])

-- The virtual call.
unfoldable pub print : EvpLib → Commands.Cmd → Option (List ℕ)
print evp (Commands.comp_rsa c) = some (print_comp c)
print evp (Commands.comp_aes c) = some (print_comp c)
print evp (Commands.login c) = print_login evp c
print evp (Commands.login_res c) = print_login_res evp c
print evp (Commands.login1 c) = some (print_login1 c)
print evp (Commands.login1_res succ) = some (print_login1_res succ)
print evp (Commands.logout yy_id) = some (print_logout yy_id)
print evp (Commands.logout_res yy_id) = some (print_logout yy_id)
print evp (Commands.open_url c) = some (print_open_url c)
print evp (Commands.open_url_res c) = some (print_open_url_res c)
print evp (Commands.mms_open_url c) = some (print_mms_open_url c)
print evp (Commands.mms_stop_play yy_id) = some (print_mms_stop_play yy_id)
print evp (Commands.mms_stop_play_res yy_id) = some (print_mms_stop_play_res yy_id)
print evp (Commands.mms_exit yy_id) = some (print_mms_exit yy_id)
print evp (Commands.svr_init c) = some (print_svr_init c)
