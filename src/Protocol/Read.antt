-- ===== src/Protocol/Read.antt =====
-- src/yymm_svr/jsonprotocol.h: `Serialize(json_object *)` of each class, `clone`, and the table of
-- `LookforMap`.
use mms_svr.Prelude.{ℕ, List, [], ◌∷◌, Option, none, some, Bool, false, ◌==◌, if◌then◌else◌, String}
use mms_svr.Json.{
  Json, Members, object, end, member, is_key, get_int, get_string, get_boolean, json_type_boolean,
  json_type_int, json_type_string,
}
use mms_svr.Yyssl.Blocks.{Outcome, done, refused}
use mms_svr.Yyssl.Base64.{EvpLib, base64decode}
use mms_svr.Protocol.Commands

-- `return true` with the command as it then is, `return false`, and a crash.
pub data ReadResult {ℓ} (A : Type ℓ) : Type ℓ where
  ok : A → ReadResult A
  rejected crash : ReadResult A

abbrev pub map_read {ℓ κ} : {A : Type ℓ} {B : Type κ} → (A → B) → ReadResult A → ReadResult B
map_read f (ok a) = ok (f a)
map_read f rejected = rejected
map_read f crash = crash

abbrev pub Reader : Type 0 → Type 0
Reader A = A → String → Json → ReadResult A

module _ {A : Type 0} where
  unfoldable pub read_members : Reader A → A → Members → ReadResult A
  read_members read c end = ok c
  read_members read c (member key val ms) = elim (read c key val) [
    | ok c' ↦ read_members read c' ms
    | rejected ↦ rejected
    | crash ↦ crash
  ]

  -- `json_object_object_foreach` reads through the NULL pointer where `obj` is no object.
  unfoldable pub foreach : Reader A → A → Json → ReadResult A
  unfolding read_members
  foreach read c (object ms) = read_members read c ms
  foreach read c _ = crash

  abbrev pub decoded : Outcome → (List ℕ → A) → ReadResult A
  decoded (done s) k = ok (k s)
  decoded refused k = rejected
  decoded _ k = crash

unfoldable pub read_comp : Reader Commands.Comp
read_comp c key val =
    if is_key key val "version" json_type_int
    then ok (record c { version = get_int val })
    else (if is_key key val "cmd" json_type_string
        then ok (record c { ser_string = get_string val })
        else ok c)

unfoldable pub read_login : EvpLib → Reader Commands.Login
read_login evp c key val =
    if is_key key val "yyID" json_type_int
    then ok (record c { yy_id = get_int val })
    else (if is_key key val "token" json_type_string
        then ok (record c { token = get_string val })
        else (if is_key key val "rsa" json_type_string
            then decoded (base64decode evp (get_string val)) (λ s. record c { rsakey = s })
            else ok c))

unfoldable pub read_login_res : EvpLib → Reader Commands.LoginRes
read_login_res evp c key val =
    if is_key key val "bSucc" json_type_boolean
    then ok (record c { token_succ = get_boolean val })
    else (if is_key key val "key" json_type_string
        then decoded (base64decode evp (get_string val)) (λ s. record c { aeskey = s })
        else ok c)

unfoldable pub read_login1 : Reader Commands.Login1
read_login1 c key val =
    if is_key key val "uid" json_type_int
    then ok (record c { uid = get_int val })
    else (if is_key key val "user" json_type_string
        then ok (record c { user = get_string val })
        else (if is_key key val "pwd" json_type_string
            then ok (record c { pwd = get_string val })
            else ok c))

unfoldable pub read_login1_res : Reader Bool
read_login1_res succ key val =
    if is_key key val "bSucc" json_type_boolean then ok (get_boolean val) else ok succ

unfoldable pub read_logout : Reader ℕ
read_logout yy_id key val =
    if is_key key val "yyID" json_type_int then ok (get_int val) else ok yy_id

unfoldable pub read_open_url : Reader Commands.OpenUrl
read_open_url c key val =
    if is_key key val "channelID" json_type_int
    then ok (record c { channel_id = get_int val })
    else (if is_key key val "subChannelID" json_type_int
        then ok (record c { sub_channel_id = get_int val })
        else (if is_key key val "url" json_type_string
            then ok (record c { url = get_string val })
            else ok c))

unfoldable pub read_open_url_res : Reader Commands.OpenUrlRes
read_open_url_res c key val =
    if is_key key val "bSucc" json_type_boolean
    then ok (record c { succ = get_boolean val })
    else (if is_key key val "url" json_type_string
        then ok (record c { url = get_string val })
        else ok c)

unfoldable pub read_mms_open_url : Reader Commands.MmsOpenUrl
read_mms_open_url c key val =
    if is_key key val "uid" json_type_int
    then ok (record c { uid = get_int val })
    else (if is_key key val "yyID" json_type_int
        then ok (record c { yy_id = get_int val })
        else (if is_key key val "channelID" json_type_int
            then ok (record c { channel_id = get_int val })
            else (if is_key key val "subChannelID" json_type_int
                then ok (record c { sub_channel_id = get_int val })
                else (if is_key key val "url" json_type_string
                    then ok (record c { url = get_string val })
                    else (if is_key key val "user" json_type_string
                        then ok (record c { user = get_string val })
                        else (if is_key key val "tick" json_type_string
                            then ok (record c { tick = get_string val })
                            else ok c))))))

unfoldable pub read_mms_stop_play : Reader ℕ
read_mms_stop_play yy_id key val =
    if is_key key val "yyID" json_type_int then ok (get_int val) else ok yy_id

unfoldable pub read_mms_stop_play_res : Reader ℕ
read_mms_stop_play_res yy_id key val =
    if is_key key val "yyID" json_type_int then ok (get_int val) else ok yy_id

unfoldable pub read_mms_exit : Reader ℕ
read_mms_exit yy_id key val =
    if is_key key val "yyID" json_type_int then ok (get_int val) else ok yy_id

unfoldable pub read_svr_init : Reader Commands.SvrInit
read_svr_init c key val =
    if is_key key val "bSucc" json_type_boolean
    then ok (record c { succ = get_boolean val })
    else (if is_key key val "yyID" json_type_int
        then ok (record c { yy_id = get_int val })
        else ok c)

-- The virtual call on a command with the fields that it has so far.
unfoldable pub read : EvpLib → Commands.Cmd → Json → ReadResult Commands.Cmd
read evp (Commands.comp_rsa c) obj = map_read Commands.comp_rsa (foreach read_comp c obj)
read evp (Commands.comp_aes c) obj = map_read Commands.comp_aes (foreach read_comp c obj)
read evp (Commands.login c) obj = map_read Commands.login (foreach (read_login evp) c obj)
read evp (Commands.login_res c) obj =
    map_read Commands.login_res (foreach (read_login_res evp) c obj)
read evp (Commands.login1 c) obj = map_read Commands.login1 (foreach read_login1 c obj)
read evp (Commands.login1_res c) obj = map_read Commands.login1_res (foreach read_login1_res c obj)
read evp (Commands.logout c) obj = map_read Commands.logout (foreach read_logout c obj)
read evp (Commands.logout_res c) obj = map_read Commands.logout_res (foreach read_logout c obj)
read evp (Commands.open_url c) obj = map_read Commands.open_url (foreach read_open_url c obj)
read evp (Commands.open_url_res c) obj =
    map_read Commands.open_url_res (foreach read_open_url_res c obj)
read evp (Commands.mms_open_url c) obj =
    map_read Commands.mms_open_url (foreach read_mms_open_url c obj)
read evp (Commands.mms_stop_play c) obj =
    map_read Commands.mms_stop_play (foreach read_mms_stop_play c obj)
read evp (Commands.mms_stop_play_res c) obj =
    map_read Commands.mms_stop_play_res (foreach read_mms_stop_play_res c obj)
read evp (Commands.mms_exit c) obj = map_read Commands.mms_exit (foreach read_mms_exit c obj)
read evp (Commands.svr_init c) obj = map_read Commands.svr_init (foreach read_svr_init c obj)

-- What `clone` gives for each entry of the table. The constructors of `YYJson_Logout` and
-- `YYJson_OpenUrl` leave their numbers as the memory had them: `junk`.
abbrev pub fn_map : ℕ → List (ℕ × Commands.Cmd)
fn_map junk =
    (1000, Commands.comp_rsa (record { version = 0; ser_string = [] }))
    ∷ (1001, Commands.comp_aes (record { version = 0; ser_string = [] }))
    ∷ (1011, Commands.login (record { yy_id = 0; token = []; rsakey = [] }))
    ∷ (1012, Commands.login_res (record { token_succ = false; aeskey = [] }))
    ∷ (1013, Commands.login1 (record { uid = 0; user = []; pwd = [] }))
    ∷ (1014, Commands.login1_res false)
    ∷ (1015, Commands.logout junk)
    ∷ (1016, Commands.logout_res junk)
    ∷ (1020, Commands.open_url (record { channel_id = junk; sub_channel_id = junk; url = [] }))
    ∷ (1021, Commands.open_url_res (record { succ = false; url = [] }))
    ∷ (
      2000,
      Commands.mms_open_url (record {
        uid = 0;
        yy_id = 0;
        channel_id = 0;
        sub_channel_id = 0;
        url = [];
        user = [];
        tick = [];
      }),
    )
    ∷ (2002, Commands.mms_stop_play 0)
    ∷ (2003, Commands.mms_stop_play_res 0)
    ∷ (2004, Commands.mms_exit 0)
    ∷ (3000, Commands.svr_init (record { yy_id = 0; succ = false }))
    ∷ []

abbrev pub look_in : List (ℕ × Commands.Cmd) → ℕ → Option Commands.Cmd
look_in [] id = none
look_in ((i, c) ∷ table) id = if i == id then some c else look_in table id

unfoldable pub look_for_map : ℕ → ℕ → Option Commands.Cmd
look_for_map junk id = look_in (fn_map junk) id
