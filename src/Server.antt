-- ===== src/Server.antt =====
-- src/yymm_svr/cmdproc.h, yymms_svr.h and the parts of cmdproc.cpp and mmsexecmag.cpp that reach the
-- clients: the account data of the connections, which two maps share by pointer, and what is sent. A
-- `boost::shared_ptr<Item_data>` is an index of the store `items`.
pub mod Login
pub mod Shell
pub mod Process
pub mod Ends
pub mod Boss
pub mod Close
pub mod Accounts
pub mod System
pub mod Startup
pub mod Answers
pub mod Frames
use mms_svr.Prelude.{
  ℕ, ◌+◌, List, [], ◌∷◌, ◌++◌, Option, none, some, Bool, true, false, ◌==◌, length, get_elem?, set,
  if◌then◌else◌,
}
use mms_svr.Prelude.Keys.{nat_eq}
use mms_svr.StateMap.{StateMap, add_state, del_state, get_state}
use mms_svr.Yyssl.Base64.{EvpLib}
use mms_svr.Yyssl.Aes.{AesLib, YyAes, new_aes}
use mms_svr.Yyssl.Rsa.{RsaLib, YyRsa, new_rsa}
use mms_svr.Protocol.Commands.{Cmd}
use mms_svr.Protocol.Frame.{Parser, format_cmd}
use mms_svr.Event.{Outgoing}

-- The libraries, the configuration, and what the machine answers: the keys that `GenAESKey` makes, the
-- ticks, and what the stack holds. `junk` is in the fields that no constructor sets.
pub record Env : Type 1 where
  pub parse : Parser
  pub evp : EvpLib
  pub aes_lib : AesLib
  pub rsa_lib : RsaLib
  pub junk : ℕ
  pub garbage : List ℕ
  pub rsa_garbage : List ℕ
  pub gen_aes_key : ℕ → List ℕ
  pub get_tick_count : ℕ → ℕ
  pub port : ℕ
  pub mangport : ℕ

module _ (env : Env) where
  pub record ItemData : Type 0 where
    pub fd : ℕ
    pub readbuffer : Option (List ℕ)
    pub yy_id : ℕ
    pub uid : ℕ
    pub account : List ℕ
    pub pwd : List ℕ
    pub login_time : ℕ
    pub channel_id : ℕ
    pub sub_channel_id : ℕ
    pub url : List ℕ
    pub shell_client_fd : ℕ
    pub aes : YyAes env.aes_lib
    pub token : List ℕ
    pub rsa_str : List ℕ
    pub rsa : YyRsa env.rsa_lib

  unfoldable pub new_item_data : ItemData
  new_item_data = record {
    fd = 0;
    readbuffer = none;
    yy_id = 0;
    uid = 0;
    account = [];
    pwd = [];
    login_time = 0;
    channel_id = 0;
    sub_channel_id = 0;
    url = [];
    shell_client_fd = 0;
    aes = new_aes env.aes_lib;
    token = [];
    rsa_str = [];
    rsa = new_rsa env.rsa_lib;
  }

  -- The map of the connections is the base class, `_userData` the map of the user ids. `events` are the
  -- buffers given to `_event`, an empty one for `closefd`; `shells` the user ids for which a shell client
  -- was started; `logins` counts the keys and ticks taken.
  pub record MmsServer : Type 0 where
    pub items : List ItemData
    pub fds : StateMap ℕ (Option ℕ)
    pub user_data : StateMap ℕ (Option ℕ)
    pub events : List Outgoing
    pub shells : List ℕ
    pub logins : ℕ

  -- The constructor.
  unfoldable pub new_server : MmsServer
  new_server = record {
    items = [];
    fds = record { hash_map = []; def_value = none };
    user_data = record { hash_map = []; def_value = none };
    events = [];
    shells = [];
    logins = 0;
  }

  abbrev pub item : MmsServer → ℕ → Option ItemData
  item svr id = get_elem? svr.items id

  abbrev changed : List ItemData → ℕ → Option ItemData → (ItemData → ItemData) → List ItemData
  changed items id none f = items
  changed items id (some i) f = set items id (f i)

  unfoldable pub change : MmsServer → ℕ → (ItemData → ItemData) → MmsServer
  change svr id f = record svr { items = changed svr.items id (get_elem? svr.items id) f }

  unfoldable pub send_cmd : MmsServer → ℕ → Cmd → MmsServer
  send_cmd svr fd cmd = elim (format_cmd env.evp (some cmd) []) [
    | none ↦ svr
    | some str ↦
        if length str == 0
        then svr
        else record svr { events = svr.events ++ (record { fd = fd; bytes = str } ∷ []) }
  ]

  unfoldable pub closefd : MmsServer → ℕ → MmsServer
  closefd svr fd = record svr { events = svr.events ++ (record { fd = fd; bytes = [] } ∷ []) }
