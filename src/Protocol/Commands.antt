-- ===== src/Protocol/Commands.antt =====
-- src/yymm_svr/jsonprotocol.h: the classes below `YYJ` and their ids. An `unsigned int` is a number
-- below 2^32, an `int` the bits of one.
use mms_svr.Prelude.{ℕ, List, Bool}

-- `YYJson_Comp_RSA` and `YYJson_Comp_AES`
pub record Comp : Type 0 where
  pub version : ℕ
  pub ser_string : List ℕ

pub record Login : Type 0 where
  pub yy_id : ℕ
  pub token : List ℕ
  pub rsakey : List ℕ

pub record LoginRes : Type 0 where
  pub token_succ : Bool
  pub aeskey : List ℕ

pub record Login1 : Type 0 where
  pub uid : ℕ
  pub user : List ℕ
  pub pwd : List ℕ

pub record OpenUrl : Type 0 where
  pub channel_id : ℕ
  pub sub_channel_id : ℕ
  pub url : List ℕ

pub record OpenUrlRes : Type 0 where
  pub succ : Bool
  pub url : List ℕ

pub record MmsOpenUrl : Type 0 where
  pub uid : ℕ
  pub yy_id : ℕ
  pub channel_id : ℕ
  pub sub_channel_id : ℕ
  pub url : List ℕ
  pub user : List ℕ
  pub tick : List ℕ

pub record SvrInit : Type 0 where
  pub yy_id : ℕ
  pub succ : Bool

-- A command with its fields; where the class has one field it stands alone.
pub data Cmd : Type 0 where
  comp_rsa comp_aes : Comp → Cmd
  login : Login → Cmd
  login_res : LoginRes → Cmd
  login1 : Login1 → Cmd
  login1_res : Bool → Cmd
  logout logout_res : ℕ → Cmd
  open_url : OpenUrl → Cmd
  open_url_res : OpenUrlRes → Cmd
  mms_open_url : MmsOpenUrl → Cmd
  mms_stop_play mms_stop_play_res mms_exit : ℕ → Cmd
  svr_init : SvrInit → Cmd

-- `_id`
abbrev pub id_of : Cmd → ℕ
id_of (comp_rsa c) = 1000
id_of (comp_aes c) = 1001
id_of (login c) = 1011
id_of (login_res c) = 1012
id_of (login1 c) = 1013
id_of (login1_res c) = 1014
id_of (logout c) = 1015
id_of (logout_res c) = 1016
id_of (open_url c) = 1020
id_of (open_url_res c) = 1021
id_of (mms_open_url c) = 2000
id_of (mms_stop_play c) = 2002
id_of (mms_stop_play_res c) = 2003
id_of (mms_exit c) = 2004
id_of (svr_init c) = 3000
