-- ===== src/Cfg.antt =====
-- src/yymm_svr/cfg.cpp: `ParseCfg`. tinyxml2 is a parameter.
pub mod Missing
use mms_svr.Prelude.{ℕ, List, Option, none, some, String}
use mms_svr.Prelude.Int.{ℤ}

-- `LoadFile`, `FirstChildElement`, `GetText`, `QueryUnsignedText` and `QueryIntText`. `none` is an error or NULL.
pub record Xml : Type 1 where
  pub Element : Type 0
  pub load_file : Option Element
  pub first_child_element : Element → String → Option Element
  pub get_text : Element → Option (List ℕ)
  pub query_unsigned_text : Element → Option ℕ
  pub query_int_text : Element → Option ℤ

pub record Cfg : Type 0 where
  pub server_name : List ℕ
  pub port : ℕ
  pub mangport : ℕ
  pub workthreads : ℤ
  pub redis_ip : List ℕ
  pub redis_port : ℕ
  pub mysql_ip : List ℕ
  pub mysql_port : ℕ
  pub mysql_user : List ℕ
  pub mysql_pwd : List ℕ
  pub mysql_db : List ℕ

-- `false`, a call on NULL or an assignment of NULL to a string, or `true`.
pub data Loaded : Type 0 where
  refused crashed : Loaded
  loaded : Cfg → Loaded

infixl 5 ◌>>=◌
abbrev pub ◌>>=◌ : {A B : Type 0} → Option A → (A → Option B) → Option B
none >>= f = none
some a >>= f = f a

abbrev pub or_else : {A : Type 0} → Option A → A → A
or_else none a = a
or_else (some b) a = b

module _ (xml : Xml) where
  -- `x = e->FirstChildElement(name)->GetText()`
  abbrev pub text_at : xml.Element → String → Option (List ℕ)
  text_at e name = xml.first_child_element e name >>= xml.get_text

  -- `e->FirstChildElement(name)->QueryUnsignedText(&x)`, which leaves `x` where the text is no number.
  abbrev pub unsigned_at : xml.Element → String → ℕ → Option ℕ
  unsigned_at e name x =
      xml.first_child_element e name >>= λ child. some (or_else (xml.query_unsigned_text child) x)

  abbrev pub int_at : xml.Element → String → ℤ → Option ℤ
  int_at e name x =
      xml.first_child_element e name >>= λ child. some (or_else (xml.query_int_text child) x)

  unfoldable pub read_mms : Cfg → xml.Element → Option Cfg
  read_mms cfg e = do
    server_name ← text_at e "name"
    port ← unsigned_at e "port" cfg.port
    mangport ← unsigned_at e "mangport" cfg.mangport
    workthreads ← int_at e "workthreads" cfg.workthreads
    some (record cfg {
      server_name = server_name;
      port = port;
      mangport = mangport;
      workthreads = workthreads;
    })

  unfoldable pub read_redis : Cfg → xml.Element → Option Cfg
  read_redis cfg e = do
    redis_ip ← text_at e "redis_Ip"
    redis_port ← unsigned_at e "redis_Port" cfg.redis_port
    some (record cfg { redis_ip = redis_ip; redis_port = redis_port })

  unfoldable pub read_mysql : Cfg → xml.Element → Option Cfg
  read_mysql cfg e = do
    mysql_ip ← text_at e "ip"
    mysql_port ← unsigned_at e "port" cfg.mysql_port
    mysql_user ← text_at e "user"
    mysql_pwd ← text_at e "pwd"
    mysql_db ← text_at e "db"
    some (record cfg {
      mysql_ip = mysql_ip;
      mysql_port = mysql_port;
      mysql_user = mysql_user;
      mysql_pwd = mysql_pwd;
      mysql_db = mysql_db;
    })

  -- A section that is not there is passed over.
  abbrev pub section : (Cfg → xml.Element → Option Cfg) → Cfg → Option xml.Element → Option Cfg
  section read cfg none = some cfg
  section read cfg (some e) = read cfg e

  unfoldable pub read_servers : Cfg → xml.Element → Option Cfg
  unfolding read_mms read_redis read_mysql
  read_servers cfg servers = do
    cfg1 ← section read_mms cfg (xml.first_child_element servers "mms_service")
    cfg2 ← section read_redis cfg1 (xml.first_child_element servers "redis")
    section read_mysql cfg2 (xml.first_child_element servers "mysql")

  abbrev pub of_servers : Option Cfg → Loaded
  of_servers none = crashed
  of_servers (some cfg) = loaded cfg

  -- The element `servers`.
  abbrev pub servers : Option xml.Element
  servers = xml.load_file >>= λ doc.
      xml.first_child_element doc "conf" >>= λ conf. xml.first_child_element conf "servers"

  unfoldable pub parse_cfg : Cfg → Loaded
  unfolding read_servers
  parse_cfg cfg = elim servers [ none ↦ refused | some e ↦ of_servers (read_servers cfg e) ]
