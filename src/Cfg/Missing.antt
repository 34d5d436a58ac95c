-- ===== src/Cfg/Missing.antt =====
-- src/yymm_svr/cfg.cpp: which files `ParseCfg` crashes on.
use mms_svr.Prelude.{
  arith, ◌≡◌, ◌↔◌, refl, sym, ◌∙◌, Option, none, some, Bool, true, false, ◌&&◌, String, inl, inr,
  Option-cases, none≢some, ap,
}
use mms_svr.Cfg.{
  Xml, Cfg, ◌>>=◌, refused, crashed, text_at, read_mms, read_redis, read_mysql, section, servers,
  read_servers, of_servers, parse_cfg,
}

abbrev pub is_some : {A : Type 0} → Option A → Bool
is_some none = false
is_some (some a) = true

chain :
    {A B : Type 0} (m : Option A) (f : A → Option B) (c : Bool)
    → ((a : A) → is_some (f a) ≡ c)
    → is_some (m >>= f) ≡ (is_some m && c)
chain none f c h = refl
chain (some a) f c h = h a

module _ (xml : Xml) where
  abbrev pub has_child : xml.Element → String → Bool
  has_child e name = is_some (xml.first_child_element e name)

  -- The children that each section needs; those that are texts must not be empty.
  abbrev pub has_mms : Option xml.Element → Bool
  has_mms none = true
  has_mms (some e) =
      is_some (text_at xml e "name")
      && has_child e "port"
      && has_child e "mangport"
      && has_child e "workthreads"

  abbrev pub has_redis : Option xml.Element → Bool
  has_redis none = true
  has_redis (some e) = is_some (text_at xml e "redis_Ip") && has_child e "redis_Port"

  abbrev pub has_mysql : Option xml.Element → Bool
  has_mysql none = true
  has_mysql (some e) =
      is_some (text_at xml e "ip")
      && has_child e "port"
      && is_some (text_at xml e "user")
      && is_some (text_at xml e "pwd")
      && is_some (text_at xml e "db")

  abbrev pub has_all : xml.Element → Bool
  has_all e =
      has_mms (xml.first_child_element e "mms_service")
      && (has_redis (xml.first_child_element e "redis")
          && has_mysql (xml.first_child_element e "mysql"))

  read_mms-some :
      (cfg : Cfg) (e : Option xml.Element) → is_some (section xml (read_mms xml) cfg e) ≡ has_mms e
  unfolding read_mms
  read_mms-some cfg none = refl
  read_mms-some cfg (some e) = ground arith

  read_redis-some :
      (cfg : Cfg) (e : Option xml.Element)
      → is_some (section xml (read_redis xml) cfg e) ≡ has_redis e
  unfolding read_redis
  read_redis-some cfg none = refl
  read_redis-some cfg (some e) = ground arith

  read_mysql-some :
      (cfg : Cfg) (e : Option xml.Element)
      → is_some (section xml (read_mysql xml) cfg e) ≡ has_mysql e
  unfolding read_mysql
  read_mysql-some cfg none = refl
  read_mysql-some cfg (some e) = ground arith

  read_servers-some : (cfg : Cfg) (e : xml.Element) → is_some (read_servers xml cfg e) ≡ has_all e
  unfolding read_servers
  read_servers-some cfg e =
      let mms : Option xml.Element = xml.first_child_element e "mms_service" in
      let redis : Option xml.Element = xml.first_child_element e "redis" in
      let mysql : Option xml.Element = xml.first_child_element e "mysql" in
      chain (section xml (read_mms xml) cfg mms) _ (has_redis redis && has_mysql mysql) (λ cfg1.
        chain (section xml (read_redis xml) cfg1 redis)
          (λ cfg2. section xml (read_mysql xml) cfg2 mysql) (has_mysql mysql)
          (λ cfg2. read_mysql-some cfg2 mysql)
        ∙ ap (λ (b : Bool). b && has_mysql mysql) (read_redis-some cfg1 redis))
      ∙ ap (λ (b : Bool). b && (has_redis redis && has_mysql mysql)) (read_mms-some cfg mms)

  of_servers-crashed : (r : Option Cfg) → is_some r ≡ false → of_servers xml r ≡ crashed
  of_servers-crashed none h = refl
  of_servers-crashed (some cfg) h = cc

  crashed_of_servers : (r : Option Cfg) → of_servers xml r ≡ crashed → is_some r ≡ false
  crashed_of_servers none h = refl
  crashed_of_servers (some cfg) h = cc

  -- `ParseCfg` crashes exactly on the files whose element `servers` has one of the three sections without a
  -- child that is read from it, or without a text where a string is read; whatever it holds else, the file
  -- is taken or refused.
  pub parse_cfg-crashed :
      (cfg : Cfg)
      → (parse_cfg xml cfg ≡ crashed)
        ↔ ((e : xml.Element) × (servers xml ≡ some e) × (has_all e ≡ false))
  unfolding parse_cfg
  parse_cfg-crashed cfg = elim (Option-cases (servers xml)) [
    | inl nothing ↦ (
      λ dead. absurd (refused≢crashed (sym (rw (nothing, parse_cfg) refl) ∙ dead)),
      λ (e, there, lacks). absurd (none≢some (sym nothing ∙ there)),
    )
    | inr (e, there) ↦ (
      λ dead. (
        e,
        there,
        sym (read_servers-some cfg e)
            ∙ crashed_of_servers (read_servers xml cfg e) (sym (rw (there, parse_cfg) refl) ∙ dead),
      ),
      λ (e', there', lacks).
          rw (there', parse_cfg)
            (of_servers-crashed (read_servers xml cfg e') (read_servers-some cfg e' ∙ lacks)),
    )
  ]
    where
      refused≢crashed : refused ≡ crashed → ⊥
      refused≢crashed q = cc
