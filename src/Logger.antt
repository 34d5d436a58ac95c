-- ===== src/Logger.antt =====
-- include/logger.h: `Logger::Log`. The caller's text, already put together by `vsnprintf`, goes through a buffer of
-- 1024 bytes and is then the format of `syslog`, with NULL as the only argument.
pub mod Formats
use mms_svr.Prelude.{
  ℕ, ◌+◌, ◌-◌, ◌≤◌, ◌<◌, ◌≡◌, ◌≢◌, refl, sym, ap, ◌∙◌, List, [], ◌∷◌, ◌++◌, Bool, true, false, ◌==◌,
  ◌||◌, length, take, arith, if◌then◌else◌, All,
}
use mms_svr.Json.{codes, tos_uint}

-- What reaches the log; or a conversion takes NULL or an argument that nobody gave, or has no letter.
pub data Logged : Type 0 where
  printed : List ℕ → Logged
  takes_argument : Logged

abbrev pub behind : List ℕ → Logged → Logged
behind s (printed text) = printed (s ++ text)
behind s takes_argument = takes_argument

abbrev pub head : ℕ → List ℕ
head thread_id = codes "Logger::Log[" ++ (tos_uint thread_id ++ codes "] ")

-- `snprintf` and `vsnprintf` into what is left of the buffer, one byte of which is for the NUL.
unfoldable pub log_buffer : ℕ → List ℕ → List ℕ
log_buffer thread_id text = head thread_id ++ take (1024 - length (head thread_id) - 1) text

-- How `syslog` reads its format: `%%` is a percent sign and `%m` the text of the last error.
unfoldable pub syslog : List ℕ → List ℕ → Logged
syslog error [] = printed []
syslog error (c ∷ []) = if c == b'%' then takes_argument else printed (c ∷ [])
syslog error (c ∷ d ∷ rest) =
    let after = syslog error rest in
    let next = syslog error (d ∷ rest) in
    if c == b'%'
    then (if d == b'%'
        then behind (b'%' ∷ []) after
        else (if d == b'm' then behind error after else takes_argument))
    else behind (c ∷ []) next

unfoldable pub log : List ℕ → ℕ → List ℕ → Logged
unfolding log_buffer syslog
log error thread_id text = syslog error (log_buffer thread_id text)
