-- ===== src/Redis/Ticks.antt =====
-- src/redis/yyredis.cpp: `GetTickCount`, milliseconds in 32 bits, and what `Connect` makes of them.
use mms_svr.Prelude.{
  ℕ, ◌+◌, ◌-◌, ◌*◌, ◌/◌, ◌%◌, ◌^◌, ◌≤◌, ◌<◌, ◌≡◌, refl, ap, ◌∙◌, Option, some, none, Bool, false,
  ◌==◌, ◌||◌, ltb, suc, arith, if◌then◌else◌,
}
use mms_svr.Redis.{Redis, connect, since, is_closing}

-- What `gettimeofday` gives.
pub record Timeval : Type 0 where
  pub sec : ℕ
  pub usec : ℕ

abbrev pub millis : Timeval → ℕ
millis tv = tv.sec * 1000 + tv.usec / 1000

-- `none` is an error of `gettimeofday`.
unfoldable pub get_tick_count : Option Timeval → ℕ
get_tick_count none = 0
get_tick_count (some tv) = millis tv % 2 ^ 32

since_wraps : (b d : ℕ) → d < 2 ^ 32 → since ((b + d) % 2 ^ 32) (b % 2 ^ 32) ≡ d
since_wraps b d h = omega arith

since-get_tick_count :
    (before now : Timeval)
    → millis before ≤ millis now
    → millis now - millis before < 2 ^ 32
    → since (get_tick_count (some now)) (get_tick_count (some before)) ≡ millis now - millis before
unfolding get_tick_count
since-get_tick_count before now later near =
    let gap : ℕ = millis now - millis before in
    let later_by : millis before + gap ≡ millis now = omega (arith, later) in
    rw (← later_by) (since_wraps (millis before) gap near ∙ gap_back)
  where
    gap_back :
        (millis now - millis before)
        ≡ (millis before + (millis now - millis before)) - millis before
    gap_back = omega arith

-- With no attempt going on and a last attempt or disconnection whose tick is not 0, less than 2^32 milliseconds ago:
-- `Connect` makes an attempt exactly when the delay has passed, also where the ticks have wrapped since.
pub connect-get_tick_count :
    (r : Redis) (before now : Timeval) (now' : ℕ) (usable : Bool)
    → (r.connecting || is_closing r.c) ≡ false
    → r.delay_disconnect ≡ get_tick_count (some before)
    → (r.delay_disconnect == 0) ≡ false
    → millis before ≤ millis now
    → millis now - millis before < 2 ^ 32
    → connect r (get_tick_count (some now)) now' usable ≡ (
        if ltb (millis now - millis before) r.delay_connect_time then (r, false) else (
          record r { delay_disconnect = now'; attempts = suc r.attempts; connecting = usable },
          usable,
        ))
unfolding connect
connect-get_tick_count r before now now' usable idle last real later near =
    let elapsed : since (get_tick_count (some now)) r.delay_disconnect
        ≡ millis now - millis before =
      ap (since (get_tick_count (some now))) last ∙ since-get_tick_count before now later near in
    rw (idle, real, elapsed) refl
