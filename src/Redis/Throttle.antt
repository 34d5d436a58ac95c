-- ===== src/Redis/Throttle.antt =====
-- src/redis/yyredis.h: how often `Connect` tries.
use mms_svr.Prelude.{
  ℕ, suc, ◌+◌, ◌-◌, ◌*◌, ◌^◌, ◌<◌, ◌≤◌, ◌≡◌, refl, ap, List, [], ◌∷◌, Bool, true, false, ◌==◌, ltb,
  ◌&&◌, ◌||◌, not, arith, Bool-cases, ltb→le, ◌⊎◌, inl, inr,
}
use native.Mathlib.Nat.{suc-mul}
use mms_svr.Redis.{
  Redis, Context, connect, connect_callback, disconnect_callback, is_closing, since,
}

-- What can happen to the client, with the tick at which it happens.
pub data Event : Type 0 where
  connects : ℕ → Bool → Event
  answered : ℕ → Context → Bool → Event
  disconnects : ℕ → Event

abbrev pub tick : Event → ℕ
tick (connects t usable) = t
tick (answered t c ok) = t
tick (disconnects t) = t

unfoldable pub step : Redis → Event → Redis
unfolding connect connect_callback disconnect_callback
step r (connects t usable) = (connect r t t usable).0
step r (answered t c ok) = connect_callback r c ok
step r (disconnects t) = disconnect_callback r t

abbrev pub run : Redis → List Event → Redis
run r [] = r
run r (e ∷ es) = run (step r e) es

-- The clock runs from `t`, does not wrap, and is not 0.
abbrev pub IsClocked : ℕ → List Event → Type 0
IsClocked t [] = Unit {0}
IsClocked t (e ∷ es) = (0 < tick e) × (t ≤ tick e) × (tick e < 2 ^ 32) × IsClocked (tick e) es

-- The tick of the last event.
abbrev pub last_tick : ℕ → List Event → ℕ
last_tick t [] = t
last_tick t (e ∷ es) = last_tick (tick e) es

-- `k` attempts were made since `start`, the last at `delay_disconnect` or before.
abbrev IsPaid : ℕ → ℕ → ℕ → ℕ → Type 0
IsPaid start delay k last =
    (k ≡ 0) ⊎ ((0 < last) × (start ≤ last) × (k * delay + start ≤ last + delay))

-- Every attempt but the first came at least the delay after the one before.
record Spaced (start delay base now k : ℕ) (r : Redis) : Type 0 where
  pub same_delay : r.delay_connect_time ≡ delay
  pub started : start ≤ now
  pub last_before : r.delay_disconnect ≤ now
  pub counted : r.attempts ≡ base + k
  pub paid : IsPaid start delay k r.delay_disconnect

not_throttled :
    (dd delay t : ℕ)
    → 0 < dd
    → dd ≤ t
    → t < 2 ^ 32
    → (not (dd == 0) && ltb (since t dd) delay) ≡ false
    → delay + dd ≤ t
not_throttled dd delay t p q w h = elim (Bool-cases (ltb (since t dd) delay)) [
  | inl early ↦ ground (arith, h, early)
  | inr late ↦ let waited : delay ≤ since t dd = ltb→le (since t dd) delay late in omega arith
]

pay :
    (start delay base now k t : ℕ) (r : Redis)
    → (0 < t) × (now ≤ t) × (t < 2 ^ 32)
    → Spaced start delay base now k r
    → (not (r.delay_disconnect == 0) && ltb (since t r.delay_disconnect) r.delay_connect_time)
      ≡ false
    → IsPaid start delay (suc k) t
pay start delay base now k t r (p, q, w) v free = elim v.paid [
  | inl none_yet ↦ inr (
    p,
    omega (arith, v.started),
    omega (arith, v.started, suc-mul k delay, ap (λ (n : ℕ). n * delay) none_yet),
  )
  | inr (some_last, later, cost) ↦ inr (
    p,
    omega (arith, v.started),
    omega (
      arith,
      suc-mul k delay,
      v.same_delay,
      not_throttled r.delay_disconnect r.delay_connect_time t some_last
          (omega (arith, v.last_before)) w free,
    ),
  )
]

connect-Spaced :
    (start delay base now k t : ℕ) (usable : Bool) (r : Redis)
    → (0 < t) × (now ≤ t) × (t < 2 ^ 32)
    → Spaced start delay base now k r
    → (k' : ℕ) × Spaced start delay base t k' (connect r t t usable).0
unfolding connect
connect-Spaced start delay base now k t usable r (p, q, w) v =
    elim (Bool-cases (r.connecting || is_closing r.c)) [
      | inl busy ↦ (k, rw busy (kept))
      | inr ready ↦
          elim (Bool-cases (
            not (r.delay_disconnect == 0)
            && ltb (since t r.delay_disconnect) r.delay_connect_time)) [
              | inl early ↦ (k, rw (ready, early) (kept))
              | inr late ↦ (
                suc k,
                rw (ready, late)
                    (record {
                      same_delay = v.same_delay;
                      started = omega (arith, v.started);
                      last_before = omega arith;
                      counted = omega (arith, v.counted);
                      paid = pay start delay base now k t r (p, q, w) v late;
                    }),
              )
            ]
    ]
  where
    kept : Spaced start delay base t k r
    kept = record {
      same_delay = v.same_delay;
      started = omega (arith, v.started);
      last_before = omega (arith, v.last_before);
      counted = v.counted;
      paid = v.paid;
    }

step-Spaced :
    (start delay base now k : ℕ) (r : Redis) (e : Event)
    → (0 < tick e) × (now ≤ tick e) × (tick e < 2 ^ 32)
    → Spaced start delay base now k r
    → (k' : ℕ) × Spaced start delay base (tick e) k' (step r e)
unfolding step
step-Spaced start delay base now k r (answered t c true) (p, q, w) v = (
  k,
  record {
    same_delay = v.same_delay;
    started = omega (arith, v.started);
    last_before = omega (arith, v.last_before);
    counted = v.counted;
    paid = v.paid;
  },
)
step-Spaced start delay base now k r (answered t c false) (p, q, w) v = (
  k,
  record {
    same_delay = v.same_delay;
    started = omega (arith, v.started);
    last_before = omega (arith, v.last_before);
    counted = v.counted;
    paid = v.paid;
  },
)
step-Spaced start delay base now k r (disconnects t) (p, q, w) v = (
  k,
  record {
    same_delay = v.same_delay;
    started = omega (arith, v.started);
    last_before = omega arith;
    counted = v.counted;
    paid = paid_later;
  },
)
  where
    paid_later : IsPaid start delay k t
    paid_later = elim v.paid [
      | inl none_yet ↦ inl none_yet
      | inr (some_last, later, cost) ↦
          inr (p, omega (arith, v.started), omega (arith, v.last_before))
    ]
step-Spaced start delay base now k r (connects t usable) h v =
    connect-Spaced start delay base now k t usable r h v

run-Spaced :
    (start delay base now k : ℕ) (r : Redis) (es : List Event)
    → IsClocked now es
    → Spaced start delay base now k r
    → (k' : ℕ) × Spaced start delay base (last_tick now es) k' (run r es)
run-Spaced start delay base now k r [] h v = (k, v)
run-Spaced start delay base now k r (e ∷ es) h v =
    let (k', v') = step-Spaced start delay base now k r e (h.0, h.1, h.2) v in
    run-Spaced start delay base (tick e) k' (step r e) es h.3 v'

-- While the clock runs from `start`, which is not before the last attempt or disconnection, without wrapping
-- and without showing 0, the attempts of `Connect` number at most one for each full delay, and one more.
pub attempts_spaced :
    (r : Redis) (start : ℕ) (es : List Event)
    → r.delay_disconnect ≤ start
    → IsClocked start es
    → ((run r es).attempts - r.attempts) * r.delay_connect_time
      ≤ last_tick start es - start + r.delay_connect_time
attempts_spaced r start es before clocked =
    let (k, v) = run-Spaced start r.delay_connect_time r.attempts start 0 r es clocked (record {
      same_delay = refl;
      started = omega arith;
      last_before = before;
      counted = omega arith;
      paid = inl refl;
    }) in
    let made : (run r es).attempts - r.attempts ≡ k = omega (arith, v.counted) in
    rw made (bound k v)
  where
    bound :
        (k : ℕ)
        → Spaced start r.delay_connect_time r.attempts (last_tick start es) k (run r es)
        → k * r.delay_connect_time ≤ last_tick start es - start + r.delay_connect_time
    bound k v = elim v.paid [
      | inl none_yet ↦ omega (arith, ap (λ (n : ℕ). n * r.delay_connect_time) none_yet)
      | inr (some_last, later, cost) ↦ omega (arith, v.last_before)
    ]
