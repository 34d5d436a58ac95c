-- ===== src/Logger/Formats.antt =====
-- include/logger.h: a text without percent signs is logged as it is, and another is read as a format.
use mms_svr.Prelude.{
  ℕ, zero, suc, ◌+◌, ◌-◌, ◌/◌, ◌%◌, ◌≤◌, ◌<◌, ◌≡◌, refl, sym, ap, ◌∙◌, List, [], ◌∷◌, ◌++◌,
  append-nil, append_assoc, false, ◌==◌, ltb, length, take, arith, All, inl, inr, Bool-cases,
  length-append, length-take_bound,
}
use mms_svr.Json.{codes, tos_uint, decimal}
use mms_svr.Logger.{head, Logged, printed, takes_argument, behind, log_buffer, syslog, log}

abbrev pub IsPlain : ℕ → Type 0
IsPlain c = (c == b'%') ≡ false

All-append : (xs ys : List ℕ) → All IsPlain xs → All IsPlain ys → All IsPlain (xs ++ ys)
All-append [] ys h g = g
All-append (x ∷ xs) ys h g = (h.0, All-append xs ys h.1 g)

above_percent : (d : ℕ) → IsPlain (48 + d)
above_percent d = ground arith

-- At most `n` digits, and each of them a digit.
decimal-digits : (n i : ℕ) → (length (decimal n i) ≤ n) × All IsPlain (decimal n i)
unfolding decimal
decimal-digits zero i = (omega arith, tt)
decimal-digits (suc n) i =
    let (size, digits) = decimal-digits n (i / 10) in
    elim (Bool-cases (ltb i 10)) [
      | inl small ↦ rw small (omega arith, (above_percent i, tt))
      | inr large ↦ rw large (
        omega (arith, size, length-append (decimal n (i / 10)) ((48 + i % 10) ∷ [])),
        All-append (decimal n (i / 10)) _ digits (above_percent (i % 10), tt),
      )
    ]

tos_uint-digits : (i : ℕ) → (length (tos_uint i) ≤ 10) × All IsPlain (tos_uint i)
unfolding tos_uint
tos_uint-digits i = decimal-digits 10 i

head-IsPlain : (thread_id : ℕ) → (length (head thread_id) ≤ 24) × All IsPlain (head thread_id)
head-IsPlain thread_id =
    let (size, digits) = tos_uint-digits thread_id in
    (
      omega (arith, size, length-append (tos_uint thread_id) (codes "] ")),
      All-append (codes "Logger::Log[") _ (ground arith)
          (All-append (tos_uint thread_id) (codes "] ") digits (ground arith)),
    )

behind-behind : (s t : List ℕ) (l : Logged) → behind s (behind t l) ≡ behind (s ++ t) l
behind-behind s t (printed text) = ap printed (sym (append_assoc s t text))
behind-behind s t takes_argument = refl

syslog-cons :
    (error : List ℕ) (c : ℕ) (s : List ℕ)
    → IsPlain c
    → syslog error (c ∷ s) ≡ behind (c ∷ []) (syslog error s)
unfolding syslog
syslog-cons error c [] plain = rw plain refl
syslog-cons error c (d ∷ rest) plain = rw plain refl

syslog-append :
    (error xs ys : List ℕ) → All IsPlain xs → syslog error (xs ++ ys) ≡ behind xs (syslog error ys)
syslog-append error [] ys plain = nothing_behind (syslog error ys)
  where
    nothing_behind : (l : Logged) → l ≡ behind [] l
    nothing_behind (printed text) = refl
    nothing_behind takes_argument = refl
syslog-append error (x ∷ xs) ys plain =
    syslog-cons error x (xs ++ ys) plain.0
    ∙ ap (behind (x ∷ [])) (syslog-append error xs ys plain.1)
    ∙ behind-behind (x ∷ []) xs (syslog error ys)

syslog_plain : (error xs : List ℕ) → All IsPlain xs → syslog error xs ≡ printed xs
unfolding syslog
syslog_plain error xs plain =
    ap (syslog error) (sym (append-nil xs))
    ∙ syslog-append error xs [] plain
    ∙ ap printed (append-nil xs)

All-take : (n : ℕ) (xs : List ℕ) → All IsPlain xs → All IsPlain (take n xs)
All-take zero xs h = tt
All-take (suc n) [] h = tt
All-take (suc n) (x ∷ xs) h = (h.0, All-take n xs h.1)

-- Whatever the thread, the buffer never holds more than 1023 bytes before its NUL, and a text without percent signs
-- reaches the log as the buffer has it.
pub log_plain :
    (error : List ℕ) (thread_id : ℕ) (text : List ℕ)
    → All IsPlain text
    → (length (log_buffer thread_id text) ≤ 1023)
      × (log error thread_id text ≡ printed (log_buffer thread_id text))
unfolding log log_buffer
log_plain error thread_id text plain =
    let (size, digits) = head-IsPlain thread_id in
    let rest : List ℕ = take (1024 - length (head thread_id) - 1) text in
    (
      omega (
        arith,
        size,
        length-append (head thread_id) rest,
        length-take_bound (1024 - length (head thread_id) - 1) text,
      ),
      syslog_plain error (log_buffer thread_id text)
          (All-append (head thread_id) rest digits (All-take _ text plain)),
    )

take_past :
    (n : ℕ) (front : List ℕ) (c d : ℕ) (back : List ℕ)
    → length front + 2 ≤ n
    → (left : List ℕ) × (take n (front ++ (c ∷ d ∷ back)) ≡ front ++ (c ∷ d ∷ left))
take_past zero front c d back h = absurd (omega (arith, h))
take_past (suc zero) front c d back h = absurd (omega (arith, h))
take_past (suc (suc n)) [] c d back h = (take n back, refl)
take_past (suc (suc n)) (x ∷ front) c d back h =
    let (left, same) = take_past (suc n) front c d back (omega (arith, h)) in
    (left, ap (◌∷◌ x) same)

-- In a text of which the first percent sign stands among the first 990 bytes and is followed by neither another one
-- nor an m, the log takes it and what follows for a conversion, whoever wrote the text.
pub log_conversion :
    (error : List ℕ) (thread_id : ℕ) (front : List ℕ) (d : ℕ) (back : List ℕ)
    → All IsPlain front
    → (d == b'%') ≡ false
    → (d == b'm') ≡ false
    → length front < 990
    → log error thread_id (front ++ (b'%' ∷ d ∷ back)) ≡ takes_argument
unfolding log log_buffer
log_conversion error thread_id front d back plain other letter near =
    let (size, digits) = head-IsPlain thread_id in
    let (left, same) =
      take_past (1024 - length (head thread_id) - 1) front b'%' d back (omega (arith, size)) in
    rw same (
      syslog-append error (head thread_id) (front ++ (b'%' ∷ d ∷ left)) digits
      ∙ ap (behind (head thread_id)) (
          syslog-append error front (b'%' ∷ d ∷ left) plain
          ∙ ap (behind front) (converts error d left other letter)))
  where
    converts :
        (error : List ℕ) (d : ℕ) (left : List ℕ)
        → (d == b'%') ≡ false
        → (d == b'm') ≡ false
        → syslog error (b'%' ∷ d ∷ left) ≡ takes_argument
    converts error d left other letter = unfold syslog in (rw (other, letter) refl)
