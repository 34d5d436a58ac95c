-- ===== src/Redis/Text.antt =====
-- src/redis/yyredis.h: the loop that sizes the array for `vsnprintf`.
use mms_svr.Prelude.{
  inr, inl, ℕ, zero, suc, ◌+◌, ◌*◌, ◌<◌, ◌≡◌, refl, List, some, Bool, true, false, ltb, length,
  arith, Bool-cases, lt→ltb,
}
use mms_svr.Redis.{format_loop}

format_counted : (f size : ℕ) (text : List ℕ) → format_loop (suc (suc f)) true size text ≡ some text
unfolding format_loop
format_counted f size text = elim (Bool-cases (ltb (length text) size)) [
  | inl room ↦ rw (room, format_loop) refl
  | inr short ↦ rw (short, lt→ltb (length text) (length text + 1) (omega arith), format_loop) refl
]

-- Each turn doubles the array, so the length is reached.
format_doubled :
    (f size : ℕ) (text : List ℕ)
    → 0 < size
    → length text < size + f
    → format_loop (suc f) false size text ≡ some text
unfolding format_loop
format_doubled zero size text some_room enough =
    rw (lt→ltb (length text) size (omega arith), format_loop) refl
format_doubled (suc f) size text some_room enough = elim (Bool-cases (ltb (length text) size)) [
  | inl room ↦ rw (room, format_loop) refl
  | inr short ↦
      rw (short, format_loop) (format_doubled f (size * 2) text (omega arith) (omega arith))
]

-- With either kind of library the loop ends, after no more turns than the text has bytes, and two, and the
-- array then holds the whole text.
pub format_loop-some :
    (counts : Bool) (text : List ℕ)
    → format_loop (suc (suc (length text))) counts 256 text ≡ some text
format_loop-some true text = format_counted (length text) 256 text
format_loop-some false text =
    format_doubled (suc (length text)) 256 text (omega arith) (omega arith)
