-- ===== src/Yyssl/Blocks.antt =====
-- include/yyssl.h: the block loops of `AESEncrypt`, `AESDecrypt`, `RSAPublicEncrypt` and
-- `RSAPrivateDecrypt`, which differ in the block size, in the block operation and in what stands in
-- `from` behind a short last block. `rest` is the input from `offset` on.
pub mod Copies
pub mod RoundTrip
pub mod Faults
use mms_svr.Prelude.{
  ℕ, zero, suc, ◌+◌, ◌%◌, ◌≡◌, List, [], ◌∷◌, ◌++◌, Option, none, some, Bool, ◌||◌, ltb, ◌==◌,
  length, if◌then◌else◌, take, drop, replicate,
}

-- `return true` with what was written, `return false`, an access behind the end of an array, an append that throws
-- `length_error`, and a loop that is out of fuel, which is no outcome of the code.
pub data Outcome : Type 0 where
  done : List ℕ → Outcome
  refused outside thrown stuck : Outcome

-- The block operation, `none` where it returns a negative number.
abbrev pub BlockFn : Type 0
BlockFn = List ℕ → Option (List ℕ)

-- `inbuf.copy(from, n, offset)`
unfoldable pub copy_block : ℕ → List ℕ → List ℕ → List ℕ
copy_block n rest from = take n rest ++ drop (length (take n rest)) from

-- `reset` stands for the `memset` of `from` before each copy.
unfoldable pub encrypt_loop : ℕ → Bool → BlockFn → ℕ → List ℕ → List ℕ → List ℕ → Outcome
encrypt_loop n reset enc zero rest from out = stuck
encrypt_loop n reset enc (suc f) [] from out = done out
encrypt_loop n reset enc (suc f) (x ∷ xs) from out =
    let block = copy_block n (x ∷ xs) (if reset then replicate n 0 else from) in
    elim (enc block) [
      | none ↦ refused
      | some to ↦ encrypt_loop n reset enc f (drop n (x ∷ xs)) block (out ++ to)
    ]

-- `outbuf.append(to, offsetLen)` for a `char` that is the byte `off`: a negative length throws, and a
-- length above the block reads behind the array.
unfoldable pub append_part : ℕ → ℕ → List ℕ → List ℕ → Outcome
append_part n off to out =
    if ltb 127 off then thrown else (if ltb n off then outside else done (out ++ take off to))

abbrev pub and_then : Outcome → (List ℕ → Outcome) → Outcome
and_then (done out) k = k out
and_then refused k = refused
and_then outside k = outside
and_then thrown k = thrown
and_then stuck k = stuck

-- Only the last block is cut to `off` bytes.
unfoldable pub append_block : ℕ → ℕ → List ℕ → List ℕ → List ℕ → Outcome
unfolding append_part
append_block n off [] to out = if off == 0 then done (out ++ to) else append_part n off to out
append_block n off (y ∷ ys) to out = done (out ++ to)

unfoldable pub decrypt_loop : ℕ → BlockFn → ℕ → ℕ → List ℕ → List ℕ → List ℕ → Outcome
decrypt_loop n dec off zero rest from out = stuck
decrypt_loop n dec off (suc f) [] from out = done out
decrypt_loop n dec off (suc f) (x ∷ xs) from out =
    let block = copy_block n (x ∷ xs) from in
    elim (dec block) [
      | none ↦ refused
      | some to ↦
          and_then (append_block n off (drop n (x ∷ xs)) to out)
            (λ out'. decrypt_loop n dec off f (drop n (x ∷ xs)) block out')
    ]

-- The whole functions, from an empty `outbuf`. `garbage` is what the stack holds in `from`.
unfoldable pub encrypt : ℕ → Bool → BlockFn → List ℕ → List ℕ → Outcome
encrypt n reset enc garbage inbuf =
    encrypt_loop n reset enc (suc (length inbuf)) inbuf garbage ((length inbuf % n) ∷ [])

unfoldable pub decrypt : ℕ → BlockFn → List ℕ → List ℕ → Outcome
decrypt n dec garbage [] = refused
decrypt n dec garbage (off ∷ inbuf) =
    if suc (length inbuf) % n == 1
    then decrypt_loop n dec off (suc (length inbuf)) inbuf garbage []
    else refused
