-- ===== src/FastBuffer.antt =====
-- include/fastbuffer.h: `fastbuffer`, a byte buffer over `realloc`. The block that `_buf` points to is
-- a list of cells, empty for NULL. `size_t` has 64 bits. A `memcpy` or `memmove` that leaves its block
-- is undefined in C and is the value `none` here.
pub mod Laws
use mms_svr.Prelude.{
  ℕ, ◌+◌, ◌-◌, ◌*◌, ◌%◌, ◌^◌, ◌≤◌, ◌≡◌, List, [], ◌∷◌, ◌++◌, Option, none, some, Bool, ltb, length,
  if◌then◌else◌, take, drop, replicate,
}

abbrev pub size_mod : ℕ
size_mod = 2 ^ 64

-- `realloc` of the C library: the new block has the size asked for and begins with the old cells.
pub record Realloc : Type 0 where
  pub realloc : List ℕ → ℕ → Option (List ℕ)
  pub length-realloc : (p : List ℕ) (sz : ℕ) (q : List ℕ) → realloc p sz ≡ some q → length q ≡ sz
  pub take-realloc :
      (p : List ℕ) (sz n : ℕ) (q : List ℕ)
      → realloc p sz ≡ some q
      → n ≤ length p
      → n ≤ sz
      → take n q ≡ take n p

pub record FastBuffer : Type 0 where
  pub fd : ℕ
  pub size : ℕ
  pub bufsize : ℕ
  pub block : List ℕ

unfoldable pub init : FastBuffer
init = record { fd = 0; size = 0; bufsize = 0; block = [] }

-- `memcpy(_buf + at, bytes, length bytes)`
unfoldable pub memcpy : List ℕ → ℕ → List ℕ → Option (List ℕ)
memcpy block at bytes =
    if ltb (length block) (at + length bytes)
    then none
    else some (take at block ++ (bytes ++ drop (at + length bytes) block))

-- `memmove(_buf, _buf + dz, n)`
unfoldable pub memmove : List ℕ → ℕ → ℕ → Option (List ℕ)
memmove block dz n =
    if ltb (length block) (dz + n) then none else some (take n (drop dz block) ++ drop n block)

module _ (c : Realloc) where
  -- The end of `append`, with room for the bytes.
  unfoldable pub copy_in : FastBuffer → List ℕ → Option (FastBuffer × ℕ)
  unfolding memcpy
  copy_in b bytes = elim (memcpy b.block b.size bytes) [
    | none ↦ none
    | some block ↦
        some (record b { block = block; size = (b.size + length bytes) % size_mod }, length bytes)
  ]

  -- The block grown to `sz` cells, or NULL with the size and the capacity left as they were.
  unfoldable pub grow : FastBuffer → List ℕ → ℕ → Option (FastBuffer × ℕ)
  grow b bytes sz = elim (c.realloc b.block sz) [
    | none ↦ some (record b { block = [] }, 0)
    | some q ↦ copy_in (record b { block = q; bufsize = sz }) bytes
  ]

  unfoldable pub append : FastBuffer → List ℕ → Option (FastBuffer × ℕ)
  append b bytes =
      if ltb ((b.bufsize + size_mod - b.size) % size_mod) (length bytes)
      then grow b bytes ((b.bufsize + length bytes) % size_mod * 2 % size_mod)
      else copy_in b bytes

  -- `fastbuffer(fastbuffer * ot)`
  unfoldable pub copy : FastBuffer → Option FastBuffer
  copy ot = elim (append init (take ot.size ot.block)) [
    | none ↦ none
    | some (b, _) ↦ some (record b { fd = ot.fd })
  ]

unfoldable pub clear : FastBuffer → FastBuffer
clear b = record b { size = 0 }

-- `dz` bytes leave the front. What was copied out is there if the caller's pointer is not NULL.
unfoldable pub take_front : FastBuffer → Bool → ℕ → Option (FastBuffer × ℕ × List ℕ)
take_front b wanted dz = elim (memmove b.block dz (b.size - dz)) [
  | none ↦ none
  | some block ↦
      some
        (record b { block = block; size = b.size - dz }, dz, if wanted then take dz b.block else [])
]

unfoldable pub read : FastBuffer → Bool → ℕ → Option (FastBuffer × ℕ × List ℕ)
read b wanted bz = take_front b wanted (if ltb b.size bz then b.size else bz)
