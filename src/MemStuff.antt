-- ===== src/MemStuff.antt =====
-- include/memstuff.h: `memstuff<SZ>`, an arena of chunks that are filled from the front and freed
-- together. A chunk is its capacity, its fill and whether `malloc` gave it a block; a pointer into the
-- arena is the number of a chunk and an offset behind its block, or behind NULL if it has none. `size_t` has 64 bits.
pub mod Regions
pub mod Trace
use mms_svr.Prelude.{
  ℕ, suc, ◌+◌, ◌-◌, ◌*◌, ◌%◌, ◌^◌, List, [], ◌∷◌, ◌++◌, Option, none, some, Bool, ltb, leb, length,
  if◌then◌else◌,
}
use mms_svr.FastBuffer.{size_mod}

pub record Chunk : Type 0 where
  pub size : ℕ
  pub bufsize : ℕ
  pub buf : Bool

pub record Pointer : Type 0 where
  pub chunk : ℕ
  pub offset : ℕ
  -- Whether the chunk has a block; else the address is NULL plus the offset.
  pub based : Bool

-- Which of the two `malloc` calls of `appendbuf` succeed: for the header, and for the block.
pub record Mallocs : Type 0 where
  pub header : Bool
  pub block : Bool

-- `buf->_size += bz; return buf->_buf + buf->_size - bz`
unfoldable pub bump : Chunk → ℕ → Chunk
bump c bz = record c { size = (c.size + bz) % size_mod }

unfoldable pub offset_in : Chunk → ℕ → ℕ
offset_in c bz = (c.size + size_mod - bz) % size_mod

abbrev pub behind : Chunk → Option (List Chunk × Pointer) → Option (List Chunk × Pointer)
behind c none = none
behind c (some (cs, p)) = some (c ∷ cs, record p { chunk = suc p.chunk })

-- The walk over the chunks: the first one with room takes the request.
unfoldable pub place : List Chunk → ℕ → Option (List Chunk × Pointer)
unfolding bump offset_in
place [] bz = none
place (c ∷ cs) bz =
    if leb bz ((c.bufsize + size_mod - c.size) % size_mod)
    then some
        (bump c bz ∷ cs, record { chunk = 0; offset = offset_in (bump c bz) bz; based = c.buf })
    else behind c (place cs bz)

-- `sz` is the template's parameter.
unfoldable pub appendbuf : ℕ → ℕ → Bool → Chunk
appendbuf sz bz block = record {
  size = 0;
  bufsize = if ltb bz sz then sz else bz * 2 % size_mod;
  buf = block;
}

unfoldable pub alloc : ℕ → List Chunk → ℕ → Mallocs → List Chunk × Option Pointer
unfolding bump offset_in appendbuf
alloc sz cs bz m = elim (place cs bz) [
  | some (cs', p) ↦ (cs', some p)
  | none ↦
      if m.header
      then (
        cs ++ (bump (appendbuf sz bz m.block) bz ∷ []),
        some (record {
          chunk = length cs;
          offset = offset_in (bump (appendbuf sz bz m.block) bz) bz;
          based = m.block;
        }),
      )
      else (cs, none)
]

unfoldable pub clear : List Chunk → List Chunk
clear [] = []
clear (c ∷ cs) = record c { size = 0 } ∷ clear cs
