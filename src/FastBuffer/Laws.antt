-- ===== src/FastBuffer/Laws.antt =====
-- include/fastbuffer.h: the buffer is the sequence of its bytes, and no copy leaves the block.
use mms_svr.Prelude.{
  ℕ, ◌+◌, ◌-◌, ◌*◌, ◌%◌, ◌<◌, ◌≤◌, ◌≡◌, refl, sym, ap, ◌∙◌, inl, inr, List, [], ◌++◌, Option, none,
  some, Bool, arith, ltb, length, if◌then◌else◌, take, drop, append_assoc, length-append,
  length-take_le, length-drop, take-append, take_all, drop_all, drop-take, take-take_le, le→ltb,
  lt→ltb, Bool-cases, ltb→lt, ltb→le,
}
use mms_svr.FastBuffer.{
  Realloc, FastBuffer, size_mod, init, memcpy, memmove, copy_in, append, clear, read, copy, grow,
  take_front,
}

pub record IsValid (b : FastBuffer) : Type 0 where
  pub within : b.size ≤ b.bufsize
  pub allocated : length b.block ≡ b.bufsize
  pub small : b.bufsize < size_mod

abbrev pub contents : FastBuffer → List ℕ
contents b = take b.size b.block

pub init-IsValid : IsValid init
unfolding init
init-IsValid = record { within = omega arith; allocated = refl; small = omega arith }

memcpy_fits :
    (block bytes : List ℕ) (at : ℕ)
    → at + length bytes ≤ length block
    → memcpy block at bytes ≡ some (take at block ++ (bytes ++ drop (at + length bytes) block))
unfolding memcpy
memcpy_fits block bytes at h = rw (le→ltb _ _ h)

-- The bytes up to the end of what was written.
take_written :
    (block bytes : List ℕ) (at : ℕ)
    → at + length bytes ≤ length block
    → take (at + length bytes) (take at block ++ (bytes ++ drop (at + length bytes) block))
      ≡ take at block ++ bytes
take_written block bytes at h =
    rw (← append_assoc (take at block) bytes (drop (at + length bytes) block)) (
      take-append (take at block ++ bytes) _ _
        (omega (arith, length-append (take at block) bytes, length-take_le at block)))

length_written :
    (block bytes : List ℕ) (at : ℕ)
    → at + length bytes ≤ length block
    → length (take at block ++ (bytes ++ drop (at + length bytes) block)) ≡ length block
length_written block bytes at h =
    rw (length-append (take at block), length-append bytes)
      (omega (arith, length-take_le at block, length-drop (at + length bytes) block))

-- With room for the bytes they go behind the contents.
copy_in-Appends :
    (c : Realloc) (b : FastBuffer) (bytes : List ℕ)
    → IsValid b
    → b.size + length bytes ≤ b.bufsize
    → (b' : FastBuffer) × (copy_in c b bytes ≡ some (b', length bytes))
      × IsValid b'
      × (contents b' ≡ contents b ++ bytes)
      × (b'.fd ≡ b.fd)
unfolding copy_in
copy_in-Appends c b bytes v room =
    let fits : b.size + length bytes ≤ length b.block = omega (arith, v.allocated) in
    let wraps : (b.size + length bytes) % size_mod ≡ b.size + length bytes =
      omega (arith, v.small) in
    (
      record b {
        block = take b.size b.block ++ (bytes ++ drop (b.size + length bytes) b.block);
        size = (b.size + length bytes) % size_mod;
      },
      rw (le→ltb _ _ fits, copy_in) refl,
      record {
        within = omega arith;
        allocated = length_written b.block bytes b.size fits ∙ v.allocated;
        small = v.small;
      },
      rw wraps (take_written b.block bytes b.size fits),
      refl,
    )

-- What a successful `append` gives: the bytes behind the contents, in a valid buffer.
abbrev pub Appends : FastBuffer → List ℕ → Option (FastBuffer × ℕ) → Type 0
Appends b bytes r =
    (b' : FastBuffer) × (r ≡ some (b', length bytes))
    × IsValid b'
    × (contents b' ≡ contents b ++ bytes)
    × (b'.fd ≡ b.fd)

abbrev pub grown_size : FastBuffer → List ℕ → ℕ
grown_size b bytes = (b.bufsize + length bytes) * 2

grown-Appends :
    (c : Realloc) (b : FastBuffer) (bytes q : List ℕ)
    → IsValid b
    → grown_size b bytes < size_mod
    → c.realloc b.block (grown_size b bytes) ≡ some q
    → Appends b bytes (grow c b bytes (grown_size b bytes))
unfolding grow
grown-Appends c b bytes q v fits got =
    let long : length q ≡ grown_size b bytes = c.length-realloc b.block _ q got in
    let kept : take b.size q ≡ take b.size b.block =
      c.take-realloc b.block _ b.size q got (omega (arith, v.allocated, v.within))
        (omega (arith, v.within)) in
    let (b', ran, valid, holds, same) =
      copy_in-Appends c (record b { block = q; bufsize = grown_size b bytes }) bytes
        (record { within = omega (arith, v.within); allocated = long; small = fits })
        (omega (arith, v.within)) in
    (b', rw (got, grow) ran, valid, holds ∙ ap (λ (l : List ℕ). l ++ bytes) kept, same)

-- For a valid buffer whose grown size does not wrap, and a `realloc` that gives a block of that size
-- if it is asked, `append` puts the bytes behind the contents and keeps the buffer valid.
pub append-Appends :
    (c : Realloc) (b : FastBuffer) (bytes q : List ℕ)
    → IsValid b
    → grown_size b bytes < size_mod
    → c.realloc b.block (grown_size b bytes) ≡ some q
    → Appends b bytes (append c b bytes)
unfolding append
append-Appends c b bytes q v fits got =
    let spare : (b.bufsize + size_mod - b.size) % size_mod ≡ b.bufsize - b.size =
      omega (arith, v.within, v.small) in
    let asked : (b.bufsize + length bytes) % size_mod * 2 % size_mod ≡ grown_size b bytes =
      omega arith in
    elim (Bool-cases (ltb (b.bufsize - b.size) (length bytes))) [
      | inl short ↦ rw (spare, short, asked) (grown-Appends c b bytes q v fits got)
      | inr room ↦
          rw (spare, room) (copy_in-Appends c b bytes v (omega (arith, ltb→le _ _ room, v.within)))
    ]

-- For a valid buffer without room, where the grown size does not wrap, a failed `realloc` loses the
-- contents: `append` answers 0, and an append of bytes that fit into the old capacity then writes
-- through NULL.
pub append_failed :
    (c : Realloc) (b : FastBuffer) (bytes more : List ℕ)
    → IsValid b
    → grown_size b bytes < size_mod
    → b.bufsize - b.size < length bytes
    → c.realloc b.block (grown_size b bytes) ≡ none
    → 0 < length more
    → length more ≤ b.bufsize - b.size
    → (b' : FastBuffer) × (append c b bytes ≡ some (b', 0)) × (append c b' more ≡ none)
unfolding append grow copy_in
append_failed c b bytes more v fits short failed some_more room =
    let spare : (b.bufsize + size_mod - b.size) % size_mod ≡ b.bufsize - b.size =
      omega (arith, v.within, v.small) in
    let asked : (b.bufsize + length bytes) % size_mod * 2 % size_mod ≡ grown_size b bytes =
      omega arith in
    (
      record b { block = [] },
      rw (spare, lt→ltb _ _ short, asked) (rw (failed, grow) refl),
      rw (spare, le→ltb _ _ room)
          (rw (lt→ltb 0 (b.size + length more) (omega arith), copy_in) refl),
    )

abbrev pub Reads : FastBuffer → Bool → ℕ → Option (FastBuffer × ℕ × List ℕ) → Type 0
Reads b wanted bz r =
    (b' : FastBuffer) × (r
      ≡ some (b', length (take bz (contents b)), if wanted then take bz (contents b) else []))
    × IsValid b'
    × (contents b' ≡ drop bz (contents b))
    × (b'.fd ≡ b.fd)
    × (b'.bufsize ≡ b.bufsize)

-- The buffer after `dz` bytes have left its front.
shifted : FastBuffer → ℕ → FastBuffer
shifted b dz = record b {
  block = take (b.size - dz) (drop dz b.block) ++ drop (b.size - dz) b.block;
  size = b.size - dz;
}

memmove_fits :
    (b : FastBuffer) (dz : ℕ)
    → IsValid b
    → dz ≤ b.size
    → memmove b.block dz (b.size - dz)
      ≡ some (take (b.size - dz) (drop dz b.block) ++ drop (b.size - dz) b.block)
unfolding memmove
memmove_fits b dz v h =
    rw (le→ltb (length b.block) (dz + (b.size - dz)) (omega (arith, v.within, v.allocated)))

shifted-contents :
    (b : FastBuffer) (dz : ℕ)
    → IsValid b
    → dz ≤ b.size
    → IsValid (shifted b dz) × (contents (shifted b dz) ≡ drop dz (contents b))
unfolding shifted
shifted-contents b dz v h =
    let taken : length (take (b.size - dz) (drop dz b.block)) ≡ b.size - dz =
      length-take_le (b.size - dz) (drop dz b.block)
        (omega (arith, length-drop dz b.block, v.within, v.allocated)) in
    (
      record {
        within = omega (arith, v.within);
        allocated =
            length-append (take (b.size - dz) (drop dz b.block)) _
            ∙ omega (arith, taken, length-drop (b.size - dz) b.block, v.allocated, v.within);
        small = v.small;
      },
      take-append _ _ (b.size - dz) (sym taken) ∙ sym (drop-take dz b.size b.block),
    )

length-contents : (b : FastBuffer) → IsValid b → length (contents b) ≡ b.size
length-contents b v = length-take_le b.size b.block (omega (arith, v.within, v.allocated))

-- On a valid buffer `read` takes at most `bz` bytes from the front, answers how many, and leaves the
-- others.
pub read-Reads :
    (b : FastBuffer) (wanted : Bool) (bz : ℕ) → IsValid b → Reads b wanted bz (read b wanted bz)
unfolding read take_front
read-Reads b wanted bz v = elim (Bool-cases (ltb b.size bz)) [
  | inl more ↦
      let all : take bz (contents b) ≡ contents b =
        take_all bz (contents b) (omega (arith, length-contents b v, ltb→lt _ _ more)) in
      let (valid, holds) = shifted-contents b b.size v (omega arith) in
      let none_left : drop b.size (contents b) ≡ drop bz (contents b) =
        drop_all b.size (contents b) (omega (arith, length-contents b v))
        ∙ sym (drop_all bz (contents b) (omega (arith, length-contents b v, ltb→lt _ _ more))) in
      (
        shifted b b.size,
        rw (more, all, length-contents b v)
            (rw (memmove_fits b b.size v (omega arith), take_front) (unfold shifted in refl)),
        valid,
        holds ∙ none_left,
        unfold shifted in refl,
        unfold shifted in refl,
      )
  | inr fewer ↦
      let le : bz ≤ b.size = ltb→le _ _ fewer in
      let (valid, holds) = shifted-contents b bz v le in
      let front : take bz (contents b) ≡ take bz b.block = take-take_le bz b.size b.block le in
      (
        shifted b bz,
        rw (fewer, front, length-take_le bz b.block (omega (arith, v.within, v.allocated)))
            (rw (memmove_fits b bz v le, take_front) (unfold shifted in refl)),
        valid,
        holds,
        unfold shifted in refl,
        unfold shifted in refl,
      )
]

-- `clear` empties the buffer and keeps its block.
pub clear-contents : (b : FastBuffer) → IsValid b → IsValid (clear b) × (contents (clear b) ≡ [])
unfolding clear
clear-contents b v =
    (record { within = omega arith; allocated = v.allocated; small = v.small }, refl)

-- When `realloc` gives a block of twice the size, which does not wrap, the copy of a valid buffer is
-- valid and has the same bytes and the same `fd`.
pub copy-contents :
    (c : Realloc) (b : FastBuffer) (q : List ℕ)
    → IsValid b
    → b.size * 2 < size_mod
    → c.realloc [] (b.size * 2) ≡ some q
    → (b' : FastBuffer) × (copy c b ≡ some b')
      × IsValid b'
      × (contents b' ≡ contents b)
      × (b'.fd ≡ b.fd)
unfolding copy init
copy-contents c b q v fits got =
    let size : (0 + length (contents b)) * 2 ≡ b.size * 2 = omega (arith, length-contents b v) in
    let (b', ran, valid, holds, _) =
      append-Appends c init (contents b) q init-IsValid (omega (arith, size))
        (ap (c.realloc []) size ∙ got) in
    (
      record b' { fd = b.fd },
      rw (ran, copy) refl,
      record { within = valid.within; allocated = valid.allocated; small = valid.small },
      holds,
      refl,
    )
