-- ===== src/MemStuff/Regions.antt =====
-- include/memstuff.h: what the arena hands out stays inside its chunk and overlaps nothing that was
-- handed out since the last `clear`.
use mms_svr.Prelude.{
  ℕ, zero, suc, ◌+◌, ◌-◌, ◌*◌, ◌%◌, ◌<◌, ◌≤◌, ◌≡◌, refl, ◌∙◌, ◌⊎◌, inl, inr, List, [], ◌∷◌, ◌++◌,
  Option, none, some, Bool, true, false, arith, leb, ◌==◌, length, if◌then◌else◌, All, Bool-cases,
  leb→le,
}
use mms_svr.FastBuffer.{size_mod}
use mms_svr.MemStuff.{Chunk, Pointer, Mallocs, bump, offset_in, place, appendbuf, alloc}

abbrev pub IsSound : Chunk → Type 0
IsSound c = (c.size ≤ c.bufsize) × (c.bufsize < size_mod)

abbrev pub IsValid : List Chunk → Type 0
IsValid = All IsSound

-- How far a chunk is filled, and how large it is.
abbrev pub used : List Chunk → ℕ → ℕ
used [] j = 0
used (c ∷ cs) zero = c.size
used (c ∷ cs) (suc j) = used cs j

abbrev pub capacity : List Chunk → ℕ → ℕ
capacity [] j = 0
capacity (c ∷ cs) zero = c.bufsize
capacity (c ∷ cs) (suc j) = capacity cs j

-- Whether a chunk has a block.
abbrev pub backed : List Chunk → ℕ → Bool
backed [] j = false
backed (c ∷ cs) zero = c.buf
backed (c ∷ cs) (suc j) = backed cs j

-- The request lies right behind what its chunk held, inside the chunk, and no other chunk changes.
pub record Placed (cs : List Chunk) (bz : ℕ) (cs' : List Chunk) (p : Pointer) : Type 0 where
  pub sound : IsValid cs'
  pub fresh : p.offset ≡ used cs p.chunk
  pub inside : p.offset + bz ≤ capacity cs' p.chunk
  pub filled : (j : ℕ) → used cs' j ≡ (if p.chunk == j then p.offset + bz else used cs j)
  pub based : backed cs' p.chunk ≡ p.based
  pub kept : (j : ℕ) → backed cs j ≡ true → backed cs' j ≡ true

-- Within the capacity the arithmetic of `size_t` does not wrap.
bump_lem :
    (c : Chunk) (bz : ℕ)
    → c.bufsize < size_mod
    → c.size + bz ≤ c.bufsize
    → ((bump c bz).size ≡ c.size + bz) × (offset_in (bump c bz) bz ≡ c.size)
unfolding bump offset_in
bump_lem c bz small fits = (omega arith, omega arith)

bump-Placed :
    (c : Chunk) (cs : List Chunk) (bz : ℕ)
    → IsValid (c ∷ cs)
    → c.size + bz ≤ c.bufsize
    → Placed
        (c ∷ cs)
        bz
        (bump c bz ∷ cs)
        (record { chunk = 0; offset = offset_in (bump c bz) bz; based = c.buf })
bump-Placed c cs bz (sound, rest) fits =
    let (size, offset) = bump_lem c bz sound.1 fits in
    record {
      sound = unfold bump in ((omega (arith, size), sound.1), rest);
      fresh = offset;
      inside = unfold bump in omega (arith, offset);
      filled = λ j. filled_at j size offset;
      based = unfold bump in refl;
      kept = kept_at;
    }
  where
    kept_at : (j : ℕ) → backed (c ∷ cs) j ≡ true → backed (bump c bz ∷ cs) j ≡ true
    kept_at zero h = unfold bump in h
    kept_at (suc j) h = h

    filled_at :
        (j : ℕ)
        → (bump c bz).size ≡ c.size + bz
        → offset_in (bump c bz) bz ≡ c.size
        → used (bump c bz ∷ cs) j
          ≡ (if 0 == j then offset_in (bump c bz) bz + bz else used (c ∷ cs) j)
    filled_at zero size offset = omega (arith, size, offset)
    filled_at (suc j) size offset = ground arith

behind-Placed :
    (c : Chunk) (cs cs' : List Chunk) (bz : ℕ) (p : Pointer)
    → IsSound c
    → Placed cs bz cs' p
    → Placed (c ∷ cs) bz (c ∷ cs') (record p { chunk = suc p.chunk })
behind-Placed c cs cs' bz p sound placed = record {
  sound = (sound, placed.sound);
  fresh = placed.fresh;
  inside = placed.inside;
  filled = filled_at;
  based = placed.based;
  kept = kept_at;
}
  where
    kept_at : (j : ℕ) → backed (c ∷ cs) j ≡ true → backed (c ∷ cs') j ≡ true
    kept_at zero h = h
    kept_at (suc j) h = placed.kept j h

    filled_at :
        (j : ℕ) → used (c ∷ cs') j ≡ (if suc p.chunk == j then p.offset + bz else used (c ∷ cs) j)
    filled_at zero = ground arith
    filled_at (suc j) = ground (arith, placed.filled j)

abbrev Outcome : List Chunk → ℕ → Option (List Chunk × Pointer) → Type 0
Outcome cs bz r =
    (r ≡ none) ⊎ ((cs' : List Chunk) × (p : Pointer) × (r ≡ some (cs', p)) × Placed cs bz cs' p)

place_cases : (cs : List Chunk) (bz : ℕ) → IsValid cs → Outcome cs bz (place cs bz)
unfolding place
place_cases [] bz v = inl refl
place_cases (c ∷ cs) bz v =
    let spare : (c.bufsize + size_mod - c.size) % size_mod ≡ c.bufsize - c.size = omega arith in
    elim (Bool-cases (leb bz (c.bufsize - c.size))) [
      | inl room ↦
          rw (spare, room)
            (inr (_, _, refl, bump-Placed c cs bz v (omega (arith, leb→le bz _ room))))
      | inr full ↦
          rw (spare, full)
            (elim (place_cases cs bz v.1) [
              | inl e ↦ rw e (inl refl)
              | inr (cs', p, e, placed) ↦
                  rw e (inr (_, _, refl, behind-Placed c cs cs' bz p v.0 placed))
            ])
    ]

-- A new chunk at the end of the arena.
append-Placed :
    (cs : List Chunk) (c : Chunk) (bz : ℕ)
    → IsValid cs
    → c.size ≡ 0
    → c.bufsize < size_mod
    → bz ≤ c.bufsize
    → Placed cs bz
        (cs ++ (bump c bz ∷ []))
        (record { chunk = length cs; offset = offset_in (bump c bz) bz; based = c.buf })
append-Placed [] c bz v empty small fits =
    let placed = bump-Placed c [] bz ((omega (arith, empty), small), tt) (omega (arith, empty)) in
    record {
      sound = placed.sound;
      fresh = placed.fresh ∙ empty;
      inside = placed.inside;
      filled = λ j. filled_at j (placed.filled j);
      based = placed.based;
      kept = kept_at;
    }
  where
    kept_at : (j : ℕ) → backed [] j ≡ true → backed (bump c bz ∷ []) j ≡ true
    kept_at j h = cc

    filled_at :
        (j : ℕ)
        → used (bump c bz ∷ []) j
          ≡ (if 0 == j then offset_in (bump c bz) bz + bz else used (c ∷ []) j)
        → used (bump c bz ∷ []) j ≡ (if 0 == j then offset_in (bump c bz) bz + bz else used [] j)
    filled_at zero h = h
    filled_at (suc j) h = ground arith
append-Placed (d ∷ cs) c bz v empty small fits =
    behind-Placed d cs (cs ++ (bump c bz ∷ [])) bz _ v.0
      (append-Placed cs c bz v.1 empty small fits)

-- In a valid arena, for a request whose double does not wrap: a pointer that `alloc` returns is
-- placed, and without one the arena is as it was.
pub alloc_cases :
    (sz : ℕ) (cs : List Chunk) (bz : ℕ) (m : Mallocs)
    → IsValid cs
    → sz < size_mod
    → bz * 2 < size_mod
    → (alloc sz cs bz m ≡ (cs, none))
      ⊎ ((cs' : List Chunk) × (p : Pointer) × (alloc sz cs bz m ≡ (cs', some p))
          × Placed cs bz cs' p)
unfolding alloc appendbuf
alloc_cases sz cs bz m v small fits = elim (place_cases cs bz v) [
  | inr (cs', p, e, placed) ↦ inr (cs', p, rw (e, alloc) refl, placed)
  | inl e ↦ elim (Bool-cases m.header) [
    | inr failed ↦ inl (rw (e, alloc) (rw failed refl))
    | inl got ↦ inr (
      _,
      _,
      rw (e, alloc) (rw got refl),
      append-Placed cs (appendbuf sz bz m.block) bz v refl (ground arith) (ground arith),
    )
  ]
]
