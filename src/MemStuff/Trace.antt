-- ===== src/MemStuff/Trace.antt =====
-- include/memstuff.h: any sequence of requests. The regions handed out since the arena was empty or
-- cleared are pairwise apart.
use mms_svr.Prelude.{
  ℕ, zero, suc, ◌+◌, ◌*◌, ◌<◌, ◌≤◌, ◌≡◌, ◌⊎◌, ◌≢◌, subst, true, if◌then◌else◌, inl, inr, List, [],
  ◌∷◌, Option, none, some, arith, ◌==◌, All, Bool-cases, ==_iff, sym, ap, ◌∙◌,
}
use mathlib.Core.Bool.{false≢true}
use mms_svr.FastBuffer.{size_mod}
use mms_svr.MemStuff.{Chunk, Pointer, Mallocs, alloc, clear}
use mms_svr.MemStuff.Regions.{backed, IsValid, Placed, used, capacity, alloc_cases}

pub record Region : Type 0 where
  pub at : Pointer
  pub size : ℕ

-- The regions are in different chunks, or one ends before the other begins.
abbrev pub Apart : Region → Region → Type 0
Apart r q =
    (r.at.chunk ≢ q.at.chunk)
    ⊎ (r.at.offset + r.size ≤ q.at.offset)
    ⊎ (q.at.offset + q.size ≤ r.at.offset)

abbrev pub AllApart : List Region → Type 0
AllApart [] = Unit {0}
AllApart (r ∷ rs) = All (Apart r) rs × AllApart rs

-- The chunk has a block, and its fill covers the region.
abbrev pub IsLive : List Chunk → Region → Type 0
IsLive cs r = (backed cs r.at.chunk ≡ true) × (r.at.offset + r.size ≤ used cs r.at.chunk)

-- A pointer that is NULL, or NULL plus an offset, gives no region.
abbrev pub with_region : Option Pointer → ℕ → List Region → List Region
with_region none bz rs = rs
with_region (some p) bz rs = if p.based then record { at = p; size = bz } ∷ rs else rs

-- The regions are gathered newest first.
unfoldable pub alloc_all :
    ℕ → List (ℕ × Mallocs) → List Chunk → List Region → List Chunk × List Region
alloc_all sz [] cs rs = (cs, rs)
alloc_all sz ((bz, m) ∷ more) cs rs =
    let (cs', p) = alloc sz cs bz m in alloc_all sz more cs' (with_region p bz rs)

-- No request is so large that twice its size wraps.
abbrev pub AreSmall : List (ℕ × Mallocs) → Type 0
AreSmall = All λ r. r.0 * 2 < size_mod

-- Filling a chunk further keeps what was live.
still_there :
    (cs cs' : List Chunk) (bz : ℕ) (p : Pointer) (rs : List Region)
    → Placed cs bz cs' p
    → All (IsLive cs) rs
    → All (IsLive cs') rs
still_there cs cs' bz p [] placed live = tt
still_there cs cs' bz p (r ∷ rs) placed live = (
  (
    placed.kept r.at.chunk live.0.0,
    ground (arith, live.0.1, placed.filled r.at.chunk, placed.fresh),
  ),
  still_there cs cs' bz p rs placed live.1,
)

no_overlap :
    (cs cs' : List Chunk) (bz : ℕ) (p : Pointer) (rs : List Region)
    → Placed cs bz cs' p
    → All (IsLive cs) rs
    → All (Apart (record { at = p; size = bz })) rs
no_overlap cs cs' bz p [] placed live = tt
no_overlap cs cs' bz p (r ∷ rs) placed live = (
  elim (Bool-cases (p.chunk == r.at.chunk)) [
    | inl same ↦ inr (inr (behind r ((==_iff p.chunk r.at.chunk).0 same) live.0.1))
    | inr other ↦ inl (λ e. false≢true (sym other ∙ (==_iff p.chunk r.at.chunk).1 e))
  ],
  no_overlap cs cs' bz p rs placed live.1,
)
  where
    behind :
        (q : Region)
        → p.chunk ≡ q.at.chunk
        → q.at.offset + q.size ≤ used cs q.at.chunk
        → q.at.offset + q.size ≤ p.offset
    behind q e h =
        let f : used cs p.chunk ≡ used cs q.at.chunk = ap (used cs) e in
        omega (arith, f, placed.fresh)

pub record IsApart (cs : List Chunk) (rs : List Region) : Type 0 where
  pub sound : IsValid cs
  pub live : All (IsLive cs) rs
  pub apart : AllApart rs

Placed-IsApart :
    (cs cs' : List Chunk) (bz : ℕ) (p : Pointer) (rs : List Region)
    → Placed cs bz cs' p
    → IsApart cs rs
    → IsApart cs' (with_region (some p) bz rs)
Placed-IsApart cs cs' bz p rs placed h = elim (Bool-cases p.based) [
  | inr null ↦
      subst (IsApart cs') (ap (λ b. if b then record { at = p; size = bz } ∷ rs else rs) (sym null))
        (record {
          sound = placed.sound;
          live = still_there cs cs' bz p rs placed h.live;
          apart = h.apart;
        })
  | inl there ↦
      subst (IsApart cs')
        (ap (λ b. if b then record { at = p; size = bz } ∷ rs else rs) (sym there))
        (record {
          sound = placed.sound;
          live = (
            (placed.based ∙ there, ground (arith, placed.filled p.chunk)),
            still_there cs cs' bz p rs placed h.live,
          );
          apart = (no_overlap cs cs' bz p rs placed h.live, h.apart);
        })
]

pub alloc_all-IsApart :
    (sz : ℕ) (requests : List (ℕ × Mallocs)) (cs : List Chunk) (rs : List Region)
    → sz < size_mod
    → AreSmall requests
    → IsApart cs rs
    → let (cs', rs') = alloc_all sz requests cs rs in IsApart cs' rs'
unfolding alloc_all
alloc_all-IsApart sz [] cs rs small fits h = h
alloc_all-IsApart sz ((bz, m) ∷ more) cs rs small fits h =
    elim (alloc_cases sz cs bz m h.sound small fits.0) [
      | inl e ↦ rw (e, alloc_all) (alloc_all-IsApart sz more cs rs small fits.1 h)
      | inr (cs', p, e, placed) ↦
          rw (e, alloc_all)
            (alloc_all-IsApart sz more cs' (with_region (some p) bz rs) small fits.1
              (Placed-IsApart cs cs' bz p rs placed h))
    ]

-- The region lies in the block of its chunk.
abbrev pub IsInside : List Chunk → Region → Type 0
IsInside cs r = (backed cs r.at.chunk ≡ true) × (r.at.offset + r.size ≤ capacity cs r.at.chunk)

used-le-capacity : (cs : List Chunk) (j : ℕ) → IsValid cs → used cs j ≤ capacity cs j
used-le-capacity [] j v = omega arith
used-le-capacity (c ∷ cs) zero v = v.0.0
used-le-capacity (c ∷ cs) (suc j) v = used-le-capacity cs j v.1

live-IsInside :
    (cs : List Chunk) (rs : List Region) → IsValid cs → All (IsLive cs) rs → All (IsInside cs) rs
live-IsInside cs [] v live = tt
live-IsInside cs (r ∷ rs) v live = (
  (live.0.0, omega (arith, live.0.1, used-le-capacity cs r.at.chunk v)),
  live-IsInside cs rs v live.1,
)

-- `clear` empties every chunk, so that a new sequence starts with no live region.
pub clear-IsApart : (cs : List Chunk) → IsValid cs → IsApart (clear cs) []
unfolding clear
clear-IsApart cs v = record { sound = cleared cs v; live = tt; apart = tt }
  where
    cleared : (ds : List Chunk) → IsValid ds → IsValid (clear ds)
    cleared [] v = tt
    cleared (d ∷ ds) v = ((omega arith, v.0.1), cleared ds v.1)

-- After a clear of a valid arena, for any sequence of requests whose doubles do not wrap, whichever malloc calls
-- fail: the pointers handed out that are neither NULL nor NULL plus an offset, which a chunk without a block
-- gives, have their regions in the blocks of their chunks, and these regions are pairwise apart.
pub alloc_all-AllApart :
    (sz : ℕ) (requests : List (ℕ × Mallocs)) (cs : List Chunk)
    → sz < size_mod
    → AreSmall requests
    → IsValid cs
    → let (cs', rs) = alloc_all sz requests (clear cs) [] in AllApart rs × All (IsInside cs') rs
alloc_all-AllApart sz requests cs small fits v =
    let h = alloc_all-IsApart sz requests (clear cs) [] small fits (clear-IsApart cs v) in
    (h.apart, live-IsInside _ _ h.sound h.live)
