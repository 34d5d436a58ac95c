-- ===== src/Tests/Buffers.antt =====
-- include/fastbuffer.h and memstuff.h at small sizes, with a `realloc` that always or never succeeds.
use mms_svr.Prelude.{
  some_inj, ℕ, ◌≡◌, ◌≤◌, refl, ◌∙◌, List, [], ◌∷◌, ◌++◌, true, none, some, arith, length, take,
  replicate, All, length-append, length-replicate, length-take_le, take-take_le, take-append_le,
  none≢some,
}
use mms_svr.FastBuffer.{Realloc, FastBuffer, append}
use mms_svr.FastBuffer.Laws.{IsValid, Appends, append-Appends, append_failed}
use mms_svr.MemStuff.{Chunk, Mallocs, clear}
use mms_svr.MemStuff.Trace.{alloc_all, AllApart, IsInside, alloc_all-AllApart}

abbrev padded : List ℕ → ℕ → List ℕ
padded p sz = take sz (p ++ replicate sz 0)

length-padded : (p : List ℕ) (sz : ℕ) (q : List ℕ) → some (padded p sz) ≡ some q → length q ≡ sz
length-padded p sz q e = rw (← some_inj (padded p sz) q e) (
    length-take_le sz (p ++ replicate sz 0)
      (omega (arith, length-append p (replicate sz 0), length-replicate {A = ℕ} sz 0)))

take-padded :
    (p : List ℕ) (sz n : ℕ) (q : List ℕ)
    → some (padded p sz) ≡ some q
    → n ≤ length p
    → n ≤ sz
    → take n q ≡ take n p
take-padded p sz n q e old new =
    rw (← some_inj (padded p sz) q e)
      ((take-take_le n sz (p ++ replicate sz 0) new ∙ take-append_le n p (replicate sz 0) old))

abbrev roomy : Realloc
roomy = record {
  realloc = λ p sz. some (padded p sz);
  length-realloc = λ p sz q e. length-padded p sz q e;
  take-realloc = λ p sz n q e old new. take-padded p sz n q e old new;
}

abbrev exhausted : Realloc
exhausted = record {
  realloc = λ p sz. none;
  length-realloc = λ p sz q e. absurd (none≢some e);
  take-realloc = λ p sz n q e old new. absurd (none≢some e);
}

abbrev two_of_four : FastBuffer
two_of_four = record { fd = 3; size = 2; bufsize = 4; block = 1 ∷ 2 ∷ 0 ∷ 0 ∷ [] }

two_of_four-IsValid : IsValid two_of_four
two_of_four-IsValid = record { within = omega arith; allocated = refl; small = omega arith }

append-Appends_example :
    Appends two_of_four (5 ∷ 6 ∷ 7 ∷ []) (append roomy two_of_four (5 ∷ 6 ∷ 7 ∷ []))
append-Appends_example =
    append-Appends roomy two_of_four (5 ∷ 6 ∷ 7 ∷ []) (padded (1 ∷ 2 ∷ 0 ∷ 0 ∷ []) 14)
      two_of_four-IsValid (omega arith) refl

append_failed_example :
    (b' : FastBuffer) × (append exhausted two_of_four (5 ∷ 6 ∷ 7 ∷ []) ≡ some (b', 0))
    × (append exhausted b' (8 ∷ []) ≡ none)
append_failed_example =
    append_failed exhausted two_of_four (5 ∷ 6 ∷ 7 ∷ []) (8 ∷ []) two_of_four-IsValid (omega arith)
      (omega arith) refl (omega arith) (omega arith)

abbrev half_full : List Chunk
half_full = record { size = 10; bufsize = 16; buf = true } ∷ []

abbrev granted : Mallocs
granted = record { header = true; block = true }

abbrev requests : List (ℕ × Mallocs)
requests = (4, granted) ∷ (40, granted) ∷ (12, granted) ∷ []

alloc_all-AllApart_example :
    let (cs', rs) = alloc_all 16 requests (clear half_full) [] in
    AllApart rs × All (IsInside cs') rs
alloc_all-AllApart_example =
    alloc_all-AllApart 16 requests half_full (omega arith)
      (omega arith, (omega arith, (omega arith, tt))) ((omega arith, omega arith), tt)
