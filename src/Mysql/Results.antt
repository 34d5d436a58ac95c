-- ===== src/Mysql/Results.antt =====
-- src/mysql/yylibmysql.cpp: `StmtRes`, the buffers that the rows of a result are fetched into.
use mms_svr.Prelude.{
  ℕ, ◌+◌, ◌*◌, ◌<◌, ◌≡◌, refl, List, [], ◌∷◌, Option, none, some, Bool, true, false, ◌&&◌, All,
  arith, if◌then◌else◌,
}
use mms_svr.FastBuffer.{size_mod}
use mms_svr.MemStuff.{Chunk, Pointer, Mallocs, alloc}
use mms_svr.MemStuff.Trace.{
  Region, AllApart, IsInside, AreSmall, with_region, alloc_all, alloc_all-AllApart,
}
use mms_svr.Mysql.{FieldType}

-- A field of the metadata, with what `malloc` answers for its three allocations.
pub record Field : Type 0 where
  pub type : FieldType
  pub length : ℕ
  pub m : Mallocs
  pub m' : Mallocs
  pub m'' : Mallocs

-- The `MYSQL_BIND` of a column.
pub record Column : Type 0 where
  pub buffer_type : FieldType
  pub buffer_length : ℕ
  pub buffer : Option Pointer
  pub is_null : Option Pointer
  pub error : Option Pointer

-- `res` and `stmt` are whether the pointers are set.
pub record StmtRes : Type 0 where
  pub res : Bool
  pub stmt : Bool
  pub bind : Option (List Column)
  pub stuff : List Chunk

-- The loop over the columns.
unfoldable pub bind_columns : List Chunk → List Field → List Chunk × List Column
bind_columns cs [] = (cs, [])
bind_columns cs (f ∷ fields) =
    let (cs1, buffer) = alloc 256 cs (f.length + 1) f.m in
    let (cs2, is_null) = alloc 256 cs1 1 f.m' in
    let (cs3, error) = alloc 256 cs2 1 f.m'' in
    let (cs4, columns) = bind_columns cs3 fields in
    (
      cs4,
      record {
        buffer_type = f.type;
        buffer_length = f.length;
        buffer = buffer;
        is_null = is_null;
        error = error;
      }
          ∷ columns,
    )

-- The constructor; `fields` is `mysql_stmt_result_metadata`, `array` whether the array is there.
unfoldable pub new_stmt_res : Bool → Option (List Field) → Bool → StmtRes
unfolding bind_columns
new_stmt_res stmt none array = record { res = false; stmt = stmt; bind = none; stuff = [] }
new_stmt_res stmt (some fields) false = record { res = true; stmt = stmt; bind = none; stuff = [] }
new_stmt_res stmt (some fields) true =
    let (stuff, columns) = bind_columns [] fields in
    record { res = true; stmt = stmt; bind = some columns; stuff = stuff }

-- `BindResult`; the arguments are whether the two calls fail.
unfoldable pub bind_result : StmtRes → Bool → Bool → Bool
bind_result r bind_fails store_fails = elim r.bind [
  | none ↦ false
  | some columns ↦
      if r.res && r.stmt
      then (if bind_fails then false else (if store_fails then false else true))
      else false
]

abbrev requests : List Field → List (ℕ × Mallocs)
requests [] = []
requests (f ∷ fields) = (f.length + 1, f.m) ∷ (1, f.m') ∷ (1, f.m'') ∷ requests fields

-- What the columns point at, newest first, in front of `rs`. A NULL pointer gives none.
abbrev pub regions : List Column → List Region → List Region
regions [] rs = rs
regions (c ∷ columns) rs = regions columns (
    with_region c.error 1 (with_region c.is_null 1 (with_region c.buffer (c.buffer_length + 1) rs)))

bind_columns-alloc_all :
    (cs : List Chunk) (fields : List Field) (rs : List Region)
    → alloc_all 256 (requests fields) cs rs
      ≡ ((bind_columns cs fields).0, regions (bind_columns cs fields).1 rs)
unfolding bind_columns alloc_all
bind_columns-alloc_all cs [] rs = refl
bind_columns-alloc_all cs (f ∷ fields) rs =
    let (cs1, buffer) = alloc 256 cs (f.length + 1) f.m in
    let (cs2, is_null) = alloc 256 cs1 1 f.m' in
    let (cs3, error) = alloc 256 cs2 1 f.m'' in
    bind_columns-alloc_all cs3 fields
      (with_region error 1 (with_region is_null 1 (with_region buffer (f.length + 1) rs)))

-- No field is so long that twice its buffer wraps.
abbrev pub AreShort : List Field → Type 0
AreShort = All λ f. (f.length + 1) * 2 < size_mod

requests-AreSmall : (fields : List Field) → AreShort fields → AreSmall (requests fields)
requests-AreSmall [] h = tt
requests-AreSmall (f ∷ fields) h = (h.0, (omega arith, (omega arith, requests-AreSmall fields h.1)))

abbrev pub all_regions : Option (List Column) → List Region
all_regions none = []
all_regions (some columns) = regions columns []

-- For metadata with fields of which twice the buffer does not wrap, and whichever malloc calls fail: those of
-- the buffers, null flags and error flags of the columns whose pointers are neither NULL nor NULL plus an offset
-- lie in the blocks of the arena, each buffer one byte longer than its field, and no two of them share a byte.
pub new_stmt_res-AllApart :
    (stmt array : Bool) (fields : List Field)
    → AreShort fields
    → let r = new_stmt_res stmt (some fields) array in
      AllApart (all_regions r.bind) × All (IsInside r.stuff) (all_regions r.bind)
unfolding new_stmt_res mms_svr.MemStuff.clear
new_stmt_res-AllApart stmt false fields h = (tt, tt)
new_stmt_res-AllApart stmt true fields h =
    let all =
      alloc_all-AllApart 256 (requests fields) [] (omega arith) (requests-AreSmall fields h) tt in
    rw (bind_columns-alloc_all [] fields []) at all
