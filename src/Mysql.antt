-- ===== src/Mysql.antt =====
-- src/mysql/yylibmysql.cpp: `YYLibMysql`, a connection, and `StmtItem`, a prepared statement whose
-- parameters are bound one by one. The client library is the environment: what its calls answer is an
-- argument. The parameters' memory comes from a `memstuff<256>`.
pub mod Binding
pub mod Results
use mms_svr.Prelude.{
  ℕ, zero, suc, ◌+◌, List, [], ◌∷◌, ◌++◌, Option, none, some, Bool, true, false, ◌==◌, ltb, ◌&&◌,
  length, get_elem?, set, replicate, if◌then◌else◌,
}
use mms_svr.MemStuff.{Chunk, Pointer, Mallocs, alloc}
use mms_svr.MemStuff

-- `mysql_init` gave a handle, and the server answered.
pub record YyLibMysql : Type 0 where
  pub sql : Bool
  pub connected : Bool

unfoldable pub new_mysql : Bool → YyLibMysql
new_mysql handle = record { sql = handle; connected = false }

-- `Connect`; `answers` is `mysql_real_connect`.
unfoldable pub connect : YyLibMysql → Bool → YyLibMysql × Bool
connect m answers = if m.sql then (record m { connected = answers }, answers) else (m, false)

-- `Execute`; `fails` is `mysql_query`.
unfoldable pub execute_query : YyLibMysql → Bool → Bool
execute_query m fails = if m.sql then (if fails then false else true) else false

-- `enum_field_types`
pub data FieldType : Type 0 where
  tiny short long longlong float double string null : FieldType

-- A value with its bytes; a text without its NUL.
pub data Value : Type 0 where
  text : List ℕ → Value
  number : FieldType → List ℕ → Value

abbrev pub bytes_of : Value → List ℕ
bytes_of (text s) = s ++ (0 ∷ [])
bytes_of (number t bytes) = bytes

abbrev pub type_of : Value → FieldType
type_of (text s) = string
type_of (number t bytes) = t

-- `MYSQL_BIND`: where the buffer and the length lie, and what was written there.
pub record Bind : Type 0 where
  pub buffer_type : FieldType
  pub buffer : Option Pointer
  pub content : List ℕ
  pub length_at : Option Pointer
  pub text_length : ℕ

-- An entry after `memset`. The type 0 is MYSQL_TYPE_DECIMAL, which no value has.
unfoldable pub no_bind : Bind
no_bind = record {
  buffer_type = null;
  buffer = none;
  content = [];
  length_at = none;
  text_length = 0;
}

-- `executed` records the parameters of each call of `mysql_stmt_execute`.
pub record StmtItem : Type 0 where
  pub stmt : Bool
  pub bind : List Bind
  pub val_index : ℕ
  pub val_total : ℕ
  pub stuff : List Chunk
  pub executed : List (List Bind)

unfoldable pub clear : StmtItem → StmtItem
clear s = record s { bind = []; val_index = 0; val_total = 0; stuff = MemStuff.clear s.stuff }

unfoldable pub new_stmt_item : Bool → StmtItem
unfolding clear
new_stmt_item stmt =
    clear
      (record { stmt = stmt; bind = []; val_index = 0; val_total = 0; stuff = []; executed = [] })

-- `Prepare`; `params` is the number of parameters, `none` where `mysql_stmt_prepare` fails.
unfoldable pub prepare : StmtItem → Option ℕ → StmtItem
unfolding clear no_bind
prepare s none = clear s
prepare s (some params) = record (clear s) { bind = replicate params no_bind; val_total = params }

abbrev pub with_bind : StmtItem → List Chunk → Bind → StmtItem
with_bind s stuff b = record s {
  bind = set s.bind s.val_index b;
  val_index = suc s.val_index;
  stuff = stuff;
}

-- `none` is a write through a pointer of `alloc` that is NULL, or NULL plus an offset.
abbrev pub number_at : StmtItem → FieldType → List ℕ → List Chunk × Option Pointer → Option StmtItem
number_at s t bytes (stuff, none) = none
number_at s t bytes (stuff, some p) =
    if p.based
    then some (
        with_bind s stuff (record {
          buffer_type = t;
          buffer = some p;
          content = bytes;
          length_at = none;
          text_length = 0;
        }))
    else none

abbrev pub length_slot : StmtItem → List ℕ → Pointer → List Chunk × Option Pointer → Option StmtItem
length_slot s bytes p (stuff, none) = none
length_slot s bytes p (stuff, some q) =
    if q.based
    then some (
        with_bind s stuff (record {
          buffer_type = string;
          buffer = some p;
          content = bytes ++ (0 ∷ []);
          length_at = some q;
          text_length = length bytes;
        }))
    else none

-- The second allocation of a text, for its length.
abbrev pub text_at : StmtItem → List ℕ → Mallocs → List Chunk × Option Pointer → Option StmtItem
text_at s bytes m (stuff, none) = none
text_at s bytes m (stuff, some p) =
    if p.based then length_slot s bytes p (alloc 256 stuff 8 m) else none

-- `operator<<` for a text and for each type of number. The allocations are `m` and `m'`.
unfoldable pub bind_value : StmtItem → Value → Mallocs → Mallocs → Option StmtItem
bind_value s (text bytes) m m' =
    if ltb s.val_index s.val_total
    then text_at s bytes m' (alloc 256 s.stuff (suc (length bytes)) m)
    else some s
bind_value s (number t bytes) m m' =
    if ltb s.val_index s.val_total
    then number_at s t bytes (alloc 256 s.stuff (length bytes) m)
    else some s

-- `<< Execute()`
unfoldable pub execute : StmtItem → StmtItem
execute s =
    if s.stmt && s.val_index == s.val_total
    then record s {
      executed = s.executed ++ (s.bind ∷ []);
      val_index = 0;
      stuff = MemStuff.clear s.stuff;
    }
    else s
