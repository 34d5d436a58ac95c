-- ===== src/Mysqlpp.antt =====
-- src/mysql/yylibmysqlpp.cpp: `YYLibMysqlPP` and its `ExcItem`, a prepared statement of the C++ client library.
-- That library is the environment: what its calls answer is an argument, `none` an exception.
pub mod Binding
use mms_svr.Prelude.{
  ℕ, suc, List, [], ◌∷◌, ◌++◌, Option, none, some, Bool, true, false, if◌then◌else◌,
}

-- A value of one of the operators; an `operator<<` of its own for `struct tm` has an empty body.
pub data Value (A : Type 0) : Type 0 where
  set_value : A → Value A
  time : Value A

pub data Exc : Type 0 where
  query update execute : Exc

-- A `PreparedStatement`: the calls of its setters, by the number of the parameter, and those that run it,
-- each with the setters' calls before it.
pub record Statement (A : Type 0) : Type 0 where
  pub sets : List (ℕ × A)
  pub runs : List (Exc × List (ℕ × A))

pub record ExcItem (A : Type 0) : Type 0 where
  pub val_index : ℕ
  pub stmt : Option (Statement A)
  pub has_set : Bool

pub record YyLibMysqlPp (A : Type 0) : Type 0 where
  pub driver : Bool
  pub con : Bool
  pub exc_item : ExcItem A

abbrev pub gives_set : Exc → Bool → Bool
gives_set query old = true
gives_set _ old = old

module _ {A : Type 0} where
  unfoldable pub clear : ExcItem A
  clear = record { val_index = 0; stmt = none; has_set = false }

  -- `Connect`; `driver` is `get_driver_instance` and `con` the new connection.
  unfoldable pub connect : YyLibMysqlPp A → Bool → Option Bool → YyLibMysqlPp A × Bool
  connect m driver con =
      let found = if m.driver then true else driver in
      let con' = if found then elim con [ none ↦ m.con | some c ↦ c ] else m.con in
      (record m { driver = found; con = con' }, con')

  abbrev new_statement : Statement A
  new_statement = record { sets = []; runs = [] }

  -- `Prepare`, with whether it returns; `cmd` is whether there is a text, and `prepares` whether
  -- `prepareStatement` gives a statement or throws.
  unfoldable pub prepare : YyLibMysqlPp A → Bool → Bool → YyLibMysqlPp A × Bool
  unfolding clear
  prepare m cmd prepares =
      if cmd
      then (if m.con
          then (
            record m {
              exc_item = if prepares then record clear { stmt = some new_statement } else clear;
            },
            prepares,
          )
          else (record m { exc_item = clear }, true))
      else (record m { exc_item = clear }, true)

  -- `operator<<`, with whether it returns; `++valIndex` comes before the call. `accepts` is whether the setter of
  -- a parameter takes the value, or throws.
  unfoldable pub bind_value : (ℕ → A → Bool) → ExcItem A → Value A → ExcItem A × Bool
  bind_value accepts e time = (e, true)
  bind_value accepts e (set_value v) = elim e.stmt [
    | none ↦ (e, true)
    | some s ↦
        let k = suc e.val_index in
        if accepts k v
        then (
          record e { val_index = k; stmt = some (record s { sets = s.sets ++ ((k, v) ∷ []) }) },
          true,
        )
        else (record e { val_index = k }, false)
  ]

  unfoldable pub run : ExcItem A → Exc → ExcItem A
  run e eu = elim e.stmt [
    | none ↦ e
    | some s ↦ record e {
      stmt = some (record s { runs = s.runs ++ ((eu, s.sets) ∷ []) });
      has_set = gives_set eu e.has_set;
    }
  ]
