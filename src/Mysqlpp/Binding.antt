-- ===== src/Mysqlpp/Binding.antt =====
-- src/mysql/yylibmysqlpp.cpp: which parameters the values of a statement go to.
use mms_svr.Prelude.{
  ℕ, suc, ◌≡◌, ◌≤◌, ◌<◌, refl, sym, ap, ◌∙◌, List, [], ◌∷◌, ◌++◌, append_assoc, append-nil, Bool,
  some, true, false, leb, arith, le→leb,
}
use mms_svr.Mysqlpp.{
  gives_set, Value, set_value, time, Exc, Statement, ExcItem, YyLibMysqlPp, clear, prepare,
  bind_value, run,
}

module _ {A : Type 0} (accepts : ℕ → A → Bool) where
  abbrev and_bind : (ExcItem A → ExcItem A × Bool) → ExcItem A × Bool → ExcItem A × Bool
  and_bind k (e, true) = k e
  and_bind k (e, false) = (e, false)

  -- `<<` of a list of values, up to the first exception.
  abbrev pub bind_all : List (Value A) → ExcItem A → ExcItem A × Bool
  bind_all [] e = (e, true)
  bind_all (v ∷ l) e = and_bind (bind_all l) (bind_value accepts e v)

  -- The setters take the parameters of the statement, from 1 on, and throw for a number above them.
  abbrev pub Documented : ℕ → Type 0
  Documented params = (k : ℕ) (v : A) → accepts (suc k) v ≡ leb (suc k) params

  -- The values that have a setter, numbered behind `k`.
  abbrev pub numbered : ℕ → List (Value A) → List (ℕ × A)
  numbered k [] = []
  numbered k (time ∷ l) = numbered k l
  numbered k (set_value v ∷ l) = (suc k, v) ∷ numbered (suc k) l

  -- The number behind the last of them.
  abbrev pub behind : ℕ → List (Value A) → ℕ
  behind k [] = k
  behind k (time ∷ l) = behind k l
  behind k (set_value v ∷ l) = behind (suc k) l

  le-behind : (k : ℕ) (l : List (Value A)) → k ≤ behind k l
  le-behind k [] = omega arith
  le-behind k (time ∷ l) = le-behind k l
  le-behind k (set_value v ∷ l) = omega (arith, le-behind (suc k) l)

  abbrev bound_to : ℕ → Bool → Statement A → ExcItem A × Bool
  bound_to k set s = (record { val_index = k; stmt = some s; has_set = set }, true)

  -- Values go to the parameters behind `val_index`, in order, as long as there are parameters.
  bind_all-stmt :
      (params k : ℕ) (s : Statement A) (set : Bool) (l : List (Value A))
      → Documented params
      → behind k l ≤ params
      → bind_all l (record { val_index = k; stmt = some s; has_set = set }) ≡ (
        record {
          val_index = behind k l;
          stmt = some (record s { sets = s.sets ++ numbered k l });
          has_set = set;
        },
        true,
      )
  unfolding bind_value
  bind_all-stmt params k s set [] doc room =
      ap (λ (sets : List (ℕ × A)). bound_to k set (record s { sets = sets }))
        (sym (append-nil s.sets))
  bind_all-stmt params k s set (time ∷ l) doc room = bind_all-stmt params k s set l doc room
  bind_all-stmt params k s set (set_value v ∷ l) doc room =
      rw (doc k v ∙ le→leb (suc k) params (omega (arith, room, le-behind (suc k) l))) (
        bind_all-stmt params (suc k) (record s { sets = s.sets ++ ((suc k, v) ∷ []) }) set l doc
          room
        ∙ ap (λ (sets : List (ℕ × A)). bound_to (behind (suc k) l) set (record s { sets = sets }))
            (append_assoc s.sets ((suc k, v) ∷ []) (numbered (suc k) l)))

  -- Behind the last parameter the first value that has a setter throws.
  too_many :
      (params : ℕ) (s : Statement A) (set : Bool) (l : List (Value A))
      → Documented params
      → params < behind params l
      → bind_all l (record { val_index = params; stmt = some s; has_set = set })
        ≡ (record { val_index = suc params; stmt = some s; has_set = set }, false)
  unfolding bind_value
  too_many params s set [] doc more = absurd (omega (arith, more))
  too_many params s set (time ∷ l) doc more = too_many params s set l doc more
  too_many params s set (set_value v ∷ l) doc more = rw (doc params v ∙ no_room params) refl
    where
      no_room : (n : ℕ) → leb (suc n) n ≡ false
      no_room n = ground arith

  -- On a connection, with setters that take the parameters of the statement and throw for a number above them: a
  -- prepared statement that is given a value for each parameter runs with them, in order; when it is then given
  -- values again, at least one of them with a setter, one of these throws, and the statement keeps the values and
  -- the one run that it had.
  pub run_again :
      (m : YyLibMysqlPp A) (l l' : List (Value A)) (eu : Exc) (params : ℕ)
      → m.con ≡ true
      → Documented params
      → behind 0 l ≡ params
      → params < behind params l'
      → let bound = bind_all l (prepare m true true).0.exc_item in
        let again = bind_all l' (run bound.0 eu) in
        (bound.1 ≡ true)
        × (again.1 ≡ false)
        × (again.0.stmt ≡ some (record { sets = numbered 0 l; runs = (eu, numbered 0 l) ∷ [] }))
  unfolding prepare clear run
  run_again m l l' eu params connected doc whole more =
      rw
        (
          connected,
          bind_all-stmt params 0 (record { sets = []; runs = [] }) false l doc
              (omega (arith, whole)),
        )
        (rw whole (
          rw
            (too_many params (record { sets = numbered 0 l; runs = (eu, numbered 0 l) ∷ [] })
              (gives_set eu false) l' doc more)
            (refl, refl, refl)))
