-- ===== src/Mysql/Binding.antt =====
-- src/mysql/yylibmysql.cpp: which values a statement is executed with.
use native.Mathlib.Numerals.{add-one}
use mms_svr.Prelude.{
  if◌then◌else◌, Bool, some_inj, take_all, length-take_le, take-append, Option-cases, none≢some,
  inl, inr, ◌⊎◌, ℕ, suc, ◌<◌, ◌≤◌, ◌≡◌, refl, sym, ap, ◌∙◌, List, [], ◌∷◌, ◌++◌, append_assoc,
  append-nil, Option, none, some, true, false, ◌==◌, ltb, length, length-append, length-set,
  length-replicate, take, set, arith, Bool-cases, ltb→lt, ltb→le, lt→ltb, le→ltb, ==_iff,
}
use mms_svr.MemStuff.{Chunk, Pointer, Mallocs, alloc}
use mms_svr.Mysql.{
  FieldType, Value, text, number, bytes_of, type_of, Bind, StmtItem, no_bind, prepare, clear,
  with_bind, text_at, length_slot, number_at, bind_value, execute,
}

-- What a bound entry says of its value.
abbrev pub Holds : Value → Bind → Type 0
Holds v b = (b.buffer_type ≡ type_of v) × (b.content ≡ bytes_of v)

abbrev pub AllHold : List Value → List Bind → Type 0
AllHold [] [] = Unit {0}
AllHold [] (b ∷ bs) = ⊥
AllHold (v ∷ vs) [] = ⊥
AllHold (v ∷ vs) (b ∷ bs) = Holds v b × AllHold vs bs

-- The first entries are bound to `vs`, and `val_index` is their number.
pub record IsBound (s : StmtItem) (vs : List Value) : Type 0 where
  pub indexed : s.val_index ≡ length vs
  pub sized : length s.bind ≡ s.val_total
  pub within : length vs ≤ s.val_total
  pub hold : AllHold vs (take (length vs) s.bind)

-- `<<` of a list of values, `none` where a value is written through a pointer to no memory.
abbrev pub bind_all : StmtItem → List (Value × Mallocs × Mallocs) → Option StmtItem
bind_all s [] = some s
bind_all s ((v, m, m') ∷ rest) = elim (bind_value s v m m') [
  | none ↦ none
  | some s' ↦ bind_all s' rest
]

abbrev pub values : List (Value × Mallocs × Mallocs) → List Value
values [] = []
values ((v, m, m') ∷ rest) = v ∷ values rest

AllHold-snoc :
    (vs : List Value) (bs : List Bind) (v : Value) (b : Bind)
    → length vs < length bs
    → AllHold vs (take (length vs) bs)
    → Holds v b
    → AllHold (vs ++ (v ∷ [])) (take (suc (length vs)) (set bs (length vs) b))
AllHold-snoc vs [] v b lt h hold = absurd (omega arith)
AllHold-snoc [] (c ∷ bs) v b lt h hold = (hold, tt)
AllHold-snoc (w ∷ vs) (c ∷ bs) v b lt h hold = (h.0, AllHold-snoc vs bs v b (omega arith) h.1 hold)

prepare-IsBound : (s : StmtItem) (params : ℕ) → IsBound (prepare s (some params)) []
unfolding prepare clear
prepare-IsBound s params = record {
  indexed = refl;
  sized = length-replicate params no_bind;
  within = omega arith;
  hold = tt;
}

with_bind-IsBound :
    (s : StmtItem) (vs : List Value) (stuff : List Chunk) (v : Value) (b : Bind)
    → length vs < s.val_total
    → IsBound s vs
    → Holds v b
    → IsBound (with_bind s stuff b) (vs ++ (v ∷ []))
with_bind-IsBound s vs stuff v b room bound hold = record {
  indexed = omega (arith, bound.indexed, length-append vs (v ∷ []));
  sized = length-set s.bind s.val_index b ∙ bound.sized;
  within = omega (arith, length-append vs (v ∷ []));
  hold =
      rw (length-append vs (v ∷ []), bound.indexed, add-one)
        (AllHold-snoc vs s.bind v b (omega (arith, bound.sized)) bound.hold hold);
}

-- Binding leaves these alone.
pub record SameStatement (s t : StmtItem) : Type 0 where
  pub stmt : t.stmt ≡ s.stmt
  pub val_total : t.val_total ≡ s.val_total
  pub executed : t.executed ≡ s.executed

-- A pointer was written through, so it was no NULL.
written :
    {A : Type 0} (b : Bool) (x : Option A) (y : A) → (if b then x else none) ≡ some y → x ≡ some y
written true x y e = e
written false x y e = cc

number_at-IsBound :
    (s t : StmtItem) (vs : List Value) (ty : FieldType) (bytes : List ℕ)
    (r : List Chunk × Option Pointer)
    → length vs < s.val_total
    → IsBound s vs
    → number_at s ty bytes r ≡ some t
    → IsBound t (vs ++ (number ty bytes ∷ [])) × SameStatement s t
number_at-IsBound s t vs ty bytes (stuff, none) room bound e = cc
number_at-IsBound s t vs ty bytes (stuff, some p) room bound e =
    rw (← some_inj _ t (written p.based _ t e)) (
      with_bind-IsBound s vs stuff (number ty bytes) _ room bound (refl, refl),
      record { stmt = refl; val_total = refl; executed = refl },
    )

length_slot-IsBound :
    (s t : StmtItem) (vs : List Value) (bytes : List ℕ) (p : Pointer)
    (r : List Chunk × Option Pointer)
    → length vs < s.val_total
    → IsBound s vs
    → length_slot s bytes p r ≡ some t
    → IsBound t (vs ++ (text bytes ∷ [])) × SameStatement s t
length_slot-IsBound s t vs bytes p (stuff, none) room bound e = cc
length_slot-IsBound s t vs bytes p (stuff, some q) room bound e =
    rw (← some_inj _ t (written q.based _ t e)) (
      with_bind-IsBound s vs stuff (text bytes) _ room bound (refl, refl),
      record { stmt = refl; val_total = refl; executed = refl },
    )

text_at-IsBound :
    (s t : StmtItem) (vs : List Value) (bytes : List ℕ) (m : Mallocs)
    (r : List Chunk × Option Pointer)
    → length vs < s.val_total
    → IsBound s vs
    → text_at s bytes m r ≡ some t
    → IsBound t (vs ++ (text bytes ∷ [])) × SameStatement s t
text_at-IsBound s t vs bytes m (stuff, none) room bound e = cc
text_at-IsBound s t vs bytes m (stuff, some p) room bound e =
    length_slot-IsBound s t vs bytes p (alloc 256 stuff 8 m) room bound (written p.based _ t e)

bind_value-IsBound :
    (s t : StmtItem) (vs : List Value) (v : Value) (m m' : Mallocs)
    → length vs < s.val_total
    → IsBound s vs
    → bind_value s v m m' ≡ some t
    → IsBound t (vs ++ (v ∷ [])) × SameStatement s t
unfolding bind_value
bind_value-IsBound s t vs (text bytes) m m' room bound e =
    text_at-IsBound s t vs bytes m' (alloc 256 s.stuff (suc (length bytes)) m) room bound
      (rw (lt→ltb s.val_index s.val_total (omega (arith, bound.indexed))) at e)
bind_value-IsBound s t vs (number ty bytes) m m' room bound e =
    number_at-IsBound s t vs ty bytes (alloc 256 s.stuff (length bytes) m) room bound
      (rw (lt→ltb s.val_index s.val_total (omega (arith, bound.indexed))) at e)

bind_value_full :
    (s : StmtItem) (v : Value) (m m' : Mallocs)
    → s.val_total ≤ s.val_index
    → bind_value s v m m' ≡ some s
unfolding bind_value
bind_value_full s (text bytes) m m' full = rw (le→ltb s.val_index s.val_total full) refl
bind_value_full s (number ty bytes) m m' full = rw (le→ltb s.val_index s.val_total full) refl

bind_all-IsBound :
    (s t : StmtItem) (ws : List Value) (l : List (Value × Mallocs × Mallocs))
    → IsBound s ws
    → bind_all s l ≡ some t
    → IsBound t (take s.val_total (ws ++ values l)) × SameStatement s t
bind_all-IsBound s t ws [] bound e =
    rw (append-nil ws, take_all s.val_total ws bound.within, ← some_inj s t e)
      (bound, record { stmt = refl; val_total = refl; executed = refl })
bind_all-IsBound s t ws ((v, m, m') ∷ l) bound e = elim (Option-cases (bind_value s v m m')) [
  | inl failed ↦ absurd (none≢some (rw (failed, bind_all) at e))
  | inr (s', took) ↦ elim (Bool-cases (ltb (length ws) s.val_total)) [
    | inl room ↦
        let (bound', same) =
          bind_value-IsBound s s' ws v m m' (ltb→lt (length ws) s.val_total room) bound took in
        let (all, same') =
          bind_all-IsBound s' t (ws ++ (v ∷ [])) l bound' (rw (took, bind_all) at e) in
        (
          rw (same.val_total, append_assoc ws (v ∷ []) (values l)) at all,
          record {
            stmt = same'.stmt ∙ same.stmt;
            val_total = same'.val_total ∙ same.val_total;
            executed = same'.executed ∙ same.executed;
          },
        )
    | inr full ↦
        let whole : s.val_total ≡ length ws =
          omega (arith, bound.within, ltb→le (length ws) s.val_total full) in
        let stays : s ≡ s' =
          some_inj s s' (sym (bind_value_full s v m m' (omega (arith, bound.indexed))) ∙ took) in
        let (all, same') =
          bind_all-IsBound s t ws l bound
            (ap (λ (x : StmtItem). bind_all x l) stays ∙ rw (took, bind_all) at e) in
        (
          rw
              (
                take-append ws (v ∷ values l) s.val_total whole,
                ← take-append ws (values l) s.val_total whole,
              )
              all,
          same',
        )
  ]
]

-- A statement that has a handle, is prepared with some parameters and is given values, none of which is written
-- through NULL or NULL plus an offset: with at least as many values as parameters it is executed once, with the
-- first of the values, in order; with fewer it is not executed.
pub prepare-bind_all-execute :
    (s t : StmtItem) (params : ℕ) (l : List (Value × Mallocs × Mallocs))
    → s.stmt ≡ true
    → bind_all (prepare s (some params)) l ≡ some t
    → ((params ≤ length (values l))
        × ((bs : List Bind) × ((execute t).executed ≡ s.executed ++ (bs ∷ []))
            × AllHold (take params (values l)) bs))
      ⊎ ((length (values l) < params) × ((execute t).executed ≡ s.executed))
unfolding prepare clear execute
prepare-bind_all-execute s t params l prepared bound =
    let (b, same) =
      bind_all-IsBound (prepare s (some params)) t [] l (prepare-IsBound s params) bound in
    let total : t.val_total ≡ params = same.val_total in
    elim (Bool-cases (ltb (length (values l)) params)) [
      | inl fewer ↦
          let less : length (values l) < params = ltb→lt (length (values l)) params fewer in
          let all : take params (values l) ≡ values l = take_all params (values l) (omega arith) in
          let not_yet : (t.val_index == t.val_total) ≡ false =
            ne_test t.val_index t.val_total
              (omega (arith, b.indexed, ap (λ (vs : List Value). length vs) all)) in
          inr (less, ground (arith, not_yet, same.executed))
      | inr enough ↦
          let many : params ≤ length (values l) = ltb→le (length (values l)) params enough in
          let exact : length (take params (values l)) ≡ params =
            length-take_le params (values l) many in
          let ready : (t.val_index == t.val_total) ≡ true =
            (==_iff t.val_index t.val_total).1 (omega (arith, b.indexed)) in
          inl (
            many,
            (
              t.bind,
              ground (arith, ready, same.executed, same.stmt, prepared),
              rw (exact, take_all params t.bind (omega (arith, b.sized))) at b.hold,
            ),
          )
    ]
  where
    ne_test : (x y : ℕ) → x < y → (x == y) ≡ false
    ne_test x y lt = ground arith
