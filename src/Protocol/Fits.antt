-- ===== src/Protocol/Fits.antt =====
-- include/yyjson.h and src/yymm_svr/jsonprotocol.h: how long the strings of a JSON tree are, and what is read from it.
use text.Mathlib.Text.{◌==◌ as str_eq}
use mms_svr.Prelude.{inr, inl, ℕ, ◌≤◌, ◌≡◌, refl, some, length, arith, Bool-cases, String}
use mms_svr.Json.{
  Json, Members, null, boolean, double, int, object, array, string, end, member, object_get,
  find_member, not_null, get_string,
}
use mms_svr.Protocol.Commands.{Cmd, Comp}
use mms_svr.Protocol.Read.{
  ReadResult, ok, rejected, crash, map_read, read_comp, read_members, foreach,
}

-- Every string in the tree has at most `k` bytes.
abbrev mutual
  pub Fits : ℕ → Json → Type 0
  Fits k null = Unit {0}
  Fits k (boolean b) = Unit {0}
  Fits k double = Unit {0}
  Fits k (int z) = Unit {0}
  Fits k (object ms) = FitsAll k ms
  Fits k array = Unit {0}
  Fits k (string s) = length s ≤ k

  pub FitsAll : ℕ → Members → Type 0
  FitsAll k end = Unit {0}
  FitsAll k (member key v ms) = Fits k v × FitsAll k ms

pub unwrap : (a b : Json) → some a ≡ some b → a ≡ b
unwrap a b e = cc

pub not_null-Fits : (k : ℕ) (v j : Json) → Fits k v → not_null v ≡ some j → Fits k j
not_null-Fits k null j h e = cc
not_null-Fits k (boolean b) j h e = rw (← unwrap (boolean b) j e) tt
not_null-Fits k double j h e = rw (← unwrap double j e) tt
not_null-Fits k (int z) j h e = rw (← unwrap (int z) j e) tt
not_null-Fits k (object ms) j h e = rw (← unwrap (object ms) j e) h
not_null-Fits k array j h e = rw (← unwrap array j e) tt
not_null-Fits k (string s) j h e = rw (← unwrap (string s) j e) h

pub find_member-Fits :
    (k : ℕ) (key : String) (ms : Members) (j : Json)
    → FitsAll k ms
    → find_member key ms ≡ some j
    → Fits k j
find_member-Fits k key end j h e = cc
find_member-Fits k key (member name v ms) j h e = elim (Bool-cases (str_eq name key)) [
  | inl here ↦ not_null-Fits k v j h.0 (rw here at e)
  | inr further ↦ find_member-Fits k key ms j h.1 (rw further at e)
]

pub object_get-Fits :
    (k : ℕ) (tree : Json) (key : String) (j : Json)
    → Fits k tree
    → object_get tree key ≡ some j
    → Fits k j
object_get-Fits k (object ms) key j h e = find_member-Fits k key ms j h e
object_get-Fits k _ key j h e = cc

pub length-get_string : (k : ℕ) (j : Json) → Fits k j → length (get_string j) ≤ k
length-get_string k (string s) h = h
length-get_string k _ h = omega arith

pub read_comp-le :
    (k : ℕ) (c d : Comp) (key : String) (val : Json)
    → length c.ser_string ≤ k
    → Fits k val
    → read_comp c key val ≡ ok d
    → length d.ser_string ≤ k
unfolding read_comp
read_comp-le k c d key val h fits e = ground (arith, length-get_string k val fits)

pub ok_of_step :
    (r : ReadResult Comp) (f : Comp → ReadResult Comp) (d : Comp)
    → (elim r [ ok c' ↦ f c' | rejected ↦ rejected | crash ↦ crash ]) ≡ ok d
    → (c' : Comp) × (r ≡ ok c') × (f c' ≡ ok d)
ok_of_step (ok c') f d e = (c', refl, e)
ok_of_step rejected f d e = cc
ok_of_step crash f d e = cc

pub read_members-le :
    (k : ℕ) (c d : Comp) (ms : Members)
    → length c.ser_string ≤ k
    → FitsAll k ms
    → read_members read_comp c ms ≡ ok d
    → length d.ser_string ≤ k
unfolding read_members
read_members-le k c d end h fits e = rw (← same c d e) h
  where
    same : (a b : Comp) → ok a ≡ ok b → a ≡ b
    same a b e = cc
read_members-le k c d (member key val ms) h fits e =
    let (c', got, rest) =
      ok_of_step (read_comp c key val) (λ c'. read_members read_comp c' ms) d e in
    read_members-le k c' d ms (read_comp-le k c c' key val h fits.0 got) fits.1 rest

pub foreach-le :
    (k : ℕ) (c d : Comp) (obj : Json)
    → length c.ser_string ≤ k
    → Fits k obj
    → foreach read_comp c obj ≡ ok d
    → length d.ser_string ≤ k
unfolding foreach
foreach-le k c d (object ms) h fits e = read_members-le k c d ms h fits e
foreach-le k c d null h fits e = cc
foreach-le k c d _ h fits e = cc

pub ok_of_map :
    {A : Type 0} (f : A → Cmd) (r : ReadResult A) (c : Cmd)
    → map_read f r ≡ ok c
    → (a : A) × (r ≡ ok a) × (f a ≡ c)
ok_of_map f (ok a) c e = (a, refl, cc)
ok_of_map f rejected c e = cc
ok_of_map f crash c e = cc
