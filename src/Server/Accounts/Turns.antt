-- ===== src/Server/Accounts/Turns.antt =====
-- src/yymm_svr/cmdproc.cpp: what a turn of `JsonProcess` makes of the bytes behind its frame.
use mms_svr.Prelude.{◌∙◌}
use mms_svr.Prelude.Keys.{nat_eq}
use mms_svr.Server.Accounts.{WellFormed, shape, SameShape-WellFormed}
use mms_svr.Server.Accounts.Logins.{on_login-SameShape}
use mms_svr.Server.Accounts.Commands.{next_run-WellFormed}
use mms_svr.Prelude.{
  none≢some, inr, inl, subst, Option-cases, ℕ, zero, suc, ◌≡◌, refl, sym, ap, List, [], ◌∷◌, ◌++◌,
  Option, none, some, length, drop, drop-append, set, get_elem?,
}
use mms_svr.Prelude.Keys.{nat_eq}
use mms_svr.Protocol.Commands
use mms_svr.Protocol.Commands.{Cmd}
use mms_svr.Protocol.Frame.{success}
use mms_svr.Server.{change, Env, ItemData, MmsServer, item}
use mms_svr.Server.Login.{Mysql, on_login, login_state}
use mms_svr.Server.Process.{
  kept, Done, next, dies, loops, next_run, of_done, of_login, on_other, Turn, turned, gone,
  out_of_fuel, turn,
}

pub set_same :
    {A : Type 0} (xs : List A) (n : ℕ) (x : A) → get_elem? xs n ≡ some x → set xs n x ≡ xs
set_same [] n x e = refl
set_same {A} (y ∷ xs) zero x e = ap (λ (z : A). z ∷ xs) (sym (same y x e))
  where
    same : (u v : A) → some u ≡ some v → u ≡ v
    same u v q = cc
set_same (y ∷ xs) (suc n) x e = ap (◌∷◌ y) (set_same xs n x e)

pub drop_whole : (a : List ℕ) → drop (length a) a ≡ []
drop_whole [] = refl
drop_whole (x ∷ a) = drop_whole a

module _ (env : Env) where
  -- The same turn with more bytes behind the frame.
  abbrev pub with_rest : Turn env → List ℕ → Turn env
  with_rest (turned svr state rest) b = turned svr state b
  with_rest gone b = gone
  with_rest out_of_fuel b = out_of_fuel

  login_rest :
      (r : Option (MmsServer env) × ℕ) (a b : List ℕ)
      → of_login env r b ≡ with_rest (of_login env r a) b
  login_rest (none, id) a b = refl
  login_rest (some svr, id) a b = refl

  done_rest :
      (d : Done env) (state : Option ℕ) (a b : List ℕ)
      → of_done env d state b ≡ with_rest (of_done env d state a) b
  done_rest (next svr) state a b = refl
  done_rest dies state a b = refl
  done_rest loops state a b = refl

  other_rest :
      (nest : ℕ) (svr : MmsServer env) (fd id : ℕ) (i : Option (ItemData env)) (c : Cmd)
      (a b : List ℕ)
      → on_other env nest svr fd id i c b ≡ with_rest (on_other env nest svr fd id i c a) b
  other_rest nest svr fd id none c a b = refl
  other_rest nest svr fd id (some i) c a b =
      done_rest (next_run env nest svr fd id i c) (some id) a b

  pub turn-append :
      (nest : ℕ) (svr : MmsServer env) (fd id : ℕ) (a b : List ℕ) (mysql : Mysql) (c : Cmd)
      → turn env nest svr fd (some id) (a ++ b) mysql (success c (length a))
        ≡ with_rest (turn env nest svr fd (some id) a mysql (success c (length a))) b
  unfolding turn on_login login_state
  turn-append nest svr fd id a b mysql (Commands.login c) =
      rw (drop-append a b (length a) refl) (login_rest _ (drop (length a) a) b)
  turn-append nest svr fd id a b mysql c =
      rw (drop-append a b (length a) refl)
        (other_rest nest svr fd id (item env svr id) c (drop (length a) a) b)

  pub wipe_same :
      (svr : MmsServer env) (id : ℕ)
      → WellFormed env svr none
      → change env svr id (λ i. record i { readbuffer = some [] }) ≡ svr
  unfolding change
  wipe_same svr id v = elim (Option-cases (item env svr id)) [
    | inl absent ↦ rw absent refl
    | inr (i, there) ↦
        let empty : i.readbuffer ≡ some [] =
          v.emptied id i.fd i.readbuffer (λ e. none≢some e) (ap (shape env) there) in
        let same : set svr.items id (record i { readbuffer = some [] }) ≡ svr.items =
          ap (λ (r : Option (List ℕ)). set svr.items id (record i { readbuffer = r })) (sym empty)
          ∙ set_same svr.items id i there in
        rw there (ap (λ (l : List (ItemData env)). record svr { items = l }) same)
  ]

  pub nothing_kept :
      (svr : MmsServer env) (id : ℕ) → WellFormed env svr none → kept env (item env svr id) ≡ []
  nothing_kept svr id v = elim (Option-cases (item env svr id)) [
    | inl absent ↦ rw absent refl
    | inr (i, there) ↦
        rw (there, v.emptied id i.fd i.readbuffer (λ e. none≢some e) (ap (shape env) there)) refl
  ]

  login_turned :
      (r : Option (MmsServer env) × ℕ) (left : List ℕ) (svr : MmsServer env) (state : Option ℕ)
      (rest : List ℕ)
      → of_login env r left ≡ turned svr state rest
      → (state ≡ some r.1) × (rest ≡ left) × (r.0 ≡ some svr)
  login_turned (none, id) left svr state rest e = cc
  login_turned (some s, id) left svr state rest e = (cc, cc, cc)

  done_turned :
      (d : Done env) (before : Option ℕ) (left : List ℕ) (svr : MmsServer env) (state : Option ℕ)
      (rest : List ℕ)
      → of_done env d before left ≡ turned svr state rest
      → (state ≡ before) × (rest ≡ left) × (d ≡ next svr)
  done_turned (next s) before left svr state rest e = (cc, cc, cc)
  done_turned dies before left svr state rest e = cc
  done_turned loops before left svr state rest e = cc

  -- What a turn of a connection with account data leaves.
  abbrev pub Left : ℕ → List ℕ → MmsServer env → Option ℕ → List ℕ → Type 0
  Left id left svr state rest = (state ≡ some id) × (rest ≡ left) × WellFormed env svr none

  other_turned :
      (nest : ℕ) (svr svr' : MmsServer env) (fd id : ℕ) (i : Option (ItemData env)) (c : Cmd)
      (left : List ℕ) (state : Option ℕ) (rest : List ℕ)
      → WellFormed env svr none
      → on_other env nest svr fd id i c left ≡ turned svr' state rest
      → Left id left svr' state rest
  other_turned nest svr svr' fd id none c left state rest v e =
      let (same, all, stayed) = done_turned (next svr) (some id) left svr' state rest e in
      (same, all, next_run_none stayed)
    where
      next_run_none : next svr ≡ next svr' → WellFormed env svr' none
      next_run_none q = subst (λ (s : MmsServer env). WellFormed env s none) (server_of q) v
        where
          server_of : next svr ≡ next svr' → svr ≡ svr'
          server_of q = cc
  other_turned nest svr svr' fd id (some i) c left state rest v e =
      let (same, all, ran) =
        done_turned (next_run env nest svr fd id i c) (some id) left svr' state rest e in
      (same, all, next_run-WellFormed env nest svr svr' fd id i c none v ran)

  pub turn_turned :
      (nest : ℕ) (svr svr' : MmsServer env) (fd id : ℕ) (a rest : List ℕ) (mysql : Mysql) (c : Cmd)
      (state : Option ℕ)
      → WellFormed env svr none
      → turn env nest svr fd (some id) a mysql (success c (length a)) ≡ turned svr' state rest
      → Left id (drop (length a) a) svr' state rest
  unfolding turn
  turn_turned nest svr svr' fd id a rest mysql (Commands.login c) state v e =
      let (same, all, ran) =
        login_turned (on_login env svr fd (some id) c a mysql) (drop (length a) a) svr' state rest
          e in
      (
        unfold on_login login_state in same,
        all,
        SameShape-WellFormed env (on_login-SameShape env svr svr' fd id c a mysql ran) v,
      )
  turn_turned nest svr svr' fd id a rest mysql c state v e =
      other_turned nest svr svr' fd id (item env svr id) c (drop (length a) a) state rest v e
