-- ===== src/Server/Accounts/Pieces.antt =====
-- src/yymm_svr/cmdproc.cpp: whether frames come in one buffer or in several.
use mms_svr.Prelude.{◌∙◌, ◌≢◌, List-cases}
use mms_svr.Server.Shell.{Run, finished, died, stuck}
use mms_svr.Prelude.{false, ◌==◌, ◌⊎◌}
use mms_svr.StateMap.{get_state}
use mms_svr.Prelude.Keys.{nat_eq}
use mms_svr.Protocol.Frame.Append.{parse_cmd-append}
use mms_svr.Server.Accounts.{WellFormed}
use mms_svr.Prelude.{
  inr, inl, ◌⊎◌, subst, ℕ, suc, ◌≡◌, refl, sym, ap, List, [], ◌++◌, Option, none, some, length,
}
use mms_svr.Prelude.Keys.{nat_eq}
use mms_svr.Protocol.Commands.{Cmd}
use mms_svr.Protocol.Frame.{parse_cmd, success}
use mms_svr.Server.{Env, MmsServer}
use mms_svr.Server.Login.{Mysql}
use mms_svr.Server.Process.{
  turn_again, json_loop, json_process, Turn, turned, gone, out_of_fuel, turn,
}
use mms_svr.Server.Accounts.Turns.{drop_whole, turn-append, wipe_same, nothing_kept, turn_turned}

module _ (env : Env) where
  process_known :
      (nest f : ℕ) (svr : MmsServer env) (fd id : ℕ) (buf : List ℕ) (mysql : Mysql)
      → WellFormed env svr none
      → (fd == 0) ≡ false
      → get_state svr.fds fd ≡ some id
      → json_process env nest f svr fd (some buf) mysql
        ≡ json_loop env nest f svr fd (some id) buf mysql
  unfolding json_process
  process_known nest f svr fd id buf mysql v real found =
      rw (real, found, nothing_kept env svr id v) refl

  Turn-cases :
      (t : Turn env)
      → (t ≡ gone)
        ⊎ (t ≡ out_of_fuel)
        ⊎ ((svr : MmsServer env) × (state : Option ℕ) × (rest : List ℕ) × (t
              ≡ turned svr state rest))
  Turn-cases (turned svr state rest) = inr (inr (svr, state, rest, refl))
  Turn-cases gone = inl refl
  Turn-cases out_of_fuel = inr (inl refl)

  died≢finished : {svr : MmsServer env} → died ≡ finished svr → ⊥
  died≢finished e = cc

  stuck≢finished : {svr : MmsServer env} → stuck ≡ finished svr → ⊥
  stuck≢finished e = cc

  finished_inj : (s t : MmsServer env) → finished s ≡ finished t → s ≡ t
  finished_inj s t e = cc

  -- A frame that ends its buffer leaves the server that its turn made.
  one_frame :
      (nest f : ℕ) (svr svr' : MmsServer env) (fd id : ℕ) (a : List ℕ) (mysql : Mysql) (c : Cmd)
      → WellFormed env svr none
      → parse_cmd env.parse env.evp env.junk a 0 ≡ success c (length a)
      → json_loop env nest (suc f) svr fd (some id) a mysql ≡ finished svr'
      → (turn env nest svr fd (some id) a mysql (success c (length a)) ≡ turned svr' (some id) [])
        × WellFormed env svr' none
  unfolding json_loop
  one_frame nest f svr svr' fd id a mysql c v parsed ran =
      let t : Turn env = turn env nest svr fd (some id) a mysql (success c (length a)) in
      let again : MmsServer env → Option ℕ → List ℕ → Run env =
        λ svr1 state buf1. json_loop env nest f svr1 fd state buf1 mysql in
      let ran' : turn_again env t again ≡ finished svr' = rw parsed at ran in
      elim (Turn-cases t) [
        | inl dead ↦
            absurd (died≢finished (sym (ap (λ (u : Turn env). turn_again env u again) dead) ∙ ran'))
        | inr (inl out) ↦
            absurd (stuck≢finished (sym (ap (λ (u : Turn env). turn_again env u again) out) ∙ ran'))
        | inr (inr (s, state, rest, stepped)) ↦
            let (same, all, w) = turn_turned env nest svr s fd id a rest mysql c state v stepped in
            let none_left : rest ≡ [] = all ∙ drop_whole a in
            let stepped' : t ≡ turned s (some id) [] =
              stepped
              ∙ ap (λ (x : Option ℕ). turned s x rest) same
              ∙ ap (turned s (some id)) none_left in
            let left : s ≡ svr' =
              sym (wipe_same env s id w)
              ∙ finished_inj _ svr'
                  (sym (ap (λ (u : Turn env). turn_again env u again) stepped') ∙ ran') in
            (
              stepped' ∙ ap (λ (u : MmsServer env). turned u (some id) []) left,
              subst (λ (u : MmsServer env). WellFormed env u none) left w,
            )
      ]

  -- In a server with well-formed account data, on a connection, not descriptor 0, that has account
  -- data: a frame that parses, and after which the connection still has the same account, and some
  -- bytes behind it are processed in one buffer as in two.
  pub json_process-append :
      (nest f : ℕ) (svr svr' : MmsServer env) (fd id : ℕ) (a b : List ℕ) (mysql : Mysql) (c : Cmd)
      → WellFormed env svr none
      → (fd == 0) ≡ false
      → get_state svr.fds fd ≡ some id
      → parse_cmd env.parse env.evp env.junk a 0 ≡ success c (length a)
      → b ≢ []
      → json_process env nest (suc f) svr fd (some a) mysql ≡ finished svr'
      → get_state svr'.fds fd ≡ some id
      → json_process env nest (suc f) svr fd (some (a ++ b)) mysql
        ≡ json_process env nest f svr' fd (some b) mysql
  unfolding json_loop
  json_process-append nest f svr svr' fd id a b mysql c v real found parsed more ran still =
      let (stepped, w) =
        one_frame nest f svr svr' fd id a mysql c v parsed
          (sym (process_known nest (suc f) svr fd id a mysql v real found) ∙ ran) in
      elim (List-cases b) [
        | inl empty ↦ absurd (more empty)
        | inr (x, xs, some_more) ↦
            process_known nest (suc f) svr fd id (a ++ b) mysql v real found
            ∙ rw
                (
                  parse_cmd-append env.parse env.evp env.junk a b 0 (length a) c parsed,
                  turn-append env nest svr fd id a b mysql c,
                  stepped,
                  some_more,
                )
                refl
            ∙ ap (λ (l : List ℕ). json_loop env nest f svr' fd (some id) l mysql) (sym some_more)
            ∙ sym (process_known nest f svr' fd id b mysql w real still)
      ]
