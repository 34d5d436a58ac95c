-- ===== src/Server/Process/Strangers.antt =====
-- src/yymm_svr/cmdproc.cpp: `JsonProcess` on a connection without account data, on bytes that are no frame,
-- and the check of the white list.
use mms_svr.Prelude.{
  ℕ, zero, suc, ◌≡◌, refl, sym, ◌∙◌, List, [], ◌∷◌, Option, none, some, Bool, true, false, ◌==◌,
}
use mms_svr.Prelude.Keys.{nat_eq}
use mms_svr.StateMap.{get_state}
use mms_svr.Protocol.Commands
use mms_svr.Protocol.Commands.{Cmd}
use mms_svr.Protocol.Frame.{Parsed, success, crashed, parse_cmd}
use mms_svr.Server.{Env, MmsServer, closefd}
use mms_svr.Server.Shell.{stuck}
use mms_svr.Server.Login.{Mysql, check_white_list}
use mms_svr.Server.Process.{turn, turned, leave, json_loop, json_process}

-- With a database connection every user passes, whatever rows the query gives; without one nobody does.
pub check_white_list_lem :
    (uid uid' : ℕ) (query query' : ℕ → List (List ℕ))
    → (check_white_list uid (some query) ≡ check_white_list uid' (some query'))
      × (check_white_list uid (some query) ≡ true)
      × (check_white_list uid none ≡ false)
unfolding check_white_list
check_white_list_lem uid uid' query query' =
    (fetched (query uid) ∙ sym (fetched (query' uid')), fetched (query uid), refl)
  where
    fetched : (rows : List (List ℕ)) → mms_svr.Server.Login.fetch rows ≡ true
    fetched [] = refl
    fetched (row ∷ rows) = fetched rows

abbrev pub is_login : Cmd → Bool
is_login (Commands.login c) = true
is_login _ = false

-- The answers of the parser on which the connection is closed.
abbrev pub is_error : Parsed → Bool
is_error (success c offset) = false
is_error crashed = false
is_error _ = true

module _ (env : Env) (nest : ℕ) (fd : ℕ) (mysql : Mysql) where
  turn_stranger :
      (svr : MmsServer env) (c : Cmd) (offset : ℕ) (buf : List ℕ)
      → is_login c ≡ false
      → turn env nest svr fd none buf mysql (success c offset) ≡ turned svr none buf
  unfolding turn
  turn_stranger svr (Commands.login c) offset buf h = cc
  turn_stranger svr _ offset buf h = refl

  loop_stranger :
      (f : ℕ) (svr : MmsServer env) (c : Cmd) (offset x : ℕ) (buf : List ℕ)
      → parse_cmd env.parse env.evp env.junk (x ∷ buf) 0 ≡ success c offset
      → is_login c ≡ false
      → json_loop env nest f svr fd none (x ∷ buf) mysql ≡ stuck
  unfolding json_loop
  loop_stranger zero svr c offset x buf parsed other = refl
  loop_stranger (suc f) svr c offset x buf parsed other =
      rw (parsed, turn_stranger svr c offset (x ∷ buf) other)
        (loop_stranger f svr c offset x buf parsed other)

  -- A connection, not the descriptor 0, that has no account data and sends a command that is no
  -- login, in a frame that parses, keeps its worker in the loop: no number of turns is enough to end
  -- it.
  pub json_process_stranger :
      (f : ℕ) (svr : MmsServer env) (c : Cmd) (offset x : ℕ) (buf : List ℕ)
      → (fd == 0) ≡ false
      → get_state svr.fds fd ≡ none
      → parse_cmd env.parse env.evp env.junk (x ∷ buf) 0 ≡ success c offset
      → is_login c ≡ false
      → json_process env nest f svr fd (some (x ∷ buf)) mysql ≡ stuck
  unfolding json_process
  json_process_stranger f svr c offset x buf real stranger parsed other =
      rw (real, stranger) (loop_stranger f svr c offset x buf parsed other)

  turn_error :
      (svr : MmsServer env) (state : Option ℕ) (buf : List ℕ) (p : Parsed)
      → is_error p ≡ true
      → turn env nest svr fd state buf mysql p ≡ turned (closefd env svr fd) state []
  unfolding turn
  turn_error svr state buf (success c offset) h = cc
  turn_error svr state buf crashed h = cc
  turn_error svr state buf _ h = refl

  -- When the parser reports an error, the loop ends after one turn, with the connection closed and
  -- nothing kept.
  pub json_loop_error :
      (f : ℕ) (svr : MmsServer env) (state : Option ℕ) (buf : List ℕ)
      → is_error (parse_cmd env.parse env.evp env.junk buf 0) ≡ true
      → json_loop env nest (suc f) svr fd state buf mysql ≡ leave env (closefd env svr fd) state
  unfolding json_loop
  json_loop_error f svr state buf bad =
      rw (turn_error svr state buf (parse_cmd env.parse env.evp env.junk buf 0) bad) refl
