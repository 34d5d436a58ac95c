-- ===== src/Server/Process/Ends.antt =====
-- src/yymm_svr/cmdproc.cpp: `JsonProcess` ends for a connection that has account data.
use mms_svr.Prelude.{
  ℕ, zero, suc, ◌<◌, ◌-◌, ◌≤◌, ◌≡◌, ◌≢◌, ◌⊎◌, refl, sym, ap, inl, inr, List, [], ◌∷◌, Option, none,
  some, length, drop, length-drop, List-cases, arith,
}
use mms_svr.Yyssl.Blocks.{Outcome, done, refused, outside, thrown}
use mms_svr.Yyssl.Base64.{EvpLaws, base64decode, base64_fits}
use mms_svr.Yyssl.Aes.{YyAes, aes_decrypt}
use mms_svr.Yyssl.Sizes.{AesSizes, length-aes_decrypt}
use mms_svr.Protocol.Commands
use mms_svr.Protocol.Commands.{Cmd}
use mms_svr.Protocol.Read.{ReadResult, ok, rejected, crash}
use mms_svr.Protocol.Compress.{aes_un_format, then_read, of_parsed}
use mms_svr.Protocol.Sizes.{IsBounded, nested, nested-parse_cmd}
use mms_svr.Protocol.Frame.{Parsed, success, crashed, parse_cmd}
use mms_svr.Protocol.Frame.Rejects.{parse_cmd-takes}
use mms_svr.Server.{Env, ItemData, MmsServer, item}
use mms_svr.Server.Shell.{Run}
use mms_svr.Server.Login.{Mysql, on_login}
use mms_svr.Server.Process.{
  Done, next, dies, loops, next_run, on_command, Turn, turned, gone, out_of_fuel, turn, turn_again,
  leave, json_loop, json_process,
}

-- What the libraries are taken to do with sizes.
pub record EnvSizes (env : Env) : Type 0 where
  pub bounded : IsBounded env.parse
  pub evp_laws : EvpLaws env.evp
  pub aes_sizes : AesSizes env.aes_lib

module _ (env : Env) (sizes : EnvSizes env) where
  of_parsed-shorter :
      (bytes : List ℕ) (p : Parsed) (real : Cmd)
      → parse_cmd env.parse env.evp env.junk bytes 0 ≡ p
      → of_parsed p ≡ ok real
      → nested real < length bytes
  of_parsed-shorter bytes (success c offset) real e got =
      let same : c ≡ real = cc in
      rw (← same) (nested-parse_cmd env.parse env.evp env.junk sizes.bounded bytes 0 c offset e)
  of_parsed-shorter bytes crashed real e got = cc
  of_parsed-shorter bytes _ real e got = cc

  then_read-shorter :
      (r : Outcome) (ser : List ℕ) (real : Cmd)
      → ((s : List ℕ) → r ≡ done s → length s < length ser)
      → then_read r (λ s. of_parsed (parse_cmd env.parse env.evp env.junk s 0)) ≡ ok real
      → nested real < length ser
  then_read-shorter (done s) ser real shorter e = omega (
    arith,
    shorter s refl,
    of_parsed-shorter s (parse_cmd env.parse env.evp env.junk s 0) real refl e,
  )
  then_read-shorter refused ser real shorter e = cc
  then_read-shorter outside ser real shorter e = cc
  then_read-shorter thrown ser real shorter e = cc
  then_read-shorter Outcome.stuck ser real shorter e = cc

  aes_un_format-shorter :
      (aes : YyAes env.aes_lib) (ser : List ℕ) (real : Cmd)
      → aes_un_format env.parse env.evp env.junk env.aes_lib env.garbage aes ser ≡ ok real
      → nested real < length ser
  unfolding aes_un_format
  aes_un_format-shorter aes [] real e = cc
  aes_un_format-shorter aes (x ∷ xs) real e =
      let plain : List ℕ = env.evp.evp_decode (x ∷ xs) in
      let decoded : base64decode env.evp (x ∷ xs) ≡ done plain =
        (base64_fits env.evp sizes.evp_laws (x ∷ xs)).1 in
      then_read-shorter (aes_decrypt env.aes_lib aes env.garbage plain) (x ∷ xs) real
        (λ s got. omega (
          arith,
          length-aes_decrypt env.aes_lib sizes.aes_sizes aes env.garbage plain s got,
          sizes.evp_laws.length-evp_decode (x ∷ xs),
        ))
        (rw decoded at e)

  on_command-ne-loops :
      (svr : MmsServer env) (fd id : ℕ) (i : ItemData env) (c : Cmd)
      → on_command env svr fd id i c ≢ loops
  unfolding on_command
  on_command-ne-loops svr fd id i (Commands.comp_rsa c) e = cc
  on_command-ne-loops svr fd id i (Commands.login1 c) e = cc
  on_command-ne-loops svr fd id i (Commands.logout c) e = cc
  on_command-ne-loops svr fd id i (Commands.open_url c) e = cc
  on_command-ne-loops svr fd id i _ e = cc

  next_run-ne-loops :
      (f : ℕ) (svr : MmsServer env) (fd id : ℕ) (i : ItemData env) (c : Cmd)
      → nested c < f
      → next_run env f svr fd id i c ≢ loops
  unfolding next_run
  next_run-ne-loops zero svr fd id i c fuel = absurd (omega arith)
  next_run-ne-loops (suc f) svr fd id i (Commands.comp_aes c) fuel =
      unwrapped_ends
        (aes_un_format env.parse env.evp env.junk env.aes_lib env.garbage i.aes c.ser_string)
        (λ real got.
          next_run-ne-loops f svr fd id i real
            (omega (arith, aes_un_format-shorter i.aes c.ser_string real got)))
    where
      unwrapped_ends :
          (r : ReadResult Cmd)
          → ((real : Cmd) → r ≡ ok real → next_run env f svr fd id i real ≢ loops)
          → mms_svr.Server.Process.unwrapped env svr r (λ real. next_run env f svr fd id i real)
            ≢ loops
      unwrapped_ends (ok real) ends = ends real refl
      unwrapped_ends rejected ends = λ e. cc
      unwrapped_ends crash ends = λ e. cc
  next_run-ne-loops (suc f) svr fd id i c fuel = on_command-ne-loops svr fd id i c

  -- One turn of a connection with account data ends the process, or leaves a shorter buffer.
  Advances : ℕ → List ℕ → Turn env → Type 0
  Advances id buf t =
      (t ≡ gone)
      ⊎ ((svr' : MmsServer env) × (buf' : List ℕ) × (t ≡ turned svr' (some id) buf')
          × (length buf' ≤ length buf - 1))

  login-Advances :
      (r : Option (MmsServer env) × ℕ) (id : ℕ) (buf rest : List ℕ)
      → r.1 ≡ id
      → length rest ≤ length buf - 1
      → Advances id buf (mms_svr.Server.Process.of_login env r rest)
  unfolding Advances
  login-Advances (none, j) id buf rest same short = inl refl
  login-Advances (some svr, j) id buf rest same short =
      inr (svr, rest, ap (λ (k : ℕ). turned svr (some k) rest) same, short)

  done-Advances :
      (d : Done env) (id : ℕ) (buf rest : List ℕ)
      → d ≢ loops
      → length rest ≤ length buf - 1
      → Advances id buf (mms_svr.Server.Process.of_done env d (some id) rest)
  unfolding Advances
  done-Advances (next svr) id buf rest ends short = inr (svr, rest, refl, short)
  done-Advances dies id buf rest ends short = inl refl
  done-Advances loops id buf rest ends short = absurd (ends refl)

  other-Advances :
      (nest : ℕ) (svr : MmsServer env) (fd id : ℕ) (i : Option (ItemData env)) (c : Cmd)
      (buf rest : List ℕ)
      → nested c < nest
      → length rest ≤ length buf - 1
      → Advances id buf (mms_svr.Server.Process.on_other env nest svr fd id i c rest)
  unfolding Advances
  other-Advances nest svr fd id none c buf rest fuel short = inr (svr, rest, refl, short)
  other-Advances nest svr fd id (some i) c buf rest fuel short =
      done-Advances (next_run env nest svr fd id i c) id buf rest
        (next_run-ne-loops nest svr fd id i c fuel) short

  on_login-state :
      (svr : MmsServer env) (fd id : ℕ) (l : Commands.Login) (buf : List ℕ) (mysql : Mysql)
      → (on_login env svr fd (some id) l buf mysql).1 ≡ id
  unfolding on_login
  on_login-state svr fd id l buf mysql = refl

  turn-Advances :
      (nest : ℕ) (svr : MmsServer env) (fd id : ℕ) (buf : List ℕ) (mysql : Mysql) (p : Parsed)
      → ((c : Cmd) (offset : ℕ) → p ≡ success c offset → (nested c < nest) × (3 ≤ offset))
      → Advances id buf (turn env nest svr fd (some id) buf mysql p)
  unfolding turn Advances
  turn-Advances nest svr fd id buf mysql (success (Commands.login l) offset) h =
      login-Advances (on_login env svr fd (some id) l buf mysql) id buf (drop offset buf)
        (on_login-state svr fd id l buf mysql)
        (omega (arith, length-drop offset buf, (h (Commands.login l) offset refl).1))
  turn-Advances nest svr fd id buf mysql (success c offset) h =
      other-Advances nest svr fd id (item env svr id) c buf (drop offset buf) (h c offset refl).0
        (omega (arith, length-drop offset buf, (h c offset refl).1))
  turn-Advances nest svr fd id buf mysql crashed h = inl refl
  turn-Advances nest svr fd id buf mysql _ h = inr (_, [], refl, omega arith)

  -- For a connection that has account data, with a parser whose strings are no longer than its text,
  -- an EVP coder with its laws and an AES that writes no more than a block: one turn more than the
  -- buffer has bytes, and as many jumps to `NextRun` as it has bytes, are enough for the loop to
  -- end, whatever the bytes are.
  pub json_loop-ne-stuck :
      (nest f : ℕ) (svr : MmsServer env) (fd id : ℕ) (buf : List ℕ) (mysql : Mysql)
      → length buf < f
      → length buf ≤ nest
      → json_loop env nest f svr fd (some id) buf mysql ≢ Run.stuck
  unfolding json_loop Advances
  json_loop-ne-stuck nest zero svr fd id buf mysql fuel deep = absurd (omega arith)
  json_loop-ne-stuck nest (suc f) svr fd id buf mysql fuel deep =
      elim (turn-Advances nest svr fd id buf mysql (parse_cmd env.parse env.evp env.junk buf 0)
        good) [
          | inl dead ↦ rw dead (λ e. cc)
          | inr (svr', buf', stepped, shorter) ↦ elim (List-cases buf') [
            | inl empty ↦ rw (stepped, empty) (λ e. cc)
            | inr (x, xs, more) ↦
                let left : length (x ∷ xs) ≡ length buf' = ap length (sym more) in
                rw (stepped, more)
                  (json_loop-ne-stuck nest f svr' fd id (x ∷ xs) mysql
                    (omega (arith, left, shorter)) (omega (arith, left, shorter)))
          ]
        ]
    where
      good :
          (c : Cmd) (offset : ℕ)
          → parse_cmd env.parse env.evp env.junk buf 0 ≡ success c offset
          → (nested c < nest) × (3 ≤ offset)
      good c offset e = (
        omega (arith, nested-parse_cmd env.parse env.evp env.junk sizes.bounded buf 0 c offset e),
        omega (arith, (parse_cmd-takes env.parse env.evp env.junk buf 0 c offset e).0),
      )
