-- ===== src/Server/Ends.antt =====
-- src/yymm_svr/mmsexecmag.cpp: the loop over the commands of a shell client ends.
use mms_svr.Prelude.{
  ℕ, zero, suc, ◌-◌, ◌≤◌, ◌<◌, ◌≡◌, ◌≢◌, refl, sym, ap, ◌⊎◌, inl, inr, List, [], ◌∷◌, none, some,
  length, drop, length-drop, arith, List-cases,
}
use mms_svr.Protocol.Commands.{Cmd}
use mms_svr.Protocol.Frame.{Parsed, success, crashed, parse_cmd}
use mms_svr.Protocol.Frame.Rejects.{parse_cmd-takes}
use mms_svr.Server.{Env, MmsServer}
use mms_svr.Server.Shell.{stuck, shell_step, shell_command, process_mms_exec_data}

module _ (env : Env) (fd : ℕ) where
  Shortened : MmsServer env → List ℕ → Parsed → Type 0
  Shortened svr buf p =
      (shell_step env svr fd buf p ≡ none)
      ⊎ ((svr' : MmsServer env) × (buf' : List ℕ) × (shell_step env svr fd buf p
            ≡ some (svr', buf'))
          × (length buf' ≤ length buf - 1))

  step-Shortened :
      (svr : MmsServer env) (buf : List ℕ) (p : Parsed)
      → ((c : Cmd) (offset : ℕ) → p ≡ success c offset → 3 ≤ offset)
      → Shortened svr buf p
  unfolding Shortened
  step-Shortened svr buf (success c offset) takes = inr (
    shell_command env svr fd c,
    drop offset buf,
    refl,
    omega (arith, length-drop offset buf, takes c offset refl),
  )
  step-Shortened svr buf crashed takes = inl refl
  step-Shortened svr buf _ takes = inr (svr, [], refl, omega arith)

  -- One turn more than the buffer has bytes is enough for the loop over a shell client's commands to end,
  -- whatever the bytes are.
  pub process_mms_exec_data-ne-stuck :
      (f : ℕ) (svr : MmsServer env) (buf : List ℕ)
      → length buf < f
      → process_mms_exec_data env f svr fd buf ≢ stuck
  unfolding process_mms_exec_data Shortened
  process_mms_exec_data-ne-stuck zero svr buf fuel = absurd (omega arith)
  process_mms_exec_data-ne-stuck (suc f) svr buf fuel =
      elim (step-Shortened svr buf (parse_cmd env.parse env.evp env.junk buf 0) (λ c offset e.
        omega (arith, (parse_cmd-takes env.parse env.evp env.junk buf 0 c offset e).0))) [
          | inl dead ↦ rw dead (λ e. cc)
          | inr (svr', buf', stepped, shorter) ↦ elim (List-cases buf') [
            | inl empty ↦ rw (stepped, empty) (λ e. cc)
            | inr (x, xs, more) ↦
                let left : length (x ∷ xs) ≡ length buf' = ap length (sym more) in
                rw (stepped, more)
                  (process_mms_exec_data-ne-stuck f svr' (x ∷ xs) (omega (arith, left, shorter)))
          ]
        ]
