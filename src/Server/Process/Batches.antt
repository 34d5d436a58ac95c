-- ===== src/Server/Process/Batches.antt =====
-- src/yymm_svr/cmdproc.cpp: `JsonProcess` on a buffer that holds several commands, one frame behind the other.
use mms_svr.Prelude.{
  ℕ, suc, ◌+◌, ◌<◌, ◌≡◌, refl, sym, ap, ◌∙◌, List, [], ◌∷◌, ◌++◌, Option, none, some, false, ◌==◌,
  length, drop, arith, inl, inr, All, some_inj, Option-cases, List-cases, length-append,
  drop-append,
}
use mms_svr.Prelude.Keys.{nat_eq}
use mms_svr.Yyssl.Base64.{EvpLib, EvpLaws}
use mms_svr.Protocol.Commands
use mms_svr.Protocol.Commands.{Cmd}
use mms_svr.Protocol.Frame.{success, parse_cmd, format_cmd}
use mms_svr.Protocol.Frame.RoundTrip.{parse_cmd-format_cmd}
use mms_svr.Protocol.Compress.RoundTrip.{IsReadable}
use mms_svr.Server.{Env, ItemData, MmsServer, item, change}
use mms_svr.Server.Login.{Mysql}
use mms_svr.Server.Shell.{finished}
use mms_svr.Server.Process.{next, next_run, on_other, turn, turned, turn_again, json_loop}
use mms_svr.StateMap.{get_state}
use mms_svr.Server.Process.{json_process, kept}
use mms_svr.Server.Process.Strangers.{is_login}

abbrev pub joined : Option (List ℕ) → Option (List ℕ) → Option (List ℕ)
joined none rest = none
joined (some frame) none = none
joined (some frame) (some rest) = some (frame ++ rest)

-- The frames of several commands.
abbrev pub format_all : EvpLib → List Cmd → Option (List ℕ)
format_all evp [] = some []
format_all evp (c ∷ cs) = joined (format_cmd evp (some c) []) (format_all evp cs)

module _ (env : Env) (laws : EvpLaws env.evp) (nest fd id : ℕ) (mysql : Mysql) where
  -- A command of a client that has logged in.
  pub record IsRequest (c : Cmd) : Type 0 where
    pub readable : IsReadable env.parse env.evp c
    pub no_login : is_login c ≡ false

  -- The commands are handled one after the other, each with the account data that the last one left.
  pub data Handles : MmsServer env → List Cmd → MmsServer env → Type 0 where
    nothing : {s : MmsServer env} → Handles s [] s
    handles :
        {s t u : MmsServer env} {c : Cmd} {cs : List Cmd} (i : ItemData env)
        → item env s id ≡ some i
        → next_run env nest s fd id i c ≡ next t
        → Handles t cs u
        → Handles s (c ∷ cs) u

  turn_request :
      (s : MmsServer env) (c : Cmd) (offset : ℕ) (buf : List ℕ)
      → is_login c ≡ false
      → turn env nest s fd (some id) buf mysql (success c offset)
        ≡ on_other env nest s fd id (item env s id) c (drop offset buf)
  unfolding turn
  turn_request s (Commands.login c) offset buf h = cc
  turn_request s _ offset buf h = refl

  one_frame :
      (c : Cmd) (rest : List ℕ)
      → IsRequest c
      → (bytes : List ℕ) × (format_cmd env.evp (some c) [] ≡ some bytes)
        × (0 < length bytes)
        × (parse_cmd env.parse env.evp env.junk (bytes ++ rest) 0 ≡ success c (length bytes))
  one_frame c rest q =
      let v = q.readable in
      let (bytes, formatted, size, back) =
        parse_cmd-format_cmd env.parse env.evp laws env.junk c v.text rest 0 v.ints v.printed
          v.parsed v.short in
      let same : 0 + length bytes ≡ length bytes = omega arith in
      (bytes, formatted, omega (arith, size), back ∙ ap (success c) same)

  one_turn :
      (f : ℕ) (s t : MmsServer env) (i : ItemData env) (c : Cmd) (bytes rest : List ℕ)
      → is_login c ≡ false
      → parse_cmd env.parse env.evp env.junk (bytes ++ rest) 0 ≡ success c (length bytes)
      → item env s id ≡ some i
      → next_run env nest s fd id i c ≡ next t
      → json_loop env nest (suc f) s fd (some id) (bytes ++ rest) mysql
        ≡ turn_again env
            (turned t (some id) rest)
            (λ svr' state' buf'. json_loop env nest f svr' fd state' buf' mysql)
  unfolding json_loop
  one_turn f s t i c bytes rest other parsed there ran =
      let step : turn env nest s fd (some id) (bytes ++ rest) mysql (success c (length bytes))
          ≡ turned t (some id) rest =
        turn_request s c (length bytes) (bytes ++ rest) other
        ∙ rw (there, ran, drop-append bytes rest (length bytes) refl) refl in
      rw (parsed, step) refl

  format_some :
      (c : Cmd) (cs : List Cmd) (bytes : List ℕ)
      → IsRequest c
      → format_all env.evp (c ∷ cs) ≡ some bytes
      → (rest : List ℕ) × (format_all env.evp cs ≡ some rest)
        × (0 < length bytes)
        × ((frame : List ℕ) × (bytes ≡ frame ++ rest)
            × (parse_cmd env.parse env.evp env.junk bytes 0 ≡ success c (length frame)))
  format_some c cs bytes q e = elim (Option-cases (format_all env.evp cs)) [
    | inl unprinted ↦
        let (frame, formatted, positive, parsed) = one_frame c [] q in
        absurd (not_joined frame (rw (formatted, unprinted) at e))
    | inr (rest, printed) ↦
        let (frame, formatted, positive, parsed) = one_frame c rest q in
        let whole : frame ++ rest ≡ bytes = some_inj _ bytes (rw (formatted, printed) at e) in
        (
          rest,
          printed,
          omega (arith, positive, length-append frame rest, ap length whole),
          (frame, sym whole, rw (← whole) parsed),
        )
  ]
    where
      not_joined : (frame : List ℕ) → joined (some frame) none ≡ some bytes → ⊥
      not_joined frame q = cc

  -- A buffer that holds the frames of one or more commands of a client that has logged in: as many turns as there are
  -- commands end the loop, with the server that handling the commands one after the other makes.
  pub json_loop-Handles :
      (s t : MmsServer env) (c : Cmd) (cs : List Cmd) (bytes : List ℕ)
      → All IsRequest (c ∷ cs)
      → Handles s (c ∷ cs) t
      → format_all env.evp (c ∷ cs) ≡ some bytes
      → json_loop env nest (length (c ∷ cs)) s fd (some id) bytes mysql
        ≡ finished (change env t id (λ i. record i { readbuffer = some [] }))
  json_loop-Handles s t c [] bytes qs (handles i there ran nothing) e =
      let (rest, printed, positive, (frame, whole, parsed)) = format_some c [] bytes qs.0 e in
      let last : rest ≡ [] = sym (some_inj [] rest printed) in
      rw whole
        (one_turn 0 s t i c frame rest qs.0.no_login (rw whole at parsed) there ran ∙ rw last refl)
  json_loop-Handles s t c (d ∷ cs) bytes qs (handles {t = m} i there ran h) e =
      let (rest, printed, positive, (frame, whole, parsed)) = format_some c (d ∷ cs) bytes qs.0 e in
      let (_, _, more, _) = format_some d cs rest qs.1.0 printed in
      let later = json_loop-Handles m t d cs rest qs.1 h printed in
      rw whole (
        one_turn (length (d ∷ cs)) s m i c frame rest qs.0.no_login (rw whole at parsed) there ran
        ∙ elim (List-cases rest) [
          | inl empty ↦ absurd (omega (arith, more, ap length empty))
          | inr (y, ys, full) ↦ rw full (rw full at later)
        ])

  -- With EVP functions with their laws: a connection, not descriptor 0, of which an account with an empty buffer
  -- is known, and a buffer that holds the frames of one or more of its commands, none of them a login, each with
  -- numbers below 2^31, texts that the JSON parser reads and frames below 32768 bytes, and whose handling, one
  -- after the other, with fuel for their jumps to NextRun, does not end the process: as many turns of the loop as
  -- there are commands end JsonProcess, with the server that handling the commands one after the other makes, and
  -- nothing is left in the account's buffer.
  pub json_process-Handles :
      (s t : MmsServer env) (c : Cmd) (cs : List Cmd) (bytes : List ℕ)
      → (fd == 0) ≡ false
      → get_state s.fds fd ≡ some id
      → kept env (item env s id) ≡ []
      → All IsRequest (c ∷ cs)
      → Handles s (c ∷ cs) t
      → format_all env.evp (c ∷ cs) ≡ some bytes
      → json_process env nest (length (c ∷ cs)) s fd (some bytes) mysql
        ≡ finished (change env t id (λ i. record i { readbuffer = some [] }))
  unfolding json_process
  json_process-Handles s t c cs bytes real found empty qs h e =
      rw (real, found) (rw empty (json_loop-Handles s t c cs bytes qs h e))
