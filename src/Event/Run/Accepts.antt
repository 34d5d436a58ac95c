-- ===== src/Event/Run/Accepts.antt =====
-- src/event/yylibevent.cpp: a new connection leaves the others alone.
use mms_svr.Prelude.{
  ℕ, ◌≡◌, refl, sym, ◌∙◌, [], Option, some, none, true, false, Bool, ◌&&◌, inl, inr, Bool-cases,
  some_inj,
}
use mms_svr.Prelude.Keys.{nat_eq}
use mms_svr.Event.{
  FdState, LibEvent, connection, AllocAnswers, do_accept, alloc_fd_state, put_state,
}
use mms_svr.Event.Run.Touches.{Touches, Touches-trans, put_state-Touches}

abbrev new_state : ℕ → FdState
new_state port = record { writebuffer = []; listen_port = port; reading = false; writing = false }

abbrev allocates : AllocAnswers → Bool
allocates a = a.malloc && (a.read_event && a.write_event)

allocated_state :
    (l : LibEvent) (j port : ℕ) (a : AllocAnswers)
    → allocates a ≡ true
    → alloc_fd_state l j port a ≡ (put_state l j (new_state port), some (new_state port))
unfolding alloc_fd_state
allocated_state l j port a given = rw given refl

not_allocated :
    (l : LibEvent) (j port : ℕ) (a : AllocAnswers)
    → allocates a ≡ false
    → alloc_fd_state l j port a ≡ (l, none)
unfolding alloc_fd_state
not_allocated l j port a refused = rw refused refl

accepted_state :
    (l : LibEvent) (j port : ℕ) (a : AllocAnswers)
    → allocates a ≡ true
    → do_accept l port (connection j) a
      ≡ some (
          put_state (put_state l j (new_state port)) j (record (new_state port) { reading = true }))
unfolding do_accept
accepted_state l j port a given =
    rw (allocated_state l j port a given, do_accept) (rw (allocated_state l j port a given) refl)

accepted_none :
    (l : LibEvent) (j port : ℕ) (a : AllocAnswers)
    → allocates a ≡ false
    → do_accept l port (connection j) a ≡ none
unfolding do_accept
accepted_none l j port a refused = rw (not_allocated l j port a refused, do_accept) refl

pub do_accept-Touches :
    (port j : ℕ) (l l' : LibEvent) (a : AllocAnswers)
    → do_accept l port (connection j) a ≡ some l'
    → Touches j l l'
do_accept-Touches port j l l' a e = elim (Bool-cases (allocates a)) [
  | inl given ↦
      let opened : LibEvent =
        put_state (put_state l j (new_state port)) j (record (new_state port) { reading = true }) in
      rw (← some_inj opened l' (sym (accepted_state l j port a given) ∙ e))
        (Touches-trans j l _ _ (put_state-Touches j l (new_state port)) (put_state-Touches j _ _))
  | inr refused ↦ absurd (no_state (sym (accepted_none l j port a refused) ∙ e))
]
  where
    no_state : ◌≡◌ {A = Option LibEvent} none (some l') → ⊥
    no_state q = cc
