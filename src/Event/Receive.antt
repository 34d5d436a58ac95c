-- ===== src/Event/Receive.antt =====
-- src/event/yylibevent.cpp: the bytes that `do_read` hands to the server.
use mms_svr.Prelude.{
  ==_refl, ℕ, ◌≡◌, refl, ◌∙◌, ap, sym, List, [], ◌∷◌, ◌++◌, append-nil, append_assoc, none, some,
  Option, true, ◌==◌, arith, if◌then◌else◌,
}
use mms_svr.Prelude.Keys.{nat_eq}
use mms_svr.StateMap.{get_state}
use mms_svr.StateMap.Laws.{get_state-del_state, UniqueKeys}
use mms_svr.Event.Run.Touches.{do_read_blocked}
use mms_svr.Event.{
  FdState, LibEvent, Call, data_receive, fd_close, ReadEnd, would_block, shut_down, failed, do_read,
  gather, end_read, free_fd_state,
}

-- What the server was given from the connection `fd`.
abbrev pub received : ℕ → List Call → List ℕ
received fd [] = []
received fd (data_receive j bytes port ∷ rest) =
    if j == fd then bytes ++ received fd rest else received fd rest
received fd (fd_close j ∷ rest) = received fd rest

abbrev pub concat : List (List ℕ) → List ℕ
concat [] = []
concat (x ∷ xs) = x ++ concat xs

received-append :
    (fd : ℕ) (xs ys : List Call) → received fd (xs ++ ys) ≡ received fd xs ++ received fd ys
received-append fd [] ys = refl
received-append fd (data_receive j b p ∷ xs) ys =
    ground (arith, received-append fd xs ys, append_assoc b (received fd xs) (received fd ys))
received-append fd (fd_close j ∷ xs) ys = received-append fd xs ys

gather-some :
    (b : List ℕ) (pieces : List (List ℕ)) → gather (some b) pieces ≡ some (b ++ concat pieces)
unfolding gather
gather-some b [] = ap some (sym (append-nil b))
gather-some b (p ∷ pieces) =
    gather-some (b ++ p) pieces ∙ ap some (append_assoc b p (concat pieces))

end_read-received :
    (l : LibEvent) (fd : ℕ) (s : FdState) (b : List ℕ)
    → l.has_callback ≡ true
    → received fd (end_read l fd s (some b) would_block).calls ≡ received fd l.calls ++ b
unfolding end_read
end_read-received l fd s b callback = rw callback (
    received-append fd l.calls (data_receive fd b s.listen_port ∷ [])
    ∙ ap (◌++◌ (received fd l.calls)) (rw (==_refl fd) (append-nil b)))

do_read_found :
    (l : LibEvent) (fd : ℕ) (s : FdState) (pieces : List (List ℕ)) (stop : ReadEnd)
    → get_state l.states fd ≡ some s
    → do_read l fd pieces stop ≡ end_read l fd s (gather none pieces) stop
unfolding do_read
do_read_found l fd s pieces stop found = rw (found, do_read) refl

-- For a connection with a state and a server to call: when the socket has no more data, the server
-- has been given all pieces, joined, behind what it had.
pub do_read-received :
    (l : LibEvent) (fd : ℕ) (s : FdState) (pieces : List (List ℕ))
    → get_state l.states fd ≡ some s
    → l.has_callback ≡ true
    → received fd (do_read l fd pieces would_block).calls ≡ received fd l.calls ++ concat pieces
unfolding gather end_read
do_read-received l fd s [] found callback =
    rw (do_read_found l fd s [] would_block found) (sym (append-nil (received fd l.calls)))
do_read-received l fd s (p ∷ ps) found callback =
    rw (do_read_found l fd s (p ∷ ps) would_block found, gather-some p ps)
      (end_read-received l fd s (p ++ concat ps) callback)

-- `do_read` for each event of the connection while its socket stays open.
abbrev pub reads_of : ℕ → List (List (List ℕ)) → LibEvent → LibEvent
reads_of fd [] l = l
reads_of fd (pieces ∷ more) l = reads_of fd more (do_read l fd pieces would_block)

abbrev pub all_pieces : List (List (List ℕ)) → List ℕ
all_pieces [] = []
all_pieces (pieces ∷ more) = concat pieces ++ all_pieces more

-- The peer closed, or `recv` has an error.
abbrev pub Ends : ReadEnd → Type 0
Ends would_block = ⊥
Ends shut_down = Unit {0}
Ends failed = Unit {0}

closed_calls :
    (l : LibEvent) (fd : ℕ) (s : FdState) (b : Option (List ℕ)) (stop : ReadEnd)
    → Ends stop
    → l.has_callback ≡ true
    → UniqueKeys l.states.hash_map
    → (received fd (end_read l fd s b stop).calls ≡ received fd l.calls)
      × (get_state (end_read l fd s b stop).states fd ≡ l.states.def_value)
unfolding end_read free_fd_state
closed_calls l fd s b would_block ends callback unique = elim ends [ ]
closed_calls l fd s b shut_down ends callback unique = (
  rw callback (received-append fd l.calls (fd_close fd ∷ []) ∙ append-nil (received fd l.calls)),
  get_state-del_state l.states fd fd unique ∙ rw (==_refl fd) refl,
)
closed_calls l fd s b failed ends callback unique = (
  rw callback (received-append fd l.calls (fd_close fd ∷ []) ∙ append-nil (received fd l.calls)),
  get_state-del_state l.states fd fd unique ∙ rw (==_refl fd) refl,
)

-- For a connection with a state, a server to call and no double keys: after any number of reads that end for
-- want of data and one that ends because the peer closed or recv failed, the server has been given the pieces of
-- the former, joined in order behind what it had, and none of the pieces of the last; and the connection has no
-- state any more.
pub reads_of-do_read :
    (l : LibEvent) (fd : ℕ) (s : FdState) (batches : List (List (List ℕ))) (last : List (List ℕ))
    (stop : ReadEnd)
    → get_state l.states fd ≡ some s
    → l.has_callback ≡ true
    → UniqueKeys l.states.hash_map
    → Ends stop
    → (received fd (do_read (reads_of fd batches l) fd last stop).calls
        ≡ received fd l.calls ++ all_pieces batches)
      × (get_state (do_read (reads_of fd batches l) fd last stop).states fd ≡ l.states.def_value)
reads_of-do_read l fd s [] last stop found callback unique ends =
    let (calls, gone) = closed_calls l fd s (gather none last) stop ends callback unique in
    rw (do_read_found l fd s last stop found) (calls ∙ sym (append-nil (received fd l.calls)), gone)
reads_of-do_read l fd s (pieces ∷ more) last stop found callback unique ends =
    let first = do_read-received l fd s pieces found callback in
    let (calls, same) = do_read_blocked fd l pieces in
    let (all, gone) =
      reads_of-do_read (do_read l fd pieces would_block) fd s more last stop
        (ap (λ (x : LibEvent). get_state x.states fd) same ∙ found)
        (ap (λ (x : LibEvent). x.has_callback) same ∙ callback) (rw same unique) ends in
    (
      all
          ∙ ap (λ x. x ++ all_pieces more) first
          ∙ append_assoc (received fd l.calls) (concat pieces) (all_pieces more),
      gone ∙ ap (λ (x : LibEvent). x.states.def_value) same,
    )
