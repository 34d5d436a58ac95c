-- ===== src/Event/Write.antt =====
-- src/event/yylibevent.cpp: the bytes that go to a connection, between `data_send` and the socket.
use mms_svr.Prelude.{
  inr, inl, Bool-cases, lt→ltb, ==_refl, List-cases, ◌≤◌, ◌<◌, ℕ, ◌≡◌, refl, ◌∙◌, ap, sym, List, [],
  ◌∷◌, ◌++◌, append-nil, append_assoc, Option, none, some, true, false, ◌==◌, ltb, length, take,
  arith, if◌then◌else◌, drop_all, take_all,
}
use mms_svr.Prelude.Keys.{nat_eq}
use mms_svr.StateMap.{get_state}
use mms_svr.StateMap.Laws.{get_state-add_state}
use mms_svr.Event.{
  FdState, LibEvent, Outgoing, Sent, sent_bytes, do_write, write_state, put_state, sent_prefix,
  deliver,
}

-- What went to the socket `fd`.
abbrev pub bytes_to : ℕ → List Outgoing → List ℕ
bytes_to fd [] = []
bytes_to fd (out ∷ rest) = if out.fd == fd then out.bytes ++ bytes_to fd rest else bytes_to fd rest

abbrev pub buffer_of : Option FdState → List ℕ
buffer_of none = []
buffer_of (some s) = s.writebuffer

abbrev pub waiting : LibEvent → ℕ → List ℕ
waiting l fd = buffer_of (get_state l.states fd)

-- Everything that the peer has or is going to have.
abbrev pub stream : LibEvent → ℕ → List ℕ
stream l fd = bytes_to fd l.wire ++ waiting l fd

pub bytes_to-append :
    (fd : ℕ) (xs ys : List Outgoing) → bytes_to fd (xs ++ ys) ≡ bytes_to fd xs ++ bytes_to fd ys
bytes_to-append fd [] ys = refl
bytes_to-append fd (x ∷ xs) ys =
    ground (arith, bytes_to-append fd xs ys, append_assoc x.bytes (bytes_to fd xs) (bytes_to fd ys))

pub waiting-put_state :
    (l : LibEvent) (fd j : ℕ) (s : FdState)
    → waiting (put_state l fd s) j ≡ (if fd == j then s.writebuffer else waiting l j)
waiting-put_state l fd j s =
    ground (arith, get_state-add_state l.states fd j (some s), nat_eq.beq_iff fd j)

sent_prefix-bytes :
    (l : LibEvent) (fd : ℕ) (buffer : List ℕ) (n : ℕ)
    → bytes_to fd (sent_prefix l fd buffer n).wire ≡ bytes_to fd l.wire ++ take n buffer
sent_prefix-bytes l fd buffer n =
    bytes_to-append fd l.wire _
    ∙ ap (◌++◌ (bytes_to fd l.wire)) (rw (==_refl fd) (append-nil (take n buffer)))

pub sent_state :
    (l : LibEvent) (fd : ℕ) (s : FdState) (n : ℕ)
    → get_state l.states fd ≡ some s
    → 0 < n
    → n ≤ length s.writebuffer
    → (s' : FdState) × (do_write l fd (sent_bytes n)
        ≡ put_state (sent_prefix l fd s.writebuffer n) fd s')
      × (s'.writebuffer ≡ [])
unfolding do_write write_state
sent_state l fd s n found positive fits = elim (Bool-cases (n == length s.writebuffer)) [
  | inl all ↦ (
    record s { writebuffer = []; writing = false },
    rw (found, do_write) (rw (some_waiting, n_positive n positive, all) refl),
    refl,
  )
  | inr part ↦ (
    record s { writebuffer = [] },
    rw (found, do_write)
        (rw
          (
            some_waiting,
            n_positive n positive,
            part,
            drop_all (length s.writebuffer) s.writebuffer (omega arith),
          )
          refl),
    refl,
  )
]
  where
    n_positive : (n : ℕ) → 0 < n → (n == 0) ≡ false
    n_positive n positive = ground arith

    some_waiting : ltb 0 (length s.writebuffer) ≡ true
    some_waiting = lt→ltb 0 (length s.writebuffer) (omega arith)

-- When `send` takes `n` bytes, at least one, the peer has these bytes more, nothing waits any more, and
-- the bytes after the first `n` are in neither place.
pub do_write_sent :
    (l : LibEvent) (fd : ℕ) (s : FdState) (n : ℕ)
    → get_state l.states fd ≡ some s
    → 0 < n
    → n ≤ length s.writebuffer
    → (bytes_to fd (do_write l fd (sent_bytes n)).wire
        ≡ bytes_to fd l.wire ++ take n (waiting l fd))
      × (waiting (do_write l fd (sent_bytes n)) fd ≡ [])
do_write_sent l fd s n found positive fits =
    let (s', step, empty) = sent_state l fd s n found positive fits in
    rw (step, found)
      (
        sent_prefix-bytes l fd s.writebuffer n,
        waiting-put_state (sent_prefix l fd s.writebuffer n) fd fd s' ∙ rw (==_refl fd) empty,
      )

pub idle_state :
    (l : LibEvent) (fd : ℕ) (s : FdState) (answer : Sent)
    → get_state l.states fd ≡ some s
    → s.writebuffer ≡ []
    → do_write l fd answer ≡ put_state l fd (record s { writing = false })
unfolding do_write
idle_state l fd s answer found empty = rw (found, do_write) (rw empty refl)

-- A `send` of all that waits keeps the stream of its connection.
pub do_write-stream :
    (l : LibEvent) (fd : ℕ) (s : FdState)
    → get_state l.states fd ≡ some s
    → stream (do_write l fd (sent_bytes (length s.writebuffer))) fd ≡ stream l fd
do_write-stream l fd s found = elim (List-cases s.writebuffer) [
  | inl empty ↦
      rw (idle_state l fd s (sent_bytes (length s.writebuffer)) found empty, found)
        (ap (◌++◌ (bytes_to fd l.wire)) (waiting-put_state l fd fd _ ∙ rw (==_refl fd) refl))
  | inr (b, bs, full) ↦
      let (sent, left) =
        do_write_sent l fd s (length s.writebuffer) found (rw full (omega arith)) (omega arith) in
      rw (sent, left, take_all (length s.writebuffer) (waiting l fd) (rw found (omega arith)))
        (append-nil _)
]

pub delivered_state :
    (l : LibEvent) (s : FdState) (out : Outgoing)
    → get_state l.states out.fd ≡ some s
    → 0 < length out.bytes
    → deliver l out
      ≡ put_state l out.fd (record s { writebuffer = s.writebuffer ++ out.bytes; writing = true })
unfolding deliver
delivered_state l s out found positive =
    rw (found, deliver) (rw (not_zero (length out.bytes) positive) refl)
  where
    not_zero : (n : ℕ) → 0 < n → (n == 0) ≡ false
    not_zero n positive = ground arith

-- A buffer from the queue, not empty, ends up behind the stream of its connection.
pub deliver-stream :
    (l : LibEvent) (s : FdState) (out : Outgoing)
    → get_state l.states out.fd ≡ some s
    → 0 < length out.bytes
    → stream (deliver l out) out.fd ≡ stream l out.fd ++ out.bytes
deliver-stream l s out found positive =
    rw (delivered_state l s out found positive, found)
      (ap (◌++◌ (bytes_to out.fd l.wire))
          (waiting-put_state l out.fd out.fd _ ∙ rw (==_refl out.fd) refl)
        ∙ sym (append_assoc (bytes_to out.fd l.wire) s.writebuffer out.bytes))
