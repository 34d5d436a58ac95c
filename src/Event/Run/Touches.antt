-- ===== src/Event/Run/Touches.antt =====
-- src/event/yylibevent.cpp: a handler of one connection leaves the others alone.
use mms_svr.Prelude.{
  ℕ, ◌≡◌, refl, ◌∙◌, List, [], ◌∷◌, ◌++◌, append-nil, Option, some, none, false, ◌==◌, ltb, length,
  inl, inr, Bool-cases, Option-cases,
}
use mms_svr.Prelude.Keys.{nat_eq}
use mms_svr.StateMap.{get_state}
use mms_svr.StateMap.Laws.{
  UniqueKeys, get_state-add_state, get_state-del_state, state_map-UniqueKeys,
}
use mms_svr.Event.{
  FdState, LibEvent, Outgoing, Sent, sent_bytes, ReadEnd, would_block, shut_down, do_write,
  write_state, do_read, end_read, gather, free_fd_state, put_state, sent_prefix, deliver,
}
use mms_svr.Event.{Call, data_receive}
use mms_svr.Event.Write.{bytes_to, bytes_to-append}

-- What a handler of the connection `j` may change.
pub record Touches (j : ℕ) (l l' : LibEvent) : Type 0 where
  pub queueback : l'.queueback ≡ l.queueback
  pub queue_fd : l'.queue_fd ≡ l.queue_fd
  pub bufqueue_map : l'.bufqueue_map ≡ l.bufqueue_map
  pub pipe : l'.pipe ≡ l.pipe
  pub unique : UniqueKeys l.states.hash_map → UniqueKeys l'.states.hash_map
  pub state :
      (fd : ℕ)
      → (j == fd) ≡ false
      → UniqueKeys l.states.hash_map
      → get_state l'.states fd ≡ get_state l.states fd
  pub wire : (fd : ℕ) → (j == fd) ≡ false → bytes_to fd l'.wire ≡ bytes_to fd l.wire

Touches-refl : (j : ℕ) (l : LibEvent) → Touches j l l
Touches-refl j l = record {
  queueback = refl;
  bufqueue_map = refl;
  pipe = refl;
  queue_fd = refl;
  unique = λ u. u;
  state = λ fd other u. refl;
  wire = λ fd other. refl;
}

pub put_state-Touches : (j : ℕ) (l : LibEvent) (s : FdState) → Touches j l (put_state l j s)
put_state-Touches j l s = record {
  queueback = refl;
  bufqueue_map = refl;
  pipe = refl;
  queue_fd = refl;
  unique = λ u. (state_map-UniqueKeys l.states j (some s) u).0;
  state = λ fd other u. get_state-add_state l.states j fd (some s) ∙ rw other refl;
  wire = λ fd other. refl;
}

free_fd_state-Touches : (j : ℕ) (l : LibEvent) → Touches j l (free_fd_state l j)
unfolding free_fd_state
free_fd_state-Touches j l = record {
  queueback = refl;
  bufqueue_map = refl;
  pipe = refl;
  queue_fd = refl;
  unique = λ u. (state_map-UniqueKeys l.states j none u).1;
  state = λ fd other u. get_state-del_state l.states j fd u ∙ rw other refl;
  wire = λ fd other. refl;
}

sent_prefix-Touches :
    (j : ℕ) (l : LibEvent) (s : FdState) (buffer : List ℕ) (n : ℕ)
    → Touches j l (put_state (sent_prefix l j buffer n) j s)
sent_prefix-Touches j l s buffer n = record {
  queueback = refl;
  bufqueue_map = refl;
  pipe = refl;
  queue_fd = refl;
  unique = λ u. (state_map-UniqueKeys l.states j (some s) u).0;
  state = λ fd other u. get_state-add_state l.states j fd (some s) ∙ rw other refl;
  wire = λ fd other. bytes_to-append fd l.wire _ ∙ rw other (append-nil (bytes_to fd l.wire));
}

pub deliver-Touches : (l : LibEvent) (out : Outgoing) → Touches out.fd l (deliver l out)
unfolding deliver
deliver-Touches l out = elim (Option-cases (get_state l.states out.fd)) [
  | inl unknown ↦ rw (unknown, deliver) (Touches-refl out.fd l)
  | inr (s, found) ↦
      rw (found, deliver)
        (elim (Bool-cases (length out.bytes == 0)) [
          | inl empty ↦ rw empty (free_fd_state-Touches out.fd l)
          | inr full ↦ rw full (put_state-Touches out.fd l _)
        ])
]

write_state-Touches :
    (j : ℕ) (l : LibEvent) (s : FdState) (answer : Sent) → Touches j l (write_state l j s answer)
unfolding write_state
write_state-Touches j l s Sent.again = Touches-refl j l
write_state-Touches j l s Sent.failed = free_fd_state-Touches j l
write_state-Touches j l s (sent_bytes n) = elim (Bool-cases (n == 0)) [
  | inl none_sent ↦ rw none_sent (free_fd_state-Touches j l)
  | inr some_sent ↦ rw some_sent (elim (Bool-cases (n == length s.writebuffer)) [
    | inl all ↦ rw all (sent_prefix-Touches j l _ s.writebuffer n)
    | inr part ↦ rw part (sent_prefix-Touches j l _ s.writebuffer n)
  ])
]

pub do_write-Touches : (j : ℕ) (l : LibEvent) (answer : Sent) → Touches j l (do_write l j answer)
unfolding do_write
do_write-Touches j l answer = elim (Option-cases (get_state l.states j)) [
  | inl unknown ↦ rw (unknown, do_write) (Touches-refl j l)
  | inr (s, found) ↦
      rw (found, do_write)
        (elim (Bool-cases (ltb 0 (length s.writebuffer))) [
          | inl full ↦ rw full (write_state-Touches j l s answer)
          | inr empty ↦ rw empty (put_state-Touches j l _)
        ])
]

pub Touches-trans : (j : ℕ) (l m n : LibEvent) → Touches j l m → Touches j m n → Touches j l n
Touches-trans j l m n f g = record {
  queueback = g.queueback ∙ f.queueback;
  bufqueue_map = g.bufqueue_map ∙ f.bufqueue_map;
  pipe = g.pipe ∙ f.pipe;
  queue_fd = g.queue_fd ∙ f.queue_fd;
  unique = λ u. g.unique (f.unique u);
  state = λ fd other u. g.state fd other (f.unique u) ∙ f.state fd other u;
  wire = λ fd other. g.wire fd other ∙ f.wire fd other;
}

called-Touches :
    (j : ℕ) (l : LibEvent) (calls : List Call) → Touches j l (record l { calls = calls })
called-Touches j l calls = record {
  queueback = refl;
  bufqueue_map = refl;
  pipe = refl;
  queue_fd = refl;
  unique = λ u. u;
  state = λ fd other u. refl;
  wire = λ fd other. refl;
}

-- A read that ends for want of data is a call of the server at most.
end_read_blocked :
    (j : ℕ) (l : LibEvent) (s : FdState) (b : Option (List ℕ))
    → (calls : List Call) × (end_read l j s b would_block ≡ record l { calls = calls })
unfolding end_read
end_read_blocked j l s none = (l.calls, refl)
end_read_blocked j l s (some bytes) = elim (Bool-cases l.has_callback) [
  | inl callback ↦ (l.calls ++ (data_receive j bytes s.listen_port ∷ []), rw callback refl)
  | inr alone ↦ (l.calls, rw alone refl)
]

pub do_read_blocked :
    (j : ℕ) (l : LibEvent) (pieces : List (List ℕ))
    → (calls : List Call) × (do_read l j pieces would_block ≡ record l { calls = calls })
unfolding do_read
do_read_blocked j l pieces = elim (Option-cases (get_state l.states j)) [
  | inl unknown ↦ (l.calls, rw (unknown, do_read) refl)
  | inr (s, found) ↦
      let (calls, same) = end_read_blocked j l s (gather none pieces) in
      (calls, rw (found, do_read) same)
]

end_read-Touches :
    (j : ℕ) (l : LibEvent) (s : FdState) (b : Option (List ℕ)) (stop : ReadEnd)
    → Touches j l (end_read l j s b stop)
unfolding end_read
end_read-Touches j l s b would_block =
    let (calls, same) = end_read_blocked j l s b in rw same (called-Touches j l calls)
end_read-Touches j l s none shut_down = free_fd_state-Touches j l
end_read-Touches j l s (some b) shut_down = free_fd_state-Touches j l
end_read-Touches j l s none ReadEnd.failed = free_fd_state-Touches j l
end_read-Touches j l s (some b) ReadEnd.failed = free_fd_state-Touches j l

pub do_read-Touches :
    (j : ℕ) (l : LibEvent) (pieces : List (List ℕ)) (stop : ReadEnd)
    → Touches j l (do_read l j pieces stop)
unfolding do_read
do_read-Touches j l pieces stop = elim (Option-cases (get_state l.states j)) [
  | inl unknown ↦ rw (unknown, do_read) (Touches-refl j l)
  | inr (s, found) ↦ rw (found, do_read) (end_read-Touches j l s (gather none pieces) stop)
]
