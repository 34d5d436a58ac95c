-- ===== src/Server/Boss/Order.antt =====
-- src/yymm_svr/yymms_svr.cpp: the order in which a connection's buffers are processed.
use native.Mathlib.Nat.{mod-lt}
use mms_svr.Server.Boss.Wakeups.{raise_lem}
use mms_svr.Server.Boss.Threads.{init-IsFresh}
use mms_svr.Prelude.{
  inr, inl, ℕ, ◌%◌, ◌<◌, ◌≡◌, refl, sym, ap, ◌∙◌, List, [], ◌∷◌, ◌++◌, append_assoc, append-nil,
  some, Bool, true, false, ◌==◌, if◌then◌else◌, length, rest_of, All, arith, Bool-cases, ==_iff,
  List-cases, ne_of_false,
}
use mms_svr.Prelude.Int.{pos, int_eq}
use mms_svr.Queues.Bossmultiworker.{pop_front}
use mms_svr.Server.Boss.{
  Pool, woken, BossInfo, is_usable, init, data_receive, post, wake, work, take_job, process_done,
  Step, receives, posts, raises, wakes, works, finishes, Reach, here, later,
}
use mms_svr.Server.Boss.Wakeups.{
  jobs, jobs-push, jobs-pop, held, flag, Balanced, Step-Balanced, init-Balanced,
}

-- The buffers of one connection.
abbrev pub of_fd : ℕ → List BossInfo → List BossInfo
of_fd j [] = []
of_fd j (info ∷ rest) = if info.fd == j then info ∷ of_fd j rest else of_fd j rest

of_fd-append : (j : ℕ) (xs ys : List BossInfo) → of_fd j (xs ++ ys) ≡ of_fd j xs ++ of_fd j ys
of_fd-append j [] ys = refl
of_fd-append j (x ∷ xs) ys = ground (arith, of_fd-append j xs ys)

-- A job stands in the queue of its connection's worker, and is one that the worker processes.
abbrev pub IsPlaced : ℕ → ℕ → BossInfo → Type 0
IsPlaced n i info = (info.fd % n ≡ i) × ((info.fd == 0) ≡ false → is_usable info ≡ true)

pub record Ordered (n : ℕ) (s : Pool) : Type 0 where
  pub balanced : Balanced n s
  pub placed : (i : ℕ) → i < n → All (IsPlaced n i) (jobs s i)
  pub in_order :
      (j : ℕ)
      → (j == 0) ≡ false
      → of_fd j s.started ++ of_fd j (jobs s (j % n)) ≡ of_fd j s.received

All-snoc :
    (P : BossInfo → Type 0) (xs : List BossInfo) (x : BossInfo)
    → All P xs
    → P x
    → All P (xs ++ (x ∷ []))
All-snoc P [] x h p = (p, tt)
All-snoc P (y ∷ xs) x h p = (h.0, All-snoc P xs x h.1 p)

All-rest_of : (P : BossInfo → Type 0) (xs : List BossInfo) → All P xs → All P (rest_of xs)
All-rest_of P [] h = tt
All-rest_of P (x ∷ xs) h = h.1

of_fd-snoc :
    (j : ℕ) (xs : List BossInfo) (x : BossInfo)
    → of_fd j (xs ++ (x ∷ [])) ≡ (if x.fd == j then of_fd j xs ++ (x ∷ []) else of_fd j xs)
of_fd-snoc j xs x = of_fd-append j xs (x ∷ []) ∙ ground (arith, append-nil (of_fd j xs))

-- A new job keeps the order, behind the others of its connection.
queue_snoc :
    (j : ℕ) (info : BossInfo) (its : Bool) (started queue received : List BossInfo)
    → (info.fd ≡ j → its ≡ true)
    → of_fd j started ++ of_fd j queue ≡ of_fd j received
    → of_fd j started ++ of_fd j (if its then queue ++ (info ∷ []) else queue)
      ≡ of_fd j (received ++ (info ∷ []))
queue_snoc j info true started queue received only h = ground (
  arith,
  of_fd-snoc j queue info,
  of_fd-snoc j received info,
  append_assoc (of_fd j started) (of_fd j queue) (info ∷ []),
)
queue_snoc j info false started queue received only h =
    ground (arith, only, of_fd-snoc j received info)

-- So does the front job, when it is started, or dropped as one of no connection.
queue_front :
    (j : ℕ) (x : BossInfo) (its usable : Bool) (started xs queue received : List BossInfo)
    → (its ≡ true → queue ≡ x ∷ xs)
    → (its ≡ false → (x.fd == j) ≡ false)
    → ((x.fd == j) ≡ true → usable ≡ true)
    → of_fd j started ++ of_fd j queue ≡ of_fd j received
    → of_fd j (if usable then started ++ (x ∷ []) else started)
        ++ of_fd j (if its then xs else queue)
      ≡ of_fd j received
queue_front j x true true started xs queue received front away fit h = ground (
  arith,
  front refl,
  of_fd-snoc j started x,
  append_assoc (of_fd j started) (x ∷ []) (of_fd j xs),
)
queue_front j x true false started xs queue received front away fit h =
    ground (arith, front refl, fit)
queue_front j x false true started xs queue received front away fit h =
    ground (arith, away refl, of_fd-snoc j started x)
queue_front j x false false started xs queue received front away fit h = h

pub init-Ordered : (n : ℕ) → 0 < n → Ordered n (init n)
init-Ordered n h = record {
  balanced = init-Balanced n h;
  placed = λ i lt. rw (init-IsFresh n i lt).empty tt;
  in_order = λ j real. rw (init-IsFresh n (j % n) (mod-lt j h)).empty (unfold init in refl);
}

receive-Ordered :
    (n : ℕ) (s : Pool) (bytes : List ℕ) (fd port : ℕ)
    → Ordered n s
    → Balanced n (data_receive n s (record { buf = some bytes; fd = fd; port = port }))
    → Ordered n (data_receive n s (record { buf = some bytes; fd = fd; port = port }))
receive-Ordered n s bytes fd port v after = record {
  balanced = after;
  placed = λ i lt. rw (jobs-push n s info i v.balanced) (placed_after i lt);
  in_order = λ j real.
      rw (jobs-push n s info (j % n) v.balanced) (unfold data_receive in order_after j real);
}
  where
    info : BossInfo
    info = record { buf = some bytes; fd = fd; port = port }

    usable : (fd == 0) ≡ false → is_usable info ≡ true
    usable real = rw real refl

    placed_after :
        (i : ℕ)
        → i < n
        → All (IsPlaced n i) (if fd % n == i then jobs s i ++ (info ∷ []) else jobs s i)
    placed_after i lt = elim (Bool-cases (fd % n == i)) [
      | inl same ↦
          rw same
            (All-snoc (IsPlaced n i) (jobs s i) info (v.placed i lt) ((==_iff _ i).0 same, usable))
      | inr other ↦ rw other (v.placed i lt)
    ]

    order_after :
        (j : ℕ)
        → (j == 0) ≡ false
        → of_fd j s.started
            ++ of_fd j (if fd % n == j % n then jobs s (j % n) ++ (info ∷ []) else jobs s (j % n))
          ≡ of_fd j (s.received ++ (info ∷ []))
    order_after j real =
        queue_snoc j info (fd % n == j % n) s.started (jobs s (j % n)) s.received
          (λ e. (==_iff (fd % n) (j % n)).1 (ap (λ (k : ℕ). k % n) e)) (v.in_order j real)

take-Ordered :
    (n : ℕ) (s : Pool) (i : ℕ)
    → i < n
    → 0 < length (jobs s i)
    → Ordered n s
    → Balanced n (take_job s i)
    → Ordered n (take_job s i)
unfolding take_job
take-Ordered n s i lt some_job v after = elim (List-cases (jobs s i)) [
  | inl empty ↦ absurd (omega (arith, ap length empty))
  | inr (x, xs, full) ↦ record {
    balanced = after;
    placed = λ k lt'. rw (jobs-pop s i k) (placed_after k lt');
    in_order = λ j real.
        rw (jobs-pop s i (j % n), pop_front s.boss (pos i) x xs full)
          (order_after x xs full j real);
  }
]
  where
    placed_after :
        (k : ℕ) → k < n → All (IsPlaced n k) (if i == k then rest_of (jobs s k) else jobs s k)
    placed_after k lt' = elim (Bool-cases (i == k)) [
      | inl same ↦ rw same (All-rest_of (IsPlaced n k) (jobs s k) (v.placed k lt'))
      | inr other ↦ rw other (v.placed k lt')
    ]

    front_placed : (x : BossInfo) (xs : List BossInfo) → jobs s i ≡ x ∷ xs → IsPlaced n i x
    front_placed x xs full = (rw full at (v.placed i lt)).0

    order_after :
        (x : BossInfo) (xs : List BossInfo)
        → jobs s i ≡ x ∷ xs
        → (j : ℕ) → (j == 0) ≡ false
        → of_fd j (if is_usable x then s.started ++ (x ∷ []) else s.started)
            ++ of_fd j (if i == j % n then rest_of (jobs s (j % n)) else jobs s (j % n))
          ≡ of_fd j s.received
    order_after x xs full j real =
        queue_front j x (i == j % n) (is_usable x) s.started (rest_of (jobs s (j % n)))
          (jobs s (j % n)) s.received
          (λ same.
            let q : jobs s (j % n) ≡ x ∷ xs = rw (← (==_iff i (j % n)).0 same) full in
            q ∙ ap (λ (l : List BossInfo). x ∷ rest_of l) (sym q))
          (λ other. elim (Bool-cases (x.fd == j)) [
            | inl same ↦ absurd (
                ne_of_false i (j % n) other
                  (sym (front_placed x xs full).0 ∙ ap (λ (k : ℕ). k % n) ((==_iff x.fd j).0 same)))
            | inr apart ↦ apart
          ])
          (λ same. (front_placed x xs full).1 (rw ((==_iff x.fd j).0 same) real))
          (v.in_order j real)

work-Ordered :
    (n : ℕ) (s : Pool) (i : ℕ)
    → i < n
    → s.pc i ≡ woken
    → Ordered n s
    → Balanced n (work s i)
    → Ordered n (work s i)
unfolding work
work-Ordered n s i lt at v after = elim (Bool-cases (s.exitflag i)) [
  | inl down ↦
      rw (down, work)
        (record { balanced = rw (down, work) at after; placed = v.placed; in_order = v.in_order })
  | inr up ↦
      rw (up, work)
        (take-Ordered n s i lt (omega (arith, v.balanced.counted i lt, ap held at, ap flag up)) v
          (rw (up, work) at after))
]

pub Step-Ordered : {n : ℕ} {s t : Pool} → Step n s t → Ordered n s → Balanced n t → Ordered n t
unfolding post wake process_done
Step-Ordered {n} {s} (receives bytes fd port free running) v after =
    receive-Ordered n s bytes fd port v after
Step-Ordered (posts i at) v after = record {
  balanced = after;
  placed = v.placed;
  in_order = v.in_order;
}
Step-Ordered {n} {s} (raises i lt free down) v after =
    let raised = raise_lem n s i lt v.balanced in
    rw raised (record { balanced = rw raised at after; placed = v.placed; in_order = v.in_order })
Step-Ordered (wakes i lt at some_post) v after = record {
  balanced = after;
  placed = v.placed;
  in_order = v.in_order;
}
Step-Ordered {n} {s} (works i lt at) v after = work-Ordered n s i lt at v after
Step-Ordered (finishes i info lt at) v after = record {
  balanced = after;
  placed = v.placed;
  in_order = v.in_order;
}

pub Reach-Ordered : {n : ℕ} {s t : Pool} → Ordered n s → Reach n s t → Ordered n t
Reach-Ordered v here = v
Reach-Ordered v (later r st) =
    let v' = Reach-Ordered v r in Step-Ordered st v' (Step-Balanced st v'.balanced)

-- With at least one worker, in every state that the threads reach, however they interleave, the
-- buffers of a connection, not descriptor 0, whose processing was started, followed by those that
-- wait in its worker's queue, are those that were received from it, in this order.
pub connection_order :
    {n : ℕ} {s : Pool} (fd : ℕ)
    → 0 < n
    → Reach n (init n) s
    → (fd == 0) ≡ false
    → of_fd fd s.started ++ of_fd fd (jobs s (fd % n)) ≡ of_fd fd s.received
connection_order {n} fd some_worker r real =
    (Reach-Ordered (init-Ordered n some_worker) r).in_order fd real
