-- ===== src/Event/Run/Messages.antt =====
-- src/event/event_msgqueue.h: what the messages are in the pipe, and what they leave alone.
use mms_svr.Prelude.{
  ℕ, zero, suc, ◌+◌, ◌<◌, ◌≡◌, refl, ◌∙◌, List, [], ◌∷◌, ◌++◌, true, false, ◌==◌, take, arith,
  if◌then◌else◌, inl, inr, Bool-cases,
}
use mms_svr.Event.{LibEvent, Sent, sent_bytes, message_of, message_sent, msg_send, write_event_flag}
use mms_svr.Event.Notify.{msg_send-open_pair, msg_send_shut}
use mms_svr.Event.Run.{Passes}

-- How many messages of the writer are in the pipe.
abbrev pub messages : List ℕ → ℕ
messages [] = 0
messages (flag ∷ rest) = if flag == write_event_flag then suc (messages rest) else messages rest

pub messages-append : (xs ys : List ℕ) → messages (xs ++ ys) ≡ messages xs + messages ys
messages-append [] ys = omega arith
messages-append (x ∷ xs) ys = ground (arith, messages-append xs ys)

-- The message of a flag counts as one for the writer, as soon as its first byte passes.
messages-take : (flag n : ℕ) → 0 < n → messages (take n (message_of flag)) ≡ messages (flag ∷ [])
messages-take flag zero pos = absurd (omega arith)
messages-take flag (suc zero) pos = refl
messages-take flag (suc (suc zero)) pos = refl
messages-take flag (suc (suc (suc zero))) pos = refl
messages-take flag (suc (suc (suc (suc n)))) pos = rw (no_more n) refl
  where
    no_more : (k : ℕ) → ◌≡◌ {A = List ℕ} (take k []) []
    no_more zero = refl
    no_more (suc k) = refl

pub passed :
    (l : LibEvent) (flag : ℕ) (answer : Sent)
    → l.queue_fd ≡ true
    → Passes answer
    → (bytes : List ℕ) × (msg_send l flag answer ≡ record l { pipe = l.pipe ++ bytes })
      × (messages bytes ≡ messages (flag ∷ []))
unfolding message_sent
passed l flag Sent.again pair h = elim h [ ]
passed l flag Sent.failed pair h = elim h [ ]
passed l flag (sent_bytes n) pair h = (
  take n (message_of flag),
  msg_send-open_pair l flag (sent_bytes n) pair ∙ rw (positive n h) refl,
  messages-take flag n h,
)
  where
    positive : (n : ℕ) → 0 < n → (n == 0) ≡ false
    positive n h = ground arith

-- What a message leaves alone, whatever `send` answers.
pub record Leaves (l l' : LibEvent) : Type 0 where
  pub states : l'.states ≡ l.states
  pub wire : l'.wire ≡ l.wire
  pub bufqueue_map : l'.bufqueue_map ≡ l.bufqueue_map
  pub queueback : l'.queueback ≡ l.queueback

pub msg_send-Leaves : (l : LibEvent) (flag : ℕ) (answer : Sent) → Leaves l (msg_send l flag answer)
unfolding message_sent
msg_send-Leaves l flag answer = elim (Bool-cases l.queue_fd) [
  | inr shut ↦
      rw (msg_send_shut l flag answer shut)
        (record { states = refl; wire = refl; bufqueue_map = refl; queueback = refl })
  | inl pair ↦ rw (msg_send-open_pair l flag answer pair) (by_answer answer)
]
  where
    by_answer : (a : Sent) → Leaves l (message_sent l flag a)
    by_answer Sent.again = record {
      states = refl;
      wire = refl;
      bufqueue_map = refl;
      queueback = refl;
    }
    by_answer Sent.failed = record {
      states = refl;
      wire = refl;
      bufqueue_map = refl;
      queueback = refl;
    }
    by_answer (sent_bytes n) = elim (Bool-cases (n == 0)) [
      | inl e ↦ rw e (record { states = refl; wire = refl; bufqueue_map = refl; queueback = refl })
      | inr e ↦ rw e (record { states = refl; wire = refl; bufqueue_map = refl; queueback = refl })
    ]
