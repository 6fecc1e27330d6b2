-- ===== src/Queue/Fifo.antt =====
-- The queue of message_queue.cpp as one caller at a time sees it.
use csfassignment.Base.{
  ℕ, zero, suc, ◌≡◌, refl, ap, ap₂, ◌∙◌, sym, List, [], ◌∷◌, ◌++◌, append_assoc, append-nil, none,
  some, length, length-append, arith,
}
use csfassignment.Message.{Message}
use csfassignment.Queue.{MessageQueue, new_queue, enqueue, dequeue, Fetch, nothing, got}

-- The semaphore counts the messages in the deque.
abbrev pub IsCounted : MessageQueue → Type 0
IsCounted q = q.avail ≡ length q.messages

pub enqueue-IsCounted : (m : Message) (q : MessageQueue) → IsCounted q → IsCounted (enqueue m q)
unfolding enqueue
enqueue-IsCounted m q h = omega (arith, length-append q.messages (m ∷ []))

-- What `dequeue` has to do on a queue that holds `ms`.
abbrev pub Serves : List Message → Fetch × MessageQueue → Type 0
Serves [] (r, q) = (r ≡ nothing) × (q.messages ≡ [])
Serves (m ∷ ms) (r, q) = (r ≡ got m) × (q.messages ≡ ms)

dequeue_shape :
    (now : ℕ) (q : MessageQueue) (ms : List Message)
    → q.messages ≡ ms
    → q.avail ≡ length ms
    → Serves ms (dequeue (some now) q) × IsCounted (dequeue (some now) q).1
unfolding dequeue
dequeue_shape now q [] e h = ground arith
dequeue_shape now q (m ∷ ms) e h = ground arith

-- On a counted queue `dequeue` hands out the oldest message, or reports that there is none; it never
-- pops an empty deque, and the count stays right.
pub dequeue_lem :
    (now : ℕ) (q : MessageQueue)
    → IsCounted q
    → Serves q.messages (dequeue (some now) q) × IsCounted (dequeue (some now) q).1
dequeue_lem now q h = dequeue_shape now q q.messages refl h

-- If the clock cannot be read, nothing is taken.
pub dequeue_no_clock : (q : MessageQueue) → dequeue none q ≡ (nothing, q)
unfolding dequeue
dequeue_no_clock q = refl

pub enqueue_all : List Message → MessageQueue → MessageQueue
enqueue_all [] q = q
enqueue_all (m ∷ ms) q = enqueue_all ms (enqueue m q)

-- `n` calls of `dequeue`, and what they yield.
pub dequeue_all : ℕ → ℕ → MessageQueue → List Fetch
dequeue_all now zero q = []
dequeue_all now (suc n) q = let (r, q') = dequeue (some now) q in r ∷ dequeue_all now n q'

abbrev pub deliveries : List Message → List Fetch
deliveries [] = []
deliveries (m ∷ ms) = got m ∷ deliveries ms

enqueue_all_lem :
    (ms : List Message) (q : MessageQueue)
    → IsCounted q
    → IsCounted (enqueue_all ms q) × ((enqueue_all ms q).messages ≡ q.messages ++ ms)
unfolding enqueue_all enqueue
enqueue_all_lem [] q h = (h, sym (append-nil q.messages))
enqueue_all_lem (m ∷ ms) q h =
    let (counted, contents) = enqueue_all_lem ms (enqueue m q) (enqueue-IsCounted m q h) in
    (counted, contents ∙ append_assoc q.messages (m ∷ []) ms)

dequeue_all_lem :
    (now : ℕ) (ms : List Message) (q : MessageQueue)
    → IsCounted q
    → q.messages ≡ ms
    → dequeue_all now (length ms) q ≡ deliveries ms
unfolding dequeue_all
dequeue_all_lem now [] q h e = refl
dequeue_all_lem now (m ∷ ms) q h e =
    let ((first, rest), counted) = dequeue_shape now q (m ∷ ms) e (h ∙ ap length e) in
    ap₂ ◌∷◌ first (dequeue_all_lem now ms (dequeue (some now) q).1 counted rest)

-- Messages that are put into an empty queue come out once each, in the same order.
pub dequeue_all-enqueue_all :
    (now : ℕ) (ms : List Message)
    → dequeue_all now (length ms) (enqueue_all ms new_queue) ≡ deliveries ms
dequeue_all-enqueue_all now ms =
    let (counted, contents) = enqueue_all_lem ms new_queue refl in
    dequeue_all_lem now ms (enqueue_all ms new_queue) counted contents
