-- ===== src/Queue/Threads.antt =====
-- Any number of threads on one queue, a critical section or a semaphore operation at a time.
use csfassignment.Base.{
  ℕ, suc, ◌+◌, ◌<◌, ◌≡◌, refl, ap, ◌∙◌, sym, List, [], ◌∷◌, ◌++◌, append_assoc, some, length,
  length-append, arith,
}
use csfassignment.Message.{Message}
use csfassignment.Queue.{
  MessageQueue, new_queue, got, fetch, pop_front, push_back, post, sem_timedwait,
}

-- The queue, the number of threads between `push_back` and `sem_post`, the number of threads between
-- a successful `sem_timedwait` and `pop_front`, and the history of pushes and pops.
pub record Shared : Type 0 where
  pub queue : MessageQueue
  pub posting : ℕ
  pub popping : ℕ
  pub pushed : List Message
  pub popped : List Message

abbrev pub initial : Shared
initial = record { queue = new_queue; posting = 0; popping = 0; pushed = []; popped = [] }

pub data Step (s : Shared) : Shared → Type 0 where
  -- `enqueue`, up to the unlock
  push :
      (m : Message)
      → Step s (record s {
        queue = push_back m s.queue;
        posting = s.posting + 1;
        pushed = s.pushed ++ m ∷ [];
      })
  -- the rest of `enqueue`
  posts : {k : ℕ} → s.posting ≡ suc k → Step s (record s { queue = post s.queue; posting = k })
  -- `dequeue`, up to a successful wait
  waits :
      (deadline : ℕ) {left : ℕ}
      → sem_timedwait deadline s.queue.avail ≡ some left
      → Step s (record s { queue = record (s.queue) { avail = left }; popping = s.popping + 1 })
  -- `dequeue` that returns at the deadline or for want of a clock
  gives_up : Step s s
  -- the rest of `dequeue`
  pops :
      {k : ℕ} (m : Message)
      → s.popping ≡ suc k
      → (fetch s.queue).0 ≡ got m
      → Step s (record s { queue = (fetch s.queue).1; popping = k; popped = s.popped ++ m ∷ [] })

pub data Reach : Shared → Type 0 where
  start : Reach initial
  later : {s t : Shared} → Reach s → Step s t → Reach t

-- The deque holds a message for each count of the semaphore, each pending post and each pending pop,
-- and what was pushed is what was popped and what is still there, in order.
pub record Inv (s : Shared) : Type 0 where
  pub counted : length s.queue.messages ≡ s.queue.avail + s.posting + s.popping
  pub ordered : s.pushed ≡ s.popped ++ s.queue.messages

fetch_got :
    (q : MessageQueue) {m : Message}
    → (fetch q).0 ≡ got m
    → (q.messages ≡ m ∷ (fetch q).1.messages) × ((fetch q).1.avail ≡ q.avail)
unfolding fetch
fetch_got q h = ground arith

pop_front_some : (ms : List Message) → 0 < length ms → (m : Message) × ((pop_front ms).0 ≡ got m)
pop_front_some [] h = elim h [ ]
pop_front_some (m ∷ ms) h = (m, refl)

fetch_some : (q : MessageQueue) → 0 < length q.messages → (m : Message) × ((fetch q).0 ≡ got m)
unfolding fetch
fetch_some q h = pop_front_some q.messages h

pub Step-Inv : {s t : Shared} → Step s t → Inv s → Inv t
Step-Inv {s} (push m) v = record {
  counted = omega (arith, length-append s.queue.messages (m ∷ []), v.counted);
  ordered = ap (λ l. l ++ m ∷ []) v.ordered ∙ append_assoc s.popped s.queue.messages (m ∷ []);
}
Step-Inv (posts e) v = record { counted = omega arith; ordered = v.ordered }
Step-Inv {s} (waits d e) v = record { counted = ground arith; ordered = v.ordered }
Step-Inv gives_up v = v
Step-Inv {s} (pops m e f) v =
    let (front, same) = fetch_got s.queue f in
    record {
      counted = omega (arith, ap length front, v.counted, same);
      ordered =
          v.ordered
          ∙ ap (◌++◌ s.popped) front
          ∙ sym (append_assoc s.popped (m ∷ []) (fetch s.queue).1.messages);
    }

pub Reach-Inv : {s : Shared} → Reach s → Inv s
Reach-Inv start = record { counted = refl; ordered = refl }
Reach-Inv (later r st) = Step-Inv st (Reach-Inv r)

-- In every interleaving of any number of threads, a thread whose wait succeeded finds a message to
-- pop: the undefined case of `front` and `pop_front` is never met.
pub pop_finds_message :
    {s : Shared} {k : ℕ} → Reach s → s.popping ≡ suc k → (m : Message) × ((fetch s.queue).0 ≡ got m)
pop_finds_message {s} r e = fetch_some s.queue (omega (arith, (Reach-Inv r).counted))

-- In every interleaving the messages come out in the order in which they were pushed, each once, and
-- those that have not come out are still in the deque.
pub popped_in_order : {s : Shared} → Reach s → s.pushed ≡ s.popped ++ s.queue.messages
popped_in_order r = (Reach-Inv r).ordered

-- When no thread is inside an operation, the semaphore counts the deque.
pub quiet_counted :
    {s : Shared} → Reach s → s.posting ≡ 0 → s.popping ≡ 0 → s.queue.avail ≡ length s.queue.messages
quiet_counted r e f = omega (arith, (Reach-Inv r).counted)
