-- ===== src/Queue.antt =====
-- message_queue.h and message_queue.cpp: the semaphore, the deque, and the two operations as the
-- critical sections that they are made of. The mutex is held for one section at a time, so a
-- section is one function.
pub mod Fifo
pub mod Threads
pub mod Atomic
use csfassignment.Base.{ℕ, zero, suc, ◌+◌, List, [], ◌∷◌, ◌++◌, Option, none, some}
use csfassignment.Message.{Message}

-- `m_avail` and `m_messages`; the head of the list is the front of the deque.
pub record MessageQueue : Type 0 where
  pub avail : ℕ
  pub messages : List Message

abbrev pub new_queue : MessageQueue
new_queue = record { avail = 0; messages = [] }

-- `push_back` under the lock.
abbrev pub push_back : Message → MessageQueue → MessageQueue
push_back m q = record q { messages = q.messages ++ m ∷ [] }

-- `sem_post`
abbrev pub post : MessageQueue → MessageQueue
post q = record q { avail = q.avail + 1 }

unfoldable pub enqueue : Message → MessageQueue → MessageQueue
enqueue m q = post (push_back m q)

-- `sem_timedwait` on the count of the semaphore: it takes one if there is one, and otherwise fails at
-- the deadline. What other threads post while it waits is posted before this step.
abbrev pub sem_timedwait : ℕ → ℕ → Option ℕ
sem_timedwait deadline zero = none
sem_timedwait deadline (suc n) = some n

-- What a call of `dequeue` yields. `front()` and `pop_front()` of an empty deque are undefined.
pub data Fetch : Type 0 where
  nothing undefined : Fetch
  got : Message → Fetch

-- `front` and `pop_front` under the lock.
abbrev pub pop_front : List Message → Fetch × List Message
pop_front [] = (undefined, [])
pop_front (m ∷ ms) = (got m, ms)

-- The second half of `dequeue`, after the semaphore was taken.
unfoldable pub fetch : MessageQueue → Fetch × MessageQueue
fetch q = let (r, ms) = pop_front q.messages in (r, record q { messages = ms })

-- `clock_gettime` is an argument: the seconds, or `none` if it fails.
unfoldable pub dequeue : Option ℕ → MessageQueue → Fetch × MessageQueue
unfolding fetch
dequeue none q = (nothing, q)
dequeue (some seconds) q = elim (sem_timedwait (seconds + 1) q.avail) [
  | none ↦ (nothing, q)
  | some left ↦ fetch (record q { avail = left })
]
