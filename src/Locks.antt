-- ===== src/Locks.antt =====
-- guard.h, and the locks that the operations of room.cpp, message_queue.cpp and server.cpp take: the
-- order in which any number of threads lock and unlock. No operation waits for a semaphore or for the
-- network while it holds a lock.
pub mod Order
pub mod Invariant
pub mod Progress
use csfassignment.Base.{
  ℕ, ◌≡◌, Bool, true, false, ◌∷◌, List, [], ◌++◌, Option, none, some, ◌==◌, if◌then◌else◌,
}
use csfassignment.Server.System.{update}

-- The lock of the server, of a room and of a user's queue.
pub data Lock : Type 0 where
  server_lock : Lock
  room_lock queue_lock : ℕ → Lock

pub data Action : Type 0 where
  acquire release : Lock → Action

-- A `Guard` on a lock round these actions: the constructor locks, the destructor unlocks.
unfoldable pub guarded : Lock → List Action → List Action
guarded l inner = acquire l ∷ (inner ++ release l ∷ [])

-- The operations that lock. The users of a broadcast are those that get the message.
pub data Operation : Type 0 where
  finding_room : Operation
  changing_members : (room : ℕ) → Operation
  broadcasting : (room : ℕ) → (users : List ℕ) → Operation
  dequeueing : (user : ℕ) → Operation

-- The lock and the unlock of `enqueue`, for each user in turn.
unfoldable pub enqueue_locks : List ℕ → List Action
enqueue_locks [] = []
enqueue_locks (u ∷ users) = acquire (queue_lock u) ∷ release (queue_lock u) ∷ enqueue_locks users

-- What an operation locks and unlocks, in order.
unfoldable pub locks_of : Operation → List Action
unfolding guarded enqueue_locks
locks_of finding_room = guarded server_lock []
locks_of (changing_members r) = guarded (room_lock r) []
locks_of (broadcasting r users) = guarded (room_lock r) (enqueue_locks users)
locks_of (dequeueing u) = acquire (queue_lock u) ∷ release (queue_lock u) ∷ []

abbrev pub lock_eq : Lock → Lock → Bool
lock_eq server_lock server_lock = true
lock_eq (room_lock r) (room_lock q) = r == q
lock_eq (queue_lock u) (queue_lock v) = u == v
lock_eq k l = false

-- Who holds each lock, and what each thread has left of the operation that it is in.
pub record Locks : Type 0 where
  pub holder : Lock → Option ℕ
  pub todo : ℕ → List Action

abbrev pub unlocked : Locks
unlocked = record { holder = λ _. none; todo = λ _. [] }

abbrev pub set_holder : Lock → Option ℕ → (Lock → Option ℕ) → Lock → Option ℕ
set_holder l v f k = if lock_eq l k then v else f k

pub data Step (s : Locks) : Locks → Type 0 where
  -- a thread that is in no operation enters one
  enters :
      (i : ℕ) (o : Operation)
      → s.todo i ≡ []
      → Step s (record s { todo = update s.todo i (locks_of o) })
  -- `pthread_mutex_lock`, which waits until the lock is free
  locks :
      (i : ℕ) (l : Lock) (rest : List Action)
      → s.todo i ≡ acquire l ∷ rest
      → s.holder l ≡ none
      → Step s (record { holder = set_holder l (some i) s.holder; todo = update s.todo i rest })
  -- `pthread_mutex_unlock`
  unlocks :
      (i : ℕ) (l : Lock) (rest : List Action)
      → s.todo i ≡ release l ∷ rest
      → Step s (record { holder = set_holder l none s.holder; todo = update s.todo i rest })

pub data Reach : Locks → Type 0 where
  start : Reach unlocked
  later : {s t : Locks} → Reach s → Step s t → Reach t
