-- ===== src/Locks/Order.antt =====
-- The ranks of the locks, and the order in which an operation takes and gives back its own.
use csfassignment.Base.{
  ℕ, ◌<◌, ◌≡◌, refl, ap, Bool, true, false, ◌||◌, List, [], ◌∷◌, ◌++◌, All, ==_refl, ==_iff,
  Bool-cases, inl, inr, arith,
}
use csfassignment.Locks.{
  Lock, server_lock, room_lock, queue_lock, Action, acquire, release, Operation, finding_room,
  changing_members, broadcasting, dequeueing, enqueue_locks, guarded, locks_of, lock_eq,
}

-- A queue is locked inside a room, never the other way round.
abbrev pub rank : Lock → ℕ
rank server_lock = 0
rank (room_lock r) = 0
rank (queue_lock u) = 1

pub lock_eq_refl : (l : Lock) → lock_eq l l ≡ true
lock_eq_refl server_lock = refl
lock_eq_refl (room_lock r) = ==_refl r
lock_eq_refl (queue_lock u) = ==_refl u

pub lock_eq_sound : (k l : Lock) → lock_eq k l ≡ true → k ≡ l
lock_eq_sound server_lock server_lock h = refl
lock_eq_sound server_lock (room_lock q) h = cc
lock_eq_sound server_lock (queue_lock v) h = cc
lock_eq_sound (room_lock r) server_lock h = cc
lock_eq_sound (room_lock r) (room_lock q) h = ap room_lock ((==_iff r q).0 h)
lock_eq_sound (room_lock r) (queue_lock v) h = cc
lock_eq_sound (queue_lock u) server_lock h = cc
lock_eq_sound (queue_lock u) (room_lock q) h = cc
lock_eq_sound (queue_lock u) (queue_lock v) h = ap queue_lock ((==_iff u v).0 h)

abbrev pub has_lock : Lock → List Lock → Bool
has_lock l [] = false
has_lock l (k ∷ held) = lock_eq k l || has_lock l held

-- What a thread that holds these locks may do: each lock that it takes is of a higher rank than
-- those that it holds, each lock that it gives back is the last one taken, and in the end it holds
-- none.
abbrev pub Nested : List Lock → List Action → Type 0
Nested held [] = held ≡ []
Nested held (acquire l ∷ rest) = All (λ k. rank k < rank l) held × Nested (l ∷ held) rest
Nested [] (release l ∷ rest) = ⊥
Nested (k ∷ held) (release l ∷ rest) = (k ≡ l) × Nested held rest

-- The locks held are of descending ranks.
abbrev pub Stacked : List Lock → Type 0
Stacked [] = Unit
Stacked (k ∷ held) = All (λ j. rank j < rank k) held × Stacked held

pub below_absent :
    (l : Lock) (held : List Lock) → All (λ j. rank j < rank l) held → has_lock l held ≡ false
below_absent l [] h = refl
below_absent l (k ∷ held) h = elim (Bool-cases (lock_eq k l)) [
  | inl same ↦ absurd (omega (arith, h.0, ap rank (lock_eq_sound k l same)))
  | inr other ↦ rw other (below_absent l held h.1)
]

enqueue_locks-Nested :
    (r : ℕ) (users : List ℕ)
    → Nested (room_lock r ∷ []) (enqueue_locks users ++ release (room_lock r) ∷ [])
unfolding enqueue_locks
enqueue_locks-Nested r [] = (refl, refl)
enqueue_locks-Nested r (u ∷ users) = ((omega arith, tt), (refl, enqueue_locks-Nested r users))

-- Every operation takes its locks in the order of their ranks and gives all of them back.
pub locks_of-Nested : (o : Operation) → Nested [] (locks_of o)
unfolding locks_of guarded
locks_of-Nested finding_room = (tt, (refl, refl))
locks_of-Nested (changing_members r) = (tt, (refl, refl))
locks_of-Nested (broadcasting r users) = (tt, enqueue_locks-Nested r users)
locks_of-Nested (dequeueing u) = (tt, (refl, refl))
