-- ===== src/Tests/Locking.antt =====
-- An example for the order of locks.
use csfassignment.Base.{◌≢◌, refl, [], ◌∷◌, none}
use csfassignment.Server.System.{update}
use csfassignment.Locks.{
  Locks, enters, Reach, start, later, broadcasting, changing_members, locks_of, guarded,
}
use csfassignment.Locks.Progress.{Goes, no_deadlock}

-- Thread 0 is about to send a message to the members of room 3 while thread 1 wants to leave it.
abbrev contended : Locks
contended = record {
  holder = λ _. none;
  todo =
      update (update (λ _. []) 0 (locks_of (broadcasting 3 (5 ∷ [])))) 1
        (locks_of (changing_members 3));
}

contended-Reach : Reach contended
contended-Reach =
    later (later start (enters 0 (broadcasting 3 (5 ∷ [])) refl))
      (enters 1 (changing_members 3) refl)

contended_busy : contended.todo 1 ≢ []
unfolding locks_of guarded
contended_busy e = cc

no_deadlock_example : Goes contended
no_deadlock_example = no_deadlock 1 contended-Reach contended_busy
