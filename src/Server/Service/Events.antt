-- ===== src/Server/Service/Events.antt =====
-- What is seen of a step of the server: the events of a run, and the state of the service that shows.
use csfassignment.Base.{ℕ, List, [], ◌∷◌, Option, none, some}
use csfassignment.Csapp.{Csapp}
use csfassignment.Queue.{got, nothing, undefined}
use csfassignment.Heap.{Store, lookup}
use csfassignment.Server.Program.{
  Op, Answer, makes_user, finds_room, adds, removes, dequeues, answer,
}
use csfassignment.Server.System.{
  System, machine, Step, accepts, turns, opens, delivers, closes, moves, Reach, start, later,
}
use csfassignment.Server.Service.{
  Service, Event, signs_up, founds, enters, leaves, posts, takes, rests,
}
use csfassignment.Server.Service.Matches.{jobs_of, Matches}

-- What is seen of a call with this answer.
abbrev pub event_of : (o : Op) → Answer o → Store → Event
event_of (makes_user n) a s = signs_up a n
event_of (finds_room n) a s = elim (lookup n s.room_map) [ none ↦ founds a n | some r ↦ rests ]
event_of (adds r u) a s = enters u r
event_of (removes r u) a s = leaves u r
event_of (dequeues u) a s = elim a [ got m ↦ takes u m | nothing ↦ rests | undefined ↦ rests ]
event_of o a s = rests

module _ {W B : Type 0} (lib : Csapp W B) (clock : W → Option ℕ) (raw : B) (fuel : ℕ) where
  -- What is seen of a step: calls as above, and a broadcast when the thread takes the lock.
  abbrev pub event : {s t : System W B} → Step lib clock raw fuel s t → Event
  event (accepts i fd ok free) = rests
  event {s} (turns i c o k free running) = event_of o (answer lib clock o (machine s c)) s.store
  event (opens i c r n t k free running) = posts r n t
  event (delivers i c r n t k u rest running) = rests
  event (closes i c r n t k running) = rests
  event (moves w) = rests

  -- The events of a run, the last one first.
  abbrev pub events : {w : W} {s : System W B} → Reach lib clock raw fuel w s → List Event
  events start = []
  events (later r st) = event st ∷ events r

  -- The state of the server stands for a state of the service.
  abbrev pub Shows : System W B → Service → Type 0
  Shows s a = Matches s.store s.holder (jobs_of s.threads) a
