-- ===== src/Server/Service/Matches.antt =====
-- When the shared objects, the locks and the broadcasts in progress stand for a state of the service.
use csfassignment.Base.{
  ℕ, ◌≡◌, ◌⊎◌, true, List, [], ◌∷◌, ◌++◌, Option, none, some, Bytes, if◌then◌else◌,
}
use csfassignment.Message.{Message}
use csfassignment.Heap.{Store}
use csfassignment.Room.{has_member, delivery}
use csfassignment.Room.Members.{IsAscending}
use csfassignment.Server.Program.{Program, call, broadcasts}
use csfassignment.Server.Chat.{Exit}
use csfassignment.Server.Effects.{member_of}
use csfassignment.Server.System.{Thread}
use csfassignment.Server.Service.{Service, inbox, differs}

-- A broadcast in progress: the room, the sender, the text and the members still to be sent to.
pub record Job : Type 0 where
  pub room : ℕ
  pub sender : Bytes
  pub text : Bytes
  pub rest : List ℕ

abbrev pub job_at : Option (List ℕ) → Program Exit → Option Job
job_at none p = none
job_at (some rest) (call (broadcasts r n t) k) =
    some (record { room = r; sender = n; text = t; rest = rest })
job_at (some rest) p = none

abbrev pub job_of : {B : Type 0} → Option (Thread B) → Option Job
job_of none = none
job_of (some t) = job_at t.pending t.program

abbrev pub jobs_of : {B : Type 0} → (ℕ → Option (Thread B)) → ℕ → Option Job
jobs_of threads i = job_of (threads i)

abbrev pub name_at : ℕ → Store → Option Bytes
name_at u s = elim (s.users u) [ none ↦ none | some user ↦ some user.username ]

abbrev pub title_at : ℕ → Store → Option Bytes
title_at r s = elim (s.rooms r) [ none ↦ none | some room ↦ some room.room_name ]

abbrev pub queued : ℕ → Store → List Message
queued u s = elim (s.users u) [ none ↦ [] | some user ↦ user.mqueue.messages ]

-- What a broadcast still has to put into a user's queue.
abbrev pub due : Option Bytes → Option Bytes → Bytes → Bytes → List Message
due none name sender text = []
due (some title) name sender text =
    if differs name sender then delivery title sender text ∷ [] else []

-- A broadcast of thread `i` has the lock of its room, and its list is of members of the room.
pub record Busy (s : Store) (holder : ℕ → Option ℕ) (flight : ℕ → List Message) (i : ℕ) (b : Job)
    : Type 0 where
  pub locked : holder b.room ≡ some i
  pub ascending : IsAscending b.rest
  pub inside : (u : ℕ) → has_member u b.rest ≡ true → member_of u b.room s ≡ true
  pub owes :
      (u : ℕ)
      → has_member u b.rest ≡ true
      → flight u ≡ due (title_at b.room s) (name_at u s) b.sender b.text

-- Each user's inbox is what the user has taken, what is in its queue, and what is in flight: what a
-- broadcast in progress will put there.
pub record Matches (s : Store) (holder : ℕ → Option ℕ) (jobs : ℕ → Option Job) (a : Service)
    : Type 0 where
  pub flight : ℕ → List Message
  pub names : (u : ℕ) → a.names u ≡ name_at u s
  pub titles : (r : ℕ) → a.titles r ≡ title_at r s
  pub members : (u r : ℕ) → a.members u r ≡ member_of u r s
  pub queues : (u : ℕ) → inbox u a.log ≡ a.taken u ++ (queued u s ++ flight u)
  pub busy : (i : ℕ) (b : Job) → jobs i ≡ some b → Busy s holder flight i b
  pub flying :
      (u : ℕ)
      → (flight u ≡ []) ⊎ ((i : ℕ) × (b : Job) × (jobs i ≡ some b) × (has_member u b.rest ≡ true))

-- A user is a member of one room at most.
abbrev pub OneRoom : Store → Type 0
OneRoom s = (u q r : ℕ) → member_of u q s ≡ true → member_of u r s ≡ true → q ≡ r
