-- ===== src/Server/Service.antt =====
-- What the server promises its clients, with no queue, no semaphore, no lock and no thread: names,
-- rooms with their members, one log of all posts in their order, and what each user has taken so far.
pub mod Matches
pub mod Views
pub mod Calls
pub mod Jobs
pub mod Events
pub mod Opening
pub mod Rounds
pub mod Closing
pub mod Refinement
pub mod Order
pub mod Access
use csfassignment.Base.{
  ℕ, ◌≡◌, refl, Bool, true, false, not, ◌&&◌, List, [], ◌∷◌, ◌++◌, append_assoc, Option, none, some,
  Bytes, ◌==◌, if◌then◌else◌, arith,
}
use csfassignment.Text.{str_eq}
use csfassignment.Message.{Message}
use csfassignment.Room.{delivery}
use csfassignment.Server.System.{update}

-- A message and the users that it is for.
pub record Post : Type 0 where
  pub reaches : ℕ → Bool
  pub message : Message

-- The messages of a log that are for a user.
abbrev pub inbox : ℕ → List Post → List Message
inbox u [] = []
inbox u (p ∷ log) = if p.reaches u then p.message ∷ inbox u log else inbox u log

-- The names of users and rooms; whether a user is a member of a room; the log; what each user took.
pub record Service : Type 0 where
  pub names : ℕ → Option Bytes
  pub titles : ℕ → Option Bytes
  pub members : (user room : ℕ) → Bool
  pub log : List Post
  pub taken : ℕ → List Message

abbrev pub empty_service : Service
empty_service = record {
  names = λ _. none;
  titles = λ _. none;
  members = λ _ _. false;
  log = [];
  taken = λ _. [];
}

-- There is a user, and the user's name is another one.
abbrev pub differs : Option Bytes → Bytes → Bool
differs none sender = false
differs (some name) sender = not (str_eq name sender)

-- A post is for the members of the room at that time, but those of the sender's name.
abbrev pub post : Service → ℕ → (title sender text : Bytes) → Post
post a r title sender text = record {
  reaches = λ u. a.members u r && differs (a.names u) sender;
  message = delivery title sender text;
}

-- What happens, as the clients see it.
pub data Event : Type 0 where
  signs_up : ℕ → Bytes → Event
  founds : ℕ → Bytes → Event
  enters leaves : (user room : ℕ) → Event
  posts : (room : ℕ) → (sender text : Bytes) → Event
  takes : ℕ → Message → Event
  rests : Event

abbrev pub set_member : ℕ → ℕ → Bool → (ℕ → ℕ → Bool) → ℕ → ℕ → Bool
set_member u r b f v q = if (v == u) && (r == q) then b else f v q

-- A new user and a new room have names that nobody had; a user enters a room from outside all rooms
-- and leaves the room that it is in; a member posts to its room; a user takes the first message of its inbox that it has not
-- taken.
pub data Act (a : Service) : Event → Service → Type 0 where
  signing :
      (u : ℕ) (name : Bytes)
      → a.names u ≡ none
      → Act a (signs_up u name) (record a { names = update a.names u (some name) })
  founding :
      (r : ℕ) (title : Bytes)
      → a.titles r ≡ none
      → Act a (founds r title) (record a { titles = update a.titles r (some title) })
  entering :
      (u r : ℕ)
      → ((q : ℕ) → a.members u q ≡ false)
      → Act a (enters u r) (record a { members = set_member u r true a.members })
  leaving :
      (u r : ℕ)
      → a.members u r ≡ true
      → Act a (leaves u r) (record a { members = set_member u r false a.members })
  posting :
      (u r : ℕ) (title sender text : Bytes)
      → a.titles r ≡ some title
      → a.members u r ≡ true
      → Act a (posts r sender text) (record a { log = a.log ++ post a r title sender text ∷ [] })
  taking :
      (u : ℕ) (m : Message) (rest : List Message)
      → inbox u a.log ≡ a.taken u ++ m ∷ rest
      → Act a (takes u m) (record a { taken = update a.taken u (a.taken u ++ m ∷ []) })
  idling : Act a rests a

-- The states that a list of events leads to, the last event first.
pub data Runs : List Event → Service → Type 0 where
  begins : Runs [] empty_service
  goes :
      {events : List Event} {e : Event} {a b : Service}
      → Runs events a
      → Act a e b
      → Runs (e ∷ events) b

inbox-append :
    (u : ℕ) (log : List Post) (p : Post)
    → inbox u (log ++ p ∷ []) ≡ inbox u log ++ (if p.reaches u then p.message ∷ [] else [])
inbox-append u [] p = refl
inbox-append u (q ∷ log) p = ground (arith, inbox-append u log p)
