-- ===== src/Server/Places.antt =====
-- Where a client thread's user is while a program runs, and what the program may do from there.
use csfassignment.Base.{ℕ, ◌≡◌, true, List, ◌∷◌}
use csfassignment.Queue.{Fetch}
use csfassignment.Room.{has_member}
use csfassignment.Server.Program.{
  Program, done, call, ◌>>=◌, Answer, makes_user, finds_room, adds, removes, broadcasts, dequeues,
}

-- The thread has no user yet, its user is in no room, or its user is in a room.
pub data Place : Type 0 where
  outside : Place
  lobby : (user : ℕ) → Place
  inside : (user room : ℕ) → Place

-- What a program ends in: the place, the rooms it has found so far, and its result.
abbrev pub Ending : Type 0 → Type 1
Ending A = Place → List ℕ → A → Type 0

-- From a place and the rooms found so far, whatever its calls are answered, the program makes one
-- user at most, enters a room that it has found when its user is in none, leaves the room that its
-- user is in, sends to the room that its user is in, takes messages from the queue of its user only
-- and while that is in a room, and ends as stated.
abbrev pub Obeys : {A : Type 0} → Ending A → Place → List ℕ → Program A → Type 0
Obeys Q p known (done a) = Q p known a
Obeys Q p known (call (makes_user n) k) = (p ≡ outside) × ((u : ℕ) → Obeys Q (lobby u) known (k u))
Obeys Q p known (call (finds_room n) k) = (r : ℕ) → Obeys Q p (r ∷ known) (k r)
Obeys Q p known (call (adds r u) k) =
    (p ≡ lobby u) × (has_member r known ≡ true) × Obeys Q (inside u r) known (k tt)
Obeys Q p known (call (removes r u) k) = (p ≡ inside u r) × Obeys Q (lobby u) known (k tt)
Obeys Q p known (call (broadcasts r n t) k) = ((u : ℕ) × (p ≡ inside u r)) × Obeys Q p known (k tt)
Obeys Q p known (call (dequeues u) k) =
    ((r : ℕ) × (p ≡ inside u r)) × ((a : Fetch) → Obeys Q p known (k a))
Obeys Q p known (call o k) = (a : Answer o) → Obeys Q p known (k a)

module _ {A B : Type 0} (Q : Ending A) (R : Ending B) where
  pub Obeys-bind :
      (p : Place) (known : List ℕ) (m : Program A) (f : A → Program B)
      → Obeys Q p known m
      → ((p' : Place) (known' : List ℕ) (a : A) → Q p' known' a → Obeys R p' known' (f a))
      → Obeys R p known (m >>= f)
  Obeys-bind p known (done a) f h rest = rest p known a h
  Obeys-bind p known (call (makes_user n) k) f h rest =
      (h.0, λ u. Obeys-bind (lobby u) known (k u) f (h.1 u) rest)
  Obeys-bind p known (call (finds_room n) k) f h rest =
      λ r. Obeys-bind p (r ∷ known) (k r) f (h r) rest
  Obeys-bind p known (call (adds r u) k) f h rest =
      (h.0, h.1, Obeys-bind (inside u r) known (k tt) f h.2 rest)
  Obeys-bind p known (call (removes r u) k) f h rest =
      (h.0, Obeys-bind (lobby u) known (k tt) f h.1 rest)
  Obeys-bind p known (call (broadcasts r n t) k) f h rest =
      (h.0, Obeys-bind p known (k tt) f h.1 rest)
  Obeys-bind p known (call (dequeues u) k) f h rest =
      (h.0, λ a. Obeys-bind p known (k a) f (h.1 a) rest)
  Obeys-bind p known (call o k) f h rest = λ a. Obeys-bind p known (k a) f (h a) rest
