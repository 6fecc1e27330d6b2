-- ===== src/Server/System/Owner.antt =====
-- The thread of a user that is in a room: what it does up to its `remove_member`, and the calls of
-- all threads that act on a user.
use csfassignment.Base.{ℕ, ◌≡◌, ap, ◌∙◌, List, some, inl, inr}
use csfassignment.Queue.{Fetch}
use csfassignment.Server.Program.{
  Program, done, call, Answer, makes_user, finds_room, adds, removes, broadcasts, dequeues,
}
use csfassignment.Server.Chat.{Exit, finished}
use csfassignment.Server.Membership.{Place, inside, Obeys, EndedOut}
use csfassignment.Server.System.Ghost.{owner}

-- However its calls are answered, the program takes user `u` out of room `r` before it returns. Up to
-- then it makes no user, enters no room, sends to `r` only and takes messages from the queue of `u`
-- only.
abbrev pub Owes : ℕ → ℕ → Program Exit → Type 0
Owes u r (done finished) = ⊥
Owes u r (done e) = Unit
Owes u r (call (makes_user n) k) = ⊥
Owes u r (call (adds q v) k) = ⊥
Owes u r (call (removes q v) k) = (q ≡ r) × (v ≡ u)
Owes u r (call (broadcasts q n t) k) = (q ≡ r) × Owes u r (k tt)
Owes u r (call (dequeues v) k) = (v ≡ u) × ((a : Fetch) → Owes u r (k a))
Owes u r (call o k) = (a : Answer o) → Owes u r (k a)

-- The next call of the program enters user `u` into a room, takes it out of one, or takes a message
-- from its queue.
abbrev pub ActsOn : ℕ → Program Exit → Type 0
ActsOn u (call (adds r v) k) = v ≡ u
ActsOn u (call (removes r v) k) = v ≡ u
ActsOn u (call (dequeues v) k) = v ≡ u
ActsOn u p = ⊥

user_room : {u v q r : ℕ} → inside u r ≡ inside v q → (q ≡ r) × (v ≡ u)
user_room h = (cc, cc)

pub Obeys-Owes :
    (u r : ℕ) (known : List ℕ) (p : Program Exit) → Obeys EndedOut (inside u r) known p → Owes u r p
Obeys-Owes u r known (done finished) (inl h) = cc
Obeys-Owes u r known (done finished) (inr (v, h)) = cc
Obeys-Owes u r known (done e) h = tt
Obeys-Owes u r known (call (makes_user n) k) h = cc
Obeys-Owes u r known (call (finds_room n) k) h = λ q. Obeys-Owes u r _ (k q) (h q)
Obeys-Owes u r known (call (adds q v) k) h = cc
Obeys-Owes u r known (call (removes q v) k) h = user_room h.0
Obeys-Owes u r known (call (broadcasts q n t) k) h =
    ((user_room h.0.1).0, Obeys-Owes u r known (k tt) h.1)
Obeys-Owes u r known (call (dequeues v) k) h =
    ((user_room h.0.1).1, λ a. Obeys-Owes u r known (k a) (h.1 a))
Obeys-Owes u r known (call o k) h = λ a. Obeys-Owes u r known (k a) (h a)

pub ActsOn-owner :
    (u : ℕ) (place : Place) (known : List ℕ) (p : Program Exit)
    → Obeys EndedOut place known p
    → ActsOn u p
    → owner place ≡ some u
ActsOn-owner u place known (call (adds r v) k) h same = ap owner h.0 ∙ ap some same
ActsOn-owner u place known (call (removes r v) k) h same = ap owner h.0 ∙ ap some same
ActsOn-owner u place known (call (dequeues v) k) h same = ap owner h.0.1 ∙ ap some same
ActsOn-owner u place known p h same = absurd same
