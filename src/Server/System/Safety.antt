-- ===== src/Server/System/Safety.antt =====
-- What holds in every reachable state of the server, whatever the clients send, however the threads
-- are interleaved, and whatever csapp.c and the network do.
use csfassignment.Base.{ℕ, ◌≡◌, ap, true, Option, some, inl, inr, Option-cases}
use csfassignment.Csapp.{Csapp}
use csfassignment.Server.Invariant.{Inv}
use csfassignment.Server.Effects.{member_of}
use csfassignment.Server.Users.{user_exists}
use csfassignment.Server.System.Ghost.{owner}
use csfassignment.Server.System.Owner.{Owes, ActsOn, Obeys-Owes, ActsOn-owner}
use csfassignment.Server.System.{Thread, System, Reach}
use csfassignment.Server.System.Turn.{Placed-one_room}
use csfassignment.Server.System.Invariant.{Reach-Inv}

module _ {W B : Type 0} (lib : Csapp W B) (clock : W → Option ℕ) (raw : B) (fuel : ℕ) where
  -- In every reachable state the shared objects are in order: rooms stand under their own names, the
  -- list of members of a room ascends, so that it names nobody twice, at each address in it there is a
  -- user object, and the semaphore of each user's queue counts its messages, where `enqueue` and
  -- `dequeue` are steps.
  pub reachable_objects :
      {w : W} {s : System W B}
      → Reach lib clock raw fuel w s
      → Inv s.store × ((u r : ℕ) → member_of u r s.store ≡ true → user_exists u s.store ≡ true)
  reachable_objects reach =
      let v = Reach-Inv lib clock raw fuel reach in
      (
        v.placed.objects,
        λ u r h. let (i, e) = v.placed.member u r h in v.placed.lives i u (ap owner e),
      )

  -- In every reachable state a user is a member of one room at most.
  pub one_room :
      {w : W} {s : System W B} (u q r : ℕ)
      → Reach lib clock raw fuel w s
      → member_of u q s.store ≡ true
      → member_of u r s.store ≡ true
      → q ≡ r
  one_room u q r reach h k = Placed-one_room (Reach-Inv lib clock raw fuel reach).placed u q r h k

  -- In every reachable state each member of a room belongs to one thread. That thread is started and
  -- has not returned, and however its calls are answered it takes its user out of the room before it
  -- returns, unless it runs out of fuel or crashes on an empty deque; up to then it makes no user,
  -- enters no room, sends to this room only and takes messages from the queue of this user only. No
  -- other thread is about to enter this user into a room, to take it out of one, or to take a
  -- message from its queue.
  pub members_live :
      {w : W} {s : System W B} (u r : ℕ)
      → Reach lib clock raw fuel w s
      → member_of u r s.store ≡ true
      → (i : ℕ) × (t : Thread B) × (s.threads i ≡ some t)
        × Owes u r t.program
        × ((j : ℕ) (x : Thread B) → s.threads j ≡ some x → ActsOn u x.program → j ≡ i)
  members_live {s = s} u r reach h =
      let v = Reach-Inv lib clock raw fuel reach in
      let (i, e) = v.placed.member u r h in
      let alone = λ (j : ℕ) (x : Thread B) (q : s.threads j ≡ some x) (acts : ActsOn u x.program).
        v.placed.distinct j i u
          (ActsOn-owner u (v.places j) (v.knowns j) x.program (v.obeys j x q) acts) (ap owner e) in
      elim (Option-cases (s.threads i)) [
        | inl f ↦ cc (v.idle i f)
        | inr (t, f) ↦
            (i, t, f, Obeys-Owes u r (v.knowns i) t.program (rw e at (v.obeys i t f)), alone)
      ]
