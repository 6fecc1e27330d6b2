-- ===== src/Server/Users.antt =====
-- The user objects of the server, under each call of a client thread: `worker` makes them, and nothing
-- deletes them.
use csfassignment.Base.{
  ℕ, ◌≡◌, Bool, true, false, Option, none, some, Bytes, inl, inr, Option-cases, arith,
}
use csfassignment.Heap.{Store, put}
use csfassignment.Room.{add_member_at, remove_member_at, broadcast_message, deliver_at}
use csfassignment.Room.Broadcast.{deliver_lem, broadcast_loop_lem}
use csfassignment.Server.{find_or_create_room}
use csfassignment.Server.Program.{
  Op, makes_user, finds_room, adds, removes, broadcasts, dequeues, effect, make_user, dequeue_at,
}
use csfassignment.Server.Invariant.{Inv}

abbrev pub user_exists : ℕ → Store → Bool
user_exists u s = elim (s.users u) [ none ↦ false | some user ↦ true ]

broadcast_exists :
    (r : ℕ) (n t : Bytes) (s : Store) (u : ℕ)
    → Inv s
    → user_exists u s ≡ true
    → user_exists u (broadcast_message r n t s) ≡ true
unfolding broadcast_message
broadcast_exists r n t s u i h = elim (Option-cases (s.rooms r)) [
  | inl e ↦ rw (broadcast_message, e) h
  | inr (room, e) ↦
      rw (broadcast_message, e)
        (ground (
          arith,
          broadcast_loop_lem room.room_name n t room.members s.users u (i.ascending r room e),
        ))
]

pub round_exists :
    (r : ℕ) (n t : Bytes) (v : ℕ) (s : Store) (u : ℕ)
    → user_exists u s ≡ true
    → user_exists u (deliver_at r n t v s) ≡ true
unfolding deliver_at
round_exists r n t v s u h = elim (Option-cases (s.rooms r)) [
  | inl e ↦ rw (deliver_at, e) h
  | inr (room, e) ↦ rw (deliver_at, e) (ground (arith, deliver_lem room.room_name n t v s.users u))
]

-- No call deletes a user.
pub user_exists-effect :
    (clock : Option ℕ) (o : Op) (s : Store) (u : ℕ)
    → Inv s
    → user_exists u s ≡ true
    → user_exists u (effect clock o s) ≡ true
unfolding effect make_user add_member_at remove_member_at find_or_create_room dequeue_at put
user_exists-effect clock (makes_user n) s u i h = ground arith
user_exists-effect clock (finds_room n) s u i h = ground arith
user_exists-effect clock (adds r v) s u i h = ground arith
user_exists-effect clock (removes r v) s u i h = ground arith
user_exists-effect clock (broadcasts r n t) s u i h = broadcast_exists r n t s u i h
user_exists-effect clock (dequeues v) s u i h = ground arith
user_exists-effect clock o s u i h = h

pub made_user_exists : (name : Bytes) (s : Store) → user_exists s.next (make_user name s).1 ≡ true
unfolding make_user put
made_user_exists name s = ground arith
