-- ===== src/Server/Invariant.antt =====
-- What holds of the shared objects between any two critical sections.
use csfassignment.Base.{
  ℕ, ◌≤◌, ◌<◌, ◌≡◌, refl, sym, ◌∙◌, true, Option, none, some, Bytes, ◌==◌, inl, inr, Bool-cases,
  Option-cases, arith,
}
use csfassignment.Text.{str_eq}
use csfassignment.Text.Find.{str_eq_sound}
use csfassignment.Message.{Message}
use csfassignment.Queue.{MessageQueue, enqueue, dequeue}
use csfassignment.Queue.Fifo.{IsCounted, enqueue-IsCounted, dequeue_lem}
use csfassignment.Heap.{Store, Room, User, Objects, put, new_room, lookup, empty_store}
use csfassignment.Room.{
  has_member, add_member, remove_member, delivery, add_member_at, remove_member_at, broadcast_loop,
  broadcast_message,
}
use csfassignment.Room.Members.{
  IsAscending, has_member-add_member, add_member-IsAscending, has_member-remove_member,
  remove_member-IsAscending, add_member_name, remove_member_name,
}
use csfassignment.Room.Broadcast.{delivered, broadcast_loop_lem}
use csfassignment.Server.{find_or_create_room}
use csfassignment.Server.Program.{
  Op, makes_user, finds_room, adds, removes, broadcasts, dequeues, effect, make_user, dequeue_at,
}

-- Addresses from `next` on are free; the rooms are found under their own names; members stand in
-- ascending order; each semaphore counts its deque.
pub record Inv (s : Store) : Type 0 where
  pub free_rooms : (a : ℕ) → s.next ≤ a → s.rooms a ≡ none
  pub free_users : (a : ℕ) → s.next ≤ a → s.users a ≡ none
  pub named :
      (name : Bytes) (r : ℕ)
      → lookup name s.room_map ≡ some r
      → (room : Room) × (s.rooms r ≡ some room) × (room.room_name ≡ name)
  pub ascending : (r : ℕ) (room : Room) → s.rooms r ≡ some room → IsAscending room.members
  pub made :
      (r u : ℕ) (room : Room)
      → s.rooms r ≡ some room
      → has_member u room.members ≡ true
      → u < s.next
  pub counted : (u : ℕ) (user : User) → s.users u ≡ some user → IsCounted user.mqueue

pub empty_store-Inv : Inv empty_store
unfolding lookup
empty_store-Inv = record {
  free_rooms = λ a h. refl;
  free_users = λ a h. refl;
  named = λ name r h. cc;
  ascending = λ r room h. cc;
  made = λ r u room h k. cc;
  counted = λ u user h. cc;
}

make_user-Inv : (name : Bytes) (s : Store) → Inv s → Inv (make_user name s).1
unfolding make_user put
make_user-Inv name s v = record {
  free_rooms = λ a h. ground (arith, v.free_rooms a);
  free_users = λ a h. ground (arith, v.free_users a);
  named = v.named;
  ascending = v.ascending;
  made = λ r u room h k. ground (arith, v.made r u room);
  counted = λ u user h. ground (arith, v.counted u user);
}

find_or_create_room-Inv : (name : Bytes) (s : Store) → Inv s → Inv (find_or_create_room name s).1
unfolding find_or_create_room put has_member
find_or_create_room-Inv name s v = elim (Option-cases (lookup name s.room_map)) [
  | inr (r, e) ↦ rw (find_or_create_room, e) v
  | inl e ↦
      rw (find_or_create_room, e)
        (record {
          free_rooms = λ a h. ground (arith, v.free_rooms a);
          free_users = λ a h. ground (arith, v.free_users a);
          named = λ n r h. elim (Bool-cases (str_eq n name)) [
            | inl same ↦ (new_room name, ground arith, sym (str_eq_sound n name same))
            | inr other ↦
                let (room, found, called) = v.named n r (ground arith) in
                (room, ground (arith, v.free_rooms s.next), called)
          ];
          ascending = λ r room h. ground (arith, v.ascending r room);
          made = λ r u room h k. ground (arith, v.made r u room);
          counted = λ u user h. ground (arith, v.counted u user);
        })
]

-- A room is replaced by one of the same name, whose members ascend and are users that were made.
put_room-Inv :
    (r : ℕ) (old room : Room) (s : Store)
    → Inv s
    → s.rooms r ≡ some old
    → room.room_name ≡ old.room_name
    → IsAscending room.members
    → ((u : ℕ) → has_member u room.members ≡ true → u < s.next)
    → Inv (record s { rooms = put r room s.rooms })
unfolding put
put_room-Inv r old room s v e same order members = record {
  free_rooms = λ a h. ground (arith, v.free_rooms a);
  free_users = v.free_users;
  named = λ n a h.
      let (x, found, called) = v.named n a h in
      elim (Bool-cases (r == a)) [
        | inl here ↦ (room, ground arith, same ∙ ground arith)
        | inr there ↦ (x, ground arith, called)
      ];
  ascending = λ a x h. ground (arith, v.ascending a x);
  made = λ a u x h k. ground (arith, v.made a u x, members u);
  counted = v.counted;
}

add_member_at-Inv : (r u : ℕ) (s : Store) → Inv s → u < s.next → Inv (add_member_at r u s)
unfolding add_member_at
add_member_at-Inv r u s v h = elim (Option-cases (s.rooms r)) [
  | inl e ↦ rw (add_member_at, e) v
  | inr (room, e) ↦
      rw (add_member_at, e)
        (put_room-Inv r room (add_member u room) s v e (add_member_name u room)
          (add_member-IsAscending u room (v.ascending r room e))
          λ w k. ground (arith, has_member-add_member u w room, v.made r w room e))
]

remove_member_at-Inv : (r u : ℕ) (s : Store) → Inv s → Inv (remove_member_at r u s)
unfolding remove_member_at
remove_member_at-Inv r u s v = elim (Option-cases (s.rooms r)) [
  | inl e ↦ rw (remove_member_at, e) v
  | inr (room, e) ↦
      rw (remove_member_at, e)
        (put_room-Inv r room (remove_member u room) s v e (remove_member_name u room)
          (remove_member-IsAscending u room (v.ascending r room e))
          λ w k.
            ground
              (arith, has_member-remove_member u w room (v.ascending r room e), v.made r w room e))
]

-- The users are replaced by users whose semaphores count their deques.
pub change_users-Inv :
    (users : Objects User) (s : Store)
    → Inv s
    → ((a : ℕ) → s.users a ≡ none → users a ≡ none)
    → ((a : ℕ) (user : User) → users a ≡ some user → IsCounted user.mqueue)
    → Inv (record s { users = users })
change_users-Inv users s v gone counted = record {
  free_rooms = v.free_rooms;
  free_users = λ a h. gone a (v.free_users a h);
  named = v.named;
  ascending = v.ascending;
  made = v.made;
  counted = counted;
}

pub delivered-IsCounted :
    (sender : Bytes) (m : Message) (o : Option User) (user : User)
    → ((x : User) → o ≡ some x → IsCounted x.mqueue)
    → delivered sender m o ≡ some user
    → IsCounted user.mqueue
unfolding enqueue
delivered-IsCounted sender m none user h e = cc
delivered-IsCounted sender m (some x) user h e =
    ground (arith, h x refl, enqueue-IsCounted m x.mqueue (h x refl))

broadcast_message-Inv :
    (r : ℕ) (sender text : Bytes) (s : Store) → Inv s → Inv (broadcast_message r sender text s)
unfolding broadcast_message
broadcast_message-Inv r sender text s v = elim (Option-cases (s.rooms r)) [
  | inl e ↦ rw (broadcast_message, e) v
  | inr (room, e) ↦
      let users = broadcast_loop room.room_name sender text room.members s.users in
      let shape = λ (a : ℕ).
        broadcast_loop_lem room.room_name sender text room.members s.users a
          (v.ascending r room e) in
      rw (broadcast_message, e)
        (change_users-Inv users s v (λ a h. ground (arith, shape a))
          λ a user h. ground (
            arith,
            shape a,
            v.counted a user,
            delivered-IsCounted sender (delivery room.room_name sender text) (s.users a) user
                (v.counted a),
          ))
]

dequeue-IsCounted :
    (clock : Option ℕ) (q : MessageQueue) → IsCounted q → IsCounted (dequeue clock q).1
dequeue-IsCounted none q h = unfold dequeue in h
dequeue-IsCounted (some now) q h = (dequeue_lem now q h).1

dequeue_at-Inv : (clock : Option ℕ) (u : ℕ) (s : Store) → Inv s → Inv (dequeue_at clock u s).1
unfolding dequeue_at put
dequeue_at-Inv clock u s v = elim (Option-cases (s.users u)) [
  | inl e ↦ rw (dequeue_at, e) v
  | inr (user, e) ↦
      rw (dequeue_at, e)
        (change_users-Inv _ s v (λ a h. ground arith)
          λ a x h.
            ground (arith, v.counted a x, dequeue-IsCounted clock user.mqueue (v.counted u user e)))
]

-- A call may enter a user into a room only if the user was made.
abbrev pub IsAllowed : Op → Store → Type 0
IsAllowed (adds r u) s = u < s.next
IsAllowed o s = Unit

-- Every call of a client thread keeps the invariant of the shared objects.
pub effect-Inv :
    (clock : Option ℕ) (o : Op) (s : Store) → Inv s → IsAllowed o s → Inv (effect clock o s)
unfolding effect
effect-Inv clock (makes_user n) s v h = make_user-Inv n s v
effect-Inv clock (finds_room n) s v h = find_or_create_room-Inv n s v
effect-Inv clock (adds r u) s v h = add_member_at-Inv r u s v h
effect-Inv clock (removes r u) s v h = remove_member_at-Inv r u s v
effect-Inv clock (broadcasts r n t) s v h = broadcast_message-Inv r n t s v
effect-Inv clock (dequeues u) s v h = dequeue_at-Inv clock u s v
effect-Inv clock o s v h = v
