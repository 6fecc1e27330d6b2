-- ===== src/Server/System/Rounds.antt =====
-- One round of a broadcast's loop, between calls of other threads: what it leaves as it is.
use csfassignment.Base.{
  ℕ, ◌≡◌, refl, sym, ap, subst, ◌∙◌, List, [], ◌∷◌, ◌++◌, codes, All-left, if◌then◌else◌, some,
  Bytes, inl, inr, Option-cases, arith,
}
use csfassignment.Heap.{Store, Room}
use csfassignment.Room.{
  has_member, delivery, deliver, broadcast_loop, broadcast_message, members_at, deliver_at,
}
use csfassignment.Message.{message}
use csfassignment.Room.Members.{IsAscending}
use csfassignment.Room.Broadcast.{delivered, deliver_lem, broadcast_loop_lem}
use csfassignment.Server.Invariant.{Inv, change_users-Inv, delivered-IsCounted}
use csfassignment.Server.Users.{round_exists}
use csfassignment.Server.Membership.{Place}
use csfassignment.Server.System.Turn.{Placed}

deliver_at-Inv : (r : ℕ) (n t : Bytes) (u : ℕ) (s : Store) → Inv s → Inv (deliver_at r n t u s)
unfolding deliver_at
deliver_at-Inv r n t u s v = elim (Option-cases (s.rooms r)) [
  | inl e ↦ rw (deliver_at, e) v
  | inr (room, e) ↦
      let users = deliver room.room_name n t u s.users in
      let shape = deliver_lem room.room_name n t u s.users in
      rw (deliver_at, e)
        (change_users-Inv users s v (λ a h. ground (arith, shape a))
          λ a user h. ground (
            arith,
            shape a,
            v.counted a user,
            delivered-IsCounted n (delivery room.room_name n t) (s.users a) user (v.counted a),
          ))
]

pub deliver_at-Placed :
    {s : Store} {places : ℕ → Place} {knowns : ℕ → List ℕ} (r : ℕ) (n t : Bytes) (u : ℕ)
    → Placed s places knowns
    → Placed (deliver_at r n t u s) places knowns
unfolding deliver_at
deliver_at-Placed {s} {places} {knowns} r n t u v = elim (Option-cases (s.rooms r)) [
  | inl e ↦ rw (deliver_at, e) v
  | inr (room, e) ↦
      rw (deliver_at, e)
        (record {
          objects = rw (deliver_at, e) at (deliver_at-Inv r n t u s v.objects);
          seen = v.seen;
          made = v.made;
          lives = λ i a h. rw (deliver_at, e) at (round_exists r n t u s a (v.lives i a h));
          distinct = v.distinct;
          member = v.member;
          within = v.within;
        })
]

-- The rounds of a broadcast to these members.
abbrev pub deliver_all : ℕ → Bytes → Bytes → List ℕ → Store → Store
deliver_all r n t [] s = s
deliver_all r n t (u ∷ rest) s = deliver_all r n t rest (deliver_at r n t u s)

deliver_all_lem :
    (r : ℕ) (n t : Bytes) (l : List ℕ) (s : Store) (room : Room)
    → s.rooms r ≡ some room
    → deliver_all r n t l s ≡ record s { users = broadcast_loop room.room_name n t l s.users }
unfolding deliver_at broadcast_loop
deliver_all_lem r n t [] s room e = refl
deliver_all_lem r n t (u ∷ l) s room e =
    ap (deliver_all r n t l) (rw (deliver_at, e) refl)
    ∙ deliver_all_lem r n t l (record s { users = deliver room.room_name n t u s.users }) room e

pub broadcast_message-rounds :
    (r : ℕ) (n t : Bytes) (s : Store)
    → broadcast_message r n t s ≡ deliver_all r n t (members_at r s) s
unfolding broadcast_message deliver_at
broadcast_message-rounds r n t s = elim (Option-cases (s.rooms r)) [
  | inl e ↦ rw (broadcast_message, members_at, e) refl
  | inr (room, e) ↦
      rw (broadcast_message, members_at, e) (sym (deliver_all_lem r n t room.members s room e))
]

deliver_all-append :
    (r : ℕ) (n t : Bytes) (sent rest : List ℕ) (s : Store)
    → deliver_all r n t rest (deliver_all r n t sent s) ≡ deliver_all r n t (sent ++ rest) s
deliver_all-append r n t [] rest s = refl
deliver_all-append r n t (u ∷ sent) rest s =
    deliver_all-append r n t sent rest (deliver_at r n t u s)

prefix-IsAscending : (l k : List ℕ) → IsAscending (l ++ k) → IsAscending l
prefix-IsAscending [] k h = tt
prefix-IsAscending (u ∷ l) k h = (All-left _ l k h.0, prefix-IsAscending l k h.1)

-- A broadcast to a room whose list of members ascends, between two of its rounds: each of the members
-- that it has been to has the message, with the tag `delivery` and with the room's name, the sender's
-- and the text, behind all messages in its queue, and one more in its semaphore, unless it has the
-- name of the sender; no other user and no room has changed. The rounds for the other members make
-- of this what a broadcast that is not interrupted makes of the objects.
pub broadcast_halfway :
    (r : ℕ) (n t : Bytes) (s : Store) (room : Room) (sent rest : List ℕ)
    → s.rooms r ≡ some room
    → IsAscending room.members
    → room.members ≡ sent ++ rest
    → let s' = deliver_all r n t sent s in
      ((a : ℕ)
        → s'.users a ≡ (
            if has_member a sent
            then delivered n
                (message (codes "delivery") (room.room_name ++ codes ":" ++ n ++ codes ":" ++ t))
                (s.users a)
            else s.users a))
      × (s'.rooms ≡ s.rooms)
      × (deliver_all r n t rest s' ≡ broadcast_message r n t s)
broadcast_halfway r n t s room sent rest e h split =
    let order : IsAscending sent = prefix-IsAscending sent rest (subst IsAscending split h) in
    let rounds = deliver_all_lem r n t sent s room e in
    let whole : members_at r s ≡ sent ++ rest = rw (members_at, e) split in
    (
      λ a.
          ap (λ (x : Store). x.users a) rounds
          ∙ broadcast_loop_lem room.room_name n t sent s.users a order,
      ap (λ (x : Store). x.rooms) rounds,
      deliver_all-append r n t sent rest s
          ∙ ap (λ l. deliver_all r n t l s) (sym whole)
          ∙ sym (broadcast_message-rounds r n t s),
    )
