-- ===== src/Dialogue/Sent.antt =====
-- What a broadcast puts into the queues.
use csfassignment.Base.{
  ℕ, ◌≡◌, refl, sym, ap, ◌∙◌, false, List, [], ◌++◌, append-nil, map, Option, none, some, Bytes,
  if◌then◌else◌, inl, inr, Bool-cases, Option-cases,
}
use csfassignment.Text.{str_eq}
use csfassignment.Message.{Message}
use csfassignment.Queue.{enqueue}
use csfassignment.Heap.{User, Room, Store}
use csfassignment.Room.{has_member, delivery, broadcast_message}
use csfassignment.Room.Members.{IsAscending}
use csfassignment.Room.Broadcast.{delivered, broadcast_message_lem}
use csfassignment.Server.Invariant.{Inv}
use csfassignment.Server.Effects.{member_of}
use csfassignment.Server.Service.Matches.{name_at, title_at, queued, due}
use csfassignment.Dialogue.Speech.{Speech, delivery_of, speech_to, speech_to-due}

-- What user `v` gets of a text that is sent to room `r`.
abbrev pub sent_to : ℕ → ℕ → (sender text : Bytes) → Store → List Speech
sent_to v r sender text s =
    if member_of v r s then speech_to (title_at r s) (name_at v s) sender text else []

abbrev messages_of : Option User → List Message
messages_of o = elim o [ none ↦ [] | some user ↦ user.mqueue.messages ]

delivered_messages :
    (title sender text : Bytes) (v : ℕ) (s : Store)
    → messages_of (delivered sender (delivery title sender text) (s.users v))
      ≡ messages_of (s.users v) ++ due (some title) (name_at v s) sender text
unfolding enqueue
delivered_messages title sender text v s = elim (Option-cases (s.users v)) [
  | inl e ↦ rw (name_at, e) refl
  | inr (user, e) ↦
      rw (name_at, e)
        (elim (Bool-cases (str_eq user.username sender)) [
          | inl same ↦ rw same (sym (append-nil user.mqueue.messages))
          | inr other ↦ rw other refl
        ])
]

module _ (v r : ℕ) (sender text : Bytes) (s : Store) (room : Room) (e : s.rooms r ≡ some room) where
  sent_inside : map delivery_of (sent_to v r sender text s) ≡ (
      if has_member v room.members then due (some room.room_name) (name_at v s) sender text else [])
  sent_inside =
      let inside : member_of v r s ≡ has_member v room.members = rw (member_of, e) refl in
      let titled : title_at r s ≡ some room.room_name = rw (title_at, e) refl in
      rw (inside, titled)
        (elim (Bool-cases (has_member v room.members)) [
          | inl m ↦ rw m (speech_to-due (some room.room_name) (name_at v s) sender text)
          | inr m ↦ rw m refl
        ])

  broadcast_inside :
      IsAscending room.members
      → queued v (broadcast_message r sender text s)
        ≡ queued v s
          ++ (if has_member v room.members
              then due (some room.room_name) (name_at v s) sender text
              else [])
  broadcast_inside h =
      ap messages_of ((broadcast_message_lem r sender text s room e h).0 v)
      ∙ elim (Bool-cases (has_member v room.members)) [
        | inl m ↦ rw m (delivered_messages room.room_name sender text v s)
        | inr m ↦ rw m (sym (append-nil (queued v s)))
      ]

pub broadcast_queued :
    (v r : ℕ) (sender text : Bytes) (s : Store)
    → Inv s
    → queued v (broadcast_message r sender text s)
      ≡ queued v s ++ map delivery_of (sent_to v r sender text s)
unfolding broadcast_message
broadcast_queued v r sender text s i = elim (Option-cases (s.rooms r)) [
  | inl e ↦
      let outside : member_of v r s ≡ false = rw (member_of, e) refl in
      rw (broadcast_message, e) (rw outside (sym (append-nil (queued v s))))
  | inr (room, e) ↦
      broadcast_inside v r sender text s room e (i.ascending r room e)
      ∙ ap (λ l. queued v s ++ l) (sym (sent_inside v r sender text s room e))
]
