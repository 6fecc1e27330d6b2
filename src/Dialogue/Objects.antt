-- ===== src/Dialogue/Objects.antt =====
-- What the requests of a sender change of the objects: the name of its user, and the name of its
-- room.
use csfassignment.Base.{
  ℕ, ◌<◌, ◌≡◌, refl, sym, ap, subst, ◌∙◌, inl, inr, List, [], ◌∷◌, Option, none, some, Bytes,
  Option-cases, arith,
}
use csfassignment.Heap.{Store, put, lookup}
use csfassignment.Room.{add_member_at, broadcast_message, members_at, deliver_at}
use csfassignment.Server.{find_or_create_room}
use csfassignment.Server.Program.{
  adds, removes, finds_room, broadcasts, effect, username_at, room_name_at,
}
use csfassignment.Server.Invariant.{Inv, effect-Inv}
use csfassignment.Server.Effects.{next-effect}
use csfassignment.Server.System.Rounds.{deliver_all, broadcast_message-rounds}
use csfassignment.Server.Service.Matches.{name_at, title_at}
use csfassignment.Server.Service.Views.{add_name, remove_name}
use csfassignment.Server.Service.Rounds.{round_name}
use csfassignment.Dialogue.Texts.{IsText}
use csfassignment.Dialogue.Replies.{left_room}

abbrev pub text_of : Option Bytes → Bytes
text_of none = []
text_of (some s) = s

pub username_at-text_of : (u : ℕ) (s : Store) → username_at u s ≡ text_of (name_at u s)
username_at-text_of u s = elim (Option-cases (s.users u)) [
  | inl e ↦ rw (username_at, name_at, e) refl
  | inr (user, e) ↦ rw (username_at, name_at, e) refl
]

pub room_name_at-text_of : (r : ℕ) (s : Store) → room_name_at r s ≡ text_of (title_at r s)
room_name_at-text_of r s = elim (Option-cases (s.rooms r)) [
  | inl e ↦ rw (room_name_at, title_at, e) refl
  | inr (room, e) ↦ rw (room_name_at, title_at, e) refl
]

deliver_all_name :
    (r : ℕ) (n t : Bytes) (l : List ℕ) (s : Store) (u : ℕ)
    → name_at u (deliver_all r n t l s) ≡ name_at u s
deliver_all_name r n t [] s u = refl
deliver_all_name r n t (v ∷ l) s u =
    deliver_all_name r n t l (deliver_at r n t v s) u ∙ round_name r n t v s u

pub broadcast_name :
    (r : ℕ) (n t : Bytes) (s : Store) (u : ℕ) → name_at u (broadcast_message r n t s) ≡ name_at u s
broadcast_name r n t s u =
    ap (name_at u) (broadcast_message-rounds r n t s) ∙ deliver_all_name r n t (members_at r s) s u

pub found_name :
    (name : Bytes) (s : Store) (u : ℕ) → name_at u (find_or_create_room name s).1 ≡ name_at u s
unfolding find_or_create_room
found_name name s u = elim (Option-cases (lookup name s.room_map)) [
  | inl e ↦ rw (find_or_create_room, e) refl
  | inr (r, e) ↦ rw (find_or_create_room, e) refl
]

pub found_title :
    (name : Bytes) (s : Store)
    → Inv s
    → let (r, s') = find_or_create_room name s in title_at r s' ≡ some name
unfolding find_or_create_room put
found_title name s v = elim (Option-cases (lookup name s.room_map)) [
  | inl e ↦ rw (find_or_create_room, e) (ground arith)
  | inr (r, e) ↦
      let (room, found, named) = v.named name r e in rw (find_or_create_room, e) (ground arith)
]

-- The objects are in order, and the user is there under a name.
pub record HasUser (user : ℕ) (name : Bytes) (s : Store) : Type 0 where
  pub inv : Inv s
  pub made : user < s.next
  pub named : name_at user s ≡ some name

pub left_room-HasUser :
    (user : ℕ) (name : Bytes) (room : Option ℕ) (s : Store)
    → HasUser user name s
    → HasUser user name (left_room user room s)
unfolding effect
left_room-HasUser user name none s v = v
left_room-HasUser user name (some r) s v = record {
  inv = effect-Inv none (removes r user) s v.inv tt;
  made = omega (arith, v.made, next-effect none (removes r user) s);
  named = remove_name r user s user ∙ v.named;
}

pub found-HasUser :
    (user : ℕ) (name title : Bytes) (s : Store)
    → HasUser user name s
    → HasUser user name (find_or_create_room title s).1
unfolding effect
found-HasUser user name title s v = record {
  inv = effect-Inv none (finds_room title) s v.inv tt;
  made = omega (arith, v.made, next-effect none (finds_room title) s);
  named = found_name title s user ∙ v.named;
}

pub added-HasUser :
    (user : ℕ) (name : Bytes) (r : ℕ) (s : Store)
    → HasUser user name s
    → HasUser user name (add_member_at r user s)
unfolding effect
added-HasUser user name r s v = record {
  inv = effect-Inv none (adds r user) s v.inv v.made;
  made = omega (arith, v.made, next-effect none (adds r user) s);
  named = add_name r user s user ∙ v.named;
}

pub told-HasUser :
    (user : ℕ) (name : Bytes) (r : ℕ) (n t : Bytes) (s : Store)
    → HasUser user name s
    → HasUser user name (broadcast_message r n t s)
unfolding effect
told-HasUser user name r n t s v = record {
  inv = effect-Inv none (broadcasts r n t) s v.inv tt;
  made = omega (arith, v.made, next-effect none (broadcasts r n t) s);
  named = broadcast_name r n t s user ∙ v.named;
}

-- The room that the user is in has a short name.
abbrev pub IsPlaced : Option ℕ → Store → Type 0
IsPlaced none s = Unit
IsPlaced (some r) s = (title : Bytes) × (title_at r s ≡ some title) × IsText 150 title

pub placed-IsText : (r : ℕ) (s : Store) → IsPlaced (some r) s → IsText 150 (room_name_at r s)
placed-IsText r s (title, e, a) =
    subst (IsText 150) (sym (room_name_at-text_of r s ∙ ap text_of e)) a
