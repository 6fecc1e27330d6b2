-- ===== src/Dialogue/Kept.antt =====
-- What the calls of other threads keep of a user and of the room that it is in.
use csfassignment.Base.{
  ℕ, ◌<◌, ◌≡◌, refl, ap, ◌∙◌, List, Option, none, some, Bytes, inl, inr, Option-cases, arith,
}
use csfassignment.Heap.{Store, put, lookup}
use csfassignment.Server.{find_or_create_room}
use csfassignment.Server.Program.{
  Op, makes_user, finds_room, adds, removes, broadcasts, dequeues, effect, make_user,
}
use csfassignment.Server.Invariant.{Inv, IsAllowed, effect-Inv}
use csfassignment.Server.Effects.{broadcast_rooms, next-effect}
use csfassignment.Server.Service.Matches.{name_at, title_at}
use csfassignment.Server.Service.Views.{
  add_name, add_title, remove_name, remove_title, dequeue_at-Dequeued,
}
use csfassignment.Server.Deeds.{Deed, stir, stir_keeps}
use csfassignment.Dialogue.Objects.{HasUser, IsPlaced, found_name, broadcast_name}

effect_name :
    (clock : Option ℕ) (o : Op) (s : Store) (u : ℕ)
    → Inv s
    → u < s.next
    → name_at u (effect clock o s) ≡ name_at u s
unfolding effect make_user put
effect_name clock (makes_user n) s u i h = ground arith
effect_name clock (finds_room n) s u i h = found_name n s u
effect_name clock (adds r v) s u i h = add_name r v s u
effect_name clock (removes r v) s u i h = remove_name r v s u
effect_name clock (broadcasts r n t) s u i h = broadcast_name r n t s u
effect_name clock (dequeues v) s u i h = (dequeue_at-Dequeued clock v s i).0.0 u
effect_name clock o s u i h = refl

found_elsewhere :
    (name : Bytes) (s : Store) (r : ℕ) (title : Bytes)
    → Inv s
    → title_at r s ≡ some title
    → title_at r (find_or_create_room name s).1 ≡ some title
unfolding find_or_create_room put
found_elsewhere name s r title i h = elim (Option-cases (lookup name s.room_map)) [
  | inl e ↦ rw (find_or_create_room, e) (ground (arith, i.free_rooms s.next))
  | inr (q, e) ↦ rw (find_or_create_room, e) h
]

effect_title :
    (clock : Option ℕ) (o : Op) (s : Store) (r : ℕ) (title : Bytes)
    → Inv s
    → title_at r s ≡ some title
    → title_at r (effect clock o s) ≡ some title
unfolding effect make_user
effect_title clock (makes_user n) s r title i h = h
effect_title clock (finds_room n) s r title i h = found_elsewhere n s r title i h
effect_title clock (adds q v) s r title i h = add_title q v s r ∙ h
effect_title clock (removes q v) s r title i h = remove_title q v s r ∙ h
effect_title clock (broadcasts q n t) s r title i h =
    ap (λ f. title_at r (record s { rooms = f })) (broadcast_rooms q n t s).0 ∙ h
effect_title clock (dequeues v) s r title i h =
    ap (λ f. title_at r (record s { rooms = f })) (dequeue_at-Dequeued clock v s i).0.1 ∙ h
effect_title clock o s r title i h = h

effect-HasUser :
    (user : ℕ) (name : Bytes) (clock : Option ℕ) (o : Op) (s : Store)
    → IsAllowed o s
    → HasUser user name s
    → HasUser user name (effect clock o s)
effect-HasUser user name clock o s h v = record {
  inv = effect-Inv clock o s v.inv h;
  made = omega (arith, v.made, next-effect clock o s);
  named = effect_name clock o s user v.inv v.made ∙ v.named;
}

effect-IsPlaced :
    (room : Option ℕ) (clock : Option ℕ) (o : Op) (s : Store)
    → Inv s
    → IsPlaced room s
    → IsPlaced room (effect clock o s)
effect-IsPlaced none clock o s i p = tt
effect-IsPlaced (some r) clock o s i (title, e, a) = (title, effect_title clock o s r title i e, a)

-- Whatever other threads do, the user keeps its name and its room the title.
pub stir-HasUser :
    (user : ℕ) (name : Bytes) (room : Option ℕ) (others : List (List Deed)) (s : Store)
    → HasUser user name s
    → IsPlaced room s
    → HasUser user name (stir others s) × IsPlaced room (stir others s)
stir-HasUser user name room others s v p =
    stir_keeps (λ x. HasUser user name x × IsPlaced room x)
      (λ clock o x h (w, q).
        (effect-HasUser user name clock o x h w, effect-IsPlaced room clock o x w.inv q))
      others s (v, p)
