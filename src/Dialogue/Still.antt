-- ===== src/Dialogue/Still.antt =====
-- Calls of other threads that put nothing into a queue and take nothing from one: users come and go,
-- and they enter and leave rooms.
use csfassignment.Base.{
  ℕ, ◌≡◌, refl, ◌∙◌, List, [], ◌∷◌, Option, Bytes, inl, inr, Bool-cases, Option-cases, All, arith,
}
use csfassignment.Heap.{Store, put, lookup}
use csfassignment.Server.{find_or_create_room}
use csfassignment.Server.Program.{
  Op, makes_user, finds_room, adds, removes, broadcasts, dequeues, effect, make_user,
}
use csfassignment.Server.Invariant.{Inv, effect-Inv}
use csfassignment.Server.Service.Matches.{queued}
use csfassignment.Server.Service.Views.{add_queued, remove_queued}
use csfassignment.Server.Deeds.{Deed, is_made, made-IsAllowed, deeds, stir, rest_of}

pub found_queued :
    (v : ℕ) (name : Bytes) (s : Store) → queued v (find_or_create_room name s).1 ≡ queued v s
unfolding find_or_create_room
found_queued v name s = elim (Option-cases (lookup name s.room_map)) [
  | inl e ↦ rw (find_or_create_room, e) refl
  | inr (r, e) ↦ rw (find_or_create_room, e) refl
]

pub made_queued :
    (v : ℕ) (name : Bytes) (s : Store) → Inv s → queued v (make_user name s).1 ≡ queued v s
unfolding make_user put
made_queued v name s i = ground (arith, i.free_users v)

abbrev pub IsStill : Op → Type 0
IsStill (broadcasts r n t) = ⊥
IsStill (dequeues u) = ⊥
IsStill o = Unit

abbrev pub AllStill : List (List Deed) → Type 0
AllStill = All (All (λ d. IsStill d.op))

queued-effect :
    (v : ℕ) (clock : Option ℕ) (o : Op) (s : Store)
    → IsStill o
    → Inv s
    → queued v (effect clock o s) ≡ queued v s
unfolding effect
queued-effect v clock (makes_user n) s h i = made_queued v n s i
queued-effect v clock (finds_room n) s h i = found_queued v n s
queued-effect v clock (adds r u) s h i = add_queued r u s v
queued-effect v clock (removes r u) s h i = remove_queued r u s v
queued-effect v clock (broadcasts r n t) s h i = elim h [ ]
queued-effect v clock (dequeues u) s h i = elim h [ ]
queued-effect v clock o s h i = refl

queued-deeds :
    (v : ℕ) (ds : List Deed) (s : Store)
    → All (λ d. IsStill d.op) ds
    → Inv s
    → queued v (deeds ds s) ≡ queued v s
queued-deeds v [] s h i = refl
queued-deeds v (d ∷ ds) s h i = elim (Bool-cases (is_made d.op s)) [
  | inr other ↦ rw other (queued-deeds v ds s h.1 i)
  | inl made ↦ rw made (
      queued-deeds v ds (effect d.clock d.op s) h.1
        (effect-Inv d.clock d.op s i (made-IsAllowed d.op s made))
      ∙ queued-effect v d.clock d.op s h.0 i)
]

pub queued-stir :
    (v : ℕ) (others : List (List Deed)) (s : Store)
    → AllStill others
    → Inv s
    → queued v (stir others s) ≡ queued v s
queued-stir v [] s h i = refl
queued-stir v (now ∷ rest) s h i = queued-deeds v now s h.0 i

pub rest_of-AllStill : (others : List (List Deed)) → AllStill others → AllStill (rest_of others)
rest_of-AllStill [] h = tt
rest_of-AllStill (now ∷ rest) h = h.1
