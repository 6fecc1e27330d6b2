-- ===== src/Server/Deeds.antt =====
-- What other threads do to the shared objects between two steps of a thread: lists of their calls.
use csfassignment.Base.{
  ℕ, ◌≡◌, Bool, true, List, [], ◌∷◌, Option, ltb, if◌then◌else◌, inl, inr, Bool-cases, arith,
}
use csfassignment.Heap.{Store}
use csfassignment.Server.Program.{Op, adds, effect}
use csfassignment.Server.Invariant.{Inv, IsAllowed, effect-Inv}

-- A call, and the clock that it reads if it is a `dequeue`.
pub record Deed : Type 0 where
  pub clock : Option ℕ
  pub op : Op

-- A thread adds only users that were made.
abbrev pub is_made : Op → Store → Bool
is_made (adds r u) s = ltb u s.next
is_made o s = true

abbrev pub deed : Deed → Store → Store
deed d s = if is_made d.op s then effect d.clock d.op s else s

abbrev pub deeds : List Deed → Store → Store
deeds [] s = s
deeds (d ∷ rest) s = deeds rest (deed d s)

-- The deeds before the next step, and those behind it.
abbrev pub stir : List (List Deed) → Store → Store
stir [] s = s
stir (now ∷ rest) s = deeds now s

abbrev pub rest_of : List (List Deed) → List (List Deed)
rest_of [] = []
rest_of (now ∷ rest) = rest

pub made-IsAllowed : (o : Op) (s : Store) → is_made o s ≡ true → IsAllowed o s
made-IsAllowed (adds r u) s h = ground arith
made-IsAllowed o s h = tt

-- What each call keeps is kept by all deeds.
module _ (P : Store → Type 0)
    (keeps : (clock : Option ℕ) (o : Op) (s : Store)
      → IsAllowed o s
      → P s
      → P (effect clock o s)) where
  deeds_keep : (ds : List Deed) (s : Store) → P s → P (deeds ds s)
  deeds_keep [] s v = v
  deeds_keep (d ∷ ds) s v = elim (Bool-cases (is_made d.op s)) [
    | inl made ↦ rw made (
        deeds_keep ds (effect d.clock d.op s) (keeps d.clock d.op s (made-IsAllowed d.op s made) v))
    | inr other ↦ rw other (deeds_keep ds s v)
  ]

  pub stir_keeps : (others : List (List Deed)) (s : Store) → P s → P (stir others s)
  stir_keeps [] s v = v
  stir_keeps (now ∷ rest) s v = deeds_keep now s v

pub stir-Inv : (others : List (List Deed)) (s : Store) → Inv s → Inv (stir others s)
stir-Inv others s = stir_keeps Inv (λ clock o s h v. effect-Inv clock o s v h) others s
