-- ===== src/Server/System/Ghost.antt =====
-- How a call moves the place of its thread's user, against what the call does to the membership of
-- rooms.
use csfassignment.Base.{
  ℕ, ◌≡◌, ◌≢◌, ◌⊎◌, Bool, true, ◌&&◌, List, ◌∷◌, Option, none, some, ◌==◌, inl, inr, Bool-cases,
  arith,
}
use csfassignment.Room.{has_member}
use csfassignment.Server.Program.{
  Program, call, Op, Answer, makes_user, finds_room, adds, removes, broadcasts, dequeues,
}
use csfassignment.Server.Effects.{membership}
use csfassignment.Server.Membership.{Place, outside, lobby, inside, Ending, Obeys}

abbrev pub owner : Place → Option ℕ
owner outside = none
owner (lobby u) = some u
owner (inside u r) = some u

abbrev pub next_place : (o : Op) → Answer o → Place → Place
next_place (makes_user n) a p = lobby a
next_place (adds r u) a p = inside u r
next_place (removes r u) a p = lobby u
next_place o a p = p

abbrev pub next_known : (o : Op) → Answer o → List ℕ → List ℕ
next_known (finds_room n) a known = a ∷ known
next_known o a known = known

-- What `Obeys` asks of a call.
abbrev pub Guarded : Op → Place → List ℕ → Type 0
Guarded (makes_user n) p known = p ≡ outside
Guarded (adds r u) p known = (p ≡ lobby u) × (has_member r known ≡ true)
Guarded (removes r u) p known = p ≡ inside u r
Guarded (broadcasts r n t) p known = (u : ℕ) × (p ≡ inside u r)
Guarded (dequeues u) p known = (r : ℕ) × (p ≡ inside u r)
Guarded o p known = Unit

module _ {A : Type 0} (Q : Ending A) where
  pub Obeys-guard :
      (p : Place) (known : List ℕ) (o : Op) (k : Answer o → Program A)
      → Obeys Q p known (call o k)
      → Guarded o p known
  Obeys-guard p known (makes_user n) k h = h.0
  Obeys-guard p known (adds r u) k h = (h.0, h.1)
  Obeys-guard p known (removes r u) k h = h.0
  Obeys-guard p known (broadcasts r n t) k h = h.0
  Obeys-guard p known (dequeues u) k h = h.0
  Obeys-guard p known o k h = tt

  pub Obeys-next :
      (p : Place) (known : List ℕ) (o : Op) (k : Answer o → Program A) (a : Answer o)
      → Obeys Q p known (call o k)
      → Obeys Q (next_place o a p) (next_known o a known) (k a)
  Obeys-next p known (makes_user n) k a h = h.1 a
  Obeys-next p known (finds_room n) k a h = h a
  Obeys-next p known (adds r u) k a h = h.2
  Obeys-next p known (removes r u) k a h = h.1
  Obeys-next p known (broadcasts r n t) k a h = h.1
  Obeys-next p known (dequeues u) k a h = h.1 a
  Obeys-next p known o k a h = h a

module _ (p : Place) (known : List ℕ) (u r : ℕ) (b : Bool) where
  -- Who is a member after a call is the thread's user in its new place, or was one before.
  pub member_after :
      (o : Op) (a : Answer o)
      → Guarded o p known
      → membership o u r b ≡ true
      → (next_place o a p ≡ inside u r)
        ⊎ ((b ≡ true) × (p ≡ inside u r → next_place o a p ≡ inside u r))
  member_after (makes_user n) a g h = inr (h, λ e. cc)
  member_after (adds q v) a g h = elim (Bool-cases ((u == v) && (q == r))) [
    | inl e ↦ inl (ground arith)
    | inr e ↦ inr (ground arith, λ f. cc)
  ]
  member_after (removes q v) a g h = inr (ground arith, λ e. ground arith)
  member_after o a g h = inr (h, λ e. e)

  -- A call that leaves its user inside a room leaves it a member.
  pub member_inside :
      (o : Op) (a : Answer o)
      → Guarded o p known
      → (p ≡ inside u r → b ≡ true)
      → next_place o a p ≡ inside u r
      → membership o u r b ≡ true
  member_inside (makes_user n) a g h e = cc
  member_inside (adds q v) a g h e = ground arith
  member_inside (removes q v) a g h e = cc
  member_inside o a g h e = h e

  -- A call does not touch the membership of others.
  pub member_other :
      (o : Op) → Guarded o p known → owner p ≢ some u → b ≡ true → membership o u r b ≡ true
  member_other (removes q v) g other h = ground arith
  member_other (adds q v) g other h = ground arith
  member_other o g other h = h

-- The user that a call makes.
abbrev pub MakesNow : (o : Op) → Answer o → ℕ → Type 0
MakesNow (makes_user n) a u = a ≡ u
MakesNow o a u = ⊥

pub owner_after :
    (p : Place) (known : List ℕ) (u : ℕ) (o : Op) (a : Answer o)
    → Guarded o p known
    → owner (next_place o a p) ≡ some u
    → (owner p ≡ some u) ⊎ MakesNow o a u
owner_after p known u (makes_user n) a g h = inr (ground arith)
owner_after p known u (adds r v) a g h = inl (ground arith)
owner_after p known u (removes r v) a g h = inl (ground arith)
owner_after p known u o a g h = inl h
