-- ===== src/Room/Sets.antt =====
-- `std::set` as a set: lists of members up to order and repetition, as a quotient. A room
-- stands for the set of its members.
use mathlib.Core.Quot
use mathlib.Core.Quot.{Quot, Quot-set}
use csfassignment.Base.{
  ℕ, ◌≡◌, sym, ap, ◌∙◌, false, ◌||◌, List, [], ◌∷◌, ◌==◌, if◌then◌else◌, arith,
}
use csfassignment.Heap.{Room}
use csfassignment.Room.{has_member, add_member, remove_member}
use csfassignment.Room.Members.{IsAscending, has_member-add_member, has_member-remove_member}

abbrev pub SameMembers : List ℕ → List ℕ → Type 0
SameMembers l k = (u : ℕ) → has_member u l ≡ has_member u k

abbrev pub MemberSet : Type 0
MemberSet = Quot SameMembers

pub include-SameMembers : (u : ℕ) (l k : List ℕ) → SameMembers l k → SameMembers (u ∷ l) (u ∷ k)
unfolding has_member
include-SameMembers u l k h v = ap (λ b. (v == u) || b) (h v)

-- A set with a user more.
unfoldable pub include : ℕ → MemberSet → MemberSet
include u =
    Quot.lift Quot-set (λ l. Quot.mk (u ∷ l)) (λ l k h. Quot.sound (include-SameMembers u l k h))

unfoldable pub without : ℕ → List ℕ → List ℕ
without u [] = []
without u (v ∷ l) = if v == u then without u l else v ∷ without u l

has_member-without :
    (u v : ℕ) (l : List ℕ) → has_member v (without u l) ≡ (if v == u then false else has_member v l)
unfolding has_member without
has_member-without u v [] = ground arith
has_member-without u v (w ∷ l) = ground (arith, has_member-without u v l)

pub without-SameMembers :
    (u : ℕ) (l k : List ℕ) → SameMembers l k → SameMembers (without u l) (without u k)
without-SameMembers u l k h v =
    has_member-without u v l
    ∙ ap (λ b. if v == u then false else b) (h v)
    ∙ sym (has_member-without u v k)

-- A set without a user.
unfoldable pub exclude : ℕ → MemberSet → MemberSet
exclude u =
    Quot.lift Quot-set (λ l. Quot.mk (without u l))
      (λ l k h. Quot.sound (without-SameMembers u l k h))

-- The set of a room's members.
abbrev pub members_of : Room → MemberSet
members_of r = Quot.mk r.members

-- On a room whose list of members ascends, `add_member` and `remove_member` put the user into the
-- set of the members and take it out of it.
pub members_of_refines :
    (u : ℕ) (r : Room)
    → IsAscending r.members
    → (members_of (add_member u r) ≡ include u (members_of r))
      × (members_of (remove_member u r) ≡ exclude u (members_of r))
unfolding include exclude has_member
members_of_refines u r h = (
  Quot.sound (λ v. has_member-add_member u v r ∙ ground arith),
  Quot.sound (λ v. has_member-remove_member u v r h ∙ sym (has_member-without u v r.members)),
)
