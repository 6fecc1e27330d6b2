-- ===== src/Room/Members.antt =====
-- The members of a room as a set: what `add_member` and `remove_member` change, and the order that
-- the representation keeps.
use csfassignment.Base.{
  ℕ, ◌<◌, ◌≡◌, refl, true, false, ◌||◌, List, [], ◌∷◌, All, ◌==◌, if◌then◌else◌, arith,
}
use csfassignment.Heap.{Room}
use csfassignment.Room.{has_member, insert, erase, add_member, remove_member}

-- Each address stands once, and they ascend.
abbrev pub IsAscending : List ℕ → Type 0
IsAscending [] = Unit
IsAscending (u ∷ l) = All (λ v. u < v) l × IsAscending l

has_member-insert :
    (u v : ℕ) (l : List ℕ) → has_member v (insert u l) ≡ ((v == u) || has_member v l)
unfolding has_member insert
has_member-insert u v [] = refl
has_member-insert u v (w ∷ l) = ground (arith, has_member-insert u v l)

pub All-mono : (a b : ℕ) (l : List ℕ) → a < b → All (λ v. b < v) l → All (λ v. a < v) l
All-mono a b [] h k = tt
All-mono a b (v ∷ l) h k = (omega arith, All-mono a b l h k.1)

insert_above : (a u : ℕ) (l : List ℕ) → a < u → All (λ v. a < v) l → All (λ v. a < v) (insert u l)
unfolding insert
insert_above a u [] h k = (h, tt)
insert_above a u (v ∷ l) h k = ground (arith, insert_above a u l h k.1)

insert-IsAscending : (u : ℕ) (l : List ℕ) → IsAscending l → IsAscending (insert u l)
unfolding insert
insert-IsAscending u [] h = (tt, tt)
insert-IsAscending u (v ∷ l) h =
    ground (arith, insert-IsAscending u l h.1, insert_above v u l, All-mono u v l)

erase_above : (a u : ℕ) (l : List ℕ) → All (λ v. a < v) l → All (λ v. a < v) (erase u l)
unfolding erase
erase_above a u [] k = tt
erase_above a u (v ∷ l) k = ground (arith, erase_above a u l k.1)

erase-IsAscending : (u : ℕ) (l : List ℕ) → IsAscending l → IsAscending (erase u l)
unfolding erase
erase-IsAscending u [] h = tt
erase-IsAscending u (v ∷ l) h = ground (arith, erase-IsAscending u l h.1, erase_above v u l h.0)

pub below_absent : (u : ℕ) (l : List ℕ) → All (λ v. u < v) l → has_member u l ≡ false
unfolding has_member
below_absent u [] h = refl
below_absent u (v ∷ l) h = ground (arith, below_absent u l h.1)

has_member-erase :
    (u v : ℕ) (l : List ℕ)
    → IsAscending l
    → has_member v (erase u l) ≡ (if v == u then false else has_member v l)
unfolding has_member erase
has_member-erase u v [] h = ground arith
has_member-erase u v (w ∷ l) h = ground (arith, has_member-erase u v l h.1, below_absent w l h.0)

-- `add_member` adds the user and nobody else, whether the user was there or not.
pub has_member-add_member :
    (u v : ℕ) (r : Room)
    → has_member v (add_member u r).members ≡ (if v == u then true else has_member v r.members)
unfolding add_member
has_member-add_member u v r = ground (arith, has_member-insert u v r.members)

pub add_member-IsAscending :
    (u : ℕ) (r : Room) → IsAscending r.members → IsAscending (add_member u r).members
unfolding add_member
add_member-IsAscending u r h = ground (arith, insert-IsAscending u r.members h)

-- `remove_member` removes the user and nobody else.
pub has_member-remove_member :
    (u v : ℕ) (r : Room)
    → IsAscending r.members
    → has_member v (remove_member u r).members ≡ (if v == u then false else has_member v r.members)
unfolding remove_member
has_member-remove_member u v r h = ground (arith, has_member-erase u v r.members h)

pub remove_member-IsAscending :
    (u : ℕ) (r : Room) → IsAscending r.members → IsAscending (remove_member u r).members
unfolding remove_member
remove_member-IsAscending u r h = ground (arith, erase-IsAscending u r.members h)

pub add_member_name : (u : ℕ) (r : Room) → (add_member u r).room_name ≡ r.room_name
unfolding add_member
add_member_name u r = ground arith

pub remove_member_name : (u : ℕ) (r : Room) → (remove_member u r).room_name ≡ r.room_name
unfolding remove_member
remove_member_name u r = ground arith
