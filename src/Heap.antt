-- ===== src/Heap.antt =====
-- The objects that the threads of the server share: rooms and users at addresses, and the names of
-- the rooms. user.h, and the fields of room.h and of `Server` in server.h.
use csfassignment.Base.{
  ℕ, ◌≡◌, ◌≢◌, refl, List, [], ◌∷◌, Option, none, some, Bytes, ◌==◌, if◌then◌else◌, ==_refl, arith,
}
use csfassignment.Text.{str_eq}
use csfassignment.Queue.{MessageQueue, new_queue}

-- `struct User`
pub record User : Type 0 where
  pub username : Bytes
  pub mqueue : MessageQueue

-- `class Room`. `members` is a `std::set` of pointers: the addresses in ascending order.
pub record Room : Type 0 where
  pub room_name : Bytes
  pub members : List ℕ

abbrev pub new_user : Bytes → User
new_user username = record { username = username; mqueue = new_queue }

abbrev pub new_room : Bytes → Room
new_room room_name = record { room_name = room_name; members = [] }

-- A map from addresses to objects; `none` where no object was made. Nothing is ever deleted.
abbrev pub Objects : Type 0 → Type 0
Objects A = ℕ → Option A

module _ {A : Type 0} where
  unfoldable pub put : ℕ → A → Objects A → Objects A
  put a x f b = if a == b then some x else f b

  pub put_same : (a : ℕ) (x : A) (f : Objects A) → put a x f a ≡ some x
  unfolding put
  put_same a x f = rw ==_refl

  pub put_lem : (a b : ℕ) (x : A) (f : Objects A) → put a x f b ≡ (if a == b then some x else f b)
  unfolding put
  put_lem a b x f = refl

  pub put_other : (a b : ℕ) (x : A) (f : Objects A) → a ≢ b → put a x f b ≡ f b
  unfolding put
  put_other a b x f h = ground arith

-- `m_rooms` as an association list, the objects, and the next address that `new` gives out.
pub record Store : Type 0 where
  pub room_map : List (Bytes × ℕ)
  pub rooms : Objects Room
  pub users : Objects User
  pub next : ℕ

abbrev pub empty_store : Store
empty_store = record { room_map = []; rooms = λ _. none; users = λ _. none; next = 0 }

-- `m_rooms.find(name)`
unfoldable pub lookup : Bytes → List (Bytes × ℕ) → Option ℕ
lookup name [] = none
lookup name ((n, r) ∷ m) = if str_eq name n then some r else lookup name m
