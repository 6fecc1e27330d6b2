-- ===== src/Server/Program.antt =====
-- The code of a client thread as a program: a tree of calls on the connection and on the objects
-- that the threads share, each call with the rest of the thread as a function of its answer. A call
-- on shared objects is what the source does under one lock.
use csfassignment.Base.{ℕ, ◌+◌, Bool, [], Option, none, some, Bytes}
use csfassignment.Csapp.{Csapp}
use csfassignment.Message.{Message}
use csfassignment.Connection.{Connection, Result, send, receive, close}
use csfassignment.Queue.{Fetch, nothing, dequeue}
use csfassignment.Heap.{Store, put, new_user}
use csfassignment.Room.{add_member_at, remove_member_at, broadcast_message}
use csfassignment.Server.{find_or_create_room}

-- The calls. A room and a user are given by address.
pub data Op : Type 0 where
  receives : Message → Op
  last_result : Op
  sends : Message → Op
  disconnects : Op
  makes_user : Bytes → Op
  username : ℕ → Op
  finds_room : Bytes → Op
  room_name : ℕ → Op
  adds : (room user : ℕ) → Op
  removes : (room user : ℕ) → Op
  broadcasts : (room : ℕ) → (sender text : Bytes) → Op
  dequeues : ℕ → Op

abbrev pub Answer : Op → Type 0
Answer (receives m) = Bool × Message
Answer last_result = Result
Answer (sends m) = Bool
Answer disconnects = Unit
Answer (makes_user n) = ℕ
Answer (username u) = Bytes
Answer (finds_room n) = ℕ
Answer (room_name r) = Bytes
Answer (adds r u) = Unit
Answer (removes r u) = Unit
Answer (broadcasts r n t) = Unit
Answer (dequeues u) = Fetch

pub data Program (A : Type 0) : Type 0 where
  done : A → Program A
  call : (o : Op) → (Answer o → Program A) → Program A

infixl 5 ◌>>=◌ ◌>>◌
abbrev pub ◌>>=◌ : {A B : Type 0} → Program A → (A → Program B) → Program B
done a >>= f = f a
call o k >>= f = call o (λ a. k a >>= f)

abbrev pub ◌>>◌ : {A B : Type 0} → Program A → Program B → Program B
p >> q = p >>= λ _. q

-- One call, for its answer.
abbrev pub perform : (o : Op) → Program (Answer o)
perform o = call o (λ a. done a)

-- What a thread acts on: its connection, the world outside the process, the shared objects.
pub record Machine (W B : Type 0) : Type 0 where
  pub conn : Connection B
  pub world : W
  pub store : Store

-- The strings of the objects; an address with no object behind it is never asked for.
abbrev pub username_at : ℕ → Store → Bytes
username_at u s = elim (s.users u) [ none ↦ [] | some user ↦ user.username ]

abbrev pub room_name_at : ℕ → Store → Bytes
room_name_at r s = elim (s.rooms r) [ none ↦ [] | some room ↦ room.room_name ]

-- `new User(name)`
unfoldable pub make_user : Bytes → Store → ℕ × Store
make_user name s =
    (s.next, record s { users = put s.next (new_user name) s.users; next = s.next + 1 })

-- `user->mqueue.dequeue()`
unfoldable pub dequeue_at : Option ℕ → ℕ → Store → Fetch × Store
dequeue_at now u s = elim (s.users u) [
  | none ↦ (nothing, s)
  | some user ↦
      let (r, q) = dequeue now user.mqueue in
      (r, record s { users = put u (record user { mqueue = q }) s.users })
]

-- What the calls do to the shared objects, whatever happens on the connection.
unfoldable pub effect : (clock : Option ℕ) (o : Op) → Store → Store
effect clock (makes_user n) s = (make_user n s).1
effect clock (finds_room n) s = (find_or_create_room n s).1
effect clock (adds r u) s = add_member_at r u s
effect clock (removes r u) s = remove_member_at r u s
effect clock (broadcasts r n t) s = broadcast_message r n t s
effect clock (dequeues u) s = (dequeue_at clock u s).1
effect clock _ s = s

-- `clock_gettime` reads the clock of the world.
module _ {W B : Type 0} (lib : Csapp W B) (clock : W → Option ℕ) where
  unfoldable pub answer : (o : Op) → Machine W B → Answer o
  answer (receives m) s = let (ok, m', _, _) = receive lib m s.conn s.world in (ok, m')
  answer last_result s = s.conn.last_result
  answer (sends m) s = (send lib m s.conn s.world).0
  answer disconnects s = tt
  answer (makes_user n) s = (make_user n s.store).0
  answer (username u) s = username_at u s.store
  answer (finds_room n) s = (find_or_create_room n s.store).0
  answer (room_name r) s = room_name_at r s.store
  answer (adds r u) s = tt
  answer (removes r u) s = tt
  answer (broadcasts r n t) s = tt
  answer (dequeues u) s = (dequeue_at (clock s.world) u s.store).0

  -- The connection and the world after a call.
  unfoldable pub traffic : (o : Op) → Connection B → W → Connection B × W
  traffic (receives m) c w = let (_, _, c', w') = receive lib m c w in (c', w')
  traffic (sends m) c w = let (_, c', w') = send lib m c w in (c', w')
  traffic disconnects c w = close lib c w
  traffic _ c w = (c, w)

  unfoldable pub perform_on : Op → Machine W B → Machine W B
  perform_on o s =
      let (c, w) = traffic o s.conn s.world in
      record { conn = c; world = w; store = effect (clock s.world) o s.store }

  -- A thread that runs alone to its end.
  unfoldable pub run : {A : Type 0} → Program A → Machine W B → A × Machine W B
  unfolding answer perform_on effect traffic
  run (done a) s = (a, s)
  run (call o k) s = run (k (answer o s)) (perform_on o s)
