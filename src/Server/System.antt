-- ===== src/Server/System.antt =====
-- The whole server: any number of client threads over the shared objects, interleaved call by call
-- and, in a broadcast, member by member, with a world that changes as it likes.
-- `handle_client_requests` of server.cpp starts the threads.
pub mod Ghost
pub mod Owner
pub mod Turn
pub mod Rounds
pub mod Invariant
pub mod Safety
use csfassignment.Base.{
  ℕ, ◌≡◌, ◌≢◌, Bool, true, false, List, [], ◌∷◌, Option, none, some, Bytes, ◌==◌, if◌then◌else◌,
}
use csfassignment.Base.Int.{ℤ, greater_than_zero}
use csfassignment.Csapp.{Csapp}
use csfassignment.Connection.{Connection, of_fd}
use csfassignment.Room.{members_at, deliver_at}
use csfassignment.Heap.{Store, empty_store}
use csfassignment.Server.Program.{
  Program, call, Op, Answer, Machine, answer, perform_on, adds, removes, broadcasts,
}
use csfassignment.Server.Chat.{Exit, worker}

-- A client thread: its connection, what it has left to do and, while it is in the loop of a
-- broadcast, the members that it still has to send to.
pub record Thread (B : Type 0) : Type 0 where
  pub conn : Connection B
  pub program : Program Exit
  pub pending : Option (List ℕ)

-- A map with one entry changed.
abbrev pub update : {A : Type 0} → (ℕ → A) → ℕ → A → ℕ → A
update f i v j = if i == j then v else f j

-- `none` is a thread that has not been started. The holder of a room is the thread that is in a
-- broadcast to it, with the room's lock.
pub record System (W B : Type 0) : Type 0 where
  pub world : W
  pub store : Store
  pub threads : ℕ → Option (Thread B)
  pub holder : ℕ → Option ℕ

abbrev pub boot : {W B : Type 0} → W → System W B
boot w = record { world = w; store = empty_store; threads = λ _. none; holder = λ _. none }

-- A thread that is in no broadcast, and one that is.
abbrev pub resting : {B : Type 0} → Connection B → Program Exit → Option (Thread B)
resting c p = some (record { conn = c; program = p; pending = none })

abbrev pub sending : {B : Type 0} → Connection B → Program Exit → List ℕ → Option (Thread B)
sending c p rest = some (record { conn = c; program = p; pending = some rest })

-- A call that is made at once may be made: it is no broadcast, and no other thread holds the lock
-- that it takes.
abbrev pub is_free : Option ℕ → Bool
is_free none = true
is_free (some i) = false

abbrev pub ready : (ℕ → Option ℕ) → Op → Bool
ready holder (broadcasts r n t) = false
ready holder (adds r u) = is_free (holder r)
ready holder (removes r u) = is_free (holder r)
ready holder o = true

-- What a thread with connection `c` acts on.
abbrev pub machine : {W B : Type 0} → System W B → Connection B → Machine W B
machine s c = record { conn = c; world = s.world; store = s.store }

module _ {W B : Type 0} (lib : Csapp W B) (clock : W → Option ℕ) (raw : B) (fuel : ℕ) where
  -- A thread that `handle_client_requests` starts for an accepted descriptor.
  abbrev pub accepted : ℤ → Thread B
  accepted fd = record { conn = of_fd lib raw fd; program = worker fuel; pending = none }

  -- The system after the call `o` of thread `i`, which goes on with `k`.
  abbrev pub turned :
      System W B → ℕ → Connection B → (o : Op) → (Answer o → Program Exit) → System W B
  turned s i c o k =
      let m = machine s c in
      let m' = perform_on lib clock o m in
      record {
        world = m'.world;
        store = m'.store;
        threads = update s.threads i (resting m'.conn (k (answer lib clock o m)));
        holder = s.holder;
      }

  pub data Step (s : System W B) : System W B → Type 0 where
    -- `Accept` and `pthread_create`
    accepts :
        (i : ℕ) (fd : ℤ)
        → greater_than_zero fd ≡ true
        → s.threads i ≡ none
        → Step s (record s { threads = update s.threads i (some (accepted fd)) })
    -- the next call of a thread
    turns :
        (i : ℕ) (c : Connection B) (o : Op) (k : Answer o → Program Exit)
        → ready s.holder o ≡ true
        → s.threads i ≡ resting c (call o k)
        → Step s (turned s i c o k)
    -- a thread takes the lock of a room for a broadcast
    opens :
        (i : ℕ) (c : Connection B) (r : ℕ) (n t : Bytes) (k : Unit → Program Exit)
        → s.holder r ≡ none
        → s.threads i ≡ resting c (call (broadcasts r n t) k)
        → Step s (record s {
          threads =
              update s.threads i (sending c (call (broadcasts r n t) k) (members_at r s.store));
          holder = update s.holder r (some i);
        })
    -- one round of its loop
    delivers :
        (i : ℕ) (c : Connection B) (r : ℕ) (n t : Bytes) (k : Unit → Program Exit) (u : ℕ)
        (rest : List ℕ)
        → s.threads i ≡ sending c (call (broadcasts r n t) k) (u ∷ rest)
        → Step s (record s {
          store = deliver_at r n t u s.store;
          threads = update s.threads i (sending c (call (broadcasts r n t) k) rest);
        })
    -- the end of the loop, and the unlock
    closes :
        (i : ℕ) (c : Connection B) (r : ℕ) (n t : Bytes) (k : Unit → Program Exit)
        → s.threads i ≡ sending c (call (broadcasts r n t) k) []
        → Step s (record s {
          threads = update s.threads i (resting c (k tt));
          holder = update s.holder r none;
        })
    -- the clients and the network
    moves : (w : W) → Step s (record s { world = w })

  pub data Reach (w : W) : System W B → Type 0 where
    start : Reach w (boot w)
    later : {s t : System W B} → Reach w s → Step s t → Reach w t
