-- ===== src/Server/Forwarding.antt =====
-- What a receiver's thread does with the messages in its user's queue.
use csfassignment.Base.{
  ℕ, zero, suc, none, ◌≡◌, refl, ap, ◌∙◌, Bool, true, false, List, [], ◌∷◌, Option, some, Bytes,
  codes, length, ◌++◌, arith,
}
use csfassignment.Base.Int.{ℤ, pos}
use csfassignment.Csapp.{Csapp}
use csfassignment.Message.{Message, tag_err}
use csfassignment.Connection.{Connection, c_string, wire, send}
use csfassignment.Queue.{enqueue, dequeue, fetch, Fetch, got, nothing, undefined}
use csfassignment.Queue.Fifo.{IsCounted, enqueue-IsCounted}
use csfassignment.Heap.{User, Store, put, put_same}
use csfassignment.Heap.{Room}
use csfassignment.Text.{str_eq}
use csfassignment.Room.{has_member, delivery, broadcast_message}
use csfassignment.Room.Members.{IsAscending}
use csfassignment.Room.Broadcast.{broadcast_message_lem}
use csfassignment.Server.Program.{
  done, perform, ◌>>=◌, ◌>>◌, Machine, sends, dequeue_at, answer, effect, traffic, perform_on, run,
}
use csfassignment.Server.Chat.{Exit, finished, crashed, out_of_fuel, reply, receiver_loop}

-- A user whose queue holds these messages, as the semaphore knows.
abbrev pub waiting : Bytes → List Message → User
waiting name ms = record { username = name; mqueue = record { avail = length ms; messages = ms } }

pub waiting_lem :
    (user : User) → IsCounted user.mqueue → user ≡ waiting user.username user.mqueue.messages
waiting_lem user h =
    ap
      (λ n. record {
        username = user.username;
        mqueue = record { avail = n; messages = user.mqueue.messages };
      })
      h

pub dequeue_at-waiting :
    (now u : ℕ) (name : Bytes) (m : Message) (ms : List Message) (s : Store)
    → s.users u ≡ some (waiting name (m ∷ ms))
    → dequeue_at (some now) u s ≡ (got m, record s { users = put u (waiting name ms) s.users })
unfolding dequeue_at dequeue fetch
dequeue_at-waiting now u name m ms s e = rw (dequeue_at, e) refl

dequeue_at-idle :
    (now : Option ℕ) (u : ℕ) (user : User) (s : Store)
    → s.users u ≡ some user
    → user.mqueue.avail ≡ 0
    → dequeue_at now u s ≡ (nothing, record s { users = put u user s.users })
unfolding dequeue_at dequeue
dequeue_at-idle none u user s e h = rw (dequeue_at, e) refl
dequeue_at-idle (some now) u user s e h = rw (dequeue_at, e) (rw h refl)

module _ {W B : Type 0} (lib : Csapp W B) (clock : W → Option ℕ) where
  -- The connection holds, and the clock can be read.
  pub record Holds : Type 0 where
    pub writes : (fd : ℤ) (text : Bytes) (w : W) → (lib.rio_writen fd text w).0 ≡ pos (length text)
    pub ticks : (w : W) → (now : ℕ) × (clock w ≡ some now)

  -- The world after these messages were written, in order.
  abbrev pub write_all : List Message → ℤ → W → W
  write_all [] fd w = w
  write_all (m ∷ ms) fd w = write_all ms fd (lib.rio_writen fd (c_string (wire m)) w).1

  send-Holds :
      (h : Holds) (m : Message) (c : Connection B) (w : W)
      → send lib m c w ≡ (true, c, (lib.rio_writen c.fd (c_string (wire m)) w).1)
  unfolding send
  send-Holds h m c w = rw (send, h.writes c.fd (c_string (wire m)) w) (ground arith)

  abbrev pub after_send : ℕ → ℕ → Store → Bool × Connection B × W → Exit × Machine W B
  after_send fuel u st (sent, c, w) =
      run lib clock (elim sent [ true ↦ receiver_loop fuel u | false ↦ done finished ])
        (record { conn = c; world = w; store = st })

  abbrev pub after_dequeue : ℕ → ℕ → Connection B → W → Fetch × Store → Exit × Machine W B
  after_dequeue fuel u c w (r, st) =
      run lib clock
        (elim r [
          | got m ↦ do
            sent ← perform (sends m)
            elim sent [ true ↦ receiver_loop fuel u | false ↦ done finished ]
          | nothing ↦ reply tag_err (codes "Empty error") >> receiver_loop fuel u
          | undefined ↦ done crashed
        ])
        (record { conn = c; world = w; store = st })

  pub loop-after_dequeue :
      (fuel u : ℕ) (s : Machine W B)
      → run lib clock (receiver_loop (suc fuel) u) s
        ≡ after_dequeue fuel u s.conn s.world (dequeue_at (clock s.world) u s.store)
  unfolding run receiver_loop answer perform_on traffic effect
  loop-after_dequeue fuel u s = refl

  pub got-after_send :
      (fuel u : ℕ) (c : Connection B) (w : W) (m : Message) (st : Store)
      → after_dequeue fuel u c w (got m, st) ≡ after_send fuel u st (send lib m c w)
  unfolding run answer perform_on traffic effect
  got-after_send fuel u c w m st = refl

  -- One round takes the first message and writes it.
  forwards_one :
      (h : Holds) (fuel u : ℕ) (name : Bytes) (m : Message) (ms : List Message) (s : Machine W B)
      → s.store.users u ≡ some (waiting name (m ∷ ms))
      → run lib clock (receiver_loop (suc fuel) u) s
        ≡ run lib clock (receiver_loop fuel u) (record {
          conn = s.conn;
          world = (lib.rio_writen s.conn.fd (c_string (wire m)) s.world).1;
          store = record (s.store) { users = put u (waiting name ms) s.store.users };
        })
  forwards_one h fuel u name m ms s e =
      let (now, t) = h.ticks s.world in
      loop-after_dequeue fuel u s
      ∙ ap (after_dequeue fuel u s.conn s.world)
          (ap (λ o. dequeue_at o u s.store) t ∙ dequeue_at-waiting now u name m ms s.store e)
      ∙ got-after_send fuel u s.conn s.world m _
      ∙ ap (after_send fuel u _) (send-Holds h m s.conn s.world)

  forwards_all :
      (h : Holds) (ms : List Message) (u : ℕ) (name : Bytes) (s : Machine W B)
      → s.store.users u ≡ some (waiting name ms)
      → let (_, s') = run lib clock (receiver_loop (length ms) u) s in
        (s'.world ≡ write_all ms s.conn.fd s.world) × (s'.store.users u ≡ some (waiting name []))
  unfolding run receiver_loop
  forwards_all h [] u name s e = (refl, e)
  forwards_all h (m ∷ ms) u name s e =
      rw (forwards_one h (length ms) u name m ms s e)
        (forwards_all h ms u name _ (put_same u (waiting name ms) s.store.users))

  -- While the connection holds and the clock can be read, a receiver's thread writes each message that
  -- waits in its user's queue once, in the order of the queue, in as many rounds as there are
  -- messages; after that the queue is empty.
  pub receiver_loop_lem :
      (h : Holds) (u : ℕ) (user : User) (s : Machine W B)
      → s.store.users u ≡ some user
      → IsCounted user.mqueue
      → let ms = user.mqueue.messages in
        let (_, s') = run lib clock (receiver_loop (length ms) u) s in
        (s'.world ≡ write_all ms s.conn.fd s.world)
        × (s'.store.users u ≡ some (waiting user.username []))
  receiver_loop_lem h u user s e counted =
      forwards_all h user.mqueue.messages u user.username s (e ∙ ap some (waiting_lem user counted))

  -- A broadcast to a room reaches a member of another name than the sender's: while the connection
  -- holds and the clock can be read, the thread of the member, a receiver, writes what waited in its
  -- queue before and then the delivery of the message, and nothing else.
  pub broadcast_forwarded :
      (h : Holds) (r u : ℕ) (sender text : Bytes) (room : Room) (user : User) (s : Machine W B)
      → s.store.rooms r ≡ some room
      → IsAscending room.members
      → has_member u room.members ≡ true
      → s.store.users u ≡ some user
      → str_eq user.username sender ≡ false
      → IsCounted user.mqueue
      → let ms = user.mqueue.messages ++ delivery room.room_name sender text ∷ [] in
        (run lib clock
          (receiver_loop (length ms) u)
          (record s { store = broadcast_message r sender text s.store })).1.world
        ≡ write_all ms s.conn.fd s.world
  unfolding enqueue
  broadcast_forwarded h r u sender text room user s here order inside known other counted =
      (receiver_loop_lem h u (record user { mqueue = enqueue m user.mqueue })
        (record s { store = broadcast_message r sender text s.store })
        (rw (inside, known, other) at
          ((broadcast_message_lem r sender text s.store room here order).0 u))
        (enqueue-IsCounted m user.mqueue counted)).0
    where
      m : Message
      m = delivery room.room_name sender text

  -- If the semaphore of its user's queue is at zero and no other thread posts to it, the loop of a
  -- receiver's thread does not return, whatever the connection does, even if every write fails: any
  -- number of rounds uses up its fuel, and leaves the user and the rooms as they are.
  pub receiver_loop_idles :
      (fuel u : ℕ) (user : User) (s : Machine W B)
      → s.store.users u ≡ some user
      → user.mqueue.avail ≡ 0
      → let (exit, s') = run lib clock (receiver_loop fuel u) s in
        (exit ≡ out_of_fuel) × (s'.store.users u ≡ some user) × (s'.store.rooms ≡ s.store.rooms)
  unfolding run receiver_loop
  receiver_loop_idles zero u user s e h = (refl, e, refl)
  receiver_loop_idles (suc fuel) u user s e h =
      rw (loop-after_dequeue fuel u s, dequeue_at-idle (clock s.world) u user s.store e h)
        (receiver_loop_idles fuel u user _ (put_same u user s.store.users) h)
