-- ===== src/Tests/Threads.antt =====
-- Examples for single threads of the server that run alone, and for ports.
use csfassignment.Base.{
  ℕ, ◌≤◌, ◌<◌, ◌≡◌, refl, false, List, [], ◌∷◌, none, some, Bytes, codes, length, arith,
}
use csfassignment.Base.Int.{pos, less_than_one}
use csfassignment.Text.{
  str_eq, is_lower_cased, contains, find, find_first_not_of, find_last_not_of, ltrim, rtrim, trim,
}
use csfassignment.Message.{message, empty_message, tag_err, tag_ok}
use csfassignment.Connection.{success, receive, c_string, decode, split_tag}
use csfassignment.Heap.{User, empty_store, new_user}
use csfassignment.Room.{has_member, delivery, broadcast_message}
use csfassignment.Tests.Store.{tea, two_users}
use csfassignment.Server.Program.{Machine, run, perform_on, receives, sends}
use csfassignment.Server.Chat.{finished, again, sender_round, receiver_loop, worker, out_of_fuel}
use csfassignment.Server.Ends.{worker_lem}
use csfassignment.Server.Fuel.{Drains, invalid_answered_twice}
use csfassignment.Server.Forwarding.{
  Holds, write_all, waiting, receiver_loop_idles, broadcast_forwarded,
}
use csfassignment.Tests.World.{World, world_lib, clock_of, next_line}

-- The lines that are left in the world.
abbrev lines_left : World → ℕ
lines_left w = length w.lines

reading :
    (lines : List Bytes) (written : Bytes)
    → lines_left (next_line (record { lines = lines; written = written })).world ≤ length lines
reading [] written = omega arith
reading (l ∷ ls) written = omega arith

using :
    (lines : List Bytes) (written : Bytes)
    → less_than_one (next_line (record { lines = lines; written = written })).count ≡ false
    → lines_left (next_line (record { lines = lines; written = written })).world < length lines
using [] written h = cc
using (l ∷ ls) written h = omega arith

lines_left-Drains : Drains world_lib clock_of lines_left
lines_left-Drains = record {
  reads = λ c w. reading w.lines w.written;
  uses = λ c w h. using w.lines w.written h;
  writes = λ fd text w. omega arith;
  closes = λ fd w. omega arith;
}

-- A connection whose peer sends a line that is no message, and no more.
abbrev chatting : Machine World ℕ
chatting = record {
  conn = record { fd = pos 4; fdbuf = 0; last_result = success };
  world = record { lines = codes "hello\n" ∷ []; written = [] };
  store = empty_store;
}

invalid_answered_twice_example :
    run world_lib clock_of (sender_round 0 none empty_message) chatting ≡ (
      again none (record empty_message { tag = tag_err }),
      perform_on world_lib clock_of (sends (message tag_err (codes "invalid message tag"))) (
          perform_on world_lib clock_of
            (sends (message tag_err (codes "invalid message")))
            (perform_on world_lib clock_of (receives empty_message) chatting)),
    )
unfolding decode c_string split_tag find trim ltrim rtrim find_first_not_of find_last_not_of
    contains
invalid_answered_twice_example =
    invalid_answered_twice world_lib clock_of 0 none empty_message chatting refl refl

-- A user for whom a message waits.
abbrev ann : User
ann = waiting (codes "ann") (message tag_ok (codes "hi") ∷ [])

abbrev forwarding : Machine World ℕ
forwarding = record chatting { store = record empty_store { users = λ a. some ann } }

world-Holds : Holds world_lib clock_of
world-Holds = record { writes = λ fd text w. refl; ticks = λ w. (0, refl) }

-- A receiver whose queue is empty.
abbrev idle : Machine World ℕ
idle = record chatting { store = record empty_store { users = λ a. some (new_user (codes "ann")) } }

receiver_loop_idles_example :
    let (exit, s') = run world_lib clock_of (receiver_loop 3 0) idle in
    (exit ≡ out_of_fuel)
    × (s'.store.users 0 ≡ some (new_user (codes "ann")))
    × (s'.store.rooms ≡ idle.store.rooms)
receiver_loop_idles_example =
    receiver_loop_idles world_lib clock_of 3 0 (new_user (codes "ann")) idle refl refl

-- A connection whose peer logs in as a sender and joins a room.
abbrev logging_in : Machine World ℕ
logging_in = record chatting {
  world = record { lines = codes "slogin:ann\n" ∷ codes "join:tea\n" ∷ []; written = [] };
}

worker_lem_example : (run world_lib clock_of (worker 3) logging_in).0 ≡ finished
unfolding decode c_string split_tag find trim ltrim rtrim find_first_not_of find_last_not_of
    contains receive str_eq is_lower_cased
worker_lem_example =
    worker_lem world_lib clock_of lines_left lines_left-Drains 3 logging_in (omega arith) refl

-- The connection of a receiver in a store with a room of two users.
abbrev listening : Machine World ℕ
listening = record chatting { store = two_users }

broadcast_forwarded_example :
    (run world_lib clock_of (receiver_loop 1 1) (record listening {
      store = broadcast_message 2 (codes "ann") (codes "hi") listening.store;
    })).1.world
    ≡ write_all world_lib clock_of
        (delivery tea.room_name (codes "ann") (codes "hi") ∷ [])
        listening.conn.fd
        listening.world
unfolding has_member str_eq
broadcast_forwarded_example =
    broadcast_forwarded world_lib clock_of world-Holds 2 1 (codes "ann") (codes "hi") tea
      (new_user (codes "bob")) listening refl ((omega arith, tt), (tt, tt)) refl refl refl refl
