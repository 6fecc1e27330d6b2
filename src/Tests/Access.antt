-- ===== src/Tests/Access.antt =====
-- Examples for the queues: two broadcasts at a time, and a `dequeue` during an `enqueue`.
use csfassignment.Base.{ℕ, ◌≡◌, refl, false, List, [], ◌∷◌, Option, some, codes}
use csfassignment.Base.Int.{ℤ, pos}
use csfassignment.Heap.{put, lookup}
use csfassignment.Message.{Message, in_tag_table}
use csfassignment.Queue.{enqueue}
use csfassignment.Room.{has_member, insert, add_member, add_member_at, deliver, deliver_at}
use csfassignment.Connection.{
  to_string, c_string, wire, split_tag, decode, of_fd, is_open, send, receive,
}
use csfassignment.Text.{
  str_eq, find, find_first_not_of, find_last_not_of, ltrim, rtrim, trim, is_lower_cased, has_colon,
  contains,
}
use csfassignment.Server.Program.{make_user, dequeue_at, effect, answer, traffic, perform_on}
use csfassignment.Server.Chat.{
  check_received, handle_join, handle_sendall, dispatch, sender_round, sender_loop,
  chat_with_sender, welcomed, log_in, login_received, session, worker, chat_with_receiver,
  join_received, deliver_from, receiver_loop,
}
use csfassignment.Server.{is_alnum, all_alnum, is_valid_room_name, find_or_create_room}
use csfassignment.Server.System.{
  System, Thread, Reach, start, later, accepts, boot, accepted, update,
}
use csfassignment.Server.Service.Matches.{Job}
use csfassignment.Tests.World.{World, world_lib, clock_of, schedule, schedule-Reach}
use csfassignment.Queue.{MessageQueue, got, fetch}
use csfassignment.Queue.Atomic
use csfassignment.Queue.Atomic.{
  Event, dequeues, enqueues, Sections, untouched, push, posts, waits, Calls, Stands, Yields,
  Reach-Calls,
}
use csfassignment.Server.Service.Access.{one_sender}
use csfassignment.Message.{message, tag_delivery}

-- Two senders log in, join a room each, and send to it.
abbrev crossing : World
crossing = record {
  lines =
      codes "slogin:ann\n"
      ∷ codes "join:tea\n"
      ∷ codes "sendall:hi\n"
      ∷ codes "slogin:bob\n"
      ∷ codes "join:pub\n"
      ∷ codes "sendall:hey\n"
      ∷ [];
  written = [];
}

abbrev serving : ℤ → Option (Thread ℕ)
serving fd = some (accepted world_lib clock_of 0 5 fd)

abbrev started : System World ℕ
started =
    let s : System World ℕ = boot {W = World} {B = ℕ} crossing in
    record s { threads = update (update s.threads 0 (serving (pos 7))) 1 (serving (pos 8)) }

started-Reach : Reach world_lib clock_of 0 5 crossing started
started-Reach = later (later start (accepts 0 (pos 7) refl refl)) (accepts 1 (pos 8) refl refl)

abbrev until_loop : List ℕ
until_loop = 0 ∷ 0 ∷ 0 ∷ 0 ∷ 0 ∷ 0 ∷ 0 ∷ 0 ∷ 0 ∷ 0 ∷ 1 ∷ 1 ∷ 1 ∷ 1 ∷ 1 ∷ 1 ∷ 1 ∷ 1 ∷ 1 ∷ 1 ∷ []

abbrev two_loops : System World ℕ
two_loops = schedule until_loop started

two_loops-Reach : Reach world_lib clock_of 0 5 crossing two_loops
two_loops-Reach = schedule-Reach until_loop started started-Reach

abbrev to_tea : Job
to_tea = record { room = 1; sender = codes "ann"; text = codes "hi"; rest = 0 ∷ [] }

abbrev to_pub : Job
to_pub = record { room = 3; sender = codes "bob"; text = codes "hey"; rest = 2 ∷ [] }

one_sender_example : has_member 0 (2 ∷ []) ≡ false
unfolding make_user dequeue_at effect answer traffic perform_on check_received handle_join dispatch
    sender_round sender_loop chat_with_sender welcomed log_in login_received session worker
    in_tag_table to_string c_string wire split_tag decode of_fd is_open send receive has_member
    insert add_member add_member_at str_eq find find_first_not_of find_last_not_of ltrim rtrim trim
    is_lower_cased has_colon put lookup is_alnum all_alnum is_valid_room_name find_or_create_room
    contains deliver_at deliver enqueue handle_sendall chat_with_receiver join_received deliver_from
    receiver_loop
one_sender_example =
    one_sender world_lib clock_of 0 5 0 0 1 to_tea to_pub two_loops-Reach refl refl (λ e. cc) refl

-- A message is pushed and posted, and a second one pushed; then the first is waited for.
abbrev first : Message
first = message tag_delivery (codes "tea:ann:hi")

abbrev second : Message
second = message tag_delivery (codes "tea:ann:bye")

abbrev halfway : Sections
halfway = record {
  queue = record { avail = 0; messages = first ∷ second ∷ [] };
  posting = some second;
  popping = some (got first);
}

halfway-Reach : Atomic.Reach (dequeues (some 3) (got first) ∷ enqueues first ∷ []) halfway
halfway-Reach =
    Atomic.later
      (Atomic.later (Atomic.later (Atomic.later Atomic.start (push first refl)) (posts first refl))
        (push second refl))
      (waits 3 refl refl)

Reach-Calls_example :
    (q : MessageQueue) × Calls (dequeues (some 3) (got first) ∷ enqueues first ∷ []) q
    × Stands halfway q
    × Yields (some (got first)) (fetch halfway.queue).0
Reach-Calls_example = Reach-Calls halfway-Reach
