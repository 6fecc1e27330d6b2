-- ===== src/Tests/Runs.antt =====
-- Examples for the server as an implementation of the service.
use csfassignment.Base.{ℕ, ◌≡◌, ◌⊎◌, refl, true, List, [], ◌∷◌, ◌++◌, Option, some, codes}
use csfassignment.Base.Int.{ℤ, pos}
use csfassignment.Heap.{put, lookup}
use csfassignment.Message.{Message, in_tag_table}
use csfassignment.Queue.{enqueue}
use csfassignment.Room.{
  has_member, insert, add_member, add_member_at, delivery, deliver, deliver_at,
}
use csfassignment.Connection.{
  to_string, c_string, wire, split_tag, decode, of_fd, is_open, send, receive,
}
use csfassignment.Text.{
  str_eq, find, find_first_not_of, find_last_not_of, ltrim, rtrim, trim, is_lower_cased, has_colon,
  contains,
}
use csfassignment.Server.Program.{make_user, dequeue_at, effect, answer, traffic, perform_on}
use csfassignment.Server.Chat.{
  check_received, handle_join, handle_sendall, dispatch, sender_round, sender_loop,
  chat_with_sender, welcomed, log_in, login_received, session, worker, chat_with_receiver,
  join_received, deliver_from, receiver_loop,
}
use csfassignment.Server.{is_alnum, all_alnum, is_valid_room_name, find_or_create_room}
use csfassignment.Server.System.{
  System, Thread, Reach, start, later, accepts, boot, accepted, update,
}
use csfassignment.Server.Service.{Service, Runs, inbox}
use csfassignment.Server.Service.Matches.{Job, jobs_of, queued, due, title_at, name_at}
use csfassignment.Server.Service.Refinement.{Reach-Runs}
use csfassignment.Server.Service.Events.{Shows, events}
use csfassignment.Server.Service.Order.{taken_by, nothing_lost}
use csfassignment.Tests.World.{World, world_lib, clock_of, schedule, schedule-Reach}

-- A receiver logs in and joins a room, then a sender joins it and sends to it.
abbrev chatting : World
chatting = record {
  lines =
      codes "rlogin:bob\n"
      ∷ codes "join:tea\n"
      ∷ codes "slogin:ann\n"
      ∷ codes "join:tea\n"
      ∷ codes "sendall:hi\n"
      ∷ [];
  written = [];
}

abbrev booted : System World ℕ
booted = boot {W = World} {B = ℕ} chatting

abbrev serving : ℤ → Option (Thread ℕ)
serving fd = some (accepted world_lib clock_of 0 5 fd)

abbrev one_client : System World ℕ
one_client = record booted { threads = update booted.threads 0 (serving (pos 7)) }

abbrev two_clients : System World ℕ
two_clients = record one_client { threads = update one_client.threads 1 (serving (pos 8)) }

two_clients-Reach : Reach world_lib clock_of 0 5 chatting two_clients
two_clients-Reach = later (later start (accepts 0 (pos 7) refl refl)) (accepts 1 (pos 8) refl refl)

-- The receiver's thread goes on until it is in the room and has answered, and then the sender's
-- until its broadcast has reached the receiver and is still in progress.
abbrev turns_taken : List ℕ
turns_taken = 0 ∷ 0 ∷ 0 ∷ 0 ∷ 0 ∷ 0 ∷ 0 ∷ 1 ∷ 1 ∷ 1 ∷ 1 ∷ 1 ∷ 1 ∷ 1 ∷ 1 ∷ 1 ∷ 1 ∷ 1 ∷ []

abbrev sent : System World ℕ
sent = schedule turns_taken two_clients

sent-Reach : Reach world_lib clock_of 0 5 chatting sent
sent-Reach = schedule-Reach turns_taken two_clients two_clients-Reach

Reach-Runs_example :
    (a : Service) × Runs (events world_lib clock_of 0 5 sent-Reach) a
    × Shows world_lib clock_of 0 5 sent a
Reach-Runs_example = Reach-Runs world_lib clock_of 0 5 sent-Reach

nothing_lost_example :
    (a : Service) × (rest : List Message) × Runs (events world_lib clock_of 0 5 sent-Reach) a
    × (inbox 0 a.log
        ≡ taken_by 0 (events world_lib clock_of 0 5 sent-Reach) ++ (queued 0 sent.store ++ rest))
    × ((rest ≡ [])
        ⊎ ((i : ℕ) × (b : Job) × (jobs_of sent.threads i ≡ some b)
            × (has_member 0 b.rest ≡ true)
            × (rest ≡ due (title_at b.room sent.store) (name_at 0 sent.store) b.sender b.text)))
nothing_lost_example = nothing_lost world_lib clock_of 0 5 0 sent-Reach

-- The sender's message stands in the queue of the receiver.
sent_queued : queued 0 sent.store ≡ delivery (codes "tea") (codes "ann") (codes "hi") ∷ []
unfolding make_user dequeue_at effect answer traffic perform_on check_received handle_join dispatch
    sender_round sender_loop chat_with_sender welcomed log_in login_received session worker
    in_tag_table to_string c_string wire split_tag decode of_fd is_open send receive has_member
    insert add_member add_member_at str_eq find find_first_not_of find_last_not_of ltrim rtrim trim
    is_lower_cased has_colon put lookup is_alnum all_alnum is_valid_room_name find_or_create_room
    contains deliver_at deliver enqueue handle_sendall chat_with_receiver join_received deliver_from
    receiver_loop
sent_queued = refl
