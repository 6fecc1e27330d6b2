-- ===== src/Tests/Chat.antt =====
-- Examples for the server.
use csfassignment.Base.{ℕ, ◌≡◌, refl, true, [], ◌∷◌, none, some, codes, All, ◌==◌, if◌then◌else◌}
use csfassignment.Base.Int.{pos, greater_than_zero}
use csfassignment.Heap.{put, lookup}
use csfassignment.Room.{has_member, insert, add_member, add_member_at}
use csfassignment.Message.{Message, message, in_tag_table}
use csfassignment.Connection.{
  to_string, c_string, wire, split_tag, decode, of_fd, is_open, send, receive,
}
use csfassignment.Text.{
  str_eq, find, find_first_not_of, find_last_not_of, ltrim, rtrim, trim, is_lower_cased, has_colon,
  contains,
}
use csfassignment.Server.Program.{make_user, dequeue_at, effect, answer, traffic, perform_on}
use csfassignment.Server.Chat.{
  check_received, handle_join, dispatch, sender_round, sender_loop, chat_with_sender, welcomed,
  log_in, login_received, session, worker,
}
use csfassignment.Server.Effects.{member_of}
use csfassignment.Server.{is_alnum, all_alnum, is_valid_room_name, find_or_create_room}
use csfassignment.Server.Invariant.{Inv}
use csfassignment.Server.System.{
  System, Thread, Reach, start, later, accepts, boot, accepted, update,
}
use csfassignment.Server.System.Safety.{one_room, members_live, reachable_objects}
use csfassignment.Server.Membership.{Obeys, EndedOut, outside, worker-Obeys}
use csfassignment.Server.Users.{user_exists}
use csfassignment.Server.System.Owner.{Owes, ActsOn}
use csfassignment.Server.Replies.{RoundSends, sender_round-RoundSends}
use csfassignment.Server.Listener.{Network, main, main_lem}
use csfassignment.Tests.World.{World, world_lib, clock_of, schedule, schedule-Reach}

-- A sender logs in and joins a room.
abbrev joining : World
joining = record { lines = codes "slogin:ann\n" ∷ codes "join:tea\n" ∷ []; written = [] }

abbrev started : System World ℕ
started = record (boot {W = World} {B = ℕ} joining) {
  threads =
      update (boot {W = World} {B = ℕ} joining).threads 0
        (some (accepted world_lib clock_of 0 5 (pos 7)));
}

started-Reach : Reach world_lib clock_of 0 5 joining started
started-Reach = later start (accepts 0 (pos 7) refl refl)

-- The thread has put its user, at address 0, into the room, at address 1.
abbrev joined : System World ℕ
joined = schedule (0 ∷ 0 ∷ 0 ∷ 0 ∷ 0 ∷ 0 ∷ []) started

joined-Reach : Reach world_lib clock_of 0 5 joining joined
joined-Reach = schedule-Reach (0 ∷ 0 ∷ 0 ∷ 0 ∷ 0 ∷ 0 ∷ []) started started-Reach

joined_member : member_of 0 1 joined.store ≡ true
unfolding make_user dequeue_at effect answer traffic perform_on check_received handle_join dispatch
    sender_round sender_loop chat_with_sender welcomed log_in login_received session worker
    in_tag_table to_string c_string wire split_tag decode of_fd is_open send receive has_member
    insert add_member add_member_at str_eq find find_first_not_of find_last_not_of ltrim rtrim trim
    is_lower_cased has_colon put lookup is_alnum all_alnum is_valid_room_name find_or_create_room
    contains
joined_member = refl

one_room_example : ◌≡◌ {A = ℕ} 1 1
one_room_example = one_room world_lib clock_of 0 5 0 1 1 joined-Reach joined_member joined_member

members_live_example :
    (i : ℕ) × (t : Thread ℕ) × (joined.threads i ≡ some t)
    × Owes 0 1 t.program
    × ((j : ℕ) (x : Thread ℕ) → joined.threads j ≡ some x → ActsOn 0 x.program → j ≡ i)
members_live_example = members_live world_lib clock_of 0 5 0 1 joined-Reach joined_member

reachable_objects_example :
    Inv joined.store
    × ((u r : ℕ) → member_of u r joined.store ≡ true → user_exists u joined.store ≡ true)
reachable_objects_example = reachable_objects world_lib clock_of 0 5 joined-Reach

worker-Obeys_example : Obeys EndedOut outside [] (worker 5)
worker-Obeys_example = worker-Obeys 5

abbrev ask : Message
ask = message (codes "hello") (codes "there")

sender_round-RoundSends_example : RoundSends (sender_round 0 none ask)
sender_round-RoundSends_example = sender_round-RoundSends 0 none ask

-- A network that accepts one client and then none.
abbrev one_client : Network ℕ
one_client = record {
  open_listenfd = λ port w. (pos 3, w);
  accept = λ fd w. if w == 0 then (some (pos 4), 1) else (none, w);
  create_thread = λ fd w. (true, w);
  close = λ fd w. w;
}

main_lem_example :
    All (λ fd. greater_than_zero fd ≡ true) (main one_client 5 (codes "5000" ∷ []) 0).1
main_lem_example = main_lem one_client 5 (codes "5000" ∷ []) 0
