-- ===== src/Tests/Joins.antt =====
-- An example of a receiver that joins a room.
use csfassignment.Base.{◌≡◌, refl, [], ◌∷◌, codes, arith}
use csfassignment.Base.Int.{ℤ}
use csfassignment.Text.{
  str_eq, contains, find, find_first_not_of, find_last_not_of, ltrim, rtrim, trim,
}
use csfassignment.Message.{message, empty_message, tag_err, split_payload, in_tag_table}
use csfassignment.Server.{is_valid_room_name, all_alnum, is_alnum}
use csfassignment.Server.Program.{make_user, effect}
use csfassignment.Server.Invariant.{empty_store-Inv}
use csfassignment.Client.{Client}
use csfassignment.Client.Receiver
use csfassignment.Client.Receiver.{receiver_session, show_message, show_parts}
use csfassignment.Dialogue.{Served, served_lib}
use csfassignment.Dialogue.Joined.{Joined, found_by, receiver_session_lem}
use csfassignment.Tests.Talks.{Pipes, pipes_lib, pipes-IsReliable, ann, no_clock, ann-IsQuiet}

-- A receiver that is connected, and its thread at its start.
abbrev newcomer : Client (Served Pipes ℤ) ℤ
newcomer = record ann { console = record { input = []; out = []; err = [] } }

receiver_session_lem_example :
    (s' : Client (Served Pipes ℤ) ℤ) × (receiver_session
        (served_lib pipes_lib no_clock)
        4
        (codes "joe")
        (codes "tea")
        newcomer
      ≡ Receiver.receiver_loop (served_lib pipes_lib no_clock) 4 empty_message s')
    × Joined pipes-IsReliable no_clock 9 1
        (rtrim (codes "tea"))
        (found_by (codes "joe") newcomer)
        newcomer
        s'
unfolding rtrim find_last_not_of contains is_valid_room_name all_alnum is_alnum effect make_user
receiver_session_lem_example =
    receiver_session_lem pipes-IsReliable no_clock 4 9 (codes "joe") (codes "tea") newcomer
      (omega arith) ann-IsQuiet refl empty_store-Inv (ground arith) (ground arith) refl

-- What a receiver shows when its queue stays empty.
idle_shown :
    (show_message (message tag_err (codes "Empty error")) newcomer).console.err
    ≡ codes "Empty error" ∷ codes "invalid payload size" ∷ []
unfolding show_message show_parts str_eq split_payload in_tag_table trim ltrim rtrim contains find
    find_first_not_of find_last_not_of
idle_shown = refl
