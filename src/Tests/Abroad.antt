-- ===== src/Tests/Abroad.antt =====
-- An example of what another user gets of a sender's session.
use csfassignment.Base.{◌≡◌, refl, [], ◌∷◌, ◌++◌, map, codes, arith}
use csfassignment.Text.{
  str_eq, contains, find, find_first_not_of, find_last_not_of, ltrim, rtrim, trim, substr?,
  substr_len?,
}
use csfassignment.Heap.{empty_store, put, lookup}
use csfassignment.Room.{has_member, add_member, remove_member, add_member_at, remove_member_at}
use csfassignment.Server.{is_valid_room_name, all_alnum, is_alnum, find_or_create_room}
use csfassignment.Server.Program.{effect, make_user}
use csfassignment.Server.Invariant.{empty_store-Inv}
use csfassignment.Server.Service.Matches.{queued}
use csfassignment.Client.Sender.{is_command, has_word, sender_session}
use csfassignment.Dialogue.{served_lib}
use csfassignment.Dialogue.Speech.{delivery_of}
use csfassignment.Dialogue.Still.{AllStill}
use csfassignment.Dialogue.Heard.{overheard}
use csfassignment.Dialogue.Whole.{entrant, beginning}
use csfassignment.Dialogue.Abroad.{session_overheard}
use csfassignment.Tests.Talks.{
  pipes_lib, pipes-IsReliable, typed, ann, others, no_clock, ann-IsQuiet, typed-IsTyped,
}

pub others-AllStill : AllStill others
others-AllStill = ((tt, tt), (tt, ((tt, (tt, tt)), tt)))

-- Eve, who logged in before ann and joined the room between two of ann's lines, gets the one text that
-- ann sends in the room.
pub eve_overhears :
    overheard 0 (entrant ann) typed (beginning (codes "ann") ann)
    ≡ record { room = codes "tea"; sender = codes "ann"; text = codes "hello" } ∷ []
unfolding trim ltrim rtrim find_first_not_of find_last_not_of contains find is_command has_word
    substr? substr_len? str_eq make_user is_valid_room_name all_alnum is_alnum find_or_create_room
    put lookup effect has_member add_member_at remove_member_at add_member remove_member
eve_overhears = refl

session_overheard_example :
    queued 0 (sender_session (served_lib pipes_lib no_clock) 6 (codes "ann") ann).1.world.store
    ≡ queued 0 empty_store
      ++ map delivery_of (overheard 0 (entrant ann) typed (beginning (codes "ann") ann))
unfolding trim ltrim rtrim find_first_not_of find_last_not_of contains find is_command has_word
    substr? substr_len? str_eq
session_overheard_example =
    session_overheard pipes-IsReliable no_clock 0 (codes "ann") typed (codes "/quit") [] 6 9 ann
      ann-IsQuiet refl empty_store-Inv (ground arith) typed-IsTyped refl refl (omega arith)
      (omega arith) others-AllStill
