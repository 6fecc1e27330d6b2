-- ===== src/Tests/Audience.antt =====
-- An example of what another user's screen shows of a sender's session.
use csfassignment.Base.{ℕ, ◌≡◌, refl, ap, some, [], ◌∷◌, codes, arith}
use csfassignment.Base.Int.{ℤ}
use csfassignment.Text.{
  str_eq, contains, find, find_first_not_of, find_last_not_of, ltrim, rtrim, trim, substr?,
  substr_len?,
}
use csfassignment.Message.{empty_message}
use csfassignment.Queue.{enqueue}
use csfassignment.Heap.{User, Store, empty_store, put, lookup}
use csfassignment.Room.{add_member_at, remove_member_at, broadcast_message}
use csfassignment.Server.{is_valid_room_name, all_alnum, is_alnum, find_or_create_room}
use csfassignment.Server.Program.{effect, make_user, Machine, run}
use csfassignment.Server.Chat
use csfassignment.Server.Invariant.{empty_store-Inv}
use csfassignment.Client.{Console, runs}
use csfassignment.Client.Receiver
use csfassignment.Client.Sender.{is_command, has_word, sender_session}
use csfassignment.Dialogue.{served_lib}
use csfassignment.Dialogue.Speech.{Speech, IsShowable, screened, delivery_of}
use csfassignment.Dialogue.Whole.{sender_session_lem}
use csfassignment.Dialogue.Audience.{queue_shown, session_shown}
use csfassignment.Tests.Talks.{
  Pipes, pipes_lib, pipes-IsReliable, typed, ann, no_clock, ann-IsQuiet, typed-IsTyped, server_end,
}
use csfassignment.Tests.Abroad.{others-AllStill}

abbrev hello : Speech
hello = record { room = codes "tea"; sender = codes "ann"; text = codes "hello" }

hello-IsShowable : IsShowable hello
hello-IsShowable = record {
  deliverable = record {
    room_plain = record {
      no_zero = ground arith;
      no_newline = ground arith;
      no_colon = ground arith;
    };
    sender_plain = record {
      no_zero = ground arith;
      no_newline = ground arith;
      no_colon = ground arith;
    };
    text_plain = record {
      no_zero = ground arith;
      no_newline = ground arith;
      no_colon = ground arith;
    };
    fits = ground arith;
  };
  short = ground arith;
}

-- Eve, with what she is to get.
abbrev eve : User
eve = record {
  username = codes "eve";
  mqueue = record { avail = 1; messages = delivery_of hello ∷ [] };
}

-- Eve's thread, and her screen.
abbrev eve_waits : Store → Machine Pipes ℤ
eve_waits st = record { conn = server_end; world = λ fd. []; store = st }

abbrev blank : Console
blank = record { input = []; out = []; err = [] }

no_clock_ticks : (w : Pipes) → (now : ℕ) × (no_clock w ≡ some now)
no_clock_ticks w = (0, refl)

queue_shown_example :
    let (_, after) =
      run pipes_lib no_clock
        (Chat.receiver_loop 1 0)
        (eve_waits (record empty_store { users = λ a. some eve })) in
    let (status, end) =
      Receiver.receiver_loop pipes_lib 1 empty_message
        (record { conn = ann.conn; world = after.world; console = blank }) in
    (status ≡ runs) × (end.console ≡ screened (hello ∷ []) blank)
queue_shown_example =
    queue_shown pipes-IsReliable no_clock no_clock_ticks 0 eve (hello ∷ []) empty_message
      (eve_waits (record empty_store { users = λ a. some eve })) ann.conn blank ann-IsQuiet refl
      refl refl (hello-IsShowable, tt)

abbrev eve_store : Store
eve_store = (sender_session (served_lib pipes_lib no_clock) 6 (codes "ann") ann).1.world.store

eve_has : eve_store.users 0 ≡ some eve
unfolding trim ltrim rtrim find_first_not_of find_last_not_of contains find is_command has_word
    substr? substr_len? str_eq effect make_user is_valid_room_name all_alnum is_alnum
    find_or_create_room put lookup add_member_at remove_member_at broadcast_message enqueue
eve_has =
    ap (λ s. s.users 0)
      (sender_session_lem pipes-IsReliable no_clock (codes "ann") typed (codes "/quit") [] 6 9 ann
        ann-IsQuiet refl empty_store-Inv (ground arith) typed-IsTyped refl refl (omega arith)
        (omega arith)).objects

session_shown_example :
    let (_, after) = run pipes_lib no_clock (Chat.receiver_loop 1 0) (eve_waits eve_store) in
    let (status, end) =
      Receiver.receiver_loop pipes_lib 1 empty_message
        (record { conn = ann.conn; world = after.world; console = blank }) in
    (status ≡ runs) × (end.console ≡ screened (hello ∷ []) blank)
unfolding trim ltrim rtrim find_first_not_of find_last_not_of contains find is_command has_word
    substr? substr_len? str_eq effect make_user is_valid_room_name all_alnum is_alnum
    find_or_create_room put lookup add_member_at remove_member_at
session_shown_example =
    session_shown pipes-IsReliable no_clock no_clock_ticks (codes "ann") typed (codes "/quit") [] 6
      9 ann 0 eve empty_message (eve_waits eve_store) ann.conn blank ann-IsQuiet refl
      empty_store-Inv (ground arith) typed-IsTyped refl refl (omega arith) (omega arith)
      others-AllStill refl refl eve_has ann-IsQuiet (hello-IsShowable, tt)
