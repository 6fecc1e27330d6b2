-- ===== src/Dialogue/Replies.antt =====
-- What a sender's thread answers to a request and what it does to the shared objects, as a function
-- of the request, the room that the user is in and the objects.
use csfassignment.Base.{
  ℕ, ◌≡◌, refl, false, ◌++◌, Option, none, some, Bytes, codes, if◌then◌else◌, inl, inr, Bool-cases,
}
use csfassignment.Csapp.{Csapp}
use csfassignment.Text.{str_eq}
use csfassignment.Message.{
  Message, message, tag_ok, tag_err, tag_join, tag_leave, tag_sendall, tag_quit,
}
use csfassignment.Heap.{Store}
use csfassignment.Room.{add_member_at, remove_member_at, broadcast_message}
use csfassignment.Server.{is_valid_room_name, find_or_create_room}
use csfassignment.Server.Program.{
  Program, done, ◌>>=◌, ◌>>◌, Machine, sends, perform_on, username_at, room_name_at,
}
use csfassignment.Server.Chat.{
  Exit, finished, Next, stop, again, leave_if_inside, handle_join, handle_leave, handle_sendall,
  dispatch, sender_loop,
}
use csfassignment.Dialogue.{advance}

-- The answer, and the room of the user and the objects afterwards.
pub record Reply : Type 0 where
  pub said : Message
  pub room : Option ℕ
  pub store : Store

abbrev pub refusal : Bytes → Option ℕ → Store → Reply
refusal text room st = record { said = message tag_err text; room = room; store = st }

abbrev pub left_room : ℕ → Option ℕ → Store → Store
left_room user none st = st
left_room user (some r) st = remove_member_at r user st

abbrev pub to_join : ℕ → Option ℕ → Bytes → Store → Reply
to_join user room name st =
    if is_valid_room_name name
    then (let (r, st') = find_or_create_room name (left_room user room st) in
        record {
          said = message tag_ok (codes "succesfully joined " ++ name ++ codes "!");
          room = some r;
          store = add_member_at r user st';
        })
    else refusal (codes "invalid room name") room st

abbrev pub to_leave : ℕ → Option ℕ → Store → Reply
to_leave user none st = refusal (codes "not in any room") none st
to_leave user (some r) st =
    let st' = remove_member_at r user st in
    record {
      said =
          message tag_ok
            (username_at user st' ++ codes " has left the room " ++ room_name_at r st');
      room = none;
      store = st';
    }

abbrev pub to_sendall : ℕ → Option ℕ → Bytes → Store → Reply
to_sendall user none text st = refusal (codes "not in any room") none st
to_sendall user (some r) text st = record {
  said = message tag_ok (codes "message was sent to all users");
  room = some r;
  store = broadcast_message r (username_at user st) text st;
}

-- The answer to any request but `quit`.
abbrev pub reply_to : ℕ → Option ℕ → Message → Store → Reply
reply_to user room m st =
    if str_eq m.tag tag_join
    then to_join user room m.payload st
    else if str_eq m.tag tag_leave
    then to_leave user room st
    else if str_eq m.tag tag_sendall
    then to_sendall user room m.payload st
    else refusal (codes "invalid message tag") room st

-- What follows a round of the loop.
abbrev pub after_round : ℕ → ℕ → Next → Program Exit
after_round fuel user next = elim next [
  | stop last ↦ leave_if_inside user last >> done finished
  | again room m ↦ sender_loop fuel user room m
]

module _ {W B : Type 0} (lib : Csapp W B) (clock : W → Option ℕ) where
  -- The machine when the answer has been sent.
  abbrev pub replied : Reply → Machine W B → Machine W B
  replied a s = perform_on lib clock (sends a.said) (record s { store = a.store })

  abbrev Answers :
      ℕ → ℕ → Message → (Exit → Program Exit) → Program Next → Reply → Machine W B → Type 0
  Answers fuel user m k p a s =
      advance lib clock ((p >>= after_round fuel user) >>= k) s
      ≡ advance lib clock (sender_loop fuel user a.room m >>= k) (replied a s)

  module _ (fuel user : ℕ) (m : Message) (k : Exit → Program Exit) (s : Machine W B) where
    join-Answers :
        (room : Option ℕ)
        → Answers fuel user m k (handle_join user room m) (to_join user room m.payload s.store) s
    unfolding advance handle_join
    join-Answers none = elim (Bool-cases (is_valid_room_name m.payload)) [
      | inl valid ↦ rw valid refl
      | inr invalid ↦ rw invalid refl
    ]
    join-Answers (some r) = elim (Bool-cases (is_valid_room_name m.payload)) [
      | inl valid ↦ rw valid refl
      | inr invalid ↦ rw invalid refl
    ]

    leave-Answers :
        (room : Option ℕ)
        → Answers fuel user m k (handle_leave user room m) (to_leave user room s.store) s
    unfolding advance handle_leave
    leave-Answers none = refl
    leave-Answers (some r) = refl

    sendall-Answers :
        (room : Option ℕ)
        → Answers fuel user m k
            (handle_sendall user room m)
            (to_sendall user room m.payload s.store)
            s
    unfolding advance handle_sendall
    sendall-Answers none = refl
    sendall-Answers (some r) = refl

    -- The thread's answer to any request but `quit`, up to the next round of its loop.
    pub dispatch-Answers :
        (room : Option ℕ)
        → str_eq m.tag tag_quit ≡ false
        → Answers fuel user m k (dispatch user room m) (reply_to user room m s.store) s
    unfolding advance dispatch
    dispatch-Answers room other = elim (Bool-cases (str_eq m.tag tag_join)) [
      | inl e ↦ rw e (join-Answers room)
      | inr e ↦ rw e (elim (Bool-cases (str_eq m.tag tag_leave)) [
        | inl f ↦ rw f (leave-Answers room)
        | inr f ↦
            rw (f, other)
              (elim (Bool-cases (str_eq m.tag tag_sendall)) [
                | inl g ↦ rw g (sendall-Answers room)
                | inr g ↦ rw g refl
              ])
      ])
    ]
