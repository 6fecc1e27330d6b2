-- ===== src/Server/Chat.antt =====
-- `worker`, `chat_with_sender` and `chat_with_receiver` of server.cpp. A `while` loop runs on fuel,
-- one unit for each round.
use csfassignment.Base.{
  ℕ, zero, suc, Bool, true, false, not, ◌&&◌, ◌++◌, Option, none, some, Bytes, codes, if◌then◌else◌,
}
use csfassignment.Text.{str_eq}
use csfassignment.Message.{
  Message, message, empty_message, tag_err, tag_ok, tag_slogin, tag_rlogin, tag_join, tag_leave,
  tag_sendall, tag_quit,
}
use csfassignment.Connection.{success, eof_or_error, invalid_msg}
use csfassignment.Queue.{nothing, undefined, got}
use csfassignment.Server.{is_valid_room_name}
use csfassignment.Server.Program.{
  Program, done, perform, ◌>>=◌, ◌>>◌, receives, last_result, sends, disconnects, makes_user,
  username, finds_room, room_name, adds, removes, broadcasts, dequeues,
}

-- How a thread ends: by `return`, because the fuel ran out, or in undefined behaviour.
pub data Exit : Type 0 where
  finished out_of_fuel crashed : Exit

-- What a round of the loop of `chat_with_sender` leads to: `break`, or the next round; with the room
-- and the message that the loop keeps.
pub data Next : Type 0 where
  stop : Option ℕ → Next
  again : Option ℕ → Message → Next

abbrev pub reply : Bytes → Bytes → Program Bool
reply tag text = perform (sends (message tag text))

-- The part of a round behind the receive: whether the loop goes on.
unfoldable pub check_received : Bool → Program Bool
check_received true = done true
check_received false = do
  r ← perform last_result
  elim r [
    | invalid_msg ↦ reply tag_err (codes "invalid message") >> done true
    | eof_or_error ↦ reply tag_err (codes "EOF or Error") >> done false
    | success ↦ done true
  ]

-- `if (room != nullptr) { room->remove_member(user); }`
abbrev pub leave_if_inside : ℕ → Option ℕ → Program (Unit {0})
leave_if_inside user none = done tt
leave_if_inside user (some room) = perform (removes room user)

unfoldable pub handle_join : ℕ → Option ℕ → Message → Program Next
handle_join user room m =
    if not (is_valid_room_name m.payload)
    then (reply tag_err (codes "invalid room name") >> done (again room m))
    else do
      leave_if_inside user room
      r ← perform (finds_room m.payload)
      perform (adds r user)
      reply tag_ok (codes "succesfully joined " ++ m.payload ++ codes "!")
      done (again (some r) m)

unfoldable pub handle_leave : ℕ → Option ℕ → Message → Program Next
handle_leave user none m = reply tag_err (codes "not in any room") >> done (again none m)
handle_leave user (some room) m = do
  perform (removes room user)
  name ← perform (username user)
  place ← perform (room_name room)
  reply tag_ok (name ++ codes " has left the room " ++ place)
  done (again none m)

unfoldable pub handle_sendall : ℕ → Option ℕ → Message → Program Next
handle_sendall user none m = reply tag_err (codes "not in any room") >> done (again none m)
handle_sendall user (some room) m = do
  name ← perform (username user)
  perform (broadcasts room name m.payload)
  reply tag_ok (codes "message was sent to all users")
  done (again (some room) m)

-- The chain of tests on the tag.
unfoldable pub dispatch : ℕ → Option ℕ → Message → Program Next
unfolding handle_join handle_leave handle_sendall
dispatch user room m =
    if str_eq m.tag tag_join
    then handle_join user room m
    else if str_eq m.tag tag_leave
    then handle_leave user room m
    else if str_eq m.tag tag_quit
    then (reply tag_ok (codes "quit") >> done (stop room))
    else if str_eq m.tag tag_sendall
    then handle_sendall user room m
    else (reply tag_err (codes "invalid message tag") >> done (again room m))

-- The body of the loop of `chat_with_sender`.
unfoldable pub sender_round : ℕ → Option ℕ → Message → Program Next
unfolding check_received dispatch
sender_round user room msg = do
  (ok, m) ← perform (receives msg)
  go ← check_received ok
  if not go then done (stop room) else dispatch user room m

unfoldable pub sender_loop : ℕ → ℕ → Option ℕ → Message → Program Exit
unfolding sender_round
sender_loop zero user room msg = done out_of_fuel
sender_loop (suc fuel) user room msg = do
  next ← sender_round user room msg
  elim next [
    | stop last ↦ leave_if_inside user last >> done finished
    | again room' m ↦ sender_loop fuel user room' m
  ]

unfoldable pub chat_with_sender : ℕ → ℕ → Program Exit
unfolding sender_loop
chat_with_sender fuel user = sender_loop fuel user none empty_message

-- The loop of `chat_with_receiver`: whether it ended by `break`.
unfoldable pub receiver_loop : ℕ → ℕ → Program Exit
receiver_loop zero user = done out_of_fuel
receiver_loop (suc fuel) user = do
  next ← perform (dequeues user)
  elim next [
    | got m ↦ do
      sent ← perform (sends m)
      elim sent [ true ↦ receiver_loop fuel user | false ↦ done finished ]
    | nothing ↦ reply tag_err (codes "Empty error") >> receiver_loop fuel user
    | undefined ↦ done crashed
  ]

-- `chat_with_receiver` behind its receive.
unfoldable pub deliver_from : ℕ → ℕ → Message → Program Exit
unfolding receiver_loop
deliver_from fuel user m =
    if not (str_eq m.tag tag_join)
    then (reply tag_err (codes "need to send a join message first") >> done finished)
    else if not (is_valid_room_name m.payload)
    then (reply tag_err (codes "invalid room name") >> done finished)
    else do
      room ← perform (finds_room m.payload)
      perform (adds room user)
      reply tag_ok (codes "succesfully joined room")
      exit ← receiver_loop fuel user
      elim exit [ finished ↦ perform (removes room user) >> done finished | other ↦ done other ]

-- What `chat_with_receiver` does after its receive, by the success of that.
unfoldable pub join_received : ℕ → ℕ → Bool → Message → Program Exit
unfolding deliver_from
join_received fuel user true m = deliver_from fuel user m
join_received fuel user false m = do
  r ← perform last_result
  elim r [
    | invalid_msg ↦ reply tag_err (codes "invalid message") >> done finished
    | eof_or_error ↦ reply tag_err (codes "EOF or Error") >> done finished
    | success ↦ deliver_from fuel user m
  ]

unfoldable pub chat_with_receiver : ℕ → ℕ → Program Exit
unfolding join_received
chat_with_receiver fuel user = do
  (ok, m) ← perform (receives empty_message)
  join_received fuel user ok m

-- What `worker` does after it has greeted its user, by the success of that.
unfoldable pub welcomed : ℕ → ℕ → Message → Bool → Program Exit
unfolding chat_with_receiver chat_with_sender
welcomed fuel user m sent =
    if not sent
    then done finished
    else if str_eq m.tag tag_rlogin
    then chat_with_receiver fuel user
    else if str_eq m.tag tag_slogin
    then chat_with_sender fuel user
    else done finished

-- `worker` from the making of the user to the chat.
unfoldable pub log_in : ℕ → Message → Program Exit
unfolding welcomed
log_in fuel m = do
  user ← perform (makes_user m.payload)
  sent ← reply tag_ok (codes "Welcome " ++ m.payload ++ codes "!")
  welcomed fuel user m sent

-- What `worker` does after its receive, by the success of that.
unfoldable pub login_received : ℕ → Bool → Message → Program Exit
unfolding log_in
login_received fuel false m = do
  r ← perform last_result
  elim r [
    | invalid_msg ↦ reply tag_err (codes "invalid message") >> done finished
    | _ ↦ done finished
  ]
login_received fuel true m =
    if not (str_eq m.tag tag_rlogin) && not (str_eq m.tag tag_slogin)
    then (reply tag_err (codes "1st message has to be slogin or rlogin") >> done finished)
    else log_in fuel m

unfoldable pub session : ℕ → Program Exit
unfolding login_received
session fuel = do (ok, m) ← perform (receives empty_message); login_received fuel ok m

-- `worker`. When it returns, the `unique_ptr` deletes the connection, which closes it.
unfoldable pub worker : ℕ → Program Exit
unfolding session
worker fuel = do exit ← session fuel; perform disconnects; done exit
