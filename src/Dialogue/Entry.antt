-- ===== src/Dialogue/Entry.antt =====
-- The log-in and the join of a receiver.
use csfassignment.Base.{
  ℕ, suc, ◌≡◌, refl, ap, ◌∙◌, Bool, true, List, [], Option, some, Bytes, codes, ==_refl, arith,
}
use csfassignment.Base.Int.{ℤ}
use csfassignment.Csapp.{Csapp}
use csfassignment.Text.{str_eq, rtrim}
use csfassignment.Message.{Message, message, empty_message, tag_ok, tag_join, tag_rlogin}
use csfassignment.Connection.{Connection, receive}
use csfassignment.Heap.{Store}
use csfassignment.Room.{add_member_at}
use csfassignment.Server.{is_valid_room_name, find_or_create_room}
use csfassignment.Server.Program.{
  Program, done, perform, removes, ◌>>=◌, ◌>>◌, Machine, answer, effect, traffic, perform_on,
}
use csfassignment.Server.Chat
use csfassignment.Server.Chat.{
  Exit, finished, worker, welcomed, chat_with_receiver, join_received, deliver_from,
}
use csfassignment.Server.Invariant.{Inv}
use csfassignment.Server.Effects.{member_of, member_of-add_member_at, found_room_exists}
use csfassignment.Client.{Client}
use csfassignment.Server.Deeds.{stir, rest_of}
use csfassignment.Dialogue.{Served, machine_of, stopped_at, advance, resume, serve}
use csfassignment.Dialogue.Link.{IsReliable, IsPlain, receive-IsPlain}
use csfassignment.Dialogue.Replies.{Reply, replied}
use csfassignment.Dialogue.Exchange.{heard, machine_with, IsQuiet, replied_lem, there}
use csfassignment.Dialogue.Synced.{asked_by, hearing, answering}
use csfassignment.Dialogue.Texts.{message-IsPlain}
use csfassignment.Dialogue.Quit.{closing}
use csfassignment.Dialogue.Login.{login}

-- The request of the join, and its answer.
abbrev pub joining : Bytes → Message
joining room_name = message tag_join room_name

abbrev admitted : Message
admitted = message tag_ok (codes "succesfully joined room")

abbrev pub admission : (user : ℕ) (title : Bytes) → Store → Reply
admission user title st =
    let (r, st') = find_or_create_room title st in
    record { said = admitted; room = some r; store = add_member_at r user st' }

-- What the thread does behind its loop.
abbrev pub leaving : (room user : ℕ) → Exit → Program Exit
leaving room user exit = elim exit [
  | finished ↦ perform (removes room user) >> done finished
  | other ↦ done other
]

pub admission_inside :
    (user : ℕ) (title : Bytes) (st : Store)
    → Inv st
    → member_of user (find_or_create_room title st).0 (admission user title st).store ≡ true
admission_inside user title st i =
    let (r, st') = find_or_create_room title st in
    ground (
      arith,
      member_of-add_member_at r user st' user r (found_room_exists title st i),
      ==_refl user,
      ==_refl r,
    )

pub admitted-IsPlain : IsPlain admitted
admitted-IsPlain = message-IsPlain tag_ok _ (ground arith) (omega arith) (ground arith)

module _ {W B : Type 0} {lib : Csapp W B} {owner : B → ℤ} {peer : ℤ → ℤ}
    {lines : B → W → List Bytes} (h : IsReliable lib owner peer lines) (clock : W → Option ℕ) where
  pub welcomed_receiver :
      (rounds user : ℕ) (username : Bytes) (s : Machine W B)
      → advance lib clock
          (welcomed rounds user (heard (login tag_rlogin username) empty_message) true >>= closing)
          s
        ≡ (chat_with_receiver rounds user >>= closing, s)
  unfolding welcomed str_eq chat_with_receiver advance
  welcomed_receiver rounds user username s = refl

  -- The program of a thread that waits for messages.
  abbrev pub waiting_in : (rounds room user : ℕ) → Program Exit
  waiting_in rounds room user = (Chat.receiver_loop rounds user >>= leaving room user) >>= closing

  abbrev joined : ℕ → ℕ → Store → Bool × Message × Connection B × W → Program Exit × Machine W B
  joined rounds user st (ok, m, c, w) =
      advance lib clock (join_received rounds user ok m >>= closing) (machine_with c w st)

  resume-chat :
      (rounds user : ℕ) (s : Machine W B)
      → resume lib clock (chat_with_receiver rounds user >>= closing) s
        ≡ joined rounds user s.store (receive lib empty_message s.conn s.world)
  unfolding chat_with_receiver answer perform_on traffic effect advance
  resume-chat rounds user s = refl

  advance-joined :
      (f user : ℕ) (room_name : Bytes) (s : Machine W B)
      → is_valid_room_name (rtrim room_name) ≡ true
      → let a = admission user (rtrim room_name) s.store in
        advance lib clock
          (join_received (suc f) user true (heard (joining room_name) empty_message) >>= closing)
          s
        ≡ (
          waiting_in (suc f) (find_or_create_room (rtrim room_name) s.store).0 user,
          replied lib clock a s,
        )
  unfolding join_received deliver_from str_eq answer perform_on traffic effect advance
      Chat.receiver_loop
  advance-joined f user room_name s valid = rw valid refl

  -- The thread reads the join, enters its user into the room, answers, and waits at the queue.
  pub serve-join :
      (f user : ℕ) (room_name : Bytes) (s : Client (Served W B) B)
      → s.world.program ≡ (chat_with_receiver (suc f) user >>= closing)
      → IsQuiet h clock s.conn s.world.conn s.world.world
      → IsPlain (joining room_name)
      → is_valid_room_name (rtrim room_name) ≡ true
      → serve lib clock (asked_by h clock (joining room_name) s)
        ≡ answering h clock
            (joining room_name)
            (admission user (rtrim room_name) (stir s.world.others s.world.store))
            (waiting_in
              (suc f)
              (find_or_create_room (rtrim room_name) (stir s.world.others s.world.store)).0
              user)
            s
  unfolding serve
  serve-join f user room_name s running quiet plain valid =
      let p = asked_by h clock (joining room_name) s in
      let t = hearing h clock (joining room_name) s in
      let a = admission user (rtrim room_name) t.store in
      ap (stopped_at (rest_of s.world.others)) (
        ap (λ q. resume lib clock q (machine_of p)) running
        ∙ resume-chat (suc f) user (machine_of p)
        ∙ ap (joined (suc f) user p.store) (
            receive-IsPlain h (joining room_name) empty_message p.conn p.world [] plain
              (there h clock (joining room_name) s.conn s.world.conn s.world.world plain quiet))
        ∙ advance-joined f user room_name t valid
        ∙ ap (λ q. (waiting_in (suc f) (find_or_create_room (rtrim room_name) t.store).0 user, q))
            (replied_lem h clock a t admitted-IsPlain))
