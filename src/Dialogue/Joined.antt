-- ===== src/Dialogue/Joined.antt =====
-- The session of a receiver up to its loop.
use csfassignment.Base.{
  ℕ, zero, suc, ◌<◌, ◌≡◌, refl, ap, ◌∙◌, true, List, Option, none, some, Bytes, arith,
}
use csfassignment.Base.Int.{ℤ}
use csfassignment.Csapp.{Csapp}
use csfassignment.Text.{str_eq, rtrim}
use csfassignment.Message.{empty_message, tag_join, tag_rlogin}
use csfassignment.Heap.{Store}
use csfassignment.Server.{is_valid_room_name, find_or_create_room}
use csfassignment.Server.Program.{makes_user, ◌>>=◌, make_user, effect}
use csfassignment.Server.Chat.{worker, chat_with_receiver}
use csfassignment.Server.Invariant.{Inv, effect-Inv}
use csfassignment.Server.Effects.{member_of}
use csfassignment.Client.{Client, Status, exits, request}
use csfassignment.Client.Receiver
use csfassignment.Client.Receiver.{receiver_session}
use csfassignment.Server.Deeds.{stir, rest_of, stir-Inv}
use csfassignment.Dialogue.{Served, served_lib}
use csfassignment.Dialogue.Link.{IsReliable}
use csfassignment.Dialogue.Exchange.{IsQuiet}
use csfassignment.Dialogue.Synced.{told_by}
use csfassignment.Dialogue.Texts.{IsText, IsText-rtrim, IsText-more, message-IsPlain}
use csfassignment.Dialogue.Quit.{closing}
use csfassignment.Dialogue.Login.{
  login, welcome, login-IsPlain, hail-IsPlain, serve-login, request_answered,
}
use csfassignment.Dialogue.Entry.{
  joining, admission, waiting_in, admission_inside, admitted-IsPlain, welcomed_receiver, serve-join,
}

-- The objects that the join of a new receiver finds: the other threads have gone on before its
-- log-in, and between the two requests.
abbrev pub found_by : {W B : Type 0} → Bytes → Client (Served W B) B → Store
found_by username s =
    stir (rest_of s.world.others) (make_user (rtrim username) (stir s.world.others s.world.store)).1

module _ {W B : Type 0} {lib : Csapp W B} {owner : B → ℤ} {peer : ℤ → ℤ}
    {lines : B → W → List Bytes} (h : IsReliable lib owner peer lines) (clock : W → Option ℕ) where
  -- A receiver that is ready for messages: its thread waits at its queue, with its user in the room.
  pub record Joined (rounds user : ℕ) (title : Bytes) (st : Store) (s s' : Client (Served W B) B)
      : Type 0 where
    pub quiet : IsQuiet h clock s'.conn s'.world.conn s'.world.world
    pub running : s'.world.program ≡ waiting_in h clock rounds (find_or_create_room title st).0 user
    pub objects : s'.world.store ≡ (admission user title st).store
    pub inside : member_of user (find_or_create_room title st).0 s'.world.store ≡ true
    pub silent : s'.console ≡ s.console

  -- `receiver_session` behind its first request, and behind its second.
  abbrev after_join : ℕ → Option ℕ × Client (Served W B) B → Status × Client (Served W B) B
  after_join fuel (failed, s) = elim failed [
    | some code ↦ (exits code, s)
    | none ↦ Receiver.receiver_loop (served_lib lib clock) fuel empty_message s
  ]

  abbrev after_login : ℕ → Bytes → Option ℕ × Client (Served W B) B → Status × Client (Served W B) B
  after_login fuel room_name (failed, s1) =
      let (failed', s2) = request (served_lib lib clock) 2 (joining room_name) empty_message s1 in
      elim failed [
        | some code ↦ (exits code, s1)
        | none ↦ elim failed' [
          | some code ↦ (exits code, s2)
          | none ↦ Receiver.receiver_loop (served_lib lib clock) fuel empty_message s2
        ]
      ]

  session-after_login :
      (fuel : ℕ) (username room_name : Bytes) (s : Client (Served W B) B)
      → receiver_session (served_lib lib clock) fuel username room_name s
        ≡ after_login fuel room_name
            (request (served_lib lib clock) 1 (login tag_rlogin username) empty_message s)
  unfolding receiver_session
  session-after_login fuel username room_name s = refl

  -- A receiver whose name and whose room's name are short, over a network that loses nothing and with
  -- nothing on its way, from objects that are in order and whatever calls other threads make between
  -- its requests: if the name of the room is a valid one and the thread has a round, the client comes
  -- to its loop and has printed nothing, its new user is in the room of that name, and its thread waits
  -- for messages.
  pub receiver_session_lem :
      (fuel rounds : ℕ) (username room_name : Bytes) (s : Client (Served W B) B)
      → 0 < rounds
      → IsQuiet h clock s.conn s.world.conn s.world.world
      → s.world.program ≡ worker rounds
      → Inv s.world.store
      → IsText 60 username
      → IsText 150 room_name
      → is_valid_room_name (rtrim room_name) ≡ true
      → (s' : Client (Served W B) B) × (receiver_session
            (served_lib lib clock)
            fuel
            username
            room_name
            s
          ≡ Receiver.receiver_loop (served_lib lib clock) fuel empty_message s')
        × Joined rounds
            (stir s.world.others s.world.store).next
            (rtrim room_name)
            (found_by username s)
            s
            s'
  unfolding str_eq effect
  receiver_session_lem fuel zero username room_name s some_round quiet running i a b valid =
      elim some_round [ ]
  receiver_session_lem fuel (suc f) username room_name s some_round quiet running i a b valid =
      let user = (stir s.world.others s.world.store).next in
      let m1 = login tag_rlogin username in
      let m2 = joining room_name in
      let a1 = welcome (rtrim username) (stir s.world.others s.world.store) in
      let a2 = admission user (rtrim room_name) (found_by username s) in
      let next1 = chat_with_receiver (suc f) user >>= closing in
      let next2 =
        waiting_in h clock (suc f) (find_or_create_room (rtrim room_name) (found_by username s)).0
          user in
      let plain1 = login-IsPlain tag_rlogin username (ground arith) (omega arith) a in
      let said1 = hail-IsPlain (rtrim username) (IsText-rtrim username a) in
      let plain2 =
        message-IsPlain tag_join room_name (ground arith) (omega arith)
          (IsText-more 245 room_name (omega arith) b) in
      let s1 = told_by h clock m1 a1 next1 s in
      let served1 =
        serve-login h clock (suc f) tag_rlogin username next1 s running quiet plain1 refl said1
          (welcomed_receiver h clock (suc f) user username) in
      let (told1, quiet1) =
        request_answered h clock 1 m1 empty_message a1 next1 s quiet plain1 said1 refl served1 in
      let served2 = serve-join h clock f user room_name s1 refl quiet1 plain2 valid in
      let (told2, quiet2) =
        request_answered h clock 2 m2 empty_message a2 next2 s1 quiet1 plain2 admitted-IsPlain refl
          served2 in
      (
        told_by h clock m2 a2 next2 s1,
        session-after_login fuel username room_name s
            ∙ ap (after_login fuel room_name) told1
            ∙ ap (after_join fuel) told2,
        record {
          quiet = quiet2;
          running = refl;
          objects = refl;
          inside = admission_inside user (rtrim room_name) (found_by username s) (
              stir-Inv (rest_of s.world.others) a1.store (
                effect-Inv none (makes_user (rtrim username)) (stir s.world.others s.world.store)
                  (stir-Inv s.world.others s.world.store i) tt));
          silent = refl;
        },
      )
