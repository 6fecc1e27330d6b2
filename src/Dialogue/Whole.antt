-- ===== src/Dialogue/Whole.antt =====
-- The whole of a sender's session, from the log-in to `/quit`.
use csfassignment.Base.{
  ℕ, zero, suc, ◌<◌, ◌≡◌, refl, sym, subst, List, ◌∷◌, ◌++◌, Option, none, some, Bytes, length, All,
  ==_refl, arith,
}
use csfassignment.Base.Int.{ℤ}
use csfassignment.Csapp.{Csapp}
use csfassignment.Text.{str_eq, trim, rtrim}
use csfassignment.Message.{empty_message, tag_slogin}
use csfassignment.Heap.{Store, put}
use csfassignment.Server.Program.{make_user, makes_user, effect, ◌>>=◌}
use csfassignment.Server.Chat.{worker, chat_with_sender}
use csfassignment.Server.Invariant.{Inv, effect-Inv}
use csfassignment.Client.{Console, Client, exits, request}
use csfassignment.Client.Sender.{sender_session, sender_loop}
use csfassignment.Server.Deeds.{Deed, stir, rest_of, stir-Inv}
use csfassignment.Dialogue.Kept.{stir-HasUser}
use csfassignment.Dialogue.{Served, served_lib}
use csfassignment.Dialogue.Link.{IsReliable}
use csfassignment.Dialogue.Exchange.{IsQuiet}
use csfassignment.Dialogue.Synced.{told_by}
use csfassignment.Dialogue.Talk.{quits, request_of, Talk, stirred, prompted, conversation}
use csfassignment.Dialogue.Session.{Ready}
use csfassignment.Dialogue.Quit.{closing, farewell}
use csfassignment.Dialogue.Course.{EndedAt, sender_loop-Ended}
use csfassignment.Dialogue.Texts.{IsText, IsText-rtrim}
use csfassignment.Dialogue.Objects.{HasUser, left_room-HasUser}
use csfassignment.Dialogue.Typed.{IsTyped, IsPolite, typed-AllSpeakable, conversation-IsPolite}
use csfassignment.Dialogue.Login.{
  login, welcome, login-IsPlain, hail-IsPlain, advance-welcomed, serve-login, request_answered,
}

-- The conversation at its start, with a user under this name.
abbrev pub opened : Bytes → List (List Deed) → Store → Console → Talk
opened name others st c = record {
  room = none;
  msg = empty_message;
  store = (make_user name (stir others st)).1;
  others = rest_of others;
  console = c;
}

-- The user of a session that is to begin, and its conversation at the start.
abbrev pub entrant : {W B : Type 0} → Client (Served W B) B → ℕ
entrant s = (stir s.world.others s.world.store).next

abbrev pub beginning : {W B : Type 0} → (username : Bytes) → Client (Served W B) B → Talk
beginning username s = opened (rtrim username) s.world.others s.world.store s.console

made-HasUser : (name : Bytes) (st : Store) → Inv st → HasUser st.next name (make_user name st).1
unfolding make_user effect put
made-HasUser name st v = record {
  inv = effect-Inv none (makes_user name) st v tt;
  made = omega arith;
  named = ground (arith, ==_refl st.next);
}

pub opened-IsPolite :
    (name : Bytes) (short : IsText 60 name) (others : List (List Deed)) (st : Store) (c : Console)
    → Inv st
    → IsPolite (stir others st).next name short (opened name others st c)
opened-IsPolite name short others st c v = record {
  held = made-HasUser name (stir others st) (stir-Inv others st v);
  placed = tt;
}

module _ {W B : Type 0} {lib : Csapp W B} {owner : B → ℤ} {peer : ℤ → ℤ}
    {lines : B → W → List Bytes} (h : IsReliable lib owner peer lines) (clock : W → Option ℕ) where
  login-Ready :
      (n rounds : ℕ) (username : Bytes) (s : Client (Served W B) B)
      → n < rounds
      → s.world.program ≡ worker rounds
      → IsQuiet h clock s.conn s.world.conn s.world.world
      → IsText 60 username
      → (s' : Client (Served W B) B) × (request
            (served_lib lib clock)
            1
            (login tag_slogin username)
            empty_message
            s
          ≡ (none, s'))
        × Ready h clock (entrant s) closing n s' (beginning username s)
  unfolding chat_with_sender str_eq
  login-Ready n zero username s few running quiet a = elim few [ ]
  login-Ready n (suc rounds) username s few running quiet a =
      let plain = login-IsPlain tag_slogin username (ground arith) (omega arith) a in
      let said = hail-IsPlain (rtrim username) (IsText-rtrim username a) in
      let reply = welcome (rtrim username) (stir s.world.others s.world.store) in
      let next = chat_with_sender (suc rounds) (entrant s) >>= closing in
      let served =
        serve-login h clock (suc rounds) tag_slogin username next s running quiet plain refl said
          (advance-welcomed h clock rounds (entrant s) username) in
      let m = login tag_slogin username in
      let (told, quiet') =
        request_answered h clock 1 m empty_message reply next s quiet plain said refl served in
      (
        told_by h clock m reply next s,
        told,
        record {
          rounds = suc rounds;
          enough = few;
          synced = record { quiet = quiet'; running = refl };
          store = refl;
          others = refl;
          console = refl;
        },
      )

  -- A sender whose name and whose lines are short, whose lines neither end the conversation nor make
  -- the client throw, and which then quits, with rounds for all lines on both sides: over a network
  -- that loses nothing and with nothing on its way, from objects that are in order and whatever calls
  -- other threads make between its requests, the client ends with exit code 0 and its thread in the
  -- server ends. The console and the objects of the server are by then what the conversation makes of
  -- the lines and of those calls, and the user is out of its room.
  pub sender_session_lem :
      (username : Bytes) (typed : List Bytes) (last : Bytes) (rest : List Bytes) (fuel rounds : ℕ)
      (s : Client (Served W B) B)
      → IsQuiet h clock s.conn s.world.conn s.world.world
      → s.world.program ≡ worker rounds
      → Inv s.world.store
      → IsText 60 username
      → All IsTyped typed
      → request_of (trim last) ≡ quits farewell
      → s.console.input ≡ typed ++ last ∷ rest
      → length typed < fuel
      → length typed < rounds
      → let t = beginning username s in
        let user = entrant s in
        EndedAt h clock user
          (prompted (conversation user typed t))
          (sender_session (served_lib lib clock) fuel username s)
  unfolding sender_session
  sender_session_lem username typed last rest fuel rounds s quiet running v a ok q input enough
        few =
      let (s', logged_in, ready) =
        login-Ready (length typed) rounds username s few running quiet a in
      let t = beginning username s in
      let user = entrant s in
      let name = rtrim username in
      let short = IsText-rtrim username a in
      let speakable =
        typed-AllSpeakable user name short typed t
          (opened-IsPolite name short s.world.others s.world.store s.console v) ok in
      let ends =
        sender_loop-Ended h clock user typed last rest fuel s' t enough ready speakable input q in
      subst
        (λ (r : Option ℕ × Client (Served W B) B).
          EndedAt h clock user (prompted (conversation user typed t)) (elim r.0 [
            | some code ↦ (exits code, r.1)
            | none ↦ sender_loop (served_lib lib clock) fuel r.1
          ]))
        (sym logged_in) ends

  -- A session leaves the objects of the server in order.
  pub session-Inv :
      (username : Bytes) (typed : List Bytes) (last : Bytes) (rest : List Bytes) (fuel rounds : ℕ)
      (s : Client (Served W B) B)
      → IsQuiet h clock s.conn s.world.conn s.world.world
      → s.world.program ≡ worker rounds
      → Inv s.world.store
      → IsText 60 username
      → All IsTyped typed
      → request_of (trim last) ≡ quits farewell
      → s.console.input ≡ typed ++ last ∷ rest
      → length typed < fuel
      → length typed < rounds
      → Inv (sender_session (served_lib lib clock) fuel username s).1.world.store
  session-Inv username typed last rest fuel rounds s quiet running v a ok q input enough few =
      let t = beginning username s in
      let user = entrant s in
      let name = rtrim username in
      let short = IsText-rtrim username a in
      let end = conversation user typed t in
      let polite =
        conversation-IsPolite user name short typed t
          (opened-IsPolite name short s.world.others s.world.store s.console v) ok in
      let ended =
        sender_session_lem username typed last rest fuel rounds s quiet running v a ok q input
          enough few in
      subst Inv (sym ended.objects)
        (left_room-HasUser user name end.room (stirred end)
          (stir-HasUser user name end.room end.others end.store polite.held polite.placed).0).inv
