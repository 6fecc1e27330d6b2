-- ===== src/Dialogue/Course.antt =====
-- A whole conversation: the lines that are typed, and then `/quit`.
use csfassignment.Base.{
  ℕ, zero, suc, ◌-◌, ◌<◌, ◌≡◌, refl, sym, ap, ap₂, subst, ◌∙◌, List, [], ◌∷◌, ◌++◌, Option, Bytes,
  length, inl, inr, Bool-cases, arith,
}
use csfassignment.Base.Int.{ℤ}
use csfassignment.Csapp.{Csapp}
use csfassignment.Text.{trim}
use csfassignment.Connection.{close, is_open}
use csfassignment.Server.Program.{done}
use csfassignment.Server.Chat.{finished}
use csfassignment.Client.{Client, Status, exits, throws, client_close}
use csfassignment.Client.Sender.{
  Turn, next, leave, threw, first_line, rest_lines, read_line, exchange, sender_turn, sender_loop,
}
use csfassignment.Server.Deeds.{stir}
use csfassignment.Dialogue.{Served, served_lib}
use csfassignment.Dialogue.Link.{IsReliable}
use csfassignment.Dialogue.Replies.{left_room}
use csfassignment.Dialogue.Synced.{IsSynced}
use csfassignment.Dialogue.Talk.{
  quits, request_of, makes, sender_turn-makes, Talk, stirred, prompted, talk_line, conversation,
  talked_input, AllSpeakable,
}
use csfassignment.Dialogue.Session.{Ready, prompted-Ready, turn-Ready}
use csfassignment.Dialogue.Quit.{closing, farewell, exchange_quit}

module _ {W B : Type 0} {lib : Csapp W B} {owner : B → ℤ} {peer : ℤ → ℤ}
    {lines : B → W → List Bytes} (h : IsReliable lib owner peer lines) (clock : W → Option ℕ)
    (user : ℕ) where
  -- The client has ended as it should at this point of the conversation, and so has the thread.
  pub record Ended (t : Talk) (status : Status) (s : Client (Served W B) B) : Type 0 where
    pub exit_code : status ≡ exits 0
    pub thread_ended : s.world.program ≡ done finished
    pub objects : s.world.store ≡ left_room user t.room (stirred t)
    pub printed : s.console ≡ t.console

  -- What the client's loop makes of a round.
  abbrev goes_on : ℕ → Turn × Client (Served W B) B → Status × Client (Served W B) B
  goes_on fuel (turn, s') = elim turn [
    | next ↦ sender_loop (served_lib lib clock) fuel s'
    | leave ↦ (exits 0, client_close (served_lib lib clock) s')
    | threw ↦ (throws, s')
  ]

  loop-goes_on :
      (fuel : ℕ) (s : Client (Served W B) B)
      → sender_loop (served_lib lib clock) (suc fuel) s
        ≡ goes_on fuel (sender_turn (served_lib lib clock) s)
  unfolding sender_loop
  loop-goes_on fuel s = refl

  closed_parts :
      (s : Client (Served W B) B)
      → let s' = client_close (served_lib lib clock) s in
        (s'.world.program ≡ s.world.program)
        × (s'.world.store ≡ s.world.store)
        × (s'.console ≡ s.console)
  unfolding client_close close
  closed_parts s = elim (Bool-cases (is_open (served_lib lib clock) s.conn)) [
    | inl e ↦ rw e (refl, refl, refl)
    | inr e ↦ rw e (refl, refl, refl)
  ]

  abbrev pub EndedAt : Talk → Status × Client (Served W B) B → Type 0
  EndedAt t (status, s) = Ended t status s

  quit-Ended :
      (n : ℕ) (s : Client (Served W B) B) (t : Talk)
      → Ready h clock user closing n s t
      → Ended t
          (exits 0)
          (client_close (served_lib lib clock) (exchange (served_lib lib clock) farewell s))
  quit-Ended n s t v =
      let f = v.rounds - 1 in
      let more : v.rounds ≡ suc f = omega (arith, v.enough) in
      let (program, store, console) =
        exchange_quit h clock user f t.room t.msg s
          (subst (λ x. IsSynced h clock x user t.room t.msg closing s) more v.synced) in
      let (program', store', console') =
        closed_parts (exchange (served_lib lib clock) farewell s) in
      record {
        exit_code = refl;
        thread_ended = program' ∙ program;
        objects = store' ∙ store ∙ ap (left_room user t.room) (ap₂ stir v.others v.store);
        printed = console' ∙ console ∙ v.console;
      }

  -- A sender whose lines can all be said to the server, and which quits then, ends with exit code 0;
  -- by then its thread has ended, the console and the objects of the server are what the conversation
  -- makes of them, and the user is out of its room.
  pub sender_loop-Ended :
      (typed : List Bytes) (last : Bytes) (rest : List Bytes) (fuel : ℕ) (s : Client (Served W B) B)
      (t : Talk)
      → length typed < fuel
      → Ready h clock user closing (length typed) s t
      → AllSpeakable user typed t
      → t.console.input ≡ typed ++ last ∷ rest
      → request_of (trim last) ≡ quits farewell
      → EndedAt (prompted (conversation user typed t)) (sender_loop (served_lib lib clock) fuel s)
  sender_loop-Ended typed last rest zero s t enough v ok e q = elim enough [ ]
  sender_loop-Ended [] last rest (suc fuel) s t enough v ok e q =
      let at_head : first_line s.console.input ≡ last =
        ap first_line (ap (λ c. c.input) v.console ∙ e) in
      let s1 = (read_line (served_lib lib clock) s).1 in
      let turn : sender_turn (served_lib lib clock) s
          ≡ (leave, exchange (served_lib lib clock) farewell s1) =
        sender_turn-makes (served_lib lib clock) last s at_head
        ∙ ap (λ r. makes (served_lib lib clock) r s1) q in
      subst (EndedAt (prompted t)) (sym (loop-goes_on fuel s ∙ ap (goes_on fuel) turn))
        (quit-Ended 0 s1 (prompted t) (prompted-Ready h clock user closing 0 s t v))
  sender_loop-Ended (raw ∷ typed) last rest (suc fuel) s t enough v ok e q =
      let (onward, ready) =
        turn-Ready h clock user closing (length typed) raw (typed ++ last ∷ rest) s t v e ok.0 in
      let s' = (sender_turn (served_lib lib clock) s).1 in
      subst (EndedAt (prompted (conversation user typed (talk_line user raw t))))
        (sym (loop-goes_on fuel s ∙ ap (λ turn. goes_on fuel (turn, s')) onward))
        (sender_loop-Ended typed last rest fuel s' (talk_line user raw t) (omega (arith, enough))
          ready ok.1 (talked_input user (request_of (trim raw)) (prompted t) ∙ ap rest_lines e) q)
