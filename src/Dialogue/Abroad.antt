-- ===== src/Dialogue/Abroad.antt =====
-- What a sender's session leaves in the queues of all users.
use csfassignment.Base.{ℕ, ◌<◌, ◌≡◌, ap, ◌∙◌, List, ◌∷◌, ◌++◌, Option, Bytes, length, map, All}
use csfassignment.Base.Int.{ℤ}
use csfassignment.Csapp.{Csapp}
use csfassignment.Text.{trim, rtrim}
use csfassignment.Server.Chat.{worker}
use csfassignment.Server.Invariant.{Inv}
use csfassignment.Server.Service.Matches.{queued}
use csfassignment.Client.{Client}
use csfassignment.Client.Sender.{sender_session}
use csfassignment.Dialogue.{Served, served_lib}
use csfassignment.Dialogue.Link.{IsReliable}
use csfassignment.Dialogue.Speech.{delivery_of}
use csfassignment.Dialogue.Exchange.{IsQuiet}
use csfassignment.Dialogue.Talk.{stirred, quits, request_of, conversation}
use csfassignment.Dialogue.Quit.{farewell}
use csfassignment.Dialogue.Texts.{IsText, IsText-rtrim}
use csfassignment.Dialogue.Typed.{IsTyped, conversation-IsPolite}
use csfassignment.Server.Deeds.{stir, stir-Inv}
use csfassignment.Dialogue.Still.{AllStill, queued-stir, rest_of-AllStill, made_queued}
use csfassignment.Dialogue.Heard.{
  conversation-AllStill, left_queued, overheard, conversation-queued,
}
use csfassignment.Dialogue.Whole.{entrant, beginning, opened-IsPolite, sender_session_lem}

module _ {W B : Type 0} {lib : Csapp W B} {owner : B → ℤ} {peer : ℤ → ℤ}
    {lines : B → W → List Bytes} (h : IsReliable lib owner peer lines) (clock : W → Option ℕ) where
  -- Over a network that loses nothing, a sender's session, from the log-in to `/quit`, puts into the
  -- queue of each user the deliveries of the texts that were sent while the user was in the room of
  -- the sender under another name, in their order, and no more. Other threads may add users and put
  -- them into rooms and out of them between the requests, but they send nothing and take nothing.
  -- The name and the lines are short, no line before the last ends the conversation or makes the
  -- client throw, there are rounds for all lines, and before the session nothing is on its way and the
  -- objects are in order.
  pub session_overheard :
      (v : ℕ) (username : Bytes) (typed : List Bytes) (last : Bytes) (rest : List Bytes)
      (fuel rounds : ℕ) (s : Client (Served W B) B)
      → IsQuiet h clock s.conn s.world.conn s.world.world
      → s.world.program ≡ worker rounds
      → Inv s.world.store
      → IsText 60 username
      → All IsTyped typed
      → request_of (trim last) ≡ quits farewell
      → s.console.input ≡ typed ++ last ∷ rest
      → length typed < fuel
      → length typed < rounds
      → AllStill s.world.others
      → queued v (sender_session (served_lib lib clock) fuel username s).1.world.store
        ≡ queued v s.world.store
          ++ map delivery_of (overheard v (entrant s) typed (beginning username s))
  session_overheard v username typed last rest fuel rounds s quiet running i a ok q input enough few
        still =
      let t = beginning username s in
      let user = entrant s in
      let short = IsText-rtrim username a in
      let polite =
        opened-IsPolite (rtrim username) short s.world.others s.world.store s.console i in
      let end = conversation user typed t in
      let polite' = conversation-IsPolite user (rtrim username) short typed t polite ok in
      let ended =
        sender_session_lem h clock username typed last rest fuel rounds s quiet running i a ok q
          input enough few in
      let still' = rest_of-AllStill s.world.others still in
      ap (queued v) ended.objects
      ∙ left_queued v user end.room (stirred end)
      ∙ queued-stir v end.others end.store
          (conversation-AllStill v user (rtrim username) short typed t still') polite'.held.inv
      ∙ conversation-queued v user (rtrim username) short typed t polite ok still'
      ∙ ap (λ l. l ++ map delivery_of (overheard v user typed t))
          (made_queued v (rtrim username) (stir s.world.others s.world.store)
              (stir-Inv s.world.others s.world.store i)
            ∙ queued-stir v s.world.others s.world.store still i)
