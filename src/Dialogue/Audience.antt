-- ===== src/Dialogue/Audience.antt =====
-- What receivers show of the messages in their queues, and of a sender's session.
use csfassignment.Base.{
  ℕ, ◌<◌, ◌≡◌, refl, sym, ap, subst, ◌∙◌, List, [], ◌∷◌, ◌++◌, Option, some, Bytes, length, map,
  All,
}
use csfassignment.Base.Int.{ℤ}
use csfassignment.Csapp.{Csapp}
use csfassignment.Text.{trim}
use csfassignment.Message.{Message}
use csfassignment.Connection.{Connection}
use csfassignment.Queue.Fifo.{IsCounted}
use csfassignment.Heap.{User, Store}
use csfassignment.Server.Program.{Machine, run}
use csfassignment.Server.Chat
use csfassignment.Server.Chat.{worker}
use csfassignment.Server.Forwarding.{waiting, waiting_lem}
use csfassignment.Server.Invariant.{Inv}
use csfassignment.Server.Service.Matches.{queued}
use csfassignment.Client.{Console, Client, runs}
use csfassignment.Client.Receiver
use csfassignment.Client.Sender.{sender_session}
use csfassignment.Dialogue.{Served, served_lib}
use csfassignment.Dialogue.Link.{IsReliable}
use csfassignment.Dialogue.Speech.{Speech, delivery_of, IsShowable, wires, screened}
use csfassignment.Dialogue.Exchange.{IsQuiet}
use csfassignment.Dialogue.Talk.{quits, request_of}
use csfassignment.Dialogue.Quit.{farewell}
use csfassignment.Dialogue.Texts.{IsText}
use csfassignment.Dialogue.Typed.{IsTyped}
use csfassignment.Dialogue.Still.{AllStill}
use csfassignment.Dialogue.Heard.{overheard}
use csfassignment.Dialogue.Whole.{entrant, beginning, session-Inv}
use csfassignment.Dialogue.Abroad.{session_overheard}
use csfassignment.Dialogue.Screen.{forwards_lines, shows_lines}

listening :
    (v : ℕ) (user : User) (s : Store) → s.users v ≡ some user → user.mqueue.messages ≡ queued v s
listening v user s e = rw (queued, e) refl

module _ {W B : Type 0} {lib : Csapp W B} {owner : B → ℤ} {peer : ℤ → ℤ}
    {lines : B → W → List Bytes} (h : IsReliable lib owner peer lines) (clock : W → Option ℕ)
    (ticks : (w : W) → (now : ℕ) × (clock w ≡ some now)) where
  -- Over a network that loses nothing, with nothing on its way and a clock that can be read: if the
  -- queue of a receiver's user holds chat messages that can be shown, and the thread takes as many
  -- rounds as there are messages and then the client as many, the client has printed each message as
  -- its sender and its text, but for white space at the end of the text, in the order of the queue,
  -- and nothing else.
  pub queue_shown :
      (u : ℕ) (user : User) (ps : List Speech) (msg : Message) (s : Machine W B)
      (near : Connection B) (console : Console)
      → IsQuiet h clock near s.conn s.world
      → s.store.users u ≡ some user
      → IsCounted user.mqueue
      → user.mqueue.messages ≡ map delivery_of ps
      → All IsShowable ps
      → let (_, after) = run lib clock (Chat.receiver_loop (length ps) u) s in
        let (status, end) =
          Receiver.receiver_loop lib
            (length ps)
            msg
            (record { conn = near; world = after.world; console = console }) in
        (status ≡ runs) × (end.console ≡ screened ps console)
  queue_shown u user ps msg s near console quiet here counted held v =
      let (_, after) = run lib clock (Chat.receiver_loop (length ps) u) s in
      let waits : s.store.users u ≡ some (waiting user.username (map delivery_of ps)) =
        here
        ∙ ap some (waiting_lem user counted)
        ∙ ap (λ ms. some (waiting user.username ms)) held in
      let arrived : lines near.fdbuf after.world ≡ wires ps =
        forwards_lines h clock ticks ps u user.username s near.fdbuf waits v quiet.to_near
        ∙ ap (λ l. l ++ wires ps) quiet.near_idle in
      shows_lines h clock ticks ps msg
        (record { conn = near; world = after.world; console = console }) v arrived

  -- A sender's session, then a receiver of another connection whose user's queue was empty before it,
  -- with the objects that the session left. Over a network that loses nothing, with connections on
  -- which nothing is on its way and a clock that can be read, where other threads add users and put
  -- them into rooms and out of them between the requests but send nothing and take nothing, with
  -- rounds for all lines and a short name and short lines, of which none before the last ends the
  -- conversation or makes the client throw, and where the messages can be shown: after as many rounds
  -- of its thread and of its own as there are messages, the receiver's client has printed each text
  -- that was sent while its user was in the sender's room under another name, with the sender's name
  -- in front and without white space at the end, in their order, and nothing else. The last line is
  -- `/quit`, and the objects were in order before.
  pub session_shown :
      (username : Bytes) (typed : List Bytes) (last : Bytes) (rest : List Bytes) (fuel rounds : ℕ)
      (s : Client (Served W B) B) (v : ℕ) (listener : User) (msg : Message) (m : Machine W B)
      (near : Connection B) (console : Console)
      → IsQuiet h clock s.conn s.world.conn s.world.world
      → s.world.program ≡ worker rounds
      → Inv s.world.store
      → IsText 60 username
      → All IsTyped typed
      → request_of (trim last) ≡ quits farewell
      → s.console.input ≡ typed ++ last ∷ rest
      → length typed < fuel
      → length typed < rounds
      → AllStill s.world.others
      → queued v s.world.store ≡ []
      → m.store ≡ (sender_session (served_lib lib clock) fuel username s).1.world.store
      → m.store.users v ≡ some listener
      → IsQuiet h clock near m.conn m.world
      → All IsShowable (overheard v (entrant s) typed (beginning username s))
      → let ps = overheard v (entrant s) typed (beginning username s) in
        let (_, after) = run lib clock (Chat.receiver_loop (length ps) v) m in
        let (status, end) =
          Receiver.receiver_loop lib
            (length ps)
            msg
            (record { conn = near; world = after.world; console = console }) in
        (status ≡ runs) × (end.console ≡ screened ps console)
  session_shown username typed last rest fuel rounds s v listener msg m near console quiet running i
        a ok q input enough few still idle same here quiet' showable =
      let t = beginning username s in
      let user = entrant s in
      let ps = overheard v user typed t in
      let ordered =
        session-Inv h clock username typed last rest fuel rounds s quiet running i a ok q input
          enough few in
      let counted = (subst Inv (sym same) ordered).counted v listener here in
      let held : listener.mqueue.messages ≡ map delivery_of ps =
        listening v listener m.store here
        ∙ ap (queued v) same
        ∙ session_overheard h clock v username typed last rest fuel rounds s quiet running i a ok q
            input enough few still
        ∙ ap (λ l. l ++ map delivery_of ps) idle in
      queue_shown v listener ps msg m near console quiet' here counted held showable
