-- ===== src/Dialogue/Quit.antt =====
-- The end of a conversation: `/quit`, the end of the server's thread, and the end of the client.
use csfassignment.Base.{
  ℕ, suc, ◌≡◌, ◌≢◌, refl, sym, ap, ◌∙◌, Bool, List, [], ◌∷◌, Option, none, some, Bytes, codes, inl,
  inr, Bool-cases, arith,
}
use csfassignment.Base.Int.{ℤ}
use csfassignment.Csapp.{Csapp}
use csfassignment.Text.{str_eq}
use csfassignment.Message.{Message, message, tag_ok, tag_quit}
use csfassignment.Connection.{Connection, wire, close, is_open}
use csfassignment.Connection.Laws.{line_read}
use csfassignment.Heap.{Store}
use csfassignment.Server.Program.{
  Program, done, perform, disconnects, sends, Machine, ◌>>=◌, ◌>>◌, answer, effect, traffic,
  perform_on,
}
use csfassignment.Server.Chat.{Exit, finished, dispatch, check_received, sender_loop}
use csfassignment.Client.{Client}
use csfassignment.Client.Sender.{exchange}
use csfassignment.Server.Deeds.{Deed, stir}
use csfassignment.Dialogue.{Served, met, machine_of, stopped_at, advance, resume, serve, served_lib}
use csfassignment.Dialogue.Link.{IsReliable, IsPlain, send-IsPlain, receive-IsPlain}
use csfassignment.Dialogue.Replies.{left_room, after_round}
use csfassignment.Dialogue.Exchange.{
  heard, machine_with, written, read_from, there, passed-IsQuiet, turned-IsQuiet, served_send,
  after_receive, resume_loop,
}
use csfassignment.Dialogue.Synced.{IsSynced, read_into, reads_answer, exchange-told}

-- What `worker` does behind the chat.
abbrev pub closing : Exit → Program Exit
closing exit = perform disconnects >> done exit

-- The request of `/quit`, and its answer.
abbrev pub farewell : Message
farewell = message tag_quit (codes "quit room")

abbrev pub dismissal : Message
dismissal = message tag_ok (codes "quit")

farewell-IsPlain : IsPlain farewell
farewell-IsPlain = record {
  writable = record { lower = ground arith; no_zero = ground arith };
  no_newline = ground arith;
  fits = omega arith;
}

dismissal-IsPlain : IsPlain dismissal
dismissal-IsPlain = record {
  writable = record { lower = ground arith; no_zero = ground arith };
  no_newline = ground arith;
  fits = omega arith;
}

module _ {W B : Type 0} {lib : Csapp W B} {owner : B → ℤ} {peer : ℤ → ℤ}
    {lines : B → W → List Bytes} (h : IsReliable lib owner peer lines) (clock : W → Option ℕ)
    (user : ℕ) where
  -- The thread's machine when it has ended.
  abbrev ended : Option ℕ → Connection B × W → Store → Machine W B
  ended room (c, w) st = machine_with c w (left_room user room st)

  quit_advance :
      (fuel : ℕ) (room : Option ℕ) (msg : Message) (s : Machine W B)
      → advance lib clock
          (((dispatch user room (heard farewell msg)) >>= after_round fuel user) >>= closing)
          s
        ≡ (let t = perform_on lib clock (sends dismissal) s in
            (done finished, ended room (close lib t.conn t.world) t.store))
  unfolding advance dispatch str_eq answer perform_on traffic effect
  quit_advance fuel none msg s = refl
  quit_advance fuel (some r) msg s = refl

  -- The thread behind the answer to `/quit`, which is on its way to the client.
  abbrev gone : List (List Deed) → Option ℕ → Connection B → W → Store → Served W B
  gone others room c w st =
      stopped_at others (done finished, ended room (close lib c (written h clock dismissal c w)) st)

  serve_quit :
      (fuel : ℕ) (room : Option ℕ) (msg : Message) (p : Served W B)
      → p.program ≡ (sender_loop (suc fuel) user room msg >>= closing)
      → lines p.conn.fdbuf p.world ≡ wire farewell ∷ []
      → serve lib clock p
        ≡ gone p.others room
            (read_from h clock p.conn p.world)
            (line_read lib p.conn p.world).world
            p.store
  unfolding serve check_received dispatch perform_on traffic effect
  serve_quit fuel room msg p running waits =
      let far = read_from h clock p.conn p.world in
      let w = (line_read lib p.conn p.world).world in
      ap (stopped_at p.others) (
        ap (λ q. resume lib clock q (machine_of p)) running
        ∙ resume_loop h clock fuel user room msg closing (machine_of p)
        ∙ ap (after_receive h clock fuel user room msg closing p.store)
            (receive-IsPlain h farewell msg p.conn p.world [] farewell-IsPlain waits)
        ∙ quit_advance fuel room msg (machine_with far w p.store)
        ∙ ap
            (λ (r : Bool × Connection B × W).
              let (_, c, v) = r in (done finished, ended room (close lib c v) p.store))
            (send-IsPlain h dismissal far w dismissal-IsPlain))

  still_there :
      (c far : Connection B) (w : W)
      → owner c.fdbuf ≢ far.fd
      → lines c.fdbuf (close lib far w).1 ≡ lines c.fdbuf w
  unfolding close
  still_there c far w apart = elim (Bool-cases (is_open lib far)) [
    | inl e ↦ rw e (h.closes_apart far.fd w c.fdbuf apart)
    | inr e ↦ rw e refl
  ]

  -- `/quit` on a quiet connection: the client prints nothing, and the thread has taken its user out
  -- of its room and ended.
  pub exchange_quit :
      (fuel : ℕ) (room : Option ℕ) (msg : Message) (s : Client (Served W B) B)
      → IsSynced h clock (suc fuel) user room msg closing s
      → let s' = exchange (served_lib lib clock) farewell s in
        (s'.world.program ≡ done finished)
        × (s'.world.store ≡ left_room user room (stir s.world.others s.world.store))
        × (s'.console ≡ s.console)
  unfolding str_eq
  exchange_quit fuel room msg s v =
      let w = written h clock farewell s.conn s.world.world in
      let asked : Served W B = met w s.world in
      let far = read_from h clock s.world.conn w in
      let w' = (line_read lib s.world.conn w).world in
      let q = gone asked.others room far w' asked.store in
      let halfway = turned-IsQuiet h clock (
        passed-IsQuiet h clock farewell s.conn s.world.conn s.world.world farewell-IsPlain
          v.quiet) in
      let served =
        serve_quit fuel room msg asked v.running
          (there h clock farewell s.conn s.world.conn s.world.world farewell-IsPlain v.quiet) in
      let arrived = there h clock dismissal far s.conn w' dismissal-IsPlain halfway in
      let waits =
        still_there s.conn far (written h clock dismissal far w')
          (λ e. halfway.apart (halfway.at_near ∙ sym e))
        ∙ arrived in
      let read =
        reads_answer h clock dismissal farewell s.conn asked q served waits dismissal-IsPlain in
      let all =
        exchange-told h clock farewell dismissal s asked
          (read_into h clock dismissal farewell s.conn q).3
          (read_into h clock dismissal farewell s.conn q).2
          (served_send h clock farewell s.conn s.world farewell-IsPlain) read in
      (
        ap (λ x. x.world.program) all ∙ refl,
        ap (λ x. x.world.store) all ∙ refl,
        ap (λ x. x.console) all ∙ refl,
      )
