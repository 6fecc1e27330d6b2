-- ===== src/Dialogue/Synced.antt =====
-- A sender and its thread between two requests, and over one.
use csfassignment.Base.{
  ℕ, suc, ◌+◌, ◌≡◌, refl, sym, ap, subst, ◌∙◌, Bool, true, false, not, List, [], ◌∷◌, ◌++◌, Option,
  Bytes, if◌then◌else◌, codes, Bool-cases, inl, inr, arith,
}
use csfassignment.Base.Int.{ℤ}
use csfassignment.Csapp.{Csapp}
use csfassignment.Text.{str_eq, rtrim}
use csfassignment.Message.{Message, max_len, tag_ok, tag_quit}
use csfassignment.Connection.{Connection, wire, send, receive}
use csfassignment.Connection.Decode.{length-wire}
use csfassignment.Connection.Laws.{line_read, Carries}
use csfassignment.Server.Program.{Program, Machine, ◌>>=◌}
use csfassignment.Server.Chat.{Exit, sender_loop}
use csfassignment.Client.{Console, Client, client_send, client_receive, print_err}
use csfassignment.Client.Sender.{exchange}
use csfassignment.Server.Deeds.{stir, rest_of}
use csfassignment.Dialogue.{Served, met, stopped_at, serve, served_lib}
use csfassignment.Dialogue.Link.{IsReliable, IsPlain, receive-Carries}
use csfassignment.Dialogue.Replies.{Reply, reply_to}
use csfassignment.Dialogue.Exchange.{
  machine_with, IsQuiet, written, read_from, heard, answered, there, passed-IsQuiet, turned-IsQuiet,
  served_send, serve_request,
}

-- What a client prints of an answer.
abbrev pub told : {W B : Type 0} → Message → Client W B → Client W B
told m s = if not (str_eq m.tag tag_ok) then print_err (rtrim m.payload) s else s

abbrev pub heard_by : Message → Console → Console
heard_by m c =
    if not (str_eq m.tag tag_ok) then record c { err = c.err ++ rtrim m.payload ∷ [] } else c

module _ {W B : Type 0} {lib : Csapp W B} {owner : B → ℤ} {peer : ℤ → ℤ}
    {lines : B → W → List Bytes} (h : IsReliable lib owner peer lines) (clock : W → Option ℕ) where
  -- Between two requests: the connection is quiet, and the server's thread is at the head of its
  -- loop, with a message from before and its user in a room or in none.
  pub record IsSynced (fuel user : ℕ) (room : Option ℕ) (msg : Message) (k : Exit → Program Exit)
      (s : Client (Served W B) B) : Type 0 where
    pub quiet : IsQuiet h clock s.conn s.world.conn s.world.world
    pub running : s.world.program ≡ (sender_loop fuel user room msg >>= k)

  -- A message has been read into another at the client's end.
  abbrev pub read_into :
      Message → Message → Connection B → Served W B → Bool × Message × Connection B × Served W B
  read_into m old c q = (
    true,
    record old { tag = m.tag; payload = rtrim m.payload },
    read_from h clock c q.world,
    record q { world = (line_read lib c q.world).world },
  )

  pub reads_answer :
      (m old : Message) (c : Connection B) (p q : Served W B)
      → serve lib clock p ≡ q
      → lines c.fdbuf q.world ≡ wire m ∷ []
      → IsPlain m
      → receive (served_lib lib clock) old c p ≡ read_into m old c q
  reads_answer m old c p q e waits v =
      let r =
        h.reads c.fdbuf (max_len + 1) q.world (wire m) [] waits
          (omega (arith, v.fits, length-wire m)) in
      let carried : Carries (served_lib lib clock) (wire m) c p = (
        ap (λ x. (line_read lib c x.world).count) e ∙ r.0,
        ap (λ x. (line_read lib c x.world).bytes) e ∙ r.1,
      ) in
      receive-Carries (served_lib lib clock) m old c p v.writable carried
      ∙ ap (λ x. read_into m old c x) e

  -- `exchange` behind its send, and behind its receive.
  abbrev after_answer :
      Client (Served W B) B → Bool × Message × Connection B × Served W B → Client (Served W B) B
  after_answer s (ok, m, c, p) =
      let s' = record s { conn = c; world = p } in
      if not (str_eq m.tag tag_ok) then print_err m.payload s' else s'

  abbrev after_send :
      Message → Client (Served W B) B → Bool × Connection B × Served W B → Client (Served W B) B
  after_send m s (sent, c, p) =
      let s1 = record s { conn = c; world = p } in
      let s2 = if not sent then print_err (codes "Send Failed") s1 else s1 in
      after_answer s2 (receive (served_lib lib clock) m s2.conn s2.world)

  pub exchange-told :
      (m said : Message) (s : Client (Served W B) B) (p : Served W B) (q : Served W B)
      (c : Connection B)
      → send (served_lib lib clock) m s.conn s.world ≡ (true, s.conn, p)
      → receive (served_lib lib clock) m s.conn p
        ≡ (true, record m { tag = said.tag; payload = rtrim said.payload }, c, q)
      → exchange (served_lib lib clock) m s ≡ told said (record s { conn = c; world = q })
  unfolding exchange client_send client_receive
  exchange-told m said s p q c e f =
      ap (λ (r : Bool × Connection B × Served W B). after_send m s r) e
      ∙ ap (λ (r : Bool × Message × Connection B × Served W B). after_answer s r) f

  -- What stays as it is when an answer is printed.
  told_parts :
      (m : Message) (s : Client (Served W B) B)
      → ((told m s).conn ≡ s.conn)
        × ((told m s).world ≡ s.world)
        × ((told m s).console ≡ heard_by m s.console)
  told_parts m s = elim (Bool-cases (str_eq m.tag tag_ok)) [
    | inl e ↦ rw e (refl, refl, refl)
    | inr e ↦ rw e (refl, refl, refl)
  ]

  pub IsSynced-same :
      {fuel user : ℕ} {room : Option ℕ} {msg : Message} {k : Exit → Program Exit}
      (x y : Client (Served W B) B)
      → y.conn ≡ x.conn
      → y.world ≡ x.world
      → IsSynced fuel user room msg k x
      → IsSynced fuel user room msg k y
  IsSynced-same x y conn world v = record {
    quiet =
        subst (λ p. IsQuiet h clock y.conn p.conn p.world) (sym world)
          (subst (λ c. IsQuiet h clock c x.world.conn x.world.world) (sym conn) v.quiet);
    running = ap (λ p. p.program) world ∙ v.running;
  }

  -- The world when the request `m` is on its way, and when the thread has heard it, answered it and
  -- come to `next`.
  abbrev pub asked_by : Message → Client (Served W B) B → Served W B
  asked_by m s = met (written h clock m s.conn s.world.world) s.world

  abbrev pub hearing : Message → Client (Served W B) B → Machine W B
  hearing m s =
      let w = written h clock m s.conn s.world.world in
      machine_with (read_from h clock s.world.conn w) (line_read lib s.world.conn w).world
        (stir s.world.others s.world.store)

  abbrev pub answering : Message → Reply → Program Exit → Client (Served W B) B → Served W B
  answering m a next s =
      stopped_at (rest_of s.world.others) (next, answered h clock a (hearing m s))

  -- The client when it has read the answer.
  abbrev pub told_by :
      Message → Reply → Program Exit → Client (Served W B) B → Client (Served W B) B
  told_by m a next s =
      let q = answering m a next s in
      record s {
        conn = read_from h clock s.conn q.world;
        world = record q { world = (line_read lib s.conn q.world).world };
      }

  -- The answer comes to the client, and the connection is quiet again.
  pub answer_comes :
      (m old : Message) (a : Reply) (next : Program Exit) (s : Client (Served W B) B)
      → IsQuiet h clock s.conn s.world.conn s.world.world
      → IsPlain m
      → IsPlain a.said
      → serve lib clock (asked_by m s) ≡ answering m a next s
      → (receive (served_lib lib clock) old s.conn (asked_by m s)
          ≡ read_into a.said old s.conn (answering m a next s))
        × (let s' = told_by m a next s in IsQuiet h clock s'.conn s'.world.conn s'.world.world)
  answer_comes m old a next s quiet plain said served =
      let t = hearing m s in
      let halfway =
        turned-IsQuiet h clock
          (passed-IsQuiet h clock m s.conn s.world.conn s.world.world plain quiet) in
      (
        reads_answer a.said old s.conn (asked_by m s) (answering m a next s) served
            (there h clock a.said t.conn s.conn t.world said halfway) said,
        turned-IsQuiet h clock (passed-IsQuiet h clock a.said t.conn s.conn t.world said halfway),
      )

  pub exchange_answered :
      (fuel user : ℕ) (room : Option ℕ) (m msg : Message) (k : Exit → Program Exit)
      (s : Client (Served W B) B)
      → IsSynced (suc (suc fuel)) user room msg k s
      → IsPlain m
      → str_eq m.tag tag_quit ≡ false
      → IsPlain (reply_to user room (heard m msg) (stir s.world.others s.world.store)).said
      → let a = reply_to user room (heard m msg) (stir s.world.others s.world.store) in
        let s' = exchange (served_lib lib clock) m s in
        IsSynced (suc fuel) user a.room (heard m msg) k s'
        × (s'.world.store ≡ a.store)
        × (s'.world.others ≡ rest_of s.world.others)
        × (s'.console ≡ heard_by a.said s.console)
  exchange_answered fuel user room m msg k s v plain other said =
      let a = reply_to user room (heard m msg) (stir s.world.others s.world.store) in
      let next = sender_loop (suc fuel) user a.room (heard m msg) >>= k in
      let served =
        serve_request h clock fuel user room m msg k (asked_by m s) v.running
          (there h clock m s.conn s.world.conn s.world.world plain v.quiet) plain other said in
      let (read, quiet) = answer_comes m m a next s v.quiet plain said served in
      let after = told_by m a next s in
      let all =
        exchange-told m a.said s (asked_by m s) after.world after.conn
          (served_send h clock m s.conn s.world plain) read in
      let (conn, world, console) = told_parts a.said after in
      let ready : IsSynced (suc fuel) user a.room (heard m msg) k after = record {
        quiet = quiet;
        running = refl;
      } in
      (
        IsSynced-same after (exchange (served_lib lib clock) m s) (ap (λ x. x.conn) all ∙ conn)
            (ap (λ x. x.world) all ∙ world) ready,
        ap (λ x. x.world.store) all ∙ ap (λ x. x.store) world,
        ap (λ x. x.world.others) all ∙ ap (λ x. x.others) world,
        ap (λ x. x.console) all ∙ console,
      )
