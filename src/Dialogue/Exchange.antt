-- ===== src/Dialogue/Exchange.antt =====
-- One request of a sender and its answer.
use csfassignment.Base.{
  ℕ, suc, ◌+◌, ◌≡◌, ◌≢◌, refl, sym, ap, ◌∙◌, Bool, true, false, not, List, [], ◌∷◌, ◌++◌, Option,
  Bytes, if◌then◌else◌, arith,
}
use csfassignment.Base.Int.{ℤ}
use csfassignment.Csapp.{Csapp}
use csfassignment.Text.{str_eq, rtrim}
use csfassignment.Message.{Message, max_len, tag_quit}
use csfassignment.Connection.{Connection, wire, send, receive}
use csfassignment.Connection.Decode.{c_string_lem, wire-Lacks, length-wire}
use csfassignment.Connection.Laws.{line_read}
use csfassignment.Heap.{Store}
use csfassignment.Server.Program.{
  Program, done, ◌>>=◌, Machine, answer, effect, traffic, perform_on,
}
use csfassignment.Server.Chat.{Exit, sender_loop, sender_round, check_received, dispatch, stop}
use csfassignment.Dialogue.{Served, met, machine_of, stopped_at, advance, resume, serve, served_lib}
use csfassignment.Dialogue.Link.{IsReliable, IsPlain, wire-IsLine, send-IsPlain, receive-IsPlain}
use csfassignment.Dialogue.Replies.{Reply, reply_to, after_round, replied, dispatch-Answers}

-- The request as the thread has it in its message.
abbrev pub heard : Message → Message → Message
heard m msg = record msg { tag = m.tag; payload = rtrim m.payload }

abbrev pub machine_with : {W B : Type 0} → Connection B → W → Store → Machine W B
machine_with c w st = record { conn = c; world = w; store = st }

module _ {W B : Type 0} {lib : Csapp W B} {owner : B → ℤ} {peer : ℤ → ℤ}
    {lines : B → W → List Bytes} (h : IsReliable lib owner peer lines) (clock : W → Option ℕ) where
  -- The two ends of the connection belong together, and nothing is on its way.
  pub record IsQuiet (near far : Connection B) (w : W) : Type 0 where
    pub at_near : owner near.fdbuf ≡ near.fd
    pub at_far : owner far.fdbuf ≡ far.fd
    pub to_near : owner near.fdbuf ≡ peer far.fd
    pub to_far : owner far.fdbuf ≡ peer near.fd
    pub apart : owner near.fdbuf ≢ owner far.fdbuf
    pub near_idle : lines near.fdbuf w ≡ []
    pub far_idle : lines far.fdbuf w ≡ []

  -- A line from one end to the other: the connection is quiet again when it has been read.
  abbrev pub written : Message → Connection B → W → W
  written m c w = (lib.rio_writen c.fd (wire m) w).1

  abbrev pub read_from : Connection B → W → Connection B
  read_from c w = record c { fdbuf = (line_read lib c w).rio }

  pub there :
      (m : Message) (near far : Connection B) (w : W)
      → IsPlain m
      → IsQuiet near far w
      → lines far.fdbuf (written m near w) ≡ wire m ∷ []
  there m near far w v q =
      h.writes_there near.fd (wire m) w far.fdbuf (wire-IsLine m v) q.to_far
      ∙ ap (λ l. l ++ wire m ∷ []) q.far_idle

  pub passed-IsQuiet :
      (m : Message) (near far : Connection B) (w : W)
      → IsPlain m
      → IsQuiet near far w
      → let w' = written m near w in IsQuiet near (read_from far w') (line_read lib far w').world
  passed-IsQuiet m near far w v q =
      let w' = written m near w in
      let (_, _, same, left) =
        h.reads far.fdbuf (max_len + 1) w' (wire m) [] (there m near far w v q)
          (omega (arith, v.fits, length-wire m)) in
      record {
        at_near = q.at_near;
        at_far = same ∙ q.at_far;
        to_near = q.to_near;
        to_far = same ∙ q.to_far;
        apart = λ e. q.apart (e ∙ same);
        near_idle =
            h.reads_apart far.fdbuf (max_len + 1) w' near.fdbuf q.apart
            ∙ h.writes_apart near.fd (wire m) w near.fdbuf (λ e. q.apart (e ∙ sym q.to_far))
            ∙ q.near_idle;
        far_idle = left;
      }

  -- The same connection, seen from the other end.
  pub turned-IsQuiet : {near far : Connection B} {w : W} → IsQuiet near far w → IsQuiet far near w
  turned-IsQuiet q = record {
    at_near = q.at_far;
    at_far = q.at_near;
    to_near = q.to_far;
    to_far = q.to_near;
    apart = λ e. q.apart (sym e);
    near_idle = q.far_idle;
    far_idle = q.near_idle;
  }

  pub served_send :
      (m : Message) (c : Connection B) (p : Served W B)
      → IsPlain m
      → send (served_lib lib clock) m c p ≡ (true, c, met (written m c p.world) p)
  unfolding send
  served_send m c p v =
      rw (send, c_string_lem (wire m) (wire-Lacks m v.writable))
        (rw (h.writes c.fd (wire m) p.world (wire-IsLine m v)) (ground arith))

  module _ (fuel user : ℕ) (room : Option ℕ) (msg : Message) (k : Exit → Program Exit) where
    abbrev pub after_receive :
        Store → Bool × Message × Connection B × W → Program Exit × Machine W B
    after_receive st (ok, m, c, w) =
        advance lib clock
          (((check_received ok >>= λ go. if not go then done (stop room) else dispatch user room m)
              >>= after_round fuel user)
            >>= k)
          (record { conn = c; world = w; store = st })

    pub resume_loop :
        (s : Machine W B)
        → resume lib clock (sender_loop (suc fuel) user room msg >>= k) s
          ≡ after_receive s.store (receive lib msg s.conn s.world)
    unfolding sender_loop sender_round answer perform_on traffic effect advance
    resume_loop s = refl

    at_head :
        (s : Machine W B)
        → advance lib clock (sender_loop (suc fuel) user room msg >>= k) s
          ≡ (sender_loop (suc fuel) user room msg >>= k, s)
    unfolding sender_loop sender_round advance
    at_head s = refl

  abbrev pub answered : Reply → Machine W B → Machine W B
  answered a s = record { conn = s.conn; world = written a.said s.conn s.world; store = a.store }

  pub replied_lem :
      (a : Reply) (s : Machine W B) → IsPlain a.said → replied lib clock a s ≡ answered a s
  unfolding perform_on traffic effect
  replied_lem a s v =
      ap (λ (r : Bool × Connection B × W). let (_, c, w) = r in machine_with c w a.store)
        (send-IsPlain h a.said s.conn s.world v)

  -- The thread takes the request and answers it.
  pub serve_request :
      (fuel user : ℕ) (room : Option ℕ) (m msg : Message) (k : Exit → Program Exit) (p : Served W B)
      → p.program ≡ (sender_loop (suc (suc fuel)) user room msg >>= k)
      → lines p.conn.fdbuf p.world ≡ wire m ∷ []
      → IsPlain m
      → str_eq m.tag tag_quit ≡ false
      → (let a = reply_to user room (heard m msg) p.store in
          IsPlain a.said
          → serve lib clock p
            ≡ stopped_at p.others (
              sender_loop (suc fuel) user a.room (heard m msg) >>= k,
              answered a (
                  machine_with
                    (read_from p.conn p.world)
                    (line_read lib p.conn p.world).world
                    p.store),
            ))
  unfolding serve check_received dispatch
  serve_request fuel user room m msg k p running waits v other plain =
      let a = reply_to user room (heard m msg) p.store in
      let s =
        machine_with (read_from p.conn p.world) (line_read lib p.conn p.world).world p.store in
      ap (stopped_at p.others) (
        ap (λ q. resume lib clock q (machine_of p)) running
        ∙ resume_loop (suc fuel) user room msg k (machine_of p)
        ∙ ap (after_receive (suc fuel) user room msg k p.store)
            (receive-IsPlain h m msg p.conn p.world [] v waits)
        ∙ dispatch-Answers lib clock (suc fuel) user (heard m msg) k s room other
        ∙ at_head fuel user a.room (heard m msg) k (replied lib clock a s)
        ∙ ap (λ t. (sender_loop (suc fuel) user a.room (heard m msg) >>= k, t))
            (replied_lem a s plain))
