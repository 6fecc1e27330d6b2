-- ===== src/Dialogue/Screen.antt =====
-- The way of the messages in a receiver's queue over its thread, the network and its client to the
-- screen.
use csfassignment.Base.{
  ℕ, suc, ◌+◌, ◌≡◌, refl, sym, ap, ◌∙◌, Bool, List, [], ◌∷◌, ◌++◌, append_assoc, append-nil, Option,
  some, Bytes, length, map, All, arith,
}
use csfassignment.Base.Int.{ℤ}
use csfassignment.Csapp.{Csapp}
use csfassignment.Text.{rtrim}
use csfassignment.Message.{Message, max_len}
use csfassignment.Connection.{Connection, wire, receive}
use csfassignment.Connection.Decode.{length-wire}
use csfassignment.Connection.Laws.{line_read}
use csfassignment.Heap.{put, put_same}
use csfassignment.Server.Program.{Machine, dequeue_at, run}
use csfassignment.Server.Chat
use csfassignment.Server.Forwarding.{
  waiting, dequeue_at-waiting, after_send, after_dequeue, loop-after_dequeue, got-after_send,
}
use csfassignment.Client.{Client, Status, runs, client_receive, print_out}
use csfassignment.Client.Receiver.{show_message}
use csfassignment.Client.Receiver
use csfassignment.Delivery.{delivery_shown}
use csfassignment.Dialogue.Speech.{
  wires, screened, Speech, delivery_of, shown, IsShowable, delivery_of-IsPlain,
}
use csfassignment.Dialogue.Link.{IsReliable, IsPlain, wire-IsLine, send-IsPlain, receive-IsPlain}

module _ {W B : Type 0} {lib : Csapp W B} {owner : B → ℤ} {peer : ℤ → ℤ}
    {lines : B → W → List Bytes} (h : IsReliable lib owner peer lines) (clock : W → Option ℕ)
    (ticks : (w : W) → (now : ℕ) × (clock w ≡ some now)) where
  forwards_line :
      (fuel u : ℕ) (name : Bytes) (m : Message) (ms : List Message) (s : Machine W B)
      → s.store.users u ≡ some (waiting name (m ∷ ms))
      → IsPlain m
      → run lib clock (Chat.receiver_loop (suc fuel) u) s
        ≡ run lib clock (Chat.receiver_loop fuel u) (record {
          conn = s.conn;
          world = (lib.rio_writen s.conn.fd (wire m) s.world).1;
          store = record (s.store) { users = put u (waiting name ms) s.store.users };
        })
  forwards_line fuel u name m ms s e v =
      let (now, t) = ticks s.world in
      loop-after_dequeue lib clock fuel u s
      ∙ ap (after_dequeue lib clock fuel u s.conn s.world)
          (ap (λ o. dequeue_at o u s.store) t ∙ dequeue_at-waiting now u name m ms s.store e)
      ∙ got-after_send lib clock fuel u s.conn s.world m _
      ∙ ap (after_send lib clock fuel u _) (send-IsPlain h m s.conn s.world v)

  -- The thread writes the deliveries in its user's queue, for the other end to read.
  pub forwards_lines :
      (ps : List Speech) (u : ℕ) (name : Bytes) (s : Machine W B) (b : B)
      → s.store.users u ≡ some (waiting name (map delivery_of ps))
      → All IsShowable ps
      → owner b ≡ peer s.conn.fd
      → lines b (run lib clock (Chat.receiver_loop (length ps) u) s).1.world
        ≡ lines b s.world ++ wires ps
  unfolding run Chat.receiver_loop
  forwards_lines [] u name s b e v q = sym (append-nil (lines b s.world))
  forwards_lines (p ∷ ps) u name s b e v q =
      let plain = delivery_of-IsPlain p v.0 in
      let ms = map delivery_of ps in
      let s' : Machine W B = record {
        conn = s.conn;
        world = (lib.rio_writen s.conn.fd (wire (delivery_of p)) s.world).1;
        store = record (s.store) { users = put u (waiting name ms) s.store.users };
      } in
      ap (λ r. lines b r.1.world) (forwards_line (length ps) u name (delivery_of p) ms s e plain)
      ∙ forwards_lines ps u name s' b (put_same u (waiting name ms) s.store.users) v.1 q
      ∙ ap (λ l. l ++ wires ps)
          (h.writes_there s.conn.fd (wire (delivery_of p)) s.world b
            (wire-IsLine (delivery_of p) plain) q)
      ∙ append_assoc (lines b s.world) _ _

  -- What the client's loop does with the outcome of a receive.
  abbrev after_receive : ℕ → Client W B → Bool × Message × Connection B × W → Status × Client W B
  after_receive fuel s (ok, m, c, w) =
      Receiver.receiver_loop lib fuel m (show_message m (record s { conn = c; world = w }))

  loop-after_receive :
      (fuel : ℕ) (msg : Message) (s : Client W B)
      → Receiver.receiver_loop lib (suc fuel) msg s
        ≡ after_receive fuel s (receive lib msg s.conn s.world)
  unfolding Receiver.receiver_loop client_receive
  loop-after_receive fuel msg s = refl

  abbrev told_of : Speech → Message → Message
  told_of p msg = record msg { tag = (delivery_of p).tag; payload = rtrim (delivery_of p).payload }

  -- The client when it has read a line.
  abbrev reading : Client W B → Client W B
  reading s = record s {
    conn = record (s.conn) { fdbuf = (line_read lib s.conn s.world).rio };
    world = (line_read lib s.conn s.world).world;
  }

  shows_line :
      (fuel : ℕ) (p : Speech) (rest : List Bytes) (msg : Message) (s : Client W B)
      → IsShowable p
      → lines s.conn.fdbuf s.world ≡ wire (delivery_of p) ∷ rest
      → Receiver.receiver_loop lib (suc fuel) msg s
        ≡ Receiver.receiver_loop lib fuel (told_of p msg) (print_out (shown p) (reading s))
  shows_line fuel p rest msg s v e =
      let plain = delivery_of-IsPlain p v in
      let got = receive-IsPlain h (delivery_of p) msg s.conn s.world rest plain e in
      let r =
        h.reads s.conn.fdbuf (max_len + 1) s.world (wire (delivery_of p)) rest e
          (omega (arith, plain.fits, length-wire (delivery_of p))) in
      loop-after_receive fuel msg s
      ∙ ap (after_receive fuel s) got
      ∙ ap (Receiver.receiver_loop lib fuel (told_of p msg)) (
          ap (λ x. show_message x (reading s)) (ap (λ x. x.1) (sym got))
          ∙ delivery_shown lib p.room p.sender p.text msg s.conn s.world (reading s) v.deliverable
              (r.0, r.1))

  pub shows_lines :
      (ps : List Speech) (msg : Message) (s : Client W B)
      → All IsShowable ps
      → lines s.conn.fdbuf s.world ≡ wires ps
      → let (status, s') = Receiver.receiver_loop lib (length ps) msg s in
        (status ≡ runs) × (s'.console ≡ screened ps s.console)
  unfolding Receiver.receiver_loop
  shows_lines [] msg s v e =
      (refl, ap (λ l. record (s.console) { out = l }) (sym (append-nil s.console.out)))
  shows_lines (p ∷ ps) msg s v e =
      let plain = delivery_of-IsPlain p v.0 in
      let r =
        h.reads s.conn.fdbuf (max_len + 1) s.world (wire (delivery_of p)) (wires ps) e
          (omega (arith, plain.fits, length-wire (delivery_of p))) in
      let (status, console) =
        shows_lines ps (told_of p msg) (print_out (shown p) (reading s)) v.1 r.3 in
      rw (shows_line (length ps) p (wires ps) msg s v.0 e) (
        status,
        console
            ∙ ap (λ l. record (s.console) { out = l })
                (append_assoc s.console.out (shown p ∷ []) (map shown ps)),
      )
