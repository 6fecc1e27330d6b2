-- ===== src/Server/Fuel.antt =====
-- When the loop of `chat_with_sender` ends, and what it does on a line that is no message.
use csfassignment.Base.{
  ◌⊎◌, ℕ, zero, suc, ◌≤◌, ◌<◌, ◌≡◌, refl, ap, ◌∙◌, Bool, true, false, not, Option, none, some,
  Bytes, codes, if◌then◌else◌, inl, inr, Bool-cases, arith,
}
use csfassignment.Base.Int.{ℤ, less_than_one}
use csfassignment.Csapp.{Csapp}
use csfassignment.Text.{str_eq}
use csfassignment.Message.{Message, message, empty_message, tag_err}
use csfassignment.Connection.{Connection, decode, send, receive, close, c_string, wire}
use csfassignment.Connection.Laws.{line_read, receive_missing, receive_invalid}
use csfassignment.Heap.{Store}
use csfassignment.Server.Program.{
  Program, done, call, ◌>>=◌, ◌>>◌, Op, Machine, receives, sends, disconnects, answer, effect,
  traffic, perform_on, run,
}
use csfassignment.Server.Chat.{
  Exit, finished, Next, stop, again, check_received, leave_if_inside, dispatch, sender_round,
  sender_loop, chat_with_sender,
}

module _ {W B : Type 0} (lib : Csapp W B) (clock : W → Option ℕ) where
  pub run-bind :
      {A C : Type 0} (p : Program A) (f : A → Program C) (s : Machine W B)
      → run lib clock (p >>= f) s ≡ (let (a, s') = run lib clock p s in run lib clock (f a) s')
  unfolding run
  run-bind (done a) f s = refl
  run-bind (call o k) f s = run-bind (k (answer lib clock o s)) f (perform_on lib clock o s)

  -- The peer has `left w` lines to send: reading one uses it up, and nothing else brings more.
  pub record Drains (left : W → ℕ) : Type 0 where
    pub reads : (c : Connection B) (w : W) → left (line_read lib c w).world ≤ left w
    pub uses :
        (c : Connection B) (w : W)
        → less_than_one (line_read lib c w).count ≡ false
        → left (line_read lib c w).world < left w
    pub writes : (fd : ℤ) (text : Bytes) (w : W) → left (lib.rio_writen fd text w).1 ≤ left w
    pub closes : (fd : ℤ) (w : W) → left (lib.close fd w) ≤ left w

  receive_world :
      (m : Message) (c : Connection B) (w : W)
      → let (_, _, _, w') = receive lib m c w in w' ≡ (line_read lib c w).world
  unfolding receive
  receive_world m c w = ground arith

  send_world :
      (m : Message) (c : Connection B) (w : W) (left : W → ℕ)
      → Drains left
      → let (_, _, w') = send lib m c w in left w' ≤ left w
  unfolding send
  send_world m c w left d = ground (arith, d.writes c.fd (c_string (wire m)) w)

  close_world :
      (c : Connection B) (w : W) (left : W → ℕ) → Drains left → left (close lib c w).1 ≤ left w
  unfolding close
  close_world c w left d = ground (arith, d.closes c.fd w)

  pub traffic-left :
      (left : W → ℕ) (d : Drains left) (o : Op) (c : Connection B) (w : W)
      → left (traffic lib clock o c w).1 ≤ left w
  unfolding traffic
  traffic-left left d (receives m) c w = rw (receive_world m c w) (d.reads c w)
  traffic-left left d (sends m) c w = send_world m c w left d
  traffic-left left d disconnects c w = close_world c w left d
  traffic-left left d o c w = omega arith

  run-left :
      {A : Type 0} (left : W → ℕ) (d : Drains left) (p : Program A) (s : Machine W B)
      → left (run lib clock p s).1.world ≤ left s.world
  unfolding run perform_on
  run-left left d (done a) s = omega arith
  run-left left d (call o k) s = omega (
    arith,
    run-left left d (k (answer lib clock o s)) (perform_on lib clock o s),
    traffic-left left d o s.conn s.world,
  )

  -- A round behind its receive.
  abbrev received : ℕ → Option ℕ → Store → Bool × Message × Connection B × W → Next × Machine W B
  received u room st (ok, m, c, w) =
      run lib clock
        (check_received ok >>= λ go. if not go then done (stop room) else dispatch u room m)
        (record { conn = c; world = w; store = st })

  round-received :
      (u : ℕ) (room : Option ℕ) (msg : Message) (s : Machine W B)
      → run lib clock (sender_round u room msg) s
        ≡ received u room s.store (receive lib msg s.conn s.world)
  unfolding run sender_round answer perform_on traffic effect
  round-received u room msg s = refl

  -- A round behind a receive that failed for want of a line is the last one.
  missing_stops :
      (u : ℕ) (room : Option ℕ) (msg : Message) (s : Machine W B)
      → less_than_one (line_read lib s.conn s.world).count ≡ true
      → (run lib clock (sender_round u room msg) s).0 ≡ stop room
  unfolding run check_received answer perform_on traffic
  missing_stops u room msg s e =
      rw (round-received u room msg s, receive_missing lib msg s.conn s.world e) refl

  -- What a round leads to: it is the last one, or it has used up a line.
  round_uses :
      (left : W → ℕ) (d : Drains left) (u : ℕ) (room : Option ℕ) (msg : Message) (s : Machine W B)
      → let (next, s') = run lib clock (sender_round u room msg) s in
        (next ≡ stop room) ⊎ (left s'.world < left s.world)
  unfolding run sender_round perform_on traffic
  round_uses left d u room msg s =
      elim (Bool-cases (less_than_one (line_read lib s.conn s.world).count)) [
        | inl e ↦ inl (missing_stops u room msg s e)
        | inr e ↦
            let o = receives msg in
            let a = answer lib clock o s in
            let rest = check_received a.0 >>= λ go.
            if not go then done (stop room) else dispatch u room a.1 in
            inr (
              omega (
                arith,
                run-left left d rest (perform_on lib clock o s),
                ap left (receive_world msg s.conn s.world),
                d.uses s.conn s.world e,
              ))
      ]

  leaves :
      (u : ℕ) (last : Option ℕ) (t : Machine W B)
      → (run lib clock (leave_if_inside u last >> done finished) t).0 ≡ finished
  unfolding run
  leaves u none t = refl
  leaves u (some r) t = refl

  -- The rest of the loop behind a round, if the loop ends wherever there are fewer lines left.
  after_round :
      (left : W → ℕ) (fuel u : ℕ) (room : Option ℕ) (lines : ℕ) (next : Next) (t : Machine W B)
      → ((room' : Option ℕ) (m : Message)
          → left t.world < lines
          → (run lib clock (sender_loop fuel u room' m) t).0 ≡ finished)
      → (next ≡ stop room) ⊎ (left t.world < lines)
      → (run lib clock
          (elim next [
            | stop last ↦ leave_if_inside u last >> done finished
            | again room' m ↦ sender_loop fuel u room' m
          ])
          t).0
        ≡ finished
  after_round left fuel u room lines (stop last) t ends x = leaves u last t
  after_round left fuel u room lines (again room' m) t ends (inl e) = cc
  after_round left fuel u room lines (again room' m) t ends (inr less) = ends room' m less

  sender_loop_ends :
      (left : W → ℕ) (d : Drains left) (fuel u : ℕ) (room : Option ℕ) (msg : Message)
      (s : Machine W B)
      → left s.world < fuel
      → (run lib clock (sender_loop fuel u room msg) s).0 ≡ finished
  unfolding sender_loop
  sender_loop_ends left d zero u room msg s h = elim h [ ]
  sender_loop_ends left d (suc fuel) u room msg s h =
      let (next, t) = run lib clock (sender_round u room msg) s in
      ap (λ (r : Exit × Machine W B). r.0) (run-bind (sender_round u room msg) _ s)
      ∙ after_round left fuel u room (left s.world) next t
          (λ room' m less. sender_loop_ends left d fuel u room' m t (omega (arith, less, h)))
          (round_uses left d u room msg s)

  -- If each line that is read uses up one of the lines that the peer has left, and nothing else
  -- brings more, `chat_with_sender` returns: fuel above the number of those lines is enough, whatever
  -- the lines are.
  pub chat_with_sender_lem :
      (left : W → ℕ) (d : Drains left) (fuel u : ℕ) (s : Machine W B)
      → left s.world < fuel
      → (run lib clock (chat_with_sender fuel u) s).0 ≡ finished
  unfolding chat_with_sender
  chat_with_sender_lem left d fuel u s h = sender_loop_ends left d fuel u none empty_message s h

  -- A line that is no message is answered twice in one round: by "invalid message" and then, since
  -- the tag is `err` by now, by "invalid message tag".
  pub invalid_answered_twice :
      (u : ℕ) (room : Option ℕ) (msg : Message) (s : Machine W B)
      → less_than_one (line_read lib s.conn s.world).count ≡ false
      → decode (line_read lib s.conn s.world).bytes ≡ none
      → run lib clock (sender_round u room msg) s ≡ (
        again room (record msg { tag = tag_err }),
        perform_on lib clock (sends (message tag_err (codes "invalid message tag"))) (
            perform_on lib clock
              (sends (message tag_err (codes "invalid message")))
              (perform_on lib clock (receives msg) s)),
      )
  unfolding run check_received dispatch str_eq answer perform_on traffic effect
  invalid_answered_twice u room msg s e f =
      rw (round-received u room msg s, receive_invalid lib msg s.conn s.world e f) refl
