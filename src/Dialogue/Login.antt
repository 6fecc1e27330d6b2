-- ===== src/Dialogue/Login.antt =====
-- The log-in of a client.
use csfassignment.Base.{
  ℕ, suc, ◌≡◌, refl, ap, ◌∙◌, Bool, true, false, not, ◌&&◌, List, [], ◌++◌, Option, none, some,
  Bytes, codes, if◌then◌else◌, length, ◌≤◌, arith,
}
use csfassignment.Base.Int.{ℤ}
use csfassignment.Csapp.{Csapp}
use csfassignment.Text.{str_eq, rtrim}
use csfassignment.Text.Find.{IsLower}
use csfassignment.Message.{Message, message, empty_message, tag_ok, tag_slogin, tag_rlogin}
use csfassignment.Connection.{Connection, receive, send}
use csfassignment.Heap.{Store}
use csfassignment.Server.Program.{
  Program, ◌>>=◌, Machine, make_user, answer, effect, traffic, perform_on,
}
use csfassignment.Server.Chat.{
  Exit, worker, session, login_received, log_in, welcomed, chat_with_sender,
}
use csfassignment.Client.{Client, client_send, client_receive, client_close, print_err, request}
use csfassignment.Server.Deeds.{stir, rest_of}
use csfassignment.Dialogue.{Served, machine_of, stopped_at, advance, resume, serve, served_lib}
use csfassignment.Dialogue.Texts.{IsText, IsText-append, IsText-more, message-IsPlain}
use csfassignment.Dialogue.Link.{IsReliable, IsPlain, send-IsPlain, receive-IsPlain}
use csfassignment.Dialogue.Replies.{Reply}
use csfassignment.Dialogue.Exchange.{heard, machine_with, IsQuiet, answered, there, served_send}
use csfassignment.Dialogue.Synced.{asked_by, hearing, answering, told_by, answer_comes}
use csfassignment.Dialogue.Quit.{closing}

-- The request of the log-in, and its answer.
abbrev pub login : (tag username : Bytes) → Message
login tag username = message tag username

-- The two tags of a log-in.
abbrev pub IsLogin : Bytes → Type 0
IsLogin tag = (not (str_eq tag tag_rlogin) && not (str_eq tag tag_slogin)) ≡ false

abbrev pub hail : Bytes → Message
hail name = message tag_ok (codes "Welcome " ++ name ++ codes "!")

abbrev pub welcome : Bytes → Store → Reply
welcome name st = record { said = hail name; room = none; store = (make_user name st).1 }

pub login-IsPlain :
    (tag username : Bytes)
    → IsLower tag
    → length tag ≤ 8
    → IsText 60 username
    → IsPlain (login tag username)
login-IsPlain tag username lower few a =
    message-IsPlain tag username lower few (IsText-more 245 username (omega arith) a)

pub hail-IsPlain : (name : Bytes) → IsText 60 name → IsPlain (hail name)
hail-IsPlain name a =
    let front : IsText 10 (codes "Welcome ") = ground arith in
    let mark : IsText 1 (codes "!") = ground arith in
    message-IsPlain tag_ok (codes "Welcome " ++ name ++ codes "!") (ground arith) (omega arith) (
      IsText-more 245 _ (omega arith) (
        IsText-append (codes "Welcome " ++ name) (codes "!")
          (IsText-append (codes "Welcome ") name front a) mark))

module _ {W B : Type 0} {lib : Csapp W B} {owner : B → ℤ} {peer : ℤ → ℤ}
    {lines : B → W → List Bytes} (h : IsReliable lib owner peer lines) (clock : W → Option ℕ) where
  abbrev entered : ℕ → Store → Bool × Message × Connection B × W → Program Exit × Machine W B
  entered rounds st (ok, m, c, w) =
      advance lib clock (login_received rounds ok m >>= closing) (machine_with c w st)

  resume-worker :
      (rounds : ℕ) (s : Machine W B)
      → resume lib clock (worker rounds) s
        ≡ entered rounds s.store (receive lib empty_message s.conn s.world)
  unfolding worker session answer perform_on traffic effect advance
  resume-worker rounds s = refl

  abbrev after_welcome :
      ℕ → ℕ → Message → Store → Bool × Connection B × W → Program Exit × Machine W B
  after_welcome rounds user m st (sent, c, w) =
      advance lib clock (welcomed rounds user m sent >>= closing) (machine_with c w st)

  log_in_advance :
      (rounds : ℕ) (tag username : Bytes) (s : Machine W B)
      → IsLogin tag
      → let m = heard (login tag username) empty_message in
        advance lib clock (login_received rounds true m >>= closing) s
        ≡ after_welcome rounds s.store.next m
            (make_user m.payload s.store).1
            (send lib (hail m.payload) s.conn s.world)
  unfolding login_received log_in answer perform_on traffic effect advance make_user
  log_in_advance rounds tag username s known = rw known refl

  pub advance-welcomed :
      (rounds user : ℕ) (username : Bytes) (s : Machine W B)
      → advance lib clock
          (welcomed (suc rounds) user (heard (login tag_slogin username) empty_message) true
            >>= closing)
          s
        ≡ (chat_with_sender (suc rounds) user >>= closing, s)
  unfolding welcomed str_eq chat_with_sender advance
  advance-welcomed rounds user username s = refl

  -- The thread reads a log-in, makes a user, greets it and comes to `next`.
  pub serve-login :
      (rounds : ℕ) (tag username : Bytes) (next : Program Exit) (s : Client (Served W B) B)
      → s.world.program ≡ worker rounds
      → IsQuiet h clock s.conn s.world.conn s.world.world
      → IsPlain (login tag username)
      → IsLogin tag
      → IsPlain (hail (rtrim username))
      → ((t : Machine W B)
          → advance lib clock
              (welcomed rounds
                  (stir s.world.others s.world.store).next
                  (heard (login tag username) empty_message)
                  true
                >>= closing)
              t
            ≡ (next, t))
      → serve lib clock (asked_by h clock (login tag username) s)
        ≡ answering h clock
            (login tag username)
            (welcome (rtrim username) (stir s.world.others s.world.store))
            next
            s
  unfolding serve make_user
  serve-login rounds tag username next s running quiet plain known said follows =
      let m = heard (login tag username) empty_message in
      let p = asked_by h clock (login tag username) s in
      let t = hearing h clock (login tag username) s in
      let st = (make_user m.payload t.store).1 in
      ap (stopped_at (rest_of s.world.others)) (
        ap (λ q. resume lib clock q (machine_of p)) running
        ∙ resume-worker rounds (machine_of p)
        ∙ ap (entered rounds p.store) (
            receive-IsPlain h (login tag username) empty_message p.conn p.world [] plain
              (there h clock (login tag username) s.conn s.world.conn s.world.world plain quiet))
        ∙ log_in_advance rounds tag username t known
        ∙ ap (after_welcome rounds t.store.next m st)
            (send-IsPlain h (hail m.payload) t.conn t.world said)
        ∙ follows (answered h clock (welcome m.payload t.store) t))

  -- `request` behind its send, and behind its receive.
  abbrev after_answer :
      ℕ
      → Client (Served W B) B
      → Bool × Message × Connection B × Served W B
      → Option ℕ × Client (Served W B) B
  after_answer code s (ok, m, c, p) =
      let s2 = record s { conn = c; world = p } in
      if not (str_eq m.tag tag_ok)
      then (some code, client_close (served_lib lib clock) (print_err m.payload s2))
      else (none, s2)

  abbrev after_send :
      ℕ
      → Message
      → Message
      → Client (Served W B) B
      → Bool × Connection B × Served W B
      → Option ℕ × Client (Served W B) B
  after_send code m old s (sent, c, p) =
      let s1 = record s { conn = c; world = p } in
      if not sent
      then (some code, client_close (served_lib lib clock) (print_err m.payload s1))
      else after_answer code s1 (receive (served_lib lib clock) old s1.conn s1.world)

  pub request_told :
      (code : ℕ) (m old said : Message) (s : Client (Served W B) B) (p q : Served W B)
      (c : Connection B)
      → send (served_lib lib clock) m s.conn s.world ≡ (true, s.conn, p)
      → receive (served_lib lib clock) old s.conn p
        ≡ (true, record old { tag = said.tag; payload = rtrim said.payload }, c, q)
      → said.tag ≡ tag_ok
      → request (served_lib lib clock) code m old s ≡ (none, record s { conn = c; world = q })
  unfolding request client_send client_receive str_eq
  request_told code m old said s p q c e f ok =
      ap (after_send code m old s) e
      ∙ ap (after_answer code s) f
      ∙ ap
          (λ tag.
            after_answer code s
              (true, record old { tag = tag; payload = rtrim said.payload }, c, q))
          ok

  -- A request that is plain and is answered with `ok`.
  pub request_answered :
      (code : ℕ) (m old : Message) (a : Reply) (next : Program Exit) (s : Client (Served W B) B)
      → IsQuiet h clock s.conn s.world.conn s.world.world
      → IsPlain m
      → IsPlain a.said
      → a.said.tag ≡ tag_ok
      → serve lib clock (asked_by h clock m s) ≡ answering h clock m a next s
      → let s' = told_by h clock m a next s in
        (request (served_lib lib clock) code m old s ≡ (none, s'))
        × IsQuiet h clock s'.conn s'.world.conn s'.world.world
  request_answered code m old a next s quiet plain said ok served =
      let (read, quiet') = answer_comes h clock m old a next s quiet plain said served in
      let after = told_by h clock m a next s in
      (
        request_told code m old a.said s (asked_by h clock m s) after.world after.conn
            (served_send h clock m s.conn s.world plain) read ok,
        quiet',
      )
