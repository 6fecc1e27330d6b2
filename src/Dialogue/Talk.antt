-- ===== src/Dialogue/Talk.antt =====
-- A conversation of a sender with the server as a function of the lines that are typed: what is
-- requested, what is answered, and what becomes of the objects of the server. No network is in it.
use csfassignment.Base.{
  ℕ, ◌≡◌, refl, ap, ◌∙◌, ap, ◌∙◌, false, List, [], ◌∷◌, ◌++◌, Option, none, some, Bytes, codes,
  length, ◌==◌, if◌then◌else◌, inl, inr, Bool-cases, Option-cases, arith,
}
use csfassignment.Csapp.{Csapp}
use csfassignment.Text.{str_eq, trim, substr?}
use csfassignment.Message.{Message, message, tag_join, tag_leave, tag_quit, tag_sendall}
use csfassignment.Heap.{Store}
use csfassignment.Server.Deeds.{Deed, stir, rest_of}
use csfassignment.Client.{Console, Client, print_err}
use csfassignment.Client.Sender.{
  Turn, next, leave, threw, is_command, has_word, first_line, rest_lines, read_line, exchange,
  join_command, command, line_turn, sender_turn,
}
use csfassignment.Dialogue.Replies.{reply_to}
use csfassignment.Dialogue.Exchange.{heard}
use csfassignment.Dialogue.Link.{IsPlain}
use csfassignment.Dialogue.Synced.{heard_by}

-- What a typed line asks for.
pub data Request : Type 0 where
  silent : Request
  complains : Bytes → Request
  asks : Message → Request
  quits : Message → Request
  fails : Request

abbrev pub join_request : Option Bytes → Request
join_request none = fails
join_request (some name) =
    if str_eq name []
    then complains (codes "Needs a room name: ./join [room name]\n")
    else asks (message tag_join name)

abbrev pub command_request : Bytes → Request
command_request line =
    if has_word 4 (codes "join") line
    then join_request (substr? line 6)
    else if has_word 5 (codes "leave") line
    then asks (message tag_leave (codes "left room"))
    else if has_word 4 (codes "quit") line
    then quits (message tag_quit (codes "quit room"))
    else complains (codes "-Invalid command-\nValid Commands: /join /leave /quit\n")

abbrev pub request_of : Bytes → Request
request_of line =
    if length line == 0
    then silent
    else if is_command line
    then command_request line
    else asks (message tag_sendall line)

module _ {W B : Type 0} (lib : Csapp W B) where
  -- What the client does for a request.
  abbrev pub makes : Request → Client W B → Turn × Client W B
  makes silent s = (next, s)
  makes (complains text) s = (next, print_err text s)
  makes (asks m) s = (next, exchange lib m s)
  makes (quits m) s = (leave, exchange lib m s)
  makes fails s = (threw, s)

  join_command-makes :
      (line : Bytes) (s : Client W B)
      → join_command lib line s ≡ makes (join_request (substr? line 6)) s
  unfolding join_command
  join_command-makes line s = elim (Option-cases (substr? line 6)) [
    | inl e ↦ rw (join_command, e) refl
    | inr (name, e) ↦
        rw (join_command, e)
          (elim (Bool-cases (str_eq name [])) [ inl f ↦ rw f refl | inr f ↦ rw f refl ])
  ]

  command-makes :
      (line : Bytes) (s : Client W B) → command lib line s ≡ makes (command_request line) s
  unfolding command
  command-makes line s = elim (Bool-cases (has_word 4 (codes "join") line)) [
    | inl e ↦ rw e (join_command-makes line s)
    | inr e ↦ rw e (elim (Bool-cases (has_word 5 (codes "leave") line)) [
      | inl f ↦ rw f refl
      | inr f ↦ rw f (elim (Bool-cases (has_word 4 (codes "quit") line)) [
        | inl g ↦ rw g refl
        | inr g ↦ rw g refl
      ])
    ])
  ]

  line_turn-makes :
      (line : Bytes) (s : Client W B) → line_turn lib line s ≡ makes (request_of line) s
  unfolding line_turn
  line_turn-makes line s = elim (Bool-cases (length line == 0)) [
    | inl e ↦ rw e refl
    | inr e ↦ rw e (elim (Bool-cases (is_command line)) [
      | inl f ↦ rw f (command-makes line s)
      | inr f ↦ rw f refl
    ])
  ]

  pub sender_turn-makes :
      (raw : Bytes) (s : Client W B)
      → first_line s.console.input ≡ raw
      → sender_turn lib s ≡ makes (request_of (trim raw)) (read_line lib s).1
  unfolding sender_turn read_line
  sender_turn-makes raw s e =
      line_turn-makes (trim (first_line s.console.input)) (read_line lib s).1
      ∙ ap (λ l. makes (request_of (trim l)) (read_line lib s).1) e

-- What the parties to a conversation have before them: the room that the user is in, the message that
-- the thread keeps, the objects of the server, what the other threads will do to them, request by
-- request, and the client's console.
pub record Talk : Type 0 where
  pub room : Option ℕ
  pub msg : Message
  pub store : Store
  pub others : List (List Deed)
  pub console : Console

-- The objects when a request has been made.
abbrev pub stirred : Talk → Store
stirred t = stir t.others t.store

-- A request and its answer.
abbrev pub spoken : ℕ → Message → Talk → Talk
spoken user m t =
    let a = reply_to user t.room (heard m t.msg) (stirred t) in
    record {
      room = a.room;
      msg = heard m t.msg;
      store = a.store;
      others = rest_of t.others;
      console = heard_by a.said t.console;
    }

abbrev pub grumbled : Bytes → Console → Console
grumbled text c = record c { err = c.err ++ text ∷ [] }

abbrev pub talked : ℕ → Request → Talk → Talk
talked user silent t = t
talked user (complains text) t = record t { console = grumbled text t.console }
talked user (asks m) t = spoken user m t
talked user (quits m) t = t
talked user fails t = t

-- A line is read at the prompt.
abbrev pub at_prompt : Console → Console
at_prompt c = record c { out = c.out ++ codes "> " ∷ []; input = rest_lines c.input }

abbrev pub prompted : Talk → Talk
prompted t = record t { console = at_prompt t.console }

abbrev pub talk_line : ℕ → Bytes → Talk → Talk
talk_line user raw t = talked user (request_of (trim raw)) (prompted t)

abbrev pub conversation : ℕ → List Bytes → Talk → Talk
conversation user [] t = t
conversation user (raw ∷ rest) t = conversation user rest (talk_line user raw t)

heard_by_input : (m : Message) (c : Console) → (heard_by m c).input ≡ c.input
heard_by_input m c = ground arith

pub talked_input :
    (user : ℕ) (r : Request) (t : Talk) → (talked user r t).console.input ≡ t.console.input
talked_input user silent t = refl
talked_input user (complains text) t = refl
talked_input user (asks m) t =
    heard_by_input (reply_to user t.room (heard m t.msg) (stirred t)).said t.console
talked_input user (quits m) t = refl
talked_input user fails t = refl

-- A request that can be made in a line: it and its answer are plain, and it does not end the
-- conversation.
abbrev pub IsSpeakable : ℕ → Request → Talk → Type 0
IsSpeakable user silent t = Unit
IsSpeakable user (complains text) t = Unit
IsSpeakable user (asks m) t =
    IsPlain m
    × (str_eq m.tag tag_quit ≡ false)
    × IsPlain (reply_to user t.room (heard m t.msg) (stirred t)).said
IsSpeakable user (quits m) t = ⊥
IsSpeakable user fails t = ⊥

abbrev pub AllSpeakable : ℕ → List Bytes → Talk → Type 0
AllSpeakable user [] t = Unit
AllSpeakable user (raw ∷ rest) t =
    IsSpeakable user (request_of (trim raw)) (prompted t)
    × AllSpeakable user rest (talk_line user raw t)
