-- ===== src/Dialogue/Heard.antt =====
-- What the other users get from a conversation: the messages that it puts into their queues.
use csfassignment.Base.{
  ℕ, ◌≡◌, refl, sym, ap, ◌∙◌, false, List, [], ◌∷◌, ◌++◌, append_assoc, append-nil, map, map-append,
  Option, none, some, Bytes, if◌then◌else◌, inl, inr, Bool-cases, All,
}
use csfassignment.Text.{str_eq, trim}
use csfassignment.Message.{Message, tag_sendall}
use csfassignment.Heap.{Store}
use csfassignment.Server.{is_valid_room_name, find_or_create_room}
use csfassignment.Server.Program.{username_at}
use csfassignment.Server.Invariant.{Inv}
use csfassignment.Server.Service.Matches.{queued}
use csfassignment.Server.Service.Views.{add_queued, remove_queued}
use csfassignment.Dialogue.Replies.{left_room, to_join, to_leave, reply_to}
use csfassignment.Dialogue.Speech.{Speech, delivery_of}
use csfassignment.Server.Deeds.{stir-Inv}
use csfassignment.Dialogue.Still.{AllStill, queued-stir, rest_of-AllStill, found_queued}
use csfassignment.Dialogue.Exchange.{heard}
use csfassignment.Dialogue.Talk.{
  Request, silent, complains, asks, quits, fails, request_of, Talk, talked, stirred, prompted,
  talk_line, conversation,
}
use csfassignment.Dialogue.Texts.{IsText, IsText-rtrim, IsText-trim}
use csfassignment.Dialogue.Modest.{IsRequest}
use csfassignment.Dialogue.Typed.{IsTyped, IsFine, IsPolite, talked-IsPolite, request_of-Fine}
use csfassignment.Dialogue.Sent.{sent_to, broadcast_queued}

-- What user `v` gets of the answer to a request.
abbrev pub said_to : (v user : ℕ) → Option ℕ → Message → Store → List Speech
said_to v user none m s = []
said_to v user (some r) m s =
    if str_eq m.tag tag_sendall then sent_to v r (username_at user s) m.payload s else []

pub left_queued :
    (v user : ℕ) (room : Option ℕ) (s : Store) → queued v (left_room user room s) ≡ queued v s
left_queued v user none s = refl
left_queued v user (some r) s = remove_queued r user s v

to_join-queued :
    (v user : ℕ) (room : Option ℕ) (name : Bytes) (s : Store)
    → queued v (to_join user room name s).store ≡ queued v s
to_join-queued v user room name s =
    let (r, s') = find_or_create_room name (left_room user room s) in
    elim (Bool-cases (is_valid_room_name name)) [
      | inl valid ↦ rw valid (
          add_queued r user s' v
          ∙ found_queued v name (left_room user room s)
          ∙ left_queued v user room s)
      | inr invalid ↦ rw invalid refl
    ]

to_leave-queued :
    (v user : ℕ) (room : Option ℕ) (s : Store) → queued v (to_leave user room s).store ≡ queued v s
to_leave-queued v user none s = refl
to_leave-queued v user (some r) s = remove_queued r user s v

quiet_said :
    (v user : ℕ) (room : Option ℕ) (m : Message) (s : Store)
    → str_eq m.tag tag_sendall ≡ false
    → said_to v user room m s ≡ []
quiet_said v user none m s e = refl
quiet_said v user (some r) m s e = rw e refl

unheard :
    (v user : ℕ) (room : Option ℕ) (m : Message) (s s' : Store)
    → queued v s' ≡ queued v s
    → str_eq m.tag tag_sendall ≡ false
    → queued v s' ≡ queued v s ++ map delivery_of (said_to v user room m s)
unheard v user room m s s' same other =
    same
    ∙ sym (
        ap (λ l. queued v s ++ map delivery_of l) (quiet_said v user room m s other)
        ∙ append-nil (queued v s))

pub reply_to-queued :
    (v user : ℕ) (room : Option ℕ) (m : Message) (s : Store)
    → Inv s
    → IsRequest m
    → queued v (reply_to user room m s).store
      ≡ queued v s ++ map delivery_of (said_to v user room m s)
unfolding str_eq
reply_to-queued v user room m s i (inl e, a) =
    unheard v user room m s (reply_to user room m s).store
      (rw e (to_join-queued v user room m.payload s)) (rw e refl)
reply_to-queued v user room m s i (inr (inl e), a) =
    unheard v user room m s (reply_to user room m s).store (rw e (to_leave-queued v user room s))
      (rw e refl)
reply_to-queued v user none m s i (inr (inr e), a) = rw e (sym (append-nil (queued v s)))
reply_to-queued v user (some r) m s i (inr (inr e), a) =
    rw e (broadcast_queued v r (username_at user s) m.payload s i)

-- What user `v` gets of a request, of a line and of a conversation.
abbrev pub gets : (v user : ℕ) → Request → Talk → List Speech
gets v user (asks m) t = said_to v user t.room (heard m t.msg) (stirred t)
gets v user r t = []

abbrev pub overheard : (v user : ℕ) → List Bytes → Talk → List Speech
overheard v user [] t = []
overheard v user (raw ∷ rest) t =
    gets v user (request_of (trim raw)) (prompted t) ++ overheard v user rest (talk_line user raw t)

module _ (v user : ℕ) (name : Bytes) (short : IsText 60 name) where
  talked-queued :
      (r : Request) (t : Talk)
      → IsPolite user name short t
      → IsFine r
      → AllStill t.others
      → queued v (talked user r t).store ≡ queued v t.store ++ map delivery_of (gets v user r t)
  talked-queued silent t p f still = sym (append-nil (queued v t.store))
  talked-queued (complains text) t p f still = sym (append-nil (queued v t.store))
  talked-queued (asks m) t p f still =
      reply_to-queued v user t.room (heard m t.msg) (stirred t)
        (stir-Inv t.others t.store p.held.inv) (f.0, IsText-rtrim m.payload f.1)
      ∙ ap (λ l. l ++ map delivery_of (gets v user (asks m) t))
          (queued-stir v t.others t.store still p.held.inv)
  talked-queued (quits m) t p f still = elim f [ ]
  talked-queued fails t p f still = elim f [ ]

  talked-AllStill : (r : Request) (t : Talk) → AllStill t.others → AllStill (talked user r t).others
  talked-AllStill silent t h = h
  talked-AllStill (complains text) t h = h
  talked-AllStill (asks m) t h = rest_of-AllStill t.others h
  talked-AllStill (quits m) t h = h
  talked-AllStill fails t h = h

  pub conversation-AllStill :
      (typed : List Bytes) (t : Talk)
      → AllStill t.others
      → AllStill (conversation user typed t).others
  conversation-AllStill [] t h = h
  conversation-AllStill (raw ∷ typed) t h =
      conversation-AllStill typed (talk_line user raw t)
        (talked-AllStill (request_of (trim raw)) (prompted t) h)

  -- A conversation puts into the queue of each user the messages that the user overhears.
  pub conversation-queued :
      (typed : List Bytes) (t : Talk)
      → IsPolite user name short t
      → All IsTyped typed
      → AllStill t.others
      → queued v (conversation user typed t).store
        ≡ queued v t.store ++ map delivery_of (overheard v user typed t)
  conversation-queued [] t p ok still = sym (append-nil (queued v t.store))
  conversation-queued (raw ∷ typed) t p ok still =
      let before : IsPolite user name short (prompted t) = record {
        held = p.held;
        placed = p.placed;
      } in
      let fine = request_of-Fine (trim raw) (IsText-trim raw ok.0.0) ok.0.1 in
      let (_, polite) =
        talked-IsPolite user name short (request_of (trim raw)) (prompted t) before fine in
      conversation-queued typed (talk_line user raw t) polite ok.1
        (talked-AllStill (request_of (trim raw)) (prompted t) still)
      ∙ ap (λ l. l ++ map delivery_of (overheard v user typed (talk_line user raw t)))
          (talked-queued (request_of (trim raw)) (prompted t) before fine still)
      ∙ append_assoc (queued v t.store) _ _
      ∙ ap (λ l. queued v t.store ++ l)
          (sym (map-append delivery_of (gets v user (request_of (trim raw)) (prompted t)) _))
