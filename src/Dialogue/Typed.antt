-- ===== src/Dialogue/Typed.antt =====
-- Which lines can be typed.
use csfassignment.Base.{
  ℕ, ◌≤◌, ◌≡◌, refl, sym, ap, subst, inl, inr, false, List, [], ◌∷◌, none, some, Bytes, codes,
  length, drop, ltb, if_cases, ◌==◌, All, arith,
}
use csfassignment.Text.{str_eq, trim, substr?}
use csfassignment.Text.Find.{IsLower}
use csfassignment.Message.{Message, tag_join, tag_leave, tag_sendall, tag_quit}
use csfassignment.Client.Sender.{is_command, has_word}
use csfassignment.Dialogue.Link.{IsPlain}
use csfassignment.Dialogue.Exchange.{heard}
use csfassignment.Dialogue.Talk.{
  Request, silent, complains, asks, quits, fails, join_request, command_request, request_of, Talk,
  stirred, talked, prompted, talk_line, conversation, IsSpeakable, AllSpeakable,
}
use csfassignment.Dialogue.Texts.{IsText, IsText-trim, IsText-rtrim, IsText-drop}
use csfassignment.Dialogue.Objects.{HasUser, IsPlaced}
use csfassignment.Dialogue.Kept.{stir-HasUser}
use csfassignment.Dialogue.Modest.{IsRequest, reply_to-IsGood}

-- The conversation goes on behind the request.
abbrev pub GoesOn : Request → Type 0
GoesOn (quits m) = ⊥
GoesOn fails = ⊥
GoesOn r = Unit

-- A line that can be typed: it is short, and neither ends the conversation nor makes the client
-- throw.
abbrev pub IsTyped : Bytes → Type 0
IsTyped raw = IsText 150 raw × GoesOn (request_of (trim raw))

abbrev pub IsFine : Request → Type 0
IsFine (asks m) = IsRequest m
IsFine (quits m) = ⊥
IsFine fails = ⊥
IsFine r = Unit

abbrev pub Fine : Request → Type 0
Fine r = GoesOn r → IsFine r

pub request_of-Fine : (line : Bytes) → IsText 150 line → Fine (request_of line)
unfolding substr?
request_of-Fine line a =
    if_cases Fine (length line == 0) _ _ (λ _. tt)
      (if_cases Fine (is_command line) _ _ command_fine (λ _. (inr (inr refl), a)))
  where
    join_fine : Fine (join_request (substr? line 6))
    join_fine =
        if_cases (λ o. Fine (join_request o)) (ltb (length line) 6) none (some (drop 6 line))
          (λ x. x)
          (if_cases Fine (str_eq (drop 6 line) []) _ _ (λ _. tt)
            (λ _. (inl refl, IsText-drop 6 line a)))

    command_fine : Fine (command_request line)
    command_fine = if_cases Fine (has_word 4 (codes "join") line) _ _ join_fine (
        if_cases Fine (has_word 5 (codes "leave") line) _ _ (λ _. (inr (inl refl), ground arith))
          (if_cases Fine (has_word 4 (codes "quit") line) _ _ (λ x. x) (λ _. tt)))

tagged-IsPlain :
    (m : Message) (tag : Bytes)
    → m.tag ≡ tag
    → IsLower tag
    → length tag ≤ 8
    → IsText 150 m.payload
    → IsPlain m
tagged-IsPlain m tag e lower few a = record {
  writable = record { lower = subst IsLower (sym e) lower; no_zero = a.no_zero };
  no_newline = a.no_newline;
  fits = omega (arith, ap length e, few, a.short);
}

request-IsPlain : (m : Message) → IsRequest m → IsPlain m × (str_eq m.tag tag_quit ≡ false)
unfolding str_eq
request-IsPlain m (inl e, a) =
    (tagged-IsPlain m tag_join e (ground arith) (omega arith) a, rw e refl)
request-IsPlain m (inr (inl e), a) =
    (tagged-IsPlain m tag_leave e (ground arith) (omega arith) a, rw e refl)
request-IsPlain m (inr (inr e), a) =
    (tagged-IsPlain m tag_sendall e (ground arith) (omega arith) a, rw e refl)

module _ (user : ℕ) (name : Bytes) (short : IsText 60 name) where
  -- The objects are in order, the user has its name, and its room has a short one.
  pub record IsPolite (t : Talk) : Type 0 where
    pub held : HasUser user name t.store
    pub placed : IsPlaced t.room t.store

  pub talked-IsPolite :
      (r : Request) (t : Talk)
      → IsPolite t
      → IsFine r
      → IsSpeakable user r t × IsPolite (talked user r t)
  talked-IsPolite silent t v f = (tt, v)
  talked-IsPolite (complains text) t v f = (tt, record { held = v.held; placed = v.placed })
  talked-IsPolite (asks m) t v f =
      let (held, placed) = stir-HasUser user name t.room t.others t.store v.held v.placed in
      let good =
        reply_to-IsGood user name short t.room (heard m t.msg) (stirred t) held placed
          (f.0, IsText-rtrim m.payload f.1) in
      let (plain, other) = request-IsPlain m f in
      ((plain, other, good.plain), record { held = good.held; placed = good.placed })
  talked-IsPolite (quits m) t v f = elim f [ ]
  talked-IsPolite fails t v f = elim f [ ]

  pub typed-AllSpeakable :
      (typed : List Bytes) (t : Talk) → IsPolite t → All IsTyped typed → AllSpeakable user typed t
  typed-AllSpeakable [] t v ok = tt
  typed-AllSpeakable (raw ∷ typed) t v ok =
      let fine = request_of-Fine (trim raw) (IsText-trim raw ok.0.0) ok.0.1 in
      let (speakable, polite) =
        talked-IsPolite (request_of (trim raw)) (prompted t)
          (record { held = v.held; placed = v.placed }) fine in
      (speakable, typed-AllSpeakable typed (talk_line user raw t) polite ok.1)

  pub conversation-IsPolite :
      (typed : List Bytes) (t : Talk)
      → IsPolite t
      → All IsTyped typed
      → IsPolite (conversation user typed t)
  conversation-IsPolite [] t v ok = v
  conversation-IsPolite (raw ∷ typed) t v ok =
      conversation-IsPolite typed (talk_line user raw t)
        (talked-IsPolite (request_of (trim raw)) (prompted t)
          (record { held = v.held; placed = v.placed })
          (request_of-Fine (trim raw) (IsText-trim raw ok.0.0) ok.0.1)).1
        ok.1
