-- ===== src/Delivery.antt =====
-- The way of a chat message from `broadcast_message` of room.cpp over `send` and `receive` of
-- connection.cpp and `split_payload` of message.cpp to what receiver.cpp prints.
use csfassignment.Base.{
  inl, inr, ℕ, ◌+◌, ◌≤◌, ◌≡◌, ◌≢◌, refl, ap, subst, ◌∙◌, true, List, [], ◌∷◌, ◌++◌, append_assoc,
  Bytes, codes, length, length-append, All-append, All-left, All-right, Lacks, arith,
}
use csfassignment.Csapp.{Csapp}
use csfassignment.Text.{trim, rtrim, str_eq}
use csfassignment.Text.Find.{str_eq_iff, str_eq_refl}
use csfassignment.Text.Trim.{rtrim-append_solid, rtrim_split, trim_split}
use csfassignment.Message.{Message, count, split_payload, tag_delivery}
use csfassignment.Message.Split.{cut, join, cut_absent, cut-join, length-cut}
use csfassignment.Message.Checks.{
  OneOf, protocol_tags, IsAccepted, split_payload-cut, split_payload_three,
}
use csfassignment.Connection.{Connection, receive, wire}
use csfassignment.Connection.Decode.{IsWritable, colon_solid}
use csfassignment.Connection.Laws.{Carries, receive-wire}
use csfassignment.Room.{delivery}
use csfassignment.Client.{Client, print_out, print_err}
use csfassignment.Client.Receiver.{show_parts, show_message}

-- Names and a text that a delivery can carry: no zero byte, no newline, no colon, and room for them in
-- a message.
pub record IsPlain (s : Bytes) : Type 0 where
  pub no_zero : Lacks 0 s
  pub no_newline : Lacks 10 s
  pub no_colon : Lacks b':' s

pub record IsDeliverable (room sender text : Bytes) : Type 0 where
  pub room_plain : IsPlain room
  pub sender_plain : IsPlain sender
  pub text_plain : IsPlain text
  pub fits : length room + length sender + length text ≤ 245

rtrim-Lacks : (b : ℕ) (s : Bytes) → Lacks b s → Lacks b (rtrim s)
rtrim-Lacks b s h =
    let (w, _, e) = rtrim_split s in All-left (λ c. c ≢ b) (rtrim s) w (subst (Lacks b) e h)

trim-Lacks : (b : ℕ) (s : Bytes) → Lacks b s → Lacks b (trim s)
trim-Lacks b s h =
    let (v, w, _, _, e, _, _) = trim_split s in
    All-right (λ c. c ≢ b) v (trim s) (All-left (λ c. c ≢ b) (v ++ trim s) w (subst (Lacks b) e h))

length-rtrim : (s : Bytes) → length (rtrim s) ≤ length s
length-rtrim s =
    let (w, _, e) = rtrim_split s in omega (arith, ap length e, length-append (rtrim s) w)

-- The payload of a delivery, as parts.
pub payload_of : Bytes → Bytes → Bytes → Bytes
payload_of room sender text = join (room ∷ sender ∷ text ∷ [])

pub delivery-payload :
    (room sender text : Bytes) → (delivery room sender text).payload ≡ payload_of room sender text
unfolding payload_of
delivery-payload room sender text = simp append_assoc

rtrim-payload_of :
    (room sender text : Bytes)
    → rtrim (payload_of room sender text) ≡ payload_of room sender (rtrim text)
unfolding payload_of
rtrim-payload_of room sender text =
    rtrim-append_solid room b':' (sender ++ b':' ∷ text) colon_solid
    ∙ ap (λ t. room ++ b':' ∷ t) (rtrim-append_solid sender b':' text colon_solid)

pub payload_of-Lacks :
    (b : ℕ) (room sender text : Bytes)
    → b':' ≢ b
    → Lacks b room
    → Lacks b sender
    → Lacks b text
    → Lacks b (payload_of room sender text)
unfolding payload_of
payload_of-Lacks b room sender text c h k l =
    All-append (λ x. x ≢ b) room (b':' ∷ (sender ++ b':' ∷ text)) h
      (c, All-append (λ x. x ≢ b) sender (b':' ∷ text) k (c, l))

pub length-payload_of :
    (room sender text : Bytes)
    → length (payload_of room sender text) ≡ length room + length sender + length text + 2
unfolding payload_of
length-payload_of room sender text =
    omega (
      arith,
      length-append room (b':' ∷ (sender ++ b':' ∷ text)),
      length-append sender (b':' ∷ text),
    )

cut-payload_of :
    (room sender text : Bytes)
    → Lacks b':' room
    → Lacks b':' sender
    → Lacks b':' text
    → cut (payload_of room sender text) ≡ room ∷ sender ∷ text ∷ []
unfolding payload_of
cut-payload_of room sender text h k l =
    cut-join (room ∷ sender ∷ text ∷ []) (λ e. cc) (h, (k, (l, tt)))

delivery-known : OneOf tag_delivery protocol_tags
delivery-known = inr (inr (inr (inr (inr (inr (inr (inr (inr (inl refl)))))))))

-- A message with the tag and the payload of a delivery is split into the three parts.
split-payload_of :
    (m : Message) (room sender text : Bytes)
    → m.tag ≡ tag_delivery
    → m.payload ≡ payload_of room sender text
    → IsDeliverable room sender text
    → split_payload m ≡ room ∷ sender ∷ text ∷ []
split-payload_of m room sender text e f d = split_payload-cut m well ∙ ap cut f ∙ parts
  where
    parts : cut (payload_of room sender text) ≡ room ∷ sender ∷ text ∷ []
    parts =
        cut-payload_of room sender text d.room_plain.no_colon d.sender_plain.no_colon
          d.text_plain.no_colon

    two : count b':' m.payload ≡ 2
    two = omega (arith, length-cut m.payload, ap length (ap cut f ∙ parts))

    well : IsAccepted m
    well = record {
      fits = omega (arith, ap length e, ap length f, length-payload_of room sender text, d.fits);
      one_line = trim-Lacks 10 m.payload (
          rw f (
            payload_of-Lacks 10 room sender text (omega arith) d.room_plain.no_newline
              d.sender_plain.no_newline d.text_plain.no_newline));
      has_part = λ q. omega (arith, ap length (cut_absent m.payload q), two, length-cut m.payload);
      known = rw e delivery-known;
      structured = λ _. two;
    }

IsPlain-rtrim : {s : Bytes} → IsPlain s → IsPlain (rtrim s)
IsPlain-rtrim {s} p = record {
  no_zero = rtrim-Lacks 0 s p.no_zero;
  no_newline = rtrim-Lacks 10 s p.no_newline;
  no_colon = rtrim-Lacks b':' s p.no_colon;
}

pub delivery-IsWritable :
    (room sender text : Bytes)
    → IsDeliverable room sender text
    → IsWritable (delivery room sender text)
delivery-IsWritable room sender text d = record {
  lower = omega arith;
  no_zero = rw delivery-payload (
      payload_of-Lacks 0 room sender text (omega arith) d.room_plain.no_zero d.sender_plain.no_zero
        d.text_plain.no_zero);
}

show_parts_three :
    {W B : Type 0} (room sender text : Bytes) (s : Client W B)
    → show_parts (room ∷ sender ∷ text ∷ []) s
      ≡ print_out (sender ++ codes ": " ++ text ++ codes "\n") s
unfolding show_parts
show_parts_three room sender text s = refl

show_parts_other :
    {W B : Type 0} (ps : List Bytes) (s : Client W B)
    → length ps ≢ 3
    → show_parts ps s ≡ print_err (codes "invalid payload size") s
unfolding show_parts
show_parts_other [] s h = refl
show_parts_other (a ∷ []) s h = refl
show_parts_other (a ∷ b ∷ []) s h = refl
show_parts_other (a ∷ b ∷ c ∷ []) s h = absurd (h refl)
show_parts_other (a ∷ b ∷ c ∷ d ∷ ps) s h = refl

module _ {W B : Type 0} (lib : Csapp W B) where
  -- A chat message whose room, sender and text are plain and fit, and whose delivery reaches the
  -- receiver's connection whole, is printed as its sender and its text, but for white space at the
  -- end of the text.
  pub delivery_shown :
      (room sender text : Bytes) (old : Message) (c : Connection B) (w : W) (s : Client W B)
      → IsDeliverable room sender text
      → Carries lib (wire (delivery room sender text)) c w
      → show_message (receive lib old c w).1 s
        ≡ print_out (sender ++ codes ": " ++ rtrim text ++ codes "\n") s
  unfolding show_message
  delivery_shown room sender text old c w s d arrives =
      rw (tagged, str_eq_refl)
        (ap (λ ps. show_parts ps s) (split-payload_of _ room sender (rtrim text) tagged paid short)
          ∙ show_parts_three room sender (rtrim text) s)
    where
      received :
          let (done, m', c', w') = receive lib old c w in
          (done ≡ true)
          × (m'.tag ≡ tag_delivery)
          × (m'.payload ≡ rtrim (delivery room sender text).payload)
      received =
          receive-wire lib (delivery room sender text) old c w
            (delivery-IsWritable room sender text d) arrives

      tagged : (receive lib old c w).1.tag ≡ tag_delivery
      tagged = received.1

      paid : (receive lib old c w).1.payload ≡ payload_of room sender (rtrim text)
      paid =
          received.2
          ∙ ap rtrim (delivery-payload room sender text)
          ∙ rtrim-payload_of room sender text

      short : IsDeliverable room sender (rtrim text)
      short = record {
        room_plain = d.room_plain;
        sender_plain = d.sender_plain;
        text_plain = IsPlain-rtrim d.text_plain;
        fits = omega (arith, d.fits, length-rtrim text);
      }

-- A delivery whose payload does not have exactly two colons, as where the text of the chat message
-- has a colon, is not shown: the receiver prints that the payload has the wrong size.
pub delivery_lost :
    {W B : Type 0} (m : Message) (s : Client W B)
    → m.tag ≡ tag_delivery
    → count b':' m.payload ≢ 2
    → show_message m s ≡ print_err (codes "invalid payload size") s
unfolding show_message
delivery_lost m s e h =
    let t : str_eq m.tag tag_delivery ≡ true = (str_eq_iff m.tag tag_delivery).1 e in
    rw t (show_parts_other (split_payload m) s (λ three. h ((split_payload_three m).0 three).1))
