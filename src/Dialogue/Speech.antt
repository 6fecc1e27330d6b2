-- ===== src/Dialogue/Speech.antt =====
-- Chat messages with their three parts, their deliveries and what a receiver shows of them.
use csfassignment.Base.{
  ◌+◌, ◌≤◌, ap, List, [], ◌∷◌, ◌++◌, Option, none, some, Bytes, codes, length, map, ◌≡◌, refl,
  if◌then◌else◌, Bool-cases, inl, inr, arith,
}
use csfassignment.Text.{rtrim}
use csfassignment.Message.{Message}
use csfassignment.Connection.{wire}
use csfassignment.Room.{delivery}
use csfassignment.Client.{Console}
use csfassignment.Server.Service.{differs}
use csfassignment.Server.Service.Matches.{due}
use csfassignment.Delivery.{
  IsDeliverable, payload_of-Lacks, delivery-payload, length-payload_of, delivery-IsWritable,
}
use csfassignment.Dialogue.Link.{IsPlain}

-- A chat message: the room, the sender and the text.
pub record Speech : Type 0 where
  pub room : Bytes
  pub sender : Bytes
  pub text : Bytes

abbrev pub delivery_of : Speech → Message
delivery_of p = delivery p.room p.sender p.text

-- A line of the screen.
abbrev pub shown : Speech → Bytes
shown p = p.sender ++ codes ": " ++ rtrim p.text ++ codes "\n"

-- A chat message that one line holds, and that the receiver can take apart.
pub record IsShowable (p : Speech) : Type 0 where
  pub deliverable : IsDeliverable p.room p.sender p.text
  pub short : length p.room + length p.sender + length p.text ≤ 243

pub delivery_of-IsPlain : (p : Speech) → IsShowable p → IsPlain (delivery_of p)
delivery_of-IsPlain p v = record {
  writable = delivery-IsWritable p.room p.sender p.text v.deliverable;
  no_newline = rw delivery-payload (
      payload_of-Lacks 10 p.room p.sender p.text (omega arith) v.deliverable.room_plain.no_newline
        v.deliverable.sender_plain.no_newline v.deliverable.text_plain.no_newline);
  fits = omega (
    arith,
    v.short,
    ap length (delivery-payload p.room p.sender p.text),
    length-payload_of p.room p.sender p.text,
  );
}

-- What a user of this name gets of a text that is sent to a room with this title while the user is
-- in it.
abbrev pub speech_to : Option Bytes → Option Bytes → (sender text : Bytes) → List Speech
speech_to none name sender text = []
speech_to (some title) name sender text =
    if differs name sender then record { room = title; sender = sender; text = text } ∷ [] else []

pub speech_to-due :
    (title name : Option Bytes) (sender text : Bytes)
    → map delivery_of (speech_to title name sender text) ≡ due title name sender text
speech_to-due none name sender text = refl
speech_to-due (some title) name sender text = elim (Bool-cases (differs name sender)) [
  | inl e ↦ rw e refl
  | inr e ↦ rw e refl
]

-- The lines that carry chat messages, and what a client's loop leaves of them on its console.
abbrev pub wires : List Speech → List Bytes
wires ps = map (λ p. wire (delivery_of p)) ps

abbrev pub screened : List Speech → Console → Console
screened ps c = record c { out = c.out ++ map shown ps }
