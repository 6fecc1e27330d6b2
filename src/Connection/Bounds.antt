-- ===== src/Connection/Bounds.antt =====
-- How long a message can be that comes over a connection.
use csfassignment.Base.{
  ℕ, ◌+◌, ◌≤◌, ◌<◌, ◌≡◌, ap, true, [], ◌∷◌, ◌++◌, Bytes, length, length-append, inl, inr, arith,
  codes,
}
use csfassignment.Csapp.{Csapp}
use csfassignment.Text.{trim}
use csfassignment.Text.Trim.{trim_split}
use csfassignment.Message.{Message, max_len}
use csfassignment.Connection.{Connection, c_string, receive, wire}
use csfassignment.Connection.Decode.{length-wire}
use csfassignment.Connection.Laws.{line_read, receive-Outcome, Carries}
use csfassignment.Room.{delivery}

length-trim : (s : Bytes) → length (trim s) ≤ length s
length-trim s =
    let (v, w, _, _, e, _, _) = trim_split s in
    omega (arith, ap length e, length-append (v ++ trim s) w, length-append v (trim s))

length-c_string : (s : Bytes) → length (c_string s) ≤ length s
unfolding c_string
length-c_string [] = omega arith
length-c_string (c ∷ s) = ground (arith, length-c_string s)

length-delivery :
    (room sender text : Bytes)
    → length (delivery room sender text).payload ≡ length room + length sender + length text + 2
length-delivery room sender text = omega (
  arith,
  length-append (room ++ codes ":" ++ sender ++ codes ":") text,
  length-append (room ++ codes ":" ++ sender) (codes ":"),
  length-append (room ++ codes ":") sender,
  length-append room (codes ":"),
)

module _ {W B : Type 0} (lib : Csapp W B) where
  -- `rio_readlineb` leaves room for the zero byte: it puts less bytes than `maxlen` into the buffer.
  pub record IsBounded : Type 0 where
    pub reads : (b : B) (n : ℕ) (w : W) → 0 < n → length (lib.rio_readlineb b n w).bytes < n

  -- If `rio_readlineb` keeps to the size of the buffer, a message that is received is of 254 bytes at
  -- most, tag and data together, so that with its colon it fits the 255 bytes of a message.
  pub receive_bounds :
      (h : IsBounded) (m : Message) (c : Connection B) (w : W)
      → (receive lib m c w).0 ≡ true
      → let (_, m', _, _) = receive lib m c w in length m'.tag + length m'.payload ≤ 254
  receive_bounds h m c w ok = elim (receive-Outcome lib m c w).0 [
    | inr (e, _) ↦ cc
    | inl (_, got) ↦
        let t = (receive lib m c w).1.tag in
        let d = (receive lib m c w).1.payload in
        omega (
          arith,
          h.reads c.fdbuf (max_len + 1) w (omega arith),
          length-c_string (line_read lib c w).bytes,
          length-trim (c_string (line_read lib c w).bytes),
          ap length got.split,
          length-append t (b':' ∷ d),
        )
  ]

  -- If `rio_readlineb` keeps to the size of the buffer, a delivery never arrives whole where the
  -- names of the room and of the sender and the text have more than 243 bytes together.
  pub delivery_cut :
      (h : IsBounded) (room sender text : Bytes) (c : Connection B) (w : W)
      → 243 < length room + length sender + length text
      → ¬ Carries lib (wire (delivery room sender text)) c w
  delivery_cut h room sender text c w long arrives = omega (
    arith,
    h.reads c.fdbuf (max_len + 1) w (omega arith),
    ap length arrives.1,
    length-wire (delivery room sender text),
    length-delivery room sender text,
  )
