-- ===== src/Connection.antt =====
-- connection.h and connection.cpp: the protocol's framing over the calls of `Csapp`.
pub mod Decode
pub mod Laws
pub mod Bounds
use csfassignment.Base.{
  ℕ, zero, suc, ◌+◌, ◌/◌, ◌%◌, Bool, true, false, not, List, [], ◌∷◌, ◌++◌, Option, none, some,
  Bytes, codes, length, take, drop, ltb, ◌==◌, if◌then◌else◌,
}
use csfassignment.Base.Int.{ℤ, pos, negsuc, is_negative, int_eq, less_than_one}
use csfassignment.Csapp.{Csapp}
use csfassignment.Text.{find, trim, is_lower_cased}
use csfassignment.Message.{Message, max_len, tag_err, set_data}

-- `Connection::Result`
pub data Result : Type 0 where
  success eof_or_error invalid_msg : Result

-- The fields of `Connection`.
pub record Connection (B : Type 0) : Type 0 where
  pub fd : ℤ
  pub fdbuf : B
  pub last_result : Result

-- `std::to_string` of a number, with the number as fuel.
unfoldable pub digits : ℕ → ℕ → Bytes → Bytes
digits zero n out = out
digits (suc fuel) n out =
    let out' = (b'0' + n % 10) ∷ out in
    let more = digits fuel (n / 10) out' in if ltb n 10 then out' else more

unfoldable pub to_string : ℤ → Bytes
unfolding digits
to_string (pos n) = digits (suc n) n []
to_string (negsuc n) = b'-' ∷ digits (suc (suc n)) (suc n) []

-- The C string at the start of a buffer: `std::string(buf)`, and what `strlen` measures.
unfoldable pub c_string : Bytes → Bytes
c_string [] = []
c_string (c ∷ s) = if c == 0 then [] else c ∷ c_string s

-- The text that `send` writes for a message.
unfoldable pub wire : Message → Bytes
wire m = m.tag ++ codes ":" ++ m.payload ++ codes "\n"

-- The tag before the first colon and the data behind it, or `none` where `receive` sets
-- `INVALID_MSG`.
unfoldable pub split_tag : Bytes → Option (Bytes × Bytes)
split_tag text = elim (find b':' text) [
  | none ↦ none
  | some colon_pos ↦
      let tag = take colon_pos text in
      if not (is_lower_cased tag) then none else some (tag, drop (suc colon_pos) text)
]

-- What `receive` makes of the bytes in its buffer.
unfoldable pub decode : Bytes → Option (Bytes × Bytes)
unfolding c_string split_tag
decode buf = split_tag (trim (c_string buf))

module _ {W B : Type 0} (lib : Csapp W B) where
  -- The default constructor; it leaves the buffer as it is.
  unfoldable pub unconnected : B → Connection B
  unconnected raw = record { fd = negsuc 0; fdbuf = raw; last_result = success }

  -- The constructor from a descriptor.
  unfoldable pub of_fd : B → ℤ → Connection B
  of_fd raw fd = record { fd = fd; fdbuf = lib.rio_readinitb fd raw; last_result = success }

  unfoldable pub is_open : Connection B → Bool
  is_open c = not (is_negative c.fd)

  -- Also the texts that it prints to the standard error.
  unfoldable pub connect : Bytes → ℤ → Connection B → W → Connection B × W × List Bytes
  unfolding is_open to_string
  connect hostname port c w =
      let (fd, w') = lib.open_clientfd hostname (to_string port) w in
      let opened = record c { fd = fd } in
      if not (is_open opened)
      then (opened, w', codes "Couldn't connect to server" ∷ [])
      else (record opened { fdbuf = lib.rio_readinitb fd c.fdbuf }, w', [])

  -- Also the destructor.
  unfoldable pub close : Connection B → W → Connection B × W
  unfolding is_open
  close c w = if is_open c then (record c { fd = negsuc 0 }, lib.close c.fd w) else (c, w)

  unfoldable pub send : Message → Connection B → W → Bool × Connection B × W
  send m c w =
      let text = c_string (wire m) in
      let (n, w') = lib.rio_writen c.fd text w in
      if not (int_eq n (pos (length text)))
      then (false, record c { last_result = eof_or_error }, w')
      else (true, c, w')

  -- The message is an in-out argument: the result is the success, the message afterwards, the
  -- connection and the world.
  unfoldable pub receive : Message → Connection B → W → Bool × Message × Connection B × W
  receive m c w =
      let line = lib.rio_readlineb c.fdbuf (max_len + 1) w in
      let c' = record c { fdbuf = line.rio } in
      if less_than_one line.count
      then (false, record m { tag = tag_err }, record c' { last_result = eof_or_error }, line.world)
      else elim (decode line.bytes) [
        | none ↦
            (false, record m { tag = tag_err }, record c' { last_result = invalid_msg }, line.world)
        | some (tag, payload) ↦ (true, set_data payload (record m { tag = tag }), c', line.world)
      ]

  -- `invalidSendOrreceive`, which no code calls. What it prints is not modelled.
  unfoldable pub invalid_send_orreceive : Connection B → W → ℕ × Connection B × W
  unfolding close
  invalid_send_orreceive c w = let (c', w') = close c w in (1, c', w')
