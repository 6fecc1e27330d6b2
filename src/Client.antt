-- ===== src/Client.antt =====
-- What the two clients, sender.cpp and receiver.cpp, have in common: their arguments, their console
-- and the log-in.
pub mod Sender
pub mod Receiver
pub mod Laws
pub mod Numbers
use csfassignment.Base.{
  ℕ, zero, suc, ◌+◌, ◌-◌, ◌*◌, ◌^◌, Bool, true, false, not, ◌&&◌, ◌||◌, List, [], ◌∷◌, ◌++◌, Option,
  none, some, Bytes, codes, ltb, leb, ◌==◌, if◌then◌else◌,
}
use csfassignment.Base.Int.{ℤ, pos, negsuc}
use csfassignment.Csapp.{Csapp}
use csfassignment.Connection
use csfassignment.Connection.{Connection}
use csfassignment.Text.{str_eq, contains, whitespace}
use csfassignment.Message.{Message, tag_ok}

-- The lines that are left on the standard input, and what was printed so far, a text for each
-- statement that prints.
pub record Console : Type 0 where
  pub input : List Bytes
  pub out : List Bytes
  pub err : List Bytes

-- What a client acts on.
pub record Client (W B : Type 0) : Type 0 where
  pub conn : Connection B
  pub world : W
  pub console : Console

-- How a client ends: with an exit code, by an exception that nobody catches, or not within its fuel.
pub data Status : Type 0 where
  exits : ℕ → Status
  throws : Status
  runs : Status

unfoldable pub is_digit : ℕ → Bool
is_digit c = leb b'0' c && leb c b'9'

-- The value of the digits at the start of a text, behind those read so far; `none` if there are none.
unfoldable pub read_digits : Option ℕ → Bytes → Option ℕ
unfolding is_digit
read_digits so_far [] = so_far
read_digits so_far (c ∷ s) =
    let n : ℕ = elim so_far [ none ↦ 0 | some k ↦ k ] in
    let more = read_digits (some (n * 10 + (c - b'0'))) s in if is_digit c then more else so_far

unfoldable pub skip_space : Bytes → Bytes
unfolding contains
skip_space [] = []
skip_space (c ∷ s) = if contains c whitespace then skip_space s else c ∷ s

-- The sign of a number and the text behind it.
unfoldable pub read_sign : Bytes → Bool × Bytes
read_sign [] = (false, [])
read_sign (c ∷ s) =
    if c == b'-' then (true, s) else if c == b'+' then (false, s) else (false, c ∷ s)

-- The integer with a sign and a size, if an `int` of 32 bits holds it.
unfoldable pub to_int : Bool → ℕ → Option ℤ
to_int false n = if ltb n (2 ^ 31) then some (pos n) else none
to_int true zero = some (pos 0)
to_int true (suc n) = if ltb n (2 ^ 31) then some (negsuc n) else none

-- `std::stoi`: white space, a sign, digits. `none` is an exception.
unfoldable pub stoi : Bytes → Option ℤ
unfolding skip_space read_sign read_digits to_int
stoi s =
    let (negative, rest) = read_sign (skip_space s) in
    elim (read_digits none rest) [ none ↦ none | some n ↦ to_int negative n ]

module _ {W B : Type 0} where
  abbrev pub print_err : Bytes → Client W B → Client W B
  print_err text s = record s { console = record (s.console) { err = s.console.err ++ text ∷ [] } }

  abbrev pub print_out : Bytes → Client W B → Client W B
  print_out text s = record s { console = record (s.console) { out = s.console.out ++ text ∷ [] } }

module _ {W B : Type 0} (lib : Csapp W B) where
  unfoldable pub client_send : Message → Client W B → Bool × Client W B
  client_send m s =
      let (ok, c, w) = Connection.send lib m s.conn s.world in
      (ok, record s { conn = c; world = w })

  -- The result of `receive` is not looked at; the message afterwards is.
  unfoldable pub client_receive : Message → Client W B → Message × Client W B
  client_receive m s =
      let (ok, m', c, w) = Connection.receive lib m s.conn s.world in
      (m', record s { conn = c; world = w })

  unfoldable pub client_close : Client W B → Client W B
  client_close s =
      let (c, w) = Connection.close lib s.conn s.world in record s { conn = c; world = w }

  -- A request and its answer, with an exit code if the request cannot be sent or the answer is not
  -- `ok`; `answer` is the message that the answer is read into.
  unfoldable pub request : ℕ → Message → Message → Client W B → Option ℕ × Client W B
  unfolding client_send client_receive client_close
  request code m answer s =
      let (sent, s1) = client_send m s in
      let (m', s2) = client_receive answer s1 in
      if not sent
      then (some code, client_close (print_err m.payload s1))
      else if not (str_eq m'.tag tag_ok)
      then (some code, client_close (print_err m'.payload s2))
      else (none, s2)
