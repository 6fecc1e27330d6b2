-- ===== src/Client/Sender.antt =====
-- sender.cpp.
use csfassignment.Base.{
  ℕ, zero, suc, Bool, false, not, List, [], ◌∷◌, ◌++◌, none, some, Bytes, codes, length, ◌==◌,
  if◌then◌else◌,
}
use csfassignment.Csapp.{Csapp}
use csfassignment.Connection
use csfassignment.Connection.{Connection}
use csfassignment.Text.{str_eq, trim, substr?, substr_len?}
use csfassignment.Message.{
  Message, message, empty_message, tag_ok, tag_slogin, tag_join, tag_leave, tag_quit, tag_sendall,
}
use csfassignment.Client.{
  Console, Client, Status, exits, throws, runs, stoi, print_err, print_out, client_send,
  client_receive, client_close, request,
}

-- What a line leads to: the next round, `break`, or an exception.
pub data Turn : Type 0 where
  next leave threw : Turn

-- `line[0] == '/'`
unfoldable pub is_command : Bytes → Bool
is_command [] = false
is_command (c ∷ s) = c == b'/'

-- `line.substr(1, n) == word`; `line` is not empty where this is asked, so nothing is thrown.
unfoldable pub has_word : ℕ → Bytes → Bytes → Bool
unfolding substr_len?
has_word n word line = elim (substr_len? line 1 n) [ none ↦ false | some w ↦ str_eq w word ]

-- The line that `std::getline` reads; at the end of the input it stays empty.
abbrev pub first_line : List Bytes → Bytes
first_line [] = []
first_line (l ∷ rest) = l

abbrev pub rest_lines : List Bytes → List Bytes
rest_lines [] = []
rest_lines (l ∷ rest) = rest

module _ {W B : Type 0} (lib : Csapp W B) where
  unfoldable pub read_line : Client W B → Bytes × Client W B
  read_line s =
      let prompted = print_out (codes "> ") s in
      (
        first_line s.console.input,
        record prompted {
          console = record (prompted.console) { input = rest_lines s.console.input };
        },
      )

  -- The exchange that each command makes: the message is sent and the answer read into it.
  unfoldable pub exchange : Message → Client W B → Client W B
  unfolding client_send client_receive
  exchange m s =
      let (sent, s1) = client_send lib m s in
      let s2 = if not sent then print_err (codes "Send Failed") s1 else s1 in
      let (m', s3) = client_receive lib m s2 in
      if not (str_eq m'.tag tag_ok) then print_err m'.payload s3 else s3

  -- `/join`. `line.substr(6)` throws if the line is shorter.
  unfoldable pub join_command : Bytes → Client W B → Turn × Client W B
  unfolding substr? exchange
  join_command line s = elim (substr? line 6) [
    | none ↦ (threw, s)
    | some room_name ↦
        if str_eq room_name []
        then (next, print_err (codes "Needs a room name: ./join [room name]\n") s)
        else (next, exchange (message tag_join room_name) s)
  ]

  unfoldable pub command : Bytes → Client W B → Turn × Client W B
  unfolding has_word join_command exchange
  command line s =
      if has_word 4 (codes "join") line
      then join_command line s
      else if has_word 5 (codes "leave") line
      then (next, exchange (message tag_leave (codes "left room")) s)
      else if has_word 4 (codes "quit") line
      then (leave, exchange (message tag_quit (codes "quit room")) s)
      else (next, print_err (codes "-Invalid command-\nValid Commands: /join /leave /quit\n") s)

  -- What the loop does with a line that is trimmed.
  unfoldable pub line_turn : Bytes → Client W B → Turn × Client W B
  unfolding is_command command exchange
  line_turn line s =
      if length line == 0
      then (next, s)
      else if is_command line
      then command line s
      else (next, exchange (message tag_sendall line) s)

  -- The body of the loop.
  unfoldable pub sender_turn : Client W B → Turn × Client W B
  unfolding read_line line_turn
  sender_turn s = let (raw, s1) = read_line s in line_turn (trim raw) s1

  unfoldable pub sender_loop : ℕ → Client W B → Status × Client W B
  unfolding sender_turn client_close
  sender_loop zero s = (runs, s)
  sender_loop (suc fuel) s =
      let (turn, s') = sender_turn s in
      elim turn [
        | next ↦ sender_loop fuel s'
        | leave ↦ (exits 0, client_close lib s')
        | threw ↦ (throws, s')
      ]

  -- `main` behind the connection.
  unfoldable pub sender_session : ℕ → Bytes → Client W B → Status × Client W B
  unfolding request sender_loop
  sender_session fuel username s =
      let (failed, s') = request lib 1 (message tag_slogin username) empty_message s in
      elim failed [ some code ↦ (exits code, s') | none ↦ sender_loop fuel s' ]

  -- `main`; the arguments are those behind the program's name.
  unfoldable pub sender_main : ℕ → List Bytes → B → W → Console → Status × Client W B
  unfolding stoi sender_session
  sender_main fuel (server_hostname ∷ port ∷ username ∷ []) raw w console =
      let fresh = Connection.unconnected lib raw in
      elim (stoi port) [
        | none ↦ (throws, record { conn = fresh; world = w; console = console })
        | some server_port ↦
            let (c, w', printed) = Connection.connect lib server_hostname server_port fresh w in
            let heard = record console { err = console.err ++ printed } in
            let s : Client W B = record { conn = c; world = w'; console = heard } in
            if not (Connection.is_open lib c)
            then (exits 1, print_err (codes "Couldn't connect to server\n") s)
            else sender_session fuel username s
      ]
  sender_main fuel arguments raw w console = (
    exits 1,
    print_err (codes "Usage: ./sender [server_address] [port] [username]\n")
        (record { conn = Connection.unconnected lib raw; world = w; console = console }),
  )
