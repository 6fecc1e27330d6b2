-- ===== src/Client/Receiver.antt =====
-- receiver.cpp.
use csfassignment.Base.{
  ℕ, zero, suc, not, List, [], ◌∷◌, ◌++◌, none, some, Bytes, codes, if◌then◌else◌,
}
use csfassignment.Csapp.{Csapp}
use csfassignment.Connection
use csfassignment.Connection.{Connection}
use csfassignment.Text.{str_eq}
use csfassignment.Message.{
  Message, message, empty_message, split_payload, tag_rlogin, tag_join, tag_delivery,
}
use csfassignment.Client.{
  Console, Client, Status, exits, throws, runs, stoi, print_err, print_out, client_receive, request,
}

module _ {W B : Type 0} where
  -- What the loop prints for the parts of a payload.
  unfoldable pub show_parts : List Bytes → Client W B → Client W B
  show_parts (room ∷ sender ∷ text ∷ []) s =
      print_out (sender ++ codes ": " ++ text ++ codes "\n") s
  show_parts parts s = print_err (codes "invalid payload size") s

  -- What the loop prints for a message.
  unfoldable pub show_message : Message → Client W B → Client W B
  unfolding show_parts
  show_message m s =
      let s' = if not (str_eq m.tag tag_delivery) then print_err m.payload s else s in
      show_parts (split_payload m) s'

module _ {W B : Type 0} (lib : Csapp W B) where
  -- The loop has no `break`.
  unfoldable pub receiver_loop : ℕ → Message → Client W B → Status × Client W B
  unfolding client_receive show_message
  receiver_loop zero msg s = (runs, s)
  receiver_loop (suc fuel) msg s =
      let (m, s') = client_receive lib msg s in receiver_loop fuel m (show_message m s')

  -- `main` behind the connection.
  unfoldable pub receiver_session : ℕ → Bytes → Bytes → Client W B → Status × Client W B
  unfolding request receiver_loop
  receiver_session fuel username room_name s =
      let (failed, s1) = request lib 1 (message tag_rlogin username) empty_message s in
      let (failed', s2) = request lib 2 (message tag_join room_name) empty_message s1 in
      elim failed [
        | some code ↦ (exits code, s1)
        | none ↦ elim failed' [
          | some code ↦ (exits code, s2)
          | none ↦ receiver_loop fuel empty_message s2
        ]
      ]

  -- `main`; the arguments are those behind the program's name.
  unfoldable pub receiver_main : ℕ → List Bytes → B → W → Console → Status × Client W B
  unfolding stoi receiver_session
  receiver_main fuel (server_hostname ∷ port ∷ username ∷ room_name ∷ []) raw w console =
      let fresh = Connection.unconnected lib raw in
      elim (stoi port) [
        | none ↦ (throws, record { conn = fresh; world = w; console = console })
        | some server_port ↦
            let (c, w', printed) = Connection.connect lib server_hostname server_port fresh w in
            let heard = record console { err = console.err ++ printed } in
            let s : Client W B = record { conn = c; world = w'; console = heard } in
            if not (Connection.is_open lib c)
            then (exits 1, print_err (codes "Couldn't connect to server\n") s)
            else receiver_session fuel username room_name s
      ]
  receiver_main fuel arguments raw w console = (
    exits 1,
    print_err (codes "Usage: ./receiver [server_address] [port] [username] [room]\n")
        (record { conn = Connection.unconnected lib raw; world = w; console = console }),
  )
