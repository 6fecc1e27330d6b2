-- ===== src/Server/Replies.antt =====
-- How many answers a sender gets in a round of `chat_with_sender`.
use csfassignment.Base.{ℕ, suc, ◌≡◌, refl, Bool, true, false, Option, none, some, if_cases, not}
use csfassignment.Text.{str_eq}
use csfassignment.Message.{Message, tag_join, tag_leave, tag_quit, tag_sendall}
use csfassignment.Connection.{success, eof_or_error, invalid_msg}
use csfassignment.Server.{is_valid_room_name}
use csfassignment.Server.Program.{Program, done, call, Answer, receives, sends, last_result}
use csfassignment.Server.Chat.{
  Next, check_received, handle_join, handle_leave, handle_sendall, dispatch, sender_round,
}

-- Whatever its calls are answered, the program sends `n` messages and receives none.
abbrev pub Sends : {A : Type 0} → ℕ → Program A → Type 0
Sends n (done a) = n ≡ 0
Sends n (call (receives m) k) = ⊥
Sends n (call (sends m) k) = (j : ℕ) × (n ≡ suc j) × ((sent : Bool) → Sends j (k sent))
Sends n (call o k) = (a : Answer o) → Sends n (k a)

handle_join-Sends : (u : ℕ) (room : Option ℕ) (m : Message) → Sends 1 (handle_join u room m)
unfolding handle_join
handle_join-Sends u none m =
    if_cases (Sends 1) (not (is_valid_room_name m.payload)) _ _ (0, refl, λ _. refl)
      (λ r _. (0, refl, λ _. refl))
handle_join-Sends u (some old) m =
    if_cases (Sends 1) (not (is_valid_room_name m.payload)) _ _ (0, refl, λ _. refl)
      (λ _ r _. (0, refl, λ _. refl))

handle_leave-Sends : (u : ℕ) (room : Option ℕ) (m : Message) → Sends 1 (handle_leave u room m)
unfolding handle_leave
handle_leave-Sends u none m = (0, refl, λ _. refl)
handle_leave-Sends u (some r) m = λ _ _ _. (0, refl, λ _. refl)

handle_sendall-Sends : (u : ℕ) (room : Option ℕ) (m : Message) → Sends 1 (handle_sendall u room m)
unfolding handle_sendall
handle_sendall-Sends u none m = (0, refl, λ _. refl)
handle_sendall-Sends u (some r) m = λ _ _. (0, refl, λ _. refl)

dispatch-Sends : (user : ℕ) (room : Option ℕ) (m : Message) → Sends 1 (dispatch user room m)
unfolding dispatch
dispatch-Sends user room m =
    if_cases (Sends 1) (str_eq m.tag tag_join) _ _ (handle_join-Sends user room m) (
      if_cases (Sends 1) (str_eq m.tag tag_leave) _ _ (handle_leave-Sends user room m) (
        if_cases (Sends 1) (str_eq m.tag tag_quit) _ _ (0, refl, λ _. refl)
          (if_cases (Sends 1) (str_eq m.tag tag_sendall) _ _ (handle_sendall-Sends user room m)
            (0, refl, λ _. refl))))

-- The number of messages behind a receive that failed, by the last result.
abbrev pub FailureSends : Program Next → Type 0
FailureSends (call last_result k) =
    Sends 1 (k eof_or_error) × Sends 2 (k invalid_msg) × Sends 1 (k success)
FailureSends p = ⊥

-- A round receives a message first, and then sends.
abbrev pub RoundSends : Program Next → Type 0
RoundSends (call (receives m) k) =
    ((got : Message) → Sends 1 (k (true, got)))
    × ((left : Message) → FailureSends (k (false, left)))
RoundSends p = ⊥

-- A round of `chat_with_sender` receives one message, and no other. When the receive succeeds it sends
-- one answer, whatever the tag and the data of the message are, whatever its other calls are answered
-- and whether the user is in a room or not. When the receive fails it sends one message if the last
-- result is `EOF_OR_ERROR` or `SUCCESS`, and two if it is `INVALID_MSG`.
pub sender_round-RoundSends :
    (user : ℕ) (room : Option ℕ) (msg : Message) → RoundSends (sender_round user room msg)
unfolding sender_round check_received
sender_round-RoundSends user room msg = (
  λ m. dispatch-Sends user room m,
  λ m. (
    (0, refl, λ _. refl),
    (1, refl, λ _. dispatch-Sends user room m),
    dispatch-Sends user room m,
  ),
)
