-- ===== src/Server/Membership.antt =====
-- Where a client thread's user is while its program runs, in server.cpp: the calls that put the user
-- into a room and that take it out.
use csfassignment.Base.{
  ℕ, zero, suc, ◌≡◌, ◌⊎◌, refl, Bool, true, false, not, ◌&&◌, List, [], ◌∷◌, Option, none, some,
  inl, inr, Bool-cases, if_cases, arith,
}
use csfassignment.Text.{str_eq}
use csfassignment.Message.{
  Message, empty_message, tag_join, tag_leave, tag_quit, tag_sendall, tag_rlogin, tag_slogin,
}
use csfassignment.Connection.{success, eof_or_error, invalid_msg}
use csfassignment.Queue.{nothing, undefined, got}
use csfassignment.Room.{has_member}
use csfassignment.Server.{is_valid_room_name}
use csfassignment.Server.Program.{
  Program, done, call, perform, ◌>>◌, makes_user, finds_room, adds, removes, broadcasts, dequeues,
}
use csfassignment.Server.Chat.{
  Exit, finished, out_of_fuel, crashed, Next, stop, again, check_received, leave_if_inside,
  handle_join, handle_leave, handle_sendall, dispatch, sender_round, sender_loop, chat_with_sender,
  receiver_loop, deliver_from, join_received, chat_with_receiver, welcomed, log_in, login_received,
  session, worker,
}
pub use csfassignment.Server.Places.{Place, outside, lobby, inside, Ending, Obeys, Obeys-bind}

-- The place of a user and the room that the loop keeps.
abbrev pub at : ℕ → Option ℕ → Place
at u none = lobby u
at u (some r) = inside u r

abbrev pub NextAt : ℕ → Ending Next
NextAt u p known (stop room) = p ≡ at u room
NextAt u p known (again room m) = p ≡ at u room

handle_join-Obeys :
    (u : ℕ) (room : Option ℕ) (m : Message) (known : List ℕ)
    → Obeys (NextAt u) (at u room) known (handle_join u room m)
unfolding handle_join has_member
handle_join-Obeys u none m known = elim (Bool-cases (is_valid_room_name m.payload)) [
  | inr bad ↦ rw bad (λ _. refl)
  | inl good ↦ rw good (λ r. (refl, ground arith, λ _. refl))
]
handle_join-Obeys u (some old) m known = elim (Bool-cases (is_valid_room_name m.payload)) [
  | inr bad ↦ rw bad (λ _. refl)
  | inl good ↦ rw good (refl, λ r. (refl, ground arith, λ _. refl))
]

handle_leave-Obeys :
    (u : ℕ) (room : Option ℕ) (m : Message) (known : List ℕ)
    → Obeys (NextAt u) (at u room) known (handle_leave u room m)
unfolding handle_leave
handle_leave-Obeys u none m known = λ _. refl
handle_leave-Obeys u (some r) m known = (refl, λ _ _ _. refl)

handle_sendall-Obeys :
    (u : ℕ) (room : Option ℕ) (m : Message) (known : List ℕ)
    → Obeys (NextAt u) (at u room) known (handle_sendall u room m)
unfolding handle_sendall
handle_sendall-Obeys u none m known = λ _. refl
handle_sendall-Obeys u (some r) m known = λ _. ((u, refl), λ _. refl)

dispatch-Obeys :
    (u : ℕ) (room : Option ℕ) (m : Message) (known : List ℕ)
    → Obeys (NextAt u) (at u room) known (dispatch u room m)
unfolding dispatch
dispatch-Obeys u room m known =
    let P = Obeys (NextAt u) (at u room) known in
    if_cases P (str_eq m.tag tag_join) _ _ (handle_join-Obeys u room m known) (
      if_cases P (str_eq m.tag tag_leave) _ _ (handle_leave-Obeys u room m known) (
        if_cases P (str_eq m.tag tag_quit) _ _ (λ _. refl)
          (if_cases P (str_eq m.tag tag_sendall) _ _ (handle_sendall-Obeys u room m known)
            (λ _. refl))))

-- The check of a receive leaves the place alone.
abbrev Stays : {A : Type 0} → Place → Ending A
Stays p p' known a = p' ≡ p

check_received-Obeys :
    (p : Place) (known : List ℕ) (ok : Bool) → Obeys (Stays p) p known (check_received ok)
unfolding check_received
check_received-Obeys p known true = refl
check_received-Obeys p known false = elim [
  | success ↦ refl
  | eof_or_error ↦ λ _. refl
  | invalid_msg ↦ λ _. refl
]

sender_round-Obeys :
    (u : ℕ) (room : Option ℕ) (m : Message) (known : List ℕ)
    → Obeys (NextAt u) (at u room) known (sender_round u room m)
unfolding sender_round
sender_round-Obeys u room m known = λ a.
    Obeys-bind (Stays (at u room)) (NextAt u) (at u room) known (check_received a.0) _
      (check_received-Obeys (at u room) known a.0)
      λ p' known' go e. rw e (
        if_cases (Obeys (NextAt u) (at u room) known') (not go) _ _ refl
          (dispatch-Obeys u room a.1 known'))

-- The user is in no room, unless the fuel ran out.
abbrev EndedLobby : ℕ → Ending Exit
EndedLobby u p known finished = p ≡ lobby u
EndedLobby u p known e = Unit

leave_if_inside-Obeys :
    (u : ℕ) (room : Option ℕ) (known : List ℕ)
    → Obeys (EndedLobby u) (at u room) known (leave_if_inside u room >> done finished)
leave_if_inside-Obeys u none known = refl
leave_if_inside-Obeys u (some r) known = (refl, refl)

sender_loop-Obeys :
    (fuel u : ℕ) (room : Option ℕ) (m : Message) (known : List ℕ)
    → Obeys (EndedLobby u) (at u room) known (sender_loop fuel u room m)
unfolding sender_loop
sender_loop-Obeys zero u room m known = tt
sender_loop-Obeys (suc fuel) u room m known =
    Obeys-bind (NextAt u) (EndedLobby u) (at u room) known (sender_round u room m) _
      (sender_round-Obeys u room m known)
      λ p' known'. elim [
        | stop last ↦ λ e. rw e (leave_if_inside-Obeys u last known')
        | again room' m' ↦ λ e. rw e (sender_loop-Obeys fuel u room' m' known')
      ]

receiver_loop-Obeys :
    (fuel u r : ℕ) (known : List ℕ)
    → Obeys (Stays (inside u r)) (inside u r) known (receiver_loop fuel u)
unfolding receiver_loop
receiver_loop-Obeys zero u r known = refl
receiver_loop-Obeys (suc fuel) u r known = (
  (r, refl),
  elim [
    | got m ↦ elim [ true ↦ receiver_loop-Obeys fuel u r known | false ↦ refl ]
    | nothing ↦ λ _. receiver_loop-Obeys fuel u r known
    | undefined ↦ refl
  ],
)

receiver_exit-Obeys :
    (u r : ℕ) (known : List ℕ) (e : Exit)
    → Obeys
        (EndedLobby u)
        (inside u r)
        known
        (elim e [ finished ↦ perform (removes r u) >> done finished | other ↦ done other ])
receiver_exit-Obeys u r known finished = (refl, refl)
receiver_exit-Obeys u r known out_of_fuel = tt
receiver_exit-Obeys u r known crashed = tt

deliver_from-Obeys :
    (fuel u : ℕ) (m : Message) (known : List ℕ)
    → Obeys (EndedLobby u) (lobby u) known (deliver_from fuel u m)
unfolding deliver_from has_member
deliver_from-Obeys fuel u m known =
    let P = Obeys (EndedLobby u) (lobby u) known in
    if_cases P (not (str_eq m.tag tag_join)) _ _ (λ _. refl)
      (if_cases P (not (is_valid_room_name m.payload)) _ _ (λ _. refl)
        λ r. (
          refl,
          ground arith,
          λ _.
              Obeys-bind (Stays (inside u r)) (EndedLobby u) (inside u r) (r ∷ known)
                (receiver_loop fuel u) _ (receiver_loop-Obeys fuel u r (r ∷ known))
                λ p' known' e same. rw same (receiver_exit-Obeys u r known' e),
        ))

join_received-Obeys :
    (fuel u : ℕ) (known : List ℕ) (ok : Bool) (m : Message)
    → Obeys (EndedLobby u) (lobby u) known (join_received fuel u ok m)
unfolding join_received
join_received-Obeys fuel u known true m = deliver_from-Obeys fuel u m known
join_received-Obeys fuel u known false m = elim [
  | success ↦ deliver_from-Obeys fuel u m known
  | eof_or_error ↦ λ _. refl
  | invalid_msg ↦ λ _. refl
]

chat_with_receiver-Obeys :
    (fuel u : ℕ) (known : List ℕ) → Obeys (EndedLobby u) (lobby u) known (chat_with_receiver fuel u)
unfolding chat_with_receiver
chat_with_receiver-Obeys fuel u known = λ a. join_received-Obeys fuel u known a.0 a.1

chat_with_sender-Obeys :
    (fuel u : ℕ) (known : List ℕ) → Obeys (EndedLobby u) (lobby u) known (chat_with_sender fuel u)
unfolding chat_with_sender
chat_with_sender-Obeys fuel u known = sender_loop-Obeys fuel u none empty_message known

-- The user, if one was made, is in no room, unless the fuel ran out.
abbrev pub EndedOut : Ending Exit
EndedOut p known finished = (p ≡ outside) ⊎ ((u : ℕ) × (p ≡ lobby u))
EndedOut p known e = Unit

lobby_out :
    (u : ℕ) (p : Place) (known : List ℕ) (e : Exit) → EndedLobby u p known e → EndedOut p known e
lobby_out u p known finished h = inr (u, h)
lobby_out u p known e h = tt

lobby-Obeys :
    (u : ℕ) (p : Place) (known : List ℕ) (c : Program Exit)
    → Obeys (EndedLobby u) p known c
    → Obeys EndedOut p known c
lobby-Obeys u p known (done e) h = lobby_out u p known e h
lobby-Obeys u p known (call (makes_user n) k) h =
    (h.0, λ v. lobby-Obeys u (lobby v) known (k v) (h.1 v))
lobby-Obeys u p known (call (finds_room n) k) h = λ r. lobby-Obeys u p (r ∷ known) (k r) (h r)
lobby-Obeys u p known (call (adds r v) k) h =
    (h.0, h.1, lobby-Obeys u (inside v r) known (k tt) h.2)
lobby-Obeys u p known (call (removes r v) k) h = (h.0, lobby-Obeys u (lobby v) known (k tt) h.1)
lobby-Obeys u p known (call (broadcasts r n t) k) h = (h.0, lobby-Obeys u p known (k tt) h.1)
lobby-Obeys u p known (call (dequeues v) k) h = (h.0, λ a. lobby-Obeys u p known (k a) (h.1 a))
lobby-Obeys u p known (call o k) h = λ a. lobby-Obeys u p known (k a) (h a)

welcomed-Obeys :
    (fuel u : ℕ) (m : Message) (known : List ℕ) (sent : Bool)
    → Obeys EndedOut (lobby u) known (welcomed fuel u m sent)
unfolding welcomed
welcomed-Obeys fuel u m known sent =
    let P = Obeys EndedOut (lobby u) known in
    if_cases P (not sent) _ _ (inr (u, refl)) (
      if_cases P (str_eq m.tag tag_rlogin) _ _
        (lobby-Obeys u (lobby u) known (chat_with_receiver fuel u)
          (chat_with_receiver-Obeys fuel u known))
        (if_cases P (str_eq m.tag tag_slogin) _ _
          (lobby-Obeys u (lobby u) known (chat_with_sender fuel u)
            (chat_with_sender-Obeys fuel u known))
          (inr (u, refl))))

login_received-Obeys :
    (fuel : ℕ) (ok : Bool) (m : Message) → Obeys EndedOut outside [] (login_received fuel ok m)
unfolding login_received log_in
login_received-Obeys fuel false m = elim [
  | success ↦ inl refl
  | eof_or_error ↦ inl refl
  | invalid_msg ↦ λ _. inl refl
]
login_received-Obeys fuel true m =
    if_cases (Obeys EndedOut outside [])
      (not (str_eq m.tag tag_rlogin) && not (str_eq m.tag tag_slogin)) _ _ (λ _. inl refl)
      (refl, λ u sent. welcomed-Obeys fuel u m [] sent)

-- Whatever a client sends, a thread makes one user at most, puts it only into rooms that it has found
-- and only when the user is in no room, takes it only out of the room that it is in, broadcasts only
-- to the room that it is in, takes messages only from its user's queue while that is in a room, and
-- when it returns with fuel left has it in no room.
pub worker-Obeys : (fuel : ℕ) → Obeys EndedOut outside [] (worker fuel)
unfolding worker session
worker-Obeys fuel = λ a.
    Obeys-bind EndedOut EndedOut outside [] (login_received fuel a.0 a.1) _
      (login_received-Obeys fuel a.0 a.1) (λ p known e h _. h)
