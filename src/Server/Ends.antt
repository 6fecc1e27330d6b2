-- ===== src/Server/Ends.antt =====
-- When the thread of a client ends.
use csfassignment.Base.{
  ℕ, ◌<◌, Option, ◌≡◌, refl, ap, ◌∙◌, Bool, true, false, not, ◌&&◌, ◌++◌, codes, inl, inr,
  Bool-cases, if_cases, arith,
}
use csfassignment.Csapp.{Csapp}
use csfassignment.Text.{str_eq}
use csfassignment.Message.{Message, message, empty_message, tag_ok, tag_err, tag_rlogin, tag_slogin}
use csfassignment.Connection.{Result, invalid_msg, eof_or_error, success, receive}
use csfassignment.Server.Program.{
  Program, done, ◌>>◌, Machine, receives, sends, answer, perform_on, traffic, run,
}
use csfassignment.Server.Chat.{
  Exit, finished, reply, welcomed, log_in, login_received, session, worker,
}
use csfassignment.Server.Fuel.{Drains, run-bind, traffic-left, chat_with_sender_lem}

module _ {W B : Type 0} (lib : Csapp W B) (clock : W → Option ℕ) (left : W → ℕ)
    (d : Drains lib clock left) (fuel : ℕ) where
  abbrev Ends : Program Exit → Machine W B → Type 0
  Ends p s = (run lib clock p s).0 ≡ finished

  welcomed-Ends :
      (user : ℕ) (m : Message) (sent : Bool) (s : Machine W B)
      → left s.world < fuel
      → str_eq m.tag tag_rlogin ≡ false
      → Ends (welcomed fuel user m sent) s
  unfolding welcomed run
  welcomed-Ends user m false s h e = refl
  welcomed-Ends user m true s h e = rw e (elim (Bool-cases (str_eq m.tag tag_slogin)) [
    | inl sender ↦ rw sender (chat_with_sender_lem lib clock left d fuel user s h)
    | inr other ↦ rw other refl
  ])

  log_in-Ends :
      (m : Message) (s : Machine W B)
      → left s.world < fuel
      → str_eq m.tag tag_rlogin ≡ false
      → Ends (log_in fuel m) s
  unfolding log_in run perform_on traffic
  log_in-Ends m s h e =
      let hail = message tag_ok (codes "Welcome " ++ m.payload ++ codes "!") in
      welcomed-Ends _ m _ _
        (omega (arith, h, traffic-left lib clock left d (sends hail) s.conn s.world)) e

  -- Behind a first receive that failed, whatever its result.
  failed-Ends :
      (r : Result) (s : Machine W B)
      → Ends
          (elim r [
            | invalid_msg ↦ reply tag_err (codes "invalid message") >> done finished
            | _ ↦ done finished
          ])
          s
  unfolding run
  failed-Ends success s = refl
  failed-Ends eof_or_error s = refl
  failed-Ends invalid_msg s = refl

  login_received-Ends :
      (ok : Bool) (m : Message) (s : Machine W B)
      → left s.world < fuel
      → str_eq m.tag tag_rlogin ≡ false
      → Ends (login_received fuel ok m) s
  unfolding login_received run answer
  login_received-Ends false m s h e = failed-Ends s.conn.last_result _
  login_received-Ends true m s h e =
      if_cases (λ p. Ends p s) (not (str_eq m.tag tag_rlogin) && not (str_eq m.tag tag_slogin)) _ _
        refl (log_in-Ends m s h e)

  -- If each line that is read uses up one of the lines that the client has left, and nothing else
  -- brings more, the thread of a client that does not log in as a receiver returns: fuel above the
  -- number of those lines is enough, whatever the lines are.
  pub worker_lem :
      (s : Machine W B)
      → left s.world < fuel
      → (let (_, m, _, _) = receive lib empty_message s.conn s.world in
          str_eq m.tag tag_rlogin ≡ false)
      → (run lib clock (worker fuel) s).0 ≡ finished
  unfolding worker session run perform_on answer traffic
  worker_lem s h e =
      let t = perform_on lib clock (receives empty_message) s in
      let (ok, m) = answer lib clock (receives empty_message) s in
      ap (λ (r : Exit × Machine W B). r.0) (run-bind lib clock (login_received fuel ok m) _ t)
      ∙ login_received-Ends ok m t
          (omega (arith, h, traffic-left lib clock left d (receives empty_message) s.conn s.world))
          e
