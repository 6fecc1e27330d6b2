-- ===== src/Client/Laws.antt =====
-- The loop of sender.cpp on a bare `/join` and at the end of its input.
use csfassignment.Base.{
  ℕ, zero, suc, ◌<◌, ◌≡◌, ◌↔◌, refl, ap, ◌∙◌, inl, inr, true, [], ◌∷◌, Bytes, codes, length,
  Bool-cases, arith,
}
use csfassignment.Csapp.{Csapp}
use csfassignment.Text.{str_eq, rtrim, trim, substr?, substr_len?}
use csfassignment.Text.Trim.{ltrim-nil, rtrim-nil}
use csfassignment.Client.{Client, runs}
use csfassignment.Client.Sender.{
  next, threw, is_command, has_word, first_line, read_line, join_command, command, line_turn,
  sender_turn, sender_loop,
}

-- The line that throws.
abbrev pub bare_join : Bytes
bare_join = codes "/join"

short_line :
    (line : Bytes)
    → length line < 6
    → is_command line ≡ true
    → has_word 4 (codes "join") line ≡ true
    → line ≡ bare_join
unfolding is_command has_word substr_len? str_eq
short_line [] l c w = ground arith
short_line (a ∷ []) l c w = ground arith
short_line (a ∷ b ∷ []) l c w = ground arith
short_line (a ∷ b ∷ d ∷ []) l c w = ground arith
short_line (a ∷ b ∷ d ∷ e ∷ []) l c w = ground arith
short_line (a ∷ b ∷ d ∷ e ∷ f ∷ []) l c w = ground arith
short_line (a ∷ b ∷ d ∷ e ∷ f ∷ g ∷ r) l c w = absurd (omega arith)

trim-nil : trim [] ≡ []
unfolding trim
trim-nil = ap rtrim ltrim-nil ∙ rtrim-nil

module _ {W B : Type 0} (lib : Csapp W B) where
  join_command_throws :
      (line : Bytes) (s : Client W B) → ((join_command lib line s).0 ≡ threw) ↔ (length line < 6)
  unfolding join_command substr?
  join_command_throws line s = (λ h. ground arith, λ h. ground arith)

  command_throws :
      (line : Bytes) (s : Client W B)
      → (command lib line s).0 ≡ threw
      → (has_word 4 (codes "join") line ≡ true) × (length line < 6)
  unfolding command
  command_throws line s h = ground (arith, (join_command_throws line s).0)

  line_turn_throws :
      (line : Bytes) (s : Client W B) → (line_turn lib line s).0 ≡ threw → line ≡ bare_join
  unfolding line_turn
  line_turn_throws line s h = elim (Bool-cases (is_command line)) [
    | inl c ↦
        let (word, short) = command_throws line s (ground arith) in short_line line short c word
    | inr o ↦ ground arith
  ]

  bare_join_throws : (s : Client W B) → (line_turn lib bare_join s).0 ≡ threw
  unfolding line_turn str_eq
  bare_join_throws s = refl

  -- A round of the sender's loop throws exactly on the command `/join` with nothing behind it, which
  -- `substr(6)` is asked to cut beyond its end.
  pub sender_turn_throws :
      (s : Client W B)
      → ((sender_turn lib s).0 ≡ threw) ↔ (trim (first_line s.console.input) ≡ bare_join)
  unfolding sender_turn
  sender_turn_throws s = (
    λ h. line_turn_throws (trim (first_line s.console.input)) _ h,
    λ e. rw e (bare_join_throws _),
  )

  sender_turn_empty :
      (s : Client W B)
      → s.console.input ≡ []
      → ((sender_turn lib s).0 ≡ next) × ((sender_turn lib s).1.console.input ≡ [])
  unfolding sender_turn read_line
  sender_turn_empty s h = rw (h, trim-nil) (refl, refl)

  -- At the end of its input the sender's loop goes on for ever: with fuel for any number of rounds it
  -- is still running.
  pub sender_loop_spins :
      (fuel : ℕ) (s : Client W B) → s.console.input ≡ [] → (sender_loop lib fuel s).0 ≡ runs
  unfolding sender_loop
  sender_loop_spins zero s h = refl
  sender_loop_spins (suc fuel) s h =
      let (go, rest) = sender_turn_empty s h in
      rw (go, sender_loop) (sender_loop_spins fuel (sender_turn lib s).1 rest)
