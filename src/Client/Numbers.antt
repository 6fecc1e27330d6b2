-- ===== src/Client/Numbers.antt =====
-- `std::to_string`, with which a port is written, against `std::stoi`, with which it is read.
use csfassignment.Base.{
  ℕ, zero, suc, ◌+◌, ◌*◌, ◌/◌, ◌%◌, ◌^◌, ◌≤◌, ◌<◌, ◌≡◌, refl, ap, ◌∙◌, Bool, true, false, [], ◌∷◌,
  Option, none, some, Bytes, inl, inr, Bool-cases, ltb, arith,
}
use csfassignment.Base.Int.{ℤ, pos, negsuc}
use csfassignment.Text.{contains}
use csfassignment.Connection.{digits, to_string}
use csfassignment.Client.{is_digit, read_digits, skip_space, read_sign, to_int, stoi}

read_digits-cons :
    (so_far : Option ℕ) (n : ℕ) (out : Bytes)
    → read_digits so_far ((b'0' + n % 10) ∷ out)
      ≡ read_digits (some ((elim so_far [ none ↦ 0 | some k ↦ k ]) * 10 + n % 10)) out
unfolding read_digits is_digit
read_digits-cons none n out = ground arith
read_digits-cons (some k) n out = ground arith

-- The digits of a number are read as the number, whatever stands behind them.
read_digits-digits :
    (fuel n : ℕ) (out : Bytes)
    → n < fuel
    → read_digits none (digits fuel n out) ≡ read_digits (some n) out
unfolding digits
read_digits-digits zero n out h = elim h [ ]
read_digits-digits (suc fuel) n out h = elim (Bool-cases (ltb n 10)) [
  | inl small ↦
      rw (digits, small)
        (read_digits-cons none n out ∙ ap (λ k. read_digits (some k) out) (ground arith))
  | inr large ↦
      rw (digits, large)
        (read_digits-digits fuel (n / 10) ((b'0' + n % 10) ∷ out) (ground arith)
          ∙ read_digits-cons (some (n / 10)) n out
          ∙ ap (λ k. read_digits (some k) out) (ground arith))
]

-- The first byte is a digit.
digits-cons :
    (fuel n : ℕ) (out : Bytes)
    → (c : ℕ) × (rest : Bytes) × (digits (suc fuel) n out ≡ c ∷ rest) × (b'0' ≤ c) × (c ≤ b'9')
unfolding digits
digits-cons zero n out = elim (Bool-cases (ltb n 10)) [
  | inl small ↦ (b'0' + n % 10, out, rw (digits, small) refl, omega arith, omega arith)
  | inr large ↦ (b'0' + n % 10, out, rw (digits, large) refl, omega arith, omega arith)
]
digits-cons (suc fuel) n out = elim (Bool-cases (ltb n 10)) [
  | inl small ↦ (b'0' + n % 10, out, rw (digits, small) refl, omega arith, omega arith)
  | inr large ↦
      let (c, rest, e, low, high) = digits-cons fuel (n / 10) ((b'0' + n % 10) ∷ out) in
      (c, rest, rw (digits, large) e, low, high)
]

sign-digit :
    (c : ℕ) (rest : Bytes)
    → b'0' ≤ c
    → c ≤ b'9'
    → read_sign (skip_space (c ∷ rest)) ≡ (false, c ∷ rest)
unfolding skip_space contains read_sign
sign-digit c rest low high = ground arith

sign-minus : (s : Bytes) → read_sign (skip_space (b'-' ∷ s)) ≡ (true, s)
unfolding skip_space contains read_sign
sign-minus s = refl

sign-digits :
    (fuel n : ℕ) → read_sign (skip_space (digits (suc fuel) n [])) ≡ (false, digits (suc fuel) n [])
sign-digits fuel n =
    let (c, rest, e, low, high) = digits-cons fuel n [] in rw e (sign-digit c rest low high)

-- The integer is one that an `int` of 32 bits holds.
abbrev pub Fits : ℤ → Type 0
Fits (pos n) = n < 2 ^ 31
Fits (negsuc n) = n < 2 ^ 31

stoi_lem :
    (s rest : Bytes) (negative : Bool) (n : ℕ)
    → read_sign (skip_space s) ≡ (negative, rest)
    → read_digits none rest ≡ some n
    → stoi s ≡ to_int negative n
unfolding stoi
stoi_lem s rest negative n e f = rw (stoi, e, f) (ap (λ (p : Bool × Bytes). to_int p.0 n) e)

read_digits-nil : (n : ℕ) → read_digits (some n) [] ≡ some n
unfolding read_digits
read_digits-nil n = refl

-- `std::stoi` reads back the text that `std::to_string` writes for an `int`.
pub stoi-to_string : (z : ℤ) → Fits z → stoi (to_string z) ≡ some z
unfolding to_string to_int
stoi-to_string (pos n) h =
    stoi_lem (digits (suc n) n []) _ false n (sign-digits n n)
      (read_digits-digits (suc n) n [] (omega arith) ∙ read_digits-nil n)
    ∙ ground arith
stoi-to_string (negsuc n) h =
    stoi_lem (b'-' ∷ digits (suc (suc n)) (suc n) []) _ true (suc n) (sign-minus _)
      (read_digits-digits (suc (suc n)) (suc n) [] (omega arith) ∙ read_digits-nil (suc n))
    ∙ ground arith
