-- ===== src/Dialogue/Texts.antt =====
-- Texts that fit a line: without a zero byte or a newline, and of a bounded length.
use csfassignment.Base.{
  ℕ, zero, suc, ◌+◌, ◌≤◌, subst, [], ◌∷◌, ◌++◌, Bytes, length, length-append, drop, Lacks,
  All-append, All-left, All-right, All-drop, arith,
}
use csfassignment.Text.{trim, rtrim}
use csfassignment.Text.Trim.{trim_split, rtrim_split}
use csfassignment.Text.Find.{IsLower}
use csfassignment.Message.{message}
use csfassignment.Dialogue.Link.{IsPlain}

pub record IsText (bound : ℕ) (s : Bytes) : Type 0 where
  pub no_zero : Lacks 0 s
  pub no_newline : Lacks 10 s
  pub short : length s ≤ bound

pub IsText-append : {n k : ℕ} (s t : Bytes) → IsText n s → IsText k t → IsText (n + k) (s ++ t)
IsText-append s t a b = record {
  no_zero = All-append _ s t a.no_zero b.no_zero;
  no_newline = All-append _ s t a.no_newline b.no_newline;
  short = omega (arith, length-append s t, a.short, b.short);
}

-- The part of a text in front, and behind.
IsText-left : {n : ℕ} (s t : Bytes) → IsText n (s ++ t) → IsText n s
IsText-left s t a = record {
  no_zero = All-left _ s t a.no_zero;
  no_newline = All-left _ s t a.no_newline;
  short = omega (arith, length-append s t, a.short);
}

IsText-right : {n : ℕ} (s t : Bytes) → IsText n (s ++ t) → IsText n t
IsText-right s t a = record {
  no_zero = All-right _ s t a.no_zero;
  no_newline = All-right _ s t a.no_newline;
  short = omega (arith, length-append s t, a.short);
}

pub IsText-rtrim : {n : ℕ} (s : Bytes) → IsText n s → IsText n (rtrim s)
IsText-rtrim {n} s a =
    let (w, _, e) = rtrim_split s in IsText-left (rtrim s) w (subst (IsText n) e a)

pub IsText-trim : {n : ℕ} (s : Bytes) → IsText n s → IsText n (trim s)
IsText-trim {n} s a =
    let (v, w, _, _, e, _, _) = trim_split s in
    IsText-right v (trim s) (IsText-left (v ++ trim s) w (subst (IsText n) e a))

length-drop : (n : ℕ) (s : Bytes) → length (drop n s) ≤ length s
length-drop zero s = omega arith
length-drop (suc n) [] = omega arith
length-drop (suc n) (c ∷ s) = omega (arith, length-drop n s)

pub IsText-drop : {n : ℕ} (k : ℕ) (s : Bytes) → IsText n s → IsText n (drop k s)
IsText-drop k s a = record {
  no_zero = All-drop _ k s a.no_zero;
  no_newline = All-drop _ k s a.no_newline;
  short = omega (arith, length-drop k s, a.short);
}

pub IsText-more : {n : ℕ} (k : ℕ) (s : Bytes) → n ≤ k → IsText n s → IsText k s
IsText-more k s le a = record {
  no_zero = a.no_zero;
  no_newline = a.no_newline;
  short = omega (arith, le, a.short);
}

pub message-IsPlain :
    (tag text : Bytes) → IsLower tag → length tag ≤ 8 → IsText 245 text → IsPlain (message tag text)
message-IsPlain tag text lower short a = record {
  writable = record { lower = lower; no_zero = a.no_zero };
  no_newline = a.no_newline;
  fits = omega (arith, short, a.short);
}
