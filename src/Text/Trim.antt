-- ===== src/Text/Trim.antt =====
-- `ltrim`, `rtrim` and `trim` of client_util.cpp: what they remove, and what they keep.
use csfassignment.Base.{
  ℕ, suc, ◌≤◌, ◌<◌, ◌≡◌, refl, ap, ◌∙◌, sym, inl, inr, Bool, true, false, [], ◌∷◌, ◌++◌,
  append_assoc, append-nil, some, Bytes, length, take, All, if◌then◌else◌, Bool-cases, Option-cases,
  arith,
}
use csfassignment.Text.{whitespace, contains, find_last_not_of, ltrim, rtrim, trim}

abbrev pub is_space : ℕ → Bool
is_space c = contains c whitespace

-- Every byte is white space.
abbrev pub IsBlank : Bytes → Type 0
IsBlank = All (λ c. is_space c ≡ true)

-- The text is empty or its first byte is no white space.
abbrev pub StartsSolid : Bytes → Type 0
StartsSolid [] = Unit
StartsSolid (c ∷ s) = is_space c ≡ false

-- The text is empty or its last byte is no white space.
abbrev pub EndsSolid : Bytes → Type 0
EndsSolid [] = Unit
EndsSolid (c ∷ []) = is_space c ≡ false
EndsSolid (c ∷ d ∷ s) = EndsSolid (d ∷ s)

pub ltrim-nil : ltrim [] ≡ []
unfolding ltrim
ltrim-nil = refl

pub ltrim-cons : (c : ℕ) (s : Bytes) → ltrim (c ∷ s) ≡ (if is_space c then ltrim s else c ∷ s)
unfolding ltrim
ltrim-cons c s = ground arith

-- What `rtrim` does with a byte in front of a text that it has trimmed.
abbrev keep : ℕ → Bytes → Bytes
keep c [] = if is_space c then [] else c ∷ []
keep c (d ∷ t) = c ∷ d ∷ t

find_last_lt : (s : Bytes) {i : ℕ} → find_last_not_of whitespace s ≡ some i → i < length s
unfolding find_last_not_of
find_last_lt [] h = cc
find_last_lt (c ∷ s) {i} h = elim (Option-cases (find_last_not_of whitespace s)) [
  | inl e ↦ ground arith
  | inr (j, e) ↦ ground (arith, find_last_lt s e)
]

rtrim_some : (c i : ℕ) (s : Bytes) → i < length s → c ∷ take (suc i) s ≡ keep c (take (suc i) s)
rtrim_some c i [] h = elim h [ ]
rtrim_some c i (d ∷ s) h = refl

pub rtrim-nil : rtrim [] ≡ []
unfolding rtrim
rtrim-nil = refl

pub rtrim-cons : (c : ℕ) (s : Bytes) → rtrim (c ∷ s) ≡ keep c (rtrim s)
unfolding rtrim
rtrim-cons c s = elim (Option-cases (find_last_not_of whitespace s)) [
  | inl e ↦ ground arith
  | inr (j, e) ↦ ground (arith, rtrim_some c j s (find_last_lt s e))
]

-- `ltrim` drops a blank prefix and nothing else.
pub ltrim_split : (s : Bytes) → (w : Bytes) × IsBlank w × (s ≡ w ++ ltrim s)
ltrim_split [] = ([], tt, sym ltrim-nil)
ltrim_split (c ∷ s) = elim (Bool-cases (is_space c)) [
  | inl e ↦
      let (w, blank, split) = ltrim_split s in
      (c ∷ w, (e, blank), ap (◌∷◌ c) split ∙ ap (λ t. c ∷ (w ++ t)) (sym (rw (ltrim-cons, e))))
  | inr e ↦ ([], tt, rw (ltrim-cons, e))
]

pub ltrim-StartsSolid : (s : Bytes) → StartsSolid (ltrim s)
ltrim-StartsSolid [] = rw ltrim-nil tt
ltrim-StartsSolid (c ∷ s) = elim (Bool-cases (is_space c)) [
  | inl e ↦ rw (ltrim-cons, e) (ltrim-StartsSolid s)
  | inr e ↦ rw (ltrim-cons, e) e
]

pub ltrim_solid : (s : Bytes) → StartsSolid s → ltrim s ≡ s
ltrim_solid [] h = ltrim-nil
ltrim_solid (c ∷ s) h = rw (ltrim-cons, h)

pub ltrim_blank : (w s : Bytes) → IsBlank w → ltrim (w ++ s) ≡ ltrim s
ltrim_blank [] s h = refl
ltrim_blank (c ∷ w) s h = rw (ltrim-cons, h.0) (ltrim_blank w s h.1)

rtrim_blank_only : (w : Bytes) → IsBlank w → rtrim w ≡ []
rtrim_blank_only [] h = rtrim-nil
rtrim_blank_only (c ∷ w) h = rw (rtrim-cons, rtrim_blank_only w h.1, h.0)

pub rtrim_blank : (s w : Bytes) → IsBlank w → rtrim (s ++ w) ≡ rtrim s
rtrim_blank [] w h = rtrim_blank_only w h ∙ sym rtrim-nil
rtrim_blank (c ∷ s) w h =
    rtrim-cons c (s ++ w) ∙ ap (keep c) (rtrim_blank s w h) ∙ sym (rtrim-cons c s)

keep_solid : (c : ℕ) (s : Bytes) → EndsSolid (c ∷ s) → keep c s ≡ c ∷ s
keep_solid c [] h = rw h
keep_solid c (d ∷ s) h = refl

EndsSolid-tail : (c : ℕ) (s : Bytes) → EndsSolid (c ∷ s) → EndsSolid s
EndsSolid-tail c [] h = tt
EndsSolid-tail c (d ∷ s) h = h

pub rtrim_solid : (s : Bytes) → EndsSolid s → rtrim s ≡ s
rtrim_solid [] h = rtrim-nil
rtrim_solid (c ∷ s) h =
    rtrim-cons c s ∙ ap (keep c) (rtrim_solid s (EndsSolid-tail c s h)) ∙ keep_solid c s h

keep-EndsSolid : (c : ℕ) (s : Bytes) → EndsSolid s → EndsSolid (keep c s)
keep-EndsSolid c [] h = elim (Bool-cases (is_space c)) [ inl e ↦ rw e tt | inr e ↦ rw e e ]
keep-EndsSolid c (d ∷ s) h = h

pub rtrim-EndsSolid : (s : Bytes) → EndsSolid (rtrim s)
rtrim-EndsSolid [] = rw rtrim-nil tt
rtrim-EndsSolid (c ∷ s) = rw rtrim-cons (keep-EndsSolid c (rtrim s) (rtrim-EndsSolid s))

keep-StartsSolid : (c : ℕ) (s : Bytes) → is_space c ≡ false → StartsSolid (keep c s)
keep-StartsSolid c [] h = rw h h
keep-StartsSolid c (d ∷ s) h = h

rtrim-StartsSolid : (s : Bytes) → StartsSolid s → StartsSolid (rtrim s)
rtrim-StartsSolid [] h = rw rtrim-nil tt
rtrim-StartsSolid (c ∷ s) h = rw rtrim-cons (keep-StartsSolid c (rtrim s) h)

keep_split :
    (c : ℕ) (t w : Bytes) → IsBlank w → (v : Bytes) × IsBlank v × (c ∷ (t ++ w) ≡ keep c t ++ v)
keep_split c [] w h = elim (Bool-cases (is_space c)) [
  | inl e ↦ (c ∷ w, (e, h), rw e)
  | inr e ↦ (w, h, rw e)
]
keep_split c (d ∷ t) w h = (w, h, refl)

-- `rtrim` drops a blank suffix and nothing else.
pub rtrim_split : (s : Bytes) → (w : Bytes) × IsBlank w × (s ≡ rtrim s ++ w)
rtrim_split [] = ([], tt, rw rtrim-nil)
rtrim_split (c ∷ s) =
    let (w, blank, split) = rtrim_split s in
    let (v, vblank, e) = keep_split c (rtrim s) w blank in
    (v, vblank, ap (◌∷◌ c) split ∙ e ∙ ap (λ t. t ++ v) (sym (rtrim-cons c s)))

-- `trim` cuts a blank prefix and a blank suffix off, and what is left neither starts nor ends with
-- white space.
pub trim_split :
    (s : Bytes)
    → (v w : Bytes) × IsBlank v
      × IsBlank w
      × (s ≡ v ++ trim s ++ w)
      × StartsSolid (trim s)
      × EndsSolid (trim s)
unfolding trim
trim_split s =
    let (v, hv, front) = ltrim_split s in
    let (w, hw, back) = rtrim_split (ltrim s) in
    (
      v,
      w,
      hv,
      hw,
      front ∙ ap (◌++◌ v) back ∙ sym (append_assoc v (trim s) w),
      rtrim-StartsSolid (ltrim s) (ltrim-StartsSolid s),
      rtrim-EndsSolid (ltrim s),
    )

ltrim_solid_front : (s w : Bytes) → IsBlank w → StartsSolid s → rtrim (ltrim (s ++ w)) ≡ rtrim s
ltrim_solid_front [] w hw h =
    ap rtrim (ap ltrim (sym (append-nil w)) ∙ ltrim_blank w [] hw ∙ ltrim-nil)
ltrim_solid_front (c ∷ s) w hw h =
    ap rtrim (ltrim_solid (c ∷ (s ++ w)) h) ∙ rtrim_blank (c ∷ s) w hw

-- A text with white space round it is trimmed to the text, if that is solid at both ends; so no
-- other text could be the result.
pub trim_solid :
    (v s w : Bytes) → IsBlank v → IsBlank w → StartsSolid s → EndsSolid s → trim (v ++ s ++ w) ≡ s
unfolding trim
trim_solid v s w hv hw starts ends =
    ap (λ t. rtrim (ltrim t)) (append_assoc v s w)
    ∙ ap rtrim (ltrim_blank v (s ++ w) hv)
    ∙ ltrim_solid_front s w hw starts
    ∙ rtrim_solid s ends

pub trim-trim : (s : Bytes) → trim (trim s) ≡ trim s
trim-trim s =
    let (_, _, _, _, _, starts, ends) = trim_split s in
    ap trim (sym (append-nil (trim s))) ∙ trim_solid [] (trim s) [] tt tt starts ends

keep_before_solid : (c : ℕ) (s : Bytes) → is_space c ≡ false → keep c s ≡ c ∷ s
keep_before_solid c [] h = rw h
keep_before_solid c (d ∷ s) h = refl

keep_front : (d c : ℕ) (p s : Bytes) → keep d (p ++ c ∷ s) ≡ d ∷ (p ++ c ∷ s)
keep_front d c [] s = refl
keep_front d c (e ∷ p) s = refl

-- `rtrim` leaves everything up to the last byte that is no white space alone.
pub rtrim-append_solid :
    (p : Bytes) (c : ℕ) (s : Bytes) → is_space c ≡ false → rtrim (p ++ c ∷ s) ≡ p ++ c ∷ rtrim s
rtrim-append_solid [] c s h = rtrim-cons c s ∙ keep_before_solid c (rtrim s) h
rtrim-append_solid (d ∷ p) c s h =
    rtrim-cons d (p ++ c ∷ s)
    ∙ ap (keep d) (rtrim-append_solid p c s h)
    ∙ keep_front d c p (rtrim s)

-- Letters are no white space.
pub letter-solid : (c : ℕ) → b'a' ≤ c → is_space c ≡ false
unfolding contains
letter-solid c h = ground arith
