-- ===== src/Text/Find.antt =====
-- The searches of `std::string`: `==`, `find` and the character tests of client_util.cpp.
use csfassignment.Base.{
  ℕ, zero, suc, ◌≤◌, ◌≡◌, ◌↔◌, refl, ap, inl, inr, true, [], ◌∷◌, ◌++◌, none, some, Bytes, length,
  take, drop, All, Lacks, Option-cases, ==_refl, arith,
}
use csfassignment.Text.{str_eq, find, is_lower_cased}

pub str_eq_refl : (s : Bytes) → str_eq s s ≡ true
unfolding str_eq
str_eq_refl [] = refl
str_eq_refl (c ∷ s) = rw ==_refl (str_eq_refl s)

pub str_eq_sound : (s t : Bytes) → str_eq s t ≡ true → s ≡ t
unfolding str_eq
str_eq_sound [] [] h = refl
str_eq_sound [] (d ∷ t) h = cc
str_eq_sound (c ∷ s) [] h = cc
str_eq_sound (c ∷ s) (d ∷ t) h = ground (arith, str_eq_sound s t)

pub str_eq_iff : (s t : Bytes) → (str_eq s t ≡ true) ↔ (s ≡ t)
str_eq_iff s t = (str_eq_sound s t, λ e. rw e (str_eq_refl t))

-- The first occurrence splits the text.
pub find_first : (c : ℕ) (p r : Bytes) → Lacks c p → find c (p ++ c ∷ r) ≡ some (length p)
unfolding find
find_first c [] r h = ground arith
find_first c (d ∷ p) r h = ground (arith, find_first c p r h.1)

pub find_absent : (c : ℕ) (s : Bytes) → Lacks c s → find c s ≡ none
unfolding find
find_absent c [] h = refl
find_absent c (d ∷ s) h = ground (arith, find_absent c s h.1)

pub find_none : (c : ℕ) (s : Bytes) → find c s ≡ none → Lacks c s
unfolding find
find_none c [] h = tt
find_none c (d ∷ s) h = elim (Option-cases (find c s)) [
  | inl e ↦ ground (arith, find_none c s e)
  | inr (j, e) ↦ ground arith
]

pub find_split :
    (c : ℕ) (s : Bytes) (i : ℕ)
    → find c s ≡ some i
    → (s ≡ take i s ++ c ∷ drop (suc i) s) × Lacks c (take i s) × (length (take i s) ≡ i)
unfolding find
find_split c [] i h = cc
find_split c (d ∷ s) zero h = (ground arith, tt, refl)
find_split c (d ∷ s) (suc j) h =
    let (split, before, size) = find_split c s j (ground arith) in
    (ap (◌∷◌ d) split, (ground arith, before), ap suc size)

-- Every byte is a letter from `a` to `z`.
abbrev pub IsLower : Bytes → Type 0
IsLower = All (λ c. (b'a' ≤ c) × (c ≤ b'z'))

pub is_lower_cased_sound : (s : Bytes) → is_lower_cased s ≡ true → IsLower s
unfolding is_lower_cased
is_lower_cased_sound [] h = tt
is_lower_cased_sound (c ∷ s) h = ground (arith, is_lower_cased_sound s)

pub is_lower_cased_complete : (s : Bytes) → IsLower s → is_lower_cased s ≡ true
unfolding is_lower_cased
is_lower_cased_complete [] h = refl
is_lower_cased_complete (c ∷ s) h = ground (arith, is_lower_cased_complete s h.1)

pub IsLower-Lacks : (b : ℕ) (s : Bytes) → b ≤ 96 → IsLower s → Lacks b s
IsLower-Lacks b [] h l = tt
IsLower-Lacks b (c ∷ s) h l = (λ e. omega arith, IsLower-Lacks b s h l.1)
