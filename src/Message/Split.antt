-- ===== src/Message/Split.antt =====
-- `split_payload` of message.cpp against a description of splitting with no search and no loop.
use csfassignment.Base.{
  ℕ, zero, suc, ◌<◌, ◌≡◌, ◌≢◌, refl, ap, ap₂, ==_iff, ◌∙◌, sym, inl, inr, List, [], ◌∷◌, ◌++◌,
  append_assoc, none, some, Bytes, length, take, drop, All, Lacks, ◌==◌, if◌then◌else◌, Bool-cases,
  Option-cases, arith,
}
use csfassignment.Text.{find}
use csfassignment.Message.{count, split_loop}

-- Puts a byte in front of the first part.
abbrev prepend : ℕ → List Bytes → List Bytes
prepend c [] = (c ∷ []) ∷ []
prepend c (p ∷ ps) = (c ∷ p) ∷ ps

-- The parts of a text between its colons.
pub cut : Bytes → List Bytes
cut [] = [] ∷ []
cut (c ∷ s) = if b':' == c then [] ∷ cut s else prepend c (cut s)

pub cut_absent : (s : Bytes) → find b':' s ≡ none → cut s ≡ s ∷ []
unfolding cut find
cut_absent [] h = refl
cut_absent (c ∷ s) h = elim (Option-cases (find b':' s)) [
  | inl e ↦ ground (arith, cut_absent s e)
  | inr (j, e) ↦ ground arith
]

pub cut_found : (s : Bytes) (i : ℕ) → find b':' s ≡ some i → cut s ≡ take i s ∷ cut (drop (suc i) s)
unfolding cut find
cut_found [] i h = cc
cut_found (c ∷ s) zero h = ground arith
cut_found (c ∷ s) (suc j) h = ground (arith, cut_found s j)

drop_shorter : (s : Bytes) (i : ℕ) → find b':' s ≡ some i → length (drop (suc i) s) < length s
unfolding find
drop_shorter [] i h = cc
drop_shorter (c ∷ s) zero h = omega arith
drop_shorter (c ∷ s) (suc j) h = omega (arith, drop_shorter s j (ground arith))

-- With fuel above the length of the text the loop appends the parts of the text.
pub split_loop-cut :
    (fuel : ℕ) (s : Bytes) (out : List Bytes)
    → length s < fuel
    → split_loop fuel s out ≡ out ++ cut s
unfolding split_loop
split_loop-cut zero s out h = elim h [ ]
split_loop-cut (suc fuel) s out h = elim (Option-cases (find b':' s)) [
  | inl e ↦ rw (split_loop, e) (ap (λ t. out ++ t) (sym (cut_absent s e)))
  | inr (i, e) ↦
      rw (split_loop, e)
        (split_loop-cut fuel (drop (suc i) s) (out ++ take i s ∷ [])
            (omega (arith, drop_shorter s i e))
          ∙ append_assoc out (take i s ∷ []) (cut (drop (suc i) s))
          ∙ ap (λ t. out ++ t) (sym (cut_found s i e)))
]

-- The parts with a colon between them.
abbrev pub join : List Bytes → Bytes
join [] = []
join (p ∷ []) = p
join (p ∷ q ∷ ps) = p ++ b':' ∷ join (q ∷ ps)

prepend-ne-nil : (c : ℕ) (ps : List Bytes) → prepend c ps ≢ []
prepend-ne-nil c [] e = cc
prepend-ne-nil c (p ∷ ps) e = cc

cut-ne-nil : (s : Bytes) → cut s ≢ []
unfolding cut
cut-ne-nil [] e = cc
cut-ne-nil (c ∷ s) e = ground (arith, prepend-ne-nil c (cut s))

join-prepend : (c : ℕ) (ps : List Bytes) → join (prepend c ps) ≡ c ∷ join ps
join-prepend c [] = refl
join-prepend c (p ∷ []) = refl
join-prepend c (p ∷ q ∷ ps) = refl

join-nil_cons : (ps : List Bytes) → ps ≢ [] → join ([] ∷ ps) ≡ b':' ∷ join ps
join-nil_cons [] h = absurd (h refl)
join-nil_cons (p ∷ ps) h = refl

-- The parts joined spell the text.
pub join-cut : (s : Bytes) → join (cut s) ≡ s
unfolding cut
join-cut [] = refl
join-cut (c ∷ s) = elim (Bool-cases (b':' == c)) [
  | inl e ↦ rw e (join-nil_cons (cut s) (cut-ne-nil s) ∙ ap₂ ◌∷◌ ((==_iff b':' c).0 e) (join-cut s))
  | inr e ↦ rw e (join-prepend c (cut s) ∙ ap (◌∷◌ c) (join-cut s))
]

prepend-Lacks :
    (c : ℕ) (ps : List Bytes) → c ≢ b':' → All (Lacks b':') ps → All (Lacks b':') (prepend c ps)
prepend-Lacks c [] h l = ((h, tt), tt)
prepend-Lacks c (p ∷ ps) h l = ((h, l.0), l.1)

-- No part holds a colon.
pub cut-Lacks : (s : Bytes) → All (Lacks b':') (cut s)
unfolding cut
cut-Lacks [] = (tt, tt)
cut-Lacks (c ∷ s) = elim (Bool-cases (b':' == c)) [
  | inl e ↦ rw e (tt, cut-Lacks s)
  | inr e ↦ rw e (prepend-Lacks c (cut s) (λ q. ground arith) (cut-Lacks s))
]

cut-append_colon : (p r : Bytes) → Lacks b':' p → cut (p ++ b':' ∷ r) ≡ p ∷ cut r
unfolding cut
cut-append_colon [] r h = refl
cut-append_colon (c ∷ p) r h = ground (arith, cut-append_colon p r h.1)

cut_single : (p : Bytes) → Lacks b':' p → cut p ≡ p ∷ []
unfolding cut
cut_single [] h = refl
cut_single (c ∷ p) h = ground (arith, cut_single p h.1)

-- A list of parts with no colon is the only one that spells its join.
pub cut-join : (ps : List Bytes) → ps ≢ [] → All (Lacks b':') ps → cut (join ps) ≡ ps
cut-join [] h l = absurd (h refl)
cut-join (p ∷ []) h l = cut_single p l.0
cut-join (p ∷ q ∷ ps) h l =
    cut-append_colon p (join (q ∷ ps)) l.0 ∙ ap (◌∷◌ p) (cut-join (q ∷ ps) (λ e. cc) l.1)

length-prepend : (c : ℕ) (ps : List Bytes) → ps ≢ [] → length (prepend c ps) ≡ length ps
length-prepend c [] h = absurd (h refl)
length-prepend c (p ∷ ps) h = refl

-- There is one part more than there are colons.
pub length-cut : (s : Bytes) → length (cut s) ≡ suc (count b':' s)
unfolding cut count
length-cut [] = refl
length-cut (c ∷ s) = elim (Bool-cases (b':' == c)) [
  | inl e ↦ rw e (ap suc (length-cut s))
  | inr e ↦ rw e (length-prepend c (cut s) (cut-ne-nil s) ∙ length-cut s)
]
