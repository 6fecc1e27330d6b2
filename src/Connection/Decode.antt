-- ===== src/Connection/Decode.antt =====
-- The framing of a message as a line: `decode` against `wire`.
use csfassignment.Base.{
  suc, ◌≡◌, ◌↔◌, refl, ap, ap₂, ◌∙◌, sym, inl, inr, false, [], ◌∷◌, ◌++◌, append_assoc, some, Bytes,
  length, take, drop, take_prefix, drop_past, length-append, ◌+◌, All-append, Lacks, Bool-cases,
  Option-cases, arith,
}
use csfassignment.Text.{find, trim, rtrim, is_lower_cased, contains}
use csfassignment.Text.Trim.{
  is_space, IsBlank, StartsSolid, letter-solid, ltrim_solid, rtrim_blank, rtrim-append_solid,
}
use csfassignment.Text.Find.{
  find_first, find_split, IsLower, IsLower-Lacks, is_lower_cased_complete, is_lower_cased_sound,
}
use csfassignment.Message.{Message}
use csfassignment.Connection.{wire, c_string, split_tag, decode}

pub c_string_lem : (s : Bytes) → Lacks 0 s → c_string s ≡ s
unfolding c_string
c_string_lem [] h = refl
c_string_lem (c ∷ s) h = ground (arith, c_string_lem s h.1)

pub c_string-Lacks : (s : Bytes) → Lacks 0 (c_string s)
unfolding c_string
c_string-Lacks [] = tt
c_string-Lacks (c ∷ s) = ground (arith, c_string-Lacks s)

-- The message can be written to a line: its tag is of lower-case letters, and its data holds no zero
-- byte, which would end the C string.
pub record IsWritable (m : Message) : Type 0 where
  pub lower : IsLower m.tag
  pub no_zero : Lacks 0 m.payload

-- The line of a message, with one cons for each separator.
abbrev line_of : Message → Bytes
line_of m = m.tag ++ b':' ∷ (m.payload ++ 10 ∷ [])

wire-line_of : (m : Message) → wire m ≡ line_of m
unfolding wire
wire-line_of m = simp append_assoc

pub length-wire : (m : Message) → length (wire m) ≡ length m.tag + length m.payload + 2
length-wire m =
    ap length (wire-line_of m)
    ∙ omega (
      arith,
      length-append m.tag (b':' ∷ (m.payload ++ 10 ∷ [])),
      length-append m.payload (10 ∷ []),
    )

line_of-Lacks : (m : Message) → IsWritable m → Lacks 0 (line_of m)
line_of-Lacks m w =
    All-append _ m.tag _ (IsLower-Lacks 0 m.tag (omega arith) w.lower)
      (omega arith, All-append _ m.payload (10 ∷ []) w.no_zero (omega arith))

pub wire-Lacks : (m : Message) → IsWritable m → Lacks 0 (wire m)
wire-Lacks m w = rw wire-line_of (line_of-Lacks m w)

newline-IsBlank : IsBlank (10 ∷ [])
unfolding contains
newline-IsBlank = (refl, tt)

pub colon_solid : is_space b':' ≡ false
unfolding contains
colon_solid = refl

line-StartsSolid : (t r : Bytes) → IsLower t → StartsSolid (t ++ b':' ∷ r)
line-StartsSolid [] r h = colon_solid
line-StartsSolid (c ∷ t) r h = letter-solid c h.0.0

trim-line_of : (t p : Bytes) → IsLower t → trim (t ++ b':' ∷ (p ++ 10 ∷ [])) ≡ t ++ b':' ∷ rtrim p
unfolding trim
trim-line_of t p h =
    ap rtrim (ltrim_solid _ (line-StartsSolid t (p ++ 10 ∷ []) h))
    ∙ ap rtrim (sym (append_assoc t (b':' ∷ p) (10 ∷ [])))
    ∙ rtrim_blank (t ++ b':' ∷ p) (10 ∷ []) newline-IsBlank
    ∙ rtrim-append_solid t b':' p colon_solid

-- A text of lower-case letters, a colon and anything is split at that colon.
split_tag-colon : (t d : Bytes) → IsLower t → split_tag (t ++ b':' ∷ d) ≡ some (t, d)
unfolding split_tag
split_tag-colon t d h =
    rw (find_first b':' t d (IsLower-Lacks b':' t (omega arith) h), split_tag)
      (rw (take_prefix t (b':' ∷ d), is_lower_cased_complete t h, drop_past t b':' d))

split_tag_sound : (s t d : Bytes) → split_tag s ≡ some (t, d) → (s ≡ t ++ b':' ∷ d) × IsLower t
unfolding split_tag
split_tag_sound s t d h = elim (Option-cases (find b':' s)) [
  | inl e ↦ ground arith
  | inr (i, e) ↦ elim (Bool-cases (is_lower_cased (take i s))) [
    | inr bad ↦ ground arith
    | inl good ↦
        let (split, _, _) = find_split b':' s i e in
        let tag_eq : take i s ≡ t = ground arith in
        let data_eq : drop (suc i) s ≡ d = ground arith in
        (
          split ∙ ap₂ (λ p r. p ++ b':' ∷ r) tag_eq data_eq,
          rw tag_eq at (is_lower_cased_sound (take i s) good),
        )
  ]
]

-- The bytes in the buffer decode to a tag and data exactly if, up to the first zero byte and
-- trimmed, they are the tag, a colon and the data, and the tag is of lower-case letters.
pub decode_iff :
    (s t d : Bytes) → (decode s ≡ some (t, d)) ↔ ((trim (c_string s) ≡ t ++ b':' ∷ d) × IsLower t)
unfolding decode
decode_iff s t d = (split_tag_sound (trim (c_string s)) t d, λ r. rw r.0 (split_tag-colon t d r.1))

-- `decode` reads back what `wire` wrote, but for the white space at the end of the data.
pub decode-wire : (m : Message) → IsWritable m → decode (wire m) ≡ some (m.tag, rtrim m.payload)
decode-wire m w = (decode_iff (wire m) m.tag (rtrim m.payload)).1 (
  ap trim (c_string_lem (wire m) (wire-Lacks m w) ∙ wire-line_of m)
      ∙ trim-line_of m.tag m.payload w.lower,
  w.lower,
)
