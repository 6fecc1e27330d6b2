-- ===== src/Message/Checks.antt =====
-- The checks in front of the loop of `split_payload`, and what the receiver learns from the number of
-- parts.
use csfassignment.Base.{
  Bytes, List, ◌∷◌, ◌||◌, Bool, codes, refl, suc, ◌+◌, ◌≤◌, ◌≡◌, ◌≢◌, ◌⊎◌, ◌↔◌, ap, ◌∙◌, sym, inl,
  inr, true, not, ◌&&◌, [], none, length, All, Lacks, ltb, ◌==◌, Bool-cases, Option-cases, arith,
}
use csfassignment.Text.{str_eq, find, trim}
use csfassignment.Text.Find.{str_eq_iff, find_absent, find_none}
use csfassignment.Message.{Message, count, split_payload, in_tag_table, tag_delivery}
use csfassignment.Message.Split.{join, join-cut, cut-Lacks, cut, split_loop-cut, length-cut}

-- The tags of the protocol.
abbrev pub protocol_tags : List Bytes
protocol_tags =
    codes "err"
    ∷ codes "ok"
    ∷ codes "slogin"
    ∷ codes "rlogin"
    ∷ codes "join"
    ∷ codes "leave"
    ∷ codes "sendall"
    ∷ codes "senduser"
    ∷ codes "quit"
    ∷ codes "delivery"
    ∷ codes "empty"
    ∷ []

abbrev pub OneOf : Bytes → List Bytes → Type 0
OneOf tag [] = ⊥
OneOf tag (x ∷ l) = (tag ≡ x) ⊎ OneOf tag l

-- Some test holds: the one before, or one of the tests for the tags of a list.
abbrev or_equals : Bool → Bytes → List Bytes → Bool
or_equals b tag [] = b
or_equals b tag (x ∷ l) = or_equals (b || str_eq tag x) tag l

or_equals_iff :
    (b : Bool) (tag : Bytes) (l : List Bytes)
    → (or_equals b tag l ≡ true) ↔ ((b ≡ true) ⊎ OneOf tag l)
or_equals_iff b tag [] = (inl, elim [ inl e ↦ e | inr n ↦ absurd n ])
or_equals_iff b tag (x ∷ l) =
    let rest = or_equals_iff (b || str_eq tag x) tag l in
    let head = str_eq_iff tag x in
    (
      λ h. elim (rest.0 h) [
        | inr m ↦ inr (inr m)
        | inl e ↦ elim (Bool-cases b) [ inl f ↦ inl f | inr f ↦ inr (inl (head.0 (rw f at e))) ]
      ],
      elim [
        | inl f ↦ rest.1 (inl (rw f refl))
        | inr m ↦ elim m [
          | inl e ↦ rest.1 (inl (ground (arith, head.1 e)))
          | inr n ↦ rest.1 (inr n)
        ]
      ],
    )

in_tag_table_iff : (tag : Bytes) → (in_tag_table tag ≡ true) ↔ OneOf tag protocol_tags
unfolding in_tag_table
in_tag_table_iff tag =
    let err = str_eq_iff tag (codes "err") in
    let table = or_equals_iff (str_eq tag (codes "err")) tag (
      codes "ok"
      ∷ codes "slogin"
      ∷ codes "rlogin"
      ∷ codes "join"
      ∷ codes "leave"
      ∷ codes "sendall"
      ∷ codes "senduser"
      ∷ codes "quit"
      ∷ codes "delivery"
      ∷ codes "empty"
      ∷ []) in
    (
      λ h. elim (table.0 h) [ inl e ↦ inl (err.0 e) | inr m ↦ inr m ],
      elim [ inl e ↦ table.1 (inl (err.1 e)) | inr m ↦ table.1 (inr m) ],
    )

-- The message passes every check of `split_payload`: tag and data have 255 bytes at most, without
-- white space at its ends the payload has no newline, it has a colon, the tag is one of the protocol,
-- and in a delivery there are two colons.
pub record IsAccepted (m : Message) : Type 0 where
  pub fits : length m.tag + length m.payload ≤ 255
  pub one_line : Lacks 10 (trim m.payload)
  pub has_part : find b':' m.payload ≢ none
  pub known : OneOf m.tag protocol_tags
  pub structured : m.tag ≡ codes "delivery" → count b':' m.payload ≡ 2

-- An accepted payload is cut at its colons.
pub split_payload-cut : (m : Message) → IsAccepted m → split_payload m ≡ cut m.payload
unfolding split_payload
split_payload-cut m w = ground (
  arith,
  (in_tag_table_iff m.tag).1 w.known,
  w.structured,
  str_eq_iff m.tag (codes "delivery"),
  find_absent 10 (trim m.payload) w.one_line,
  split_loop-cut (suc (length m.payload)) m.payload [],
)

-- Every other message yields a single part, an error text.
pub split_payload_cases : (m : Message) → IsAccepted m ⊎ (length (split_payload m) ≡ 1)
unfolding split_payload
split_payload_cases m = elim (Bool-cases (ltb 255 (length m.tag + length m.payload))) [
  | inl long ↦ inr (rw (split_payload, long))
  | inr short ↦ elim (Option-cases (find 10 (trim m.payload))) [
    | inr (i, newline) ↦ inr (ground arith)
    | inl line ↦ elim (Option-cases (find b':' m.payload)) [
      | inl whole ↦ inr (ground arith)
      | inr (j, colon) ↦ elim (Bool-cases (in_tag_table m.tag)) [
        | inr unknown ↦ inr (ground arith)
        | inl known ↦
            elim (Bool-cases (str_eq m.tag tag_delivery && not (count b':' m.payload == 2))) [
              | inl bad ↦ inr (ground arith)
              | inr good ↦ inl (record {
                fits = ground arith;
                one_line = find_none 10 (trim m.payload) line;
                has_part = λ e. cc;
                known = (in_tag_table_iff m.tag).0 known;
                structured = λ e. ground (arith, (str_eq_iff m.tag (codes "delivery")).1 e);
              })
            ]
      ]
    ]
  ]
]

-- `split_payload` yields three parts exactly if tag and data together have 255 bytes at most, the
-- payload without white space at its ends has no newline, the tag is one of the eleven of the
-- protocol, and the payload has two colons.
pub split_payload_three :
    (m : Message) → (length (split_payload m) ≡ 3) ↔ (IsAccepted m × (count b':' m.payload ≡ 2))
split_payload_three m = (to (split_payload_cases m), from)
  where
    to :
        IsAccepted m ⊎ (length (split_payload m) ≡ 1)
        → length (split_payload m) ≡ 3
        → IsAccepted m × (count b':' m.payload ≡ 2)
    to (inl w) h =
        (w, omega (arith, sym (ap length (split_payload-cut m w)) ∙ h, length-cut m.payload))
    to (inr one) h = absurd (omega arith)

    from : IsAccepted m × (count b':' m.payload ≡ 2) → length (split_payload m) ≡ 3
    from (w, two) = omega (arith, ap length (split_payload-cut m w), length-cut m.payload)

-- An accepted message yields parts that hold no colon and that spell the payload with one colon
-- between each two of them.
pub split_payload_parts :
    (m : Message)
    → IsAccepted m
    → (join (split_payload m) ≡ m.payload) × All (Lacks b':') (split_payload m)
split_payload_parts m w = rw (split_payload-cut m w) (join-cut m.payload, cut-Lacks m.payload)
