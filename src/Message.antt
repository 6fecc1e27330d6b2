-- ===== src/Message.antt =====
-- message.h and message.cpp: a message, the tag table and `split_payload`.
pub mod Checks
pub mod Split
use csfassignment.Base.{
  ℕ, zero, suc, ◌+◌, Bool, true, false, not, ◌&&◌, ◌||◌, List, [], ◌∷◌, ◌++◌, Option, none, some,
  Bytes, codes, length, take, drop, ltb, ◌==◌, if◌then◌else◌,
}
use csfassignment.Text.{str_eq, find, trim, has_colon}

-- `struct Message`. The member `data` is `payload` here, since `data` is a reserved word.
pub record Message : Type 0 where
  pub tag : Bytes
  pub payload : Bytes
  pub size : ℕ

abbrev pub max_len : ℕ
max_len = 255

abbrev pub tag_err : Bytes
tag_err = codes "err"

abbrev pub tag_ok : Bytes
tag_ok = codes "ok"

abbrev pub tag_slogin : Bytes
tag_slogin = codes "slogin"

abbrev pub tag_rlogin : Bytes
tag_rlogin = codes "rlogin"

abbrev pub tag_join : Bytes
tag_join = codes "join"

abbrev pub tag_leave : Bytes
tag_leave = codes "leave"

abbrev pub tag_sendall : Bytes
tag_sendall = codes "sendall"

abbrev pub tag_senduser : Bytes
tag_senduser = codes "senduser"

abbrev pub tag_quit : Bytes
tag_quit = codes "quit"

abbrev pub tag_delivery : Bytes
tag_delivery = codes "delivery"

abbrev pub tag_empty : Bytes
tag_empty = codes "empty"

-- The constructors `Message()` and `Message(tag, data)`.
abbrev pub empty_message : Message
empty_message = record { tag = []; payload = []; size = 0 }

abbrev pub message : Bytes → Bytes → Message
message tag payload = record { tag = tag; payload = payload; size = 0 }

-- The getters and the setter.
abbrev pub get_data : Message → Bytes
get_data m = m.payload

abbrev pub get_tag : Message → Bytes
get_tag m = m.tag

abbrev pub get_size : Message → ℕ
get_size m = m.size

abbrev pub set_data : Bytes → Message → Message
set_data d m = record m { payload = d }

-- The tag is one of the tag table.
unfoldable pub in_tag_table : Bytes → Bool
in_tag_table tag =
    str_eq tag tag_err
    || str_eq tag tag_ok
    || str_eq tag tag_slogin
    || str_eq tag tag_rlogin
    || str_eq tag tag_join
    || str_eq tag tag_leave
    || str_eq tag tag_sendall
    || str_eq tag tag_senduser
    || str_eq tag tag_quit
    || str_eq tag tag_delivery
    || str_eq tag tag_empty

-- `std::count` of one character.
unfoldable pub count : ℕ → Bytes → ℕ
count c [] = 0
count c (d ∷ s) = if c == d then suc (count c s) else count c s

-- The loop that cuts `copy` at each colon, and the last `push_back` behind it. The fuel is a bound
-- on the rounds; each round makes `copy` shorter.
unfoldable pub split_loop : ℕ → Bytes → List Bytes → List Bytes
split_loop zero copy result = result
split_loop (suc fuel) copy result = elim (find b':' copy) [
  | some pos ↦ split_loop fuel (drop (suc pos) copy) (result ++ take pos copy ∷ [])
  | none ↦ result ++ copy ∷ []
]

abbrev pub too_long : Bytes
too_long = codes "ERROR The given message was longer than 255 bytes"

abbrev pub has_newline : Bytes
has_newline = codes "ERROR: newline character was found in data"

abbrev pub no_colon : Bytes
no_colon = codes "ERROR no colon separator"

abbrev pub unknown_tag : Bytes
unknown_tag = codes "ERROR The given tag was not apart of the tag table"

abbrev pub bad_structure : Bytes
bad_structure = codes "ERROR The given message payload was not structured correctly"

-- `found` is `find(…) != npos`.
abbrev pub found : Option ℕ → Bool
found none = false
found (some i) = true

unfoldable pub split_payload : Message → List Bytes
unfolding split_loop
split_payload m =
    if ltb 255 (length m.tag + length m.payload)
    then too_long ∷ []
    else if found (find 10 (trim m.payload))
    then has_newline ∷ []
    else if not (found (find b':' m.payload))
    then no_colon ∷ []
    else if not (in_tag_table m.tag)
    then unknown_tag ∷ []
    else if str_eq m.tag tag_delivery && not (count b':' m.payload == 2)
    then bad_structure ∷ []
    else split_loop (suc (length m.payload)) m.payload []
