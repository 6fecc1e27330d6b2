-- ===== src/Connection/Laws.antt =====
-- What `send` and `receive` of connection.cpp promise to their callers, over any `Csapp`.
use csfassignment.Base.{
  ◌+◌, ◌≡◌, ◌≢◌, refl, inl, inr, ◌⊎◌, Bool, true, false, ◌∷◌, ◌++◌, none, some, Bytes, length,
  Bool-cases, Option-cases, ◌↔◌, arith,
}
use csfassignment.Base.Int.{pos, int_eq_sound, less_than_one}
use csfassignment.Csapp.{Csapp, Line}
use csfassignment.Text.{trim, rtrim}
use csfassignment.Text.Find.{IsLower}
use csfassignment.Message.{Message, max_len, tag_err}
use csfassignment.Connection.{
  Connection, eof_or_error, invalid_msg, c_string, wire, decode, send, receive,
}
use csfassignment.Connection.Decode.{IsWritable, decode_iff, decode-wire, length-wire}

module _ {W B : Type 0} (lib : Csapp W B) where
  -- The line that `receive` reads.
  abbrev pub line_read : Connection B → W → Line W B
  line_read c w = lib.rio_readlineb c.fdbuf (max_len + 1) w

  pub receive_missing :
      (m : Message) (c : Connection B) (w : W)
      → less_than_one (line_read c w).count ≡ true
      → receive lib m c w ≡ (
        false,
        record m { tag = tag_err },
        record c { fdbuf = (line_read c w).rio; last_result = eof_or_error },
        (line_read c w).world,
      )
  unfolding receive
  receive_missing m c w e = rw (receive, e)

  pub receive_invalid :
      (m : Message) (c : Connection B) (w : W)
      → less_than_one (line_read c w).count ≡ false
      → decode (line_read c w).bytes ≡ none
      → receive lib m c w ≡ (
        false,
        record m { tag = tag_err },
        record c { fdbuf = (line_read c w).rio; last_result = invalid_msg },
        (line_read c w).world,
      )
  unfolding receive
  receive_invalid m c w e f = rw (receive, e, f)

  pub receive_valid :
      (m : Message) (c : Connection B) (w : W) (t d : Bytes)
      → less_than_one (line_read c w).count ≡ false
      → decode (line_read c w).bytes ≡ some (t, d)
      → receive lib m c w ≡ (
        true,
        record m { tag = t; payload = d },
        record c { fdbuf = (line_read c w).rio },
        (line_read c w).world,
      )
  unfolding receive
  receive_valid m c w t d e f = rw (receive, e, f)

  -- What a successful `receive` promises: the message afterwards is the line read, up to the first
  -- zero byte and trimmed, split at its first colon; the size and the last result are left alone.
  pub record Received (m m' : Message) (c c' : Connection B) (w : W) : Type 0 where
    pub some_line : less_than_one (line_read c w).count ≡ false
    pub split : trim (c_string (line_read c w).bytes) ≡ m'.tag ++ b':' ∷ m'.payload
    pub lower : IsLower m'.tag
    pub same_size : m'.size ≡ m.size
    pub stale_result : c'.last_result ≡ c.last_result

  -- What a failed `receive` promises: the tag is `err`, the data are those of before, and the last
  -- result tells a missing line from one that is no message.
  pub record Refused (m m' : Message) (c c' : Connection B) (w : W) : Type 0 where
    pub tagged : m'.tag ≡ tag_err
    pub old_data : m'.payload ≡ m.payload
    pub reason :
        ((less_than_one (line_read c w).count ≡ true) × (c'.last_result ≡ eof_or_error))
        ⊎ ((less_than_one (line_read c w).count ≡ false)
            × ((t d : Bytes) → IsLower t → trim (c_string (line_read c w).bytes) ≢ t ++ b':' ∷ d)
            × (c'.last_result ≡ invalid_msg))

  abbrev pub Outcome : Message → Connection B → W → Bool × Message × Connection B × W → Type 0
  Outcome m c w (done, m', c', w') =
      (((done ≡ true) × Received m m' c c' w) ⊎ ((done ≡ false) × Refused m m' c c' w))
      × (c'.fd ≡ c.fd)
      × (w' ≡ (line_read c w).world)

  -- `receive` succeeds exactly if a line was read that, up to its first zero byte and trimmed, is a
  -- tag of lower-case letters, a colon and data; it yields these and leaves the last result alone.
  -- Otherwise the tag is `err`, the data are those of before, and the last result tells a missing
  -- line from one that is no message. The descriptor stays, and the line is all that is read.
  pub receive-Outcome : (m : Message) (c : Connection B) (w : W) → Outcome m c w (receive lib m c w)
  receive-Outcome m c w = elim (Bool-cases (less_than_one (line_read c w).count)) [
    | inl e ↦
        rw (receive_missing m c w e) (
          inr (refl, record { tagged = refl; old_data = refl; reason = inl (e, refl) }),
          refl,
          refl,
        )
    | inr e ↦ elim (Option-cases (decode (line_read c w).bytes)) [
      | inl f ↦ rw (receive_invalid m c w e f) (
        inr (
          refl,
          record {
            tagged = refl;
            old_data = refl;
            reason = inr (e, (λ t d l q. cc ((decode_iff _ t d).1 (q, l))), refl);
          },
        ),
        refl,
        refl,
      )
      | inr ((t, d), f) ↦
          let (split, lower) = (decode_iff _ t d).0 f in
          rw (receive_valid m c w t d e f) (
            inl (
              refl,
              record {
                some_line = e;
                split = split;
                lower = lower;
                same_size = refl;
                stale_result = refl;
              },
            ),
            refl,
            refl,
          )
    ]
  ]

  -- The kernel took the whole text that was passed to `rio_writen`.
  abbrev pub Wrote : Bytes → Connection B → W → Type 0
  Wrote text c w = (lib.rio_writen c.fd text w).0 ≡ pos (length text)

  -- `send` succeeds exactly if every byte of the message's line up to its first zero byte was
  -- written, and otherwise sets the last result; the descriptor stays.
  pub send_outcome :
      (m : Message) (c : Connection B) (w : W)
      → let (done, c', w') = send lib m c w in
        ((done ≡ true) ↔ Wrote (c_string (wire m)) c w)
        × ((done ≡ false) → c' ≡ record c { last_result = eof_or_error })
        × ((done ≡ true) → c' ≡ c)
        × (w' ≡ (lib.rio_writen c.fd (c_string (wire m)) w).1)
  unfolding send
  send_outcome m c w = ground (
    arith,
    int_eq_sound (lib.rio_writen c.fd (c_string (wire m)) w).0 (pos (length (c_string (wire m)))),
  )

  -- A line that carries the text `s` reaches the reader whole.
  abbrev pub Carries : Bytes → Connection B → W → Type 0
  Carries s c w = ((line_read c w).count ≡ pos (length s)) × ((line_read c w).bytes ≡ s)

  -- What was sent is received: if the line of a message reaches the other end whole, `receive` there
  -- yields the tag and the data, but for white space at the end of the data.
  pub receive-wire :
      (m old : Message) (c : Connection B) (w : W)
      → IsWritable m
      → Carries (wire m) c w
      → let (done, m', c', w') = receive lib old c w in
        (done ≡ true) × (m'.tag ≡ m.tag) × (m'.payload ≡ rtrim m.payload)
  receive-wire m old c w ok h =
      rw (receive_valid old c w m.tag (rtrim m.payload) some_line decoded) (refl, refl, refl)
    where
      some_line : less_than_one (line_read c w).count ≡ false
      some_line = rw (h.0, length-wire m) (ground arith)

      decoded : decode (line_read c w).bytes ≡ some (m.tag, rtrim m.payload)
      decoded = rw h.1 (decode-wire m ok)
