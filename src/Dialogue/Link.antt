-- ===== src/Dialogue/Link.antt =====
-- Two ends of a connection over a network that loses nothing, as named hypotheses on the calls of
-- csapp.c: a line that is written at one end is read whole at the other.
use csfassignment.Base.{
  ℕ, ◌+◌, ◌≤◌, ◌<◌, ◌≡◌, ◌≢◌, refl, true, false, List, [], ◌∷◌, ◌++◌, some, Bytes, codes, length,
  Lacks, All-append, arith,
}
use csfassignment.Base.Int.{ℤ, pos, less_than_one}
use csfassignment.Csapp.{Csapp}
use csfassignment.Text.{rtrim}
use csfassignment.Text.Find.{IsLower-Lacks}
use csfassignment.Message.{Message, max_len}
use csfassignment.Connection.{Connection, wire, decode, send, receive}
use csfassignment.Connection.Decode.{IsWritable, c_string_lem, wire-Lacks, length-wire, decode-wire}
use csfassignment.Connection.Laws.{line_read, receive_valid, Carries}

-- A line: its newline is its last byte.
abbrev pub IsLine : Bytes → Type 0
IsLine l = (s : Bytes) × (l ≡ s ++ 10 ∷ []) × Lacks 10 s

-- `owner` is the descriptor that a buffer reads, `peer` the other end of a descriptor, `lines` what
-- is still to be read through a buffer, in the buffer itself or behind it.
pub record IsReliable {W B : Type 0} (lib : Csapp W B) (owner : B → ℤ) (peer : ℤ → ℤ)
    (lines : B → W → List Bytes) : Type 0 where
  -- `rio_readlineb` hands a line out that fits the buffer.
  pub reads :
      (b : B) (n : ℕ) (w : W) (l : Bytes) (rest : List Bytes)
      → lines b w ≡ l ∷ rest
      → length l < n
      → let r = lib.rio_readlineb b n w in
        (r.count ≡ pos (length l))
        × (r.bytes ≡ l)
        × (owner r.rio ≡ owner b)
        × (lines r.rio r.world ≡ rest)
  pub reads_apart :
      (b : B) (n : ℕ) (w : W) (c : B)
      → owner c ≢ owner b
      → lines c (lib.rio_readlineb b n w).world ≡ lines c w
  -- `rio_writen` writes all of a line, for the other end to read.
  pub writes : (fd : ℤ) (l : Bytes) (w : W) → IsLine l → (lib.rio_writen fd l w).0 ≡ pos (length l)
  pub writes_there :
      (fd : ℤ) (l : Bytes) (w : W) (c : B)
      → IsLine l
      → owner c ≡ peer fd
      → lines c (lib.rio_writen fd l w).1 ≡ lines c w ++ l ∷ []
  pub writes_apart :
      (fd : ℤ) (l : Bytes) (w : W) (c : B)
      → owner c ≢ peer fd
      → lines c (lib.rio_writen fd l w).1 ≡ lines c w
  -- What was written can still be read when the other end is closed.
  pub closes_apart : (fd : ℤ) (w : W) (c : B) → owner c ≢ fd → lines c (lib.close fd w) ≡ lines c w

-- A message that is one line, and that the reader's buffer holds.
pub record IsPlain (m : Message) : Type 0 where
  pub writable : IsWritable m
  pub no_newline : Lacks 10 m.payload
  pub fits : length m.tag + length m.payload ≤ 253

pub wire-IsLine : (m : Message) → IsPlain m → IsLine (wire m)
unfolding wire
wire-IsLine m v = (
  m.tag ++ codes ":" ++ m.payload,
  refl,
  All-append _ (m.tag ++ codes ":") m.payload
      (All-append _ m.tag (codes ":") (IsLower-Lacks 10 m.tag (omega arith) v.writable.lower)
        (omega arith, tt))
      v.no_newline,
)

pub receive-Carries :
    {W B : Type 0} (lib : Csapp W B) (m old : Message) (c : Connection B) (w : W)
    → IsWritable m
    → Carries lib (wire m) c w
    → receive lib old c w ≡ (
      true,
      record old { tag = m.tag; payload = rtrim m.payload },
      record c { fdbuf = (line_read lib c w).rio },
      (line_read lib c w).world,
    )
receive-Carries lib m old c w v (count, bytes) =
    let some_line : less_than_one (line_read lib c w).count ≡ false =
      rw (count, length-wire m) (ground arith) in
    let decoded : decode (line_read lib c w).bytes ≡ some (m.tag, rtrim m.payload) =
      rw bytes (decode-wire m v) in
    receive_valid lib old c w m.tag (rtrim m.payload) some_line decoded

module _ {W B : Type 0} {lib : Csapp W B} {owner : B → ℤ} {peer : ℤ → ℤ}
    {lines : B → W → List Bytes} (h : IsReliable lib owner peer lines) where
  pub send-IsPlain :
      (m : Message) (c : Connection B) (w : W)
      → IsPlain m
      → send lib m c w ≡ (true, c, (lib.rio_writen c.fd (wire m) w).1)
  unfolding send
  send-IsPlain m c w v =
      rw (send, c_string_lem (wire m) (wire-Lacks m v.writable))
        (rw (h.writes c.fd (wire m) w (wire-IsLine m v)) (ground arith))

  pub receive-IsPlain :
      (m old : Message) (c : Connection B) (w : W) (rest : List Bytes)
      → IsPlain m
      → lines c.fdbuf w ≡ wire m ∷ rest
      → receive lib old c w ≡ (
        true,
        record old { tag = m.tag; payload = rtrim m.payload },
        record c { fdbuf = (line_read lib c w).rio },
        (line_read lib c w).world,
      )
  receive-IsPlain m old c w rest v e =
      let r =
        h.reads c.fdbuf (max_len + 1) w (wire m) rest e (omega (arith, v.fits, length-wire m)) in
      receive-Carries lib m old c w v.writable (r.0, r.1)
