-- ===== src/Tests/World.antt =====
-- A world for the examples: lines that are still to be read, and what has been written.
use csfassignment.Base.{
  ℕ, ◌≡◌, refl, List, [], ◌∷◌, ◌++◌, Option, none, some, Bytes, length, if◌then◌else◌, inl, inr,
  Bool-cases, Option-cases,
}
use csfassignment.Base.Int.{pos}
use csfassignment.Csapp.{Csapp, Line}
use csfassignment.Connection.{Connection}
use csfassignment.Server.Program.{Program, done, call, Op, Answer, broadcasts}
use csfassignment.Server.Chat.{Exit}
use csfassignment.Server.System.{
  Thread, System, update, resting, sending, ready, turned, turns, opens, delivers, closes, Reach,
  later,
}
use csfassignment.Room.{members_at, deliver_at}

pub record World : Type 0 where
  pub lines : List Bytes
  pub written : Bytes

-- The world in which `rio_readlineb` takes the next line and `rio_writen` writes all.
abbrev pub next_line : World → Line World ℕ
next_line w = elim w.lines [
  | [] ↦ record { count = pos 0; bytes = []; rio = 0; world = w }
  | l ∷ ls ↦ record { count = pos (length l); bytes = l; rio = 0; world = record w { lines = ls } }
]

abbrev pub world_lib : Csapp World ℕ
world_lib = record {
  open_clientfd = λ host port w. (pos 4, w);
  rio_readinitb = λ fd b. b;
  rio_readlineb = λ b n w. next_line w;
  rio_writen = λ fd s w. (pos (length s), record w { written = w.written ++ s });
  close = λ fd w. w;
}

abbrev pub clock_of : World → Option ℕ
clock_of w = some 0

-- A call of a thread that is in no broadcast, if it may be made.
abbrev pub call_turn :
    System World ℕ → ℕ → Connection ℕ → (o : Op) → (Answer o → Program Exit) → System World ℕ
call_turn s i c (broadcasts r n t) k = elim (s.holder r) [
  | some j ↦ s
  | none ↦ record s {
    threads = update s.threads i (sending c (call (broadcasts r n t) k) (members_at r s.store));
    holder = update s.holder r (some i);
  }
]
call_turn s i c o k = if ready s.holder o then turned world_lib clock_of 0 5 s i c o k else s

-- One step of a thread, if it can take one.
abbrev pub turn_from :
    System World ℕ → ℕ → Connection ℕ → Program Exit → Option (List ℕ) → System World ℕ
turn_from s i c (done e) rest = s
turn_from s i c (call o k) none = call_turn s i c o k
turn_from s i c (call (broadcasts r n t) k) (some []) = record s {
  threads = update s.threads i (resting c (k tt));
  holder = update s.holder r none;
}
turn_from s i c (call (broadcasts r n t) k) (some (u ∷ rest)) = record s {
  store = deliver_at r n t u s.store;
  threads = update s.threads i (sending c (call (broadcasts r n t) k) rest);
}
turn_from s i c (call o k) (some rest) = s

abbrev pub turn_of : System World ℕ → ℕ → Option (Thread ℕ) → System World ℕ
turn_of s i none = s
turn_of s i (some t) = turn_from s i t.conn t.program t.pending

abbrev pub Reached : World → System World ℕ → Type 0
Reached w s = Reach world_lib clock_of 0 5 w s

ready-Reach :
    {w : World} (s : System World ℕ) (i : ℕ) (c : Connection ℕ) (o : Op)
    (k : Answer o → Program Exit)
    → s.threads i ≡ resting c (call o k)
    → Reached w s
    → Reached w (if ready s.holder o then turned world_lib clock_of 0 5 s i c o k else s)
ready-Reach {w} s i c o k h r = elim (Bool-cases (ready s.holder o)) [
  | inl free ↦ rw free (later r (turns i c o k free h))
  | inr taken ↦ rw taken r
]

call_turn-Reach :
    {w : World} (s : System World ℕ) (i : ℕ) (c : Connection ℕ) (o : Op)
    (k : Answer o → Program Exit)
    → s.threads i ≡ resting c (call o k)
    → Reached w s
    → Reached w (call_turn s i c o k)
call_turn-Reach s i c (broadcasts q n t) k h r = elim (Option-cases (s.holder q)) [
  | inl free ↦ rw (call_turn, free) (later r (opens i c q n t k free h))
  | inr (j, taken) ↦ rw (call_turn, taken) r
]
call_turn-Reach s i c o k h r = ready-Reach s i c o k h r

turn_from-Reach :
    {w : World} (s : System World ℕ) (i : ℕ) (c : Connection ℕ) (p : Program Exit)
    (rest : Option (List ℕ))
    → s.threads i ≡ some (record { conn = c; program = p; pending = rest })
    → Reached w s
    → Reached w (turn_from s i c p rest)
turn_from-Reach s i c (done e) rest h r = r
turn_from-Reach s i c (call o k) none h r = call_turn-Reach s i c o k h r
turn_from-Reach s i c (call (broadcasts q n t) k) (some []) h r = later r (closes i c q n t k h)
turn_from-Reach s i c (call (broadcasts q n t) k) (some (u ∷ rest)) h r =
    later r (delivers i c q n t k u rest h)
turn_from-Reach s i c (call o k) (some rest) h r = r

turn_of-Reach :
    {w : World} (s : System World ℕ) (i : ℕ) (t : Option (Thread ℕ))
    → s.threads i ≡ t
    → Reached w s
    → Reached w (turn_of s i t)
turn_of-Reach s i none h r = r
turn_of-Reach s i (some t) h r = turn_from-Reach s i t.conn t.program t.pending h r

-- The threads of a list take a call each, in turn.
abbrev pub schedule : List ℕ → System World ℕ → System World ℕ
schedule [] s = s
schedule (i ∷ l) s = schedule l (turn_of s i (s.threads i))

pub schedule-Reach :
    {w : World} (l : List ℕ) (s : System World ℕ) → Reached w s → Reached w (schedule l s)
schedule-Reach [] s r = r
schedule-Reach (i ∷ l) s r =
    schedule-Reach l (turn_of s i (s.threads i)) (turn_of-Reach s i (s.threads i) refl r)
