-- ===== src/Tests/Talks.antt =====
-- Examples for a sender and its thread, over a network of two descriptors.
use csfassignment.Base.{
  ℕ, ◌≡◌, ◌≢◌, refl, sym, true, none, List, [], ◌∷◌, ◌++◌, some, Option, Bytes, codes, length,
  if◌then◌else◌, All, Bool-cases, inl, inr, arith,
}
use csfassignment.Base.Int.{ℤ, pos, negsuc, int_eq, int_eq_sound}
use csfassignment.Csapp.{Csapp, Line}
use csfassignment.Text.{
  str_eq, contains, find, find_first_not_of, find_last_not_of, ltrim, rtrim, trim, substr?,
  substr_len?,
}
use csfassignment.Message.{Message, message, empty_message, tag_sendall}
use csfassignment.Connection.{Connection, success}
use csfassignment.Heap.{empty_store, put, lookup}
use csfassignment.Server.{is_valid_room_name, all_alnum, is_alnum, find_or_create_room}
use csfassignment.Server.Program.{Op, makes_user, finds_room, adds, effect, make_user, ◌>>=◌}
use csfassignment.Server.Chat.{worker, sender_loop}
use csfassignment.Server.Invariant.{empty_store-Inv}
use csfassignment.Server.Deeds.{Deed}
use csfassignment.Client.{Client}
use csfassignment.Client.Sender.{is_command, has_word, sender_session}
use csfassignment.Dialogue.{Served, served_lib}
use csfassignment.Dialogue.Link.{IsReliable}
use csfassignment.Dialogue.Exchange.{IsQuiet}
use csfassignment.Dialogue.Quit.{closing}
use csfassignment.Dialogue.Talk.{prompted, conversation}
use csfassignment.Dialogue.Course.{EndedAt}
use csfassignment.Dialogue.Typed.{IsTyped}
use csfassignment.Dialogue.Whole.{entrant, beginning, sender_session_lem}

-- The lines that are still to be read from each descriptor.
abbrev pub Pipes : Type 0
Pipes = ℤ → List Bytes

abbrev filled : ℤ → List Bytes → Pipes → Pipes
filled fd ls w e = if int_eq fd e then ls else w e

-- The client has descriptor 4, its thread 5; any other is joined to itself.
abbrev other_end : ℤ → ℤ
other_end fd = if int_eq fd (pos 4) then pos 5 else if int_eq fd (pos 5) then pos 4 else fd

abbrev from_pipe : ℤ → Pipes → List Bytes → Line Pipes ℤ
from_pipe b w [] = record { count = pos 0; bytes = []; rio = b; world = w }
from_pipe b w (l ∷ rest) = record {
  count = pos (length l);
  bytes = l;
  rio = b;
  world = filled b rest w;
}

abbrev pub pipes_lib : Csapp Pipes ℤ
pipes_lib = record {
  open_clientfd = λ host port w. (pos 4, w);
  rio_readinitb = λ fd b. fd;
  rio_readlineb = λ b n w. from_pipe b w (w b);
  rio_writen = λ fd s w. (pos (length s), filled (other_end fd) (w (other_end fd) ++ s ∷ []) w);
  close = λ fd w. w;
}

int_eq_refl : (x : ℤ) → int_eq x x ≡ true
int_eq_refl (pos n) = ground arith
int_eq_refl (negsuc n) = ground arith

filled_same : (fd : ℤ) (ls : List Bytes) (w : Pipes) → filled fd ls w fd ≡ ls
filled_same fd ls w = rw (int_eq_refl fd) refl

filled_other : (fd e : ℤ) (ls : List Bytes) (w : Pipes) → e ≢ fd → filled fd ls w e ≡ w e
filled_other fd e ls w h = elim (Bool-cases (int_eq fd e)) [
  | inl same ↦ absurd (h (sym (int_eq_sound fd e same)))
  | inr other ↦ rw other refl
]

from_pipe_apart : (b c : ℤ) (w : Pipes) (ls : List Bytes) → c ≢ b → (from_pipe b w ls).world c ≡ w c
from_pipe_apart b c w [] h = refl
from_pipe_apart b c w (l ∷ rest) h = filled_other b c rest w h

pub pipes-IsReliable : IsReliable pipes_lib (λ b. b) other_end (λ b w. w b)
pipes-IsReliable = record {
  reads = λ b n w l rest e h. rw e (refl, refl, refl, filled_same b rest w);
  reads_apart = λ b n w c h. from_pipe_apart b c w (w b) h;
  writes = λ fd l w h. refl;
  writes_there = λ fd l w c h e. rw e (filled_same (other_end fd) _ w);
  writes_apart = λ fd l w c h. filled_other (other_end fd) c _ w h;
  closes_apart = λ fd w c h. refl;
}

abbrev pub server_end : Connection ℤ
server_end = record { fd = pos 5; fdbuf = pos 5; last_result = success }

-- The lines that are typed before `/quit`.
abbrev pub typed : List Bytes
typed = codes "hi" ∷ codes "/join tea" ∷ codes "/dance" ∷ codes " hello " ∷ codes "/leave" ∷ []

-- Another user logs in before ann, and is in the room before her.
abbrev deed_of : Op → Deed
deed_of o = record { clock = some 0; op = o }

abbrev pub others : List (List Deed)
others =
    (deed_of (makes_user (codes "eve")) ∷ [])
    ∷ []
    ∷ (deed_of (finds_room (codes "tea")) ∷ deed_of (adds 2 0) ∷ [])
    ∷ []

abbrev pub ann : Client (Served Pipes ℤ) ℤ
ann = record {
  conn = record { fd = pos 4; fdbuf = pos 4; last_result = success };
  world = record {
    world = λ fd. [];
    store = empty_store;
    conn = server_end;
    program = worker 9;
    others = others;
  };
  console = record { input = typed ++ codes "/quit" ∷ []; out = []; err = [] };
}

abbrev pub no_clock : Pipes → Option ℕ
no_clock w = some 0

pub ann-IsQuiet : IsQuiet pipes-IsReliable no_clock ann.conn server_end (λ fd. [])
ann-IsQuiet = record {
  at_near = refl;
  at_far = refl;
  to_near = refl;
  to_far = refl;
  apart = λ e. ground arith;
  near_idle = refl;
  far_idle = refl;
}

pub typed-IsTyped : All IsTyped typed
unfolding trim ltrim rtrim find_first_not_of find_last_not_of contains find is_command has_word
    substr? substr_len? str_eq
typed-IsTyped = (
  (ground arith, tt),
  ((ground arith, tt), ((ground arith, tt), ((ground arith, tt), ((ground arith, tt), tt)))),
)

-- Before it is in a room, what is typed is refused; in the room it is sent.
ann_told :
    (conversation (entrant ann) typed (beginning (codes "ann") ann)).console.err
    ≡ codes "not in any room" ∷ codes "-Invalid command-\nValid Commands: /join /leave /quit\n" ∷ []
unfolding trim ltrim rtrim find_first_not_of find_last_not_of contains find is_command has_word
    substr? substr_len? str_eq make_user is_valid_room_name all_alnum is_alnum find_or_create_room
    put lookup
ann_told = refl

sender_session_lem_example :
    EndedAt pipes-IsReliable no_clock 1
      (prompted (conversation 1 typed (beginning (codes "ann") ann)))
      (sender_session (served_lib pipes_lib no_clock) 6 (codes "ann") ann)
unfolding trim ltrim rtrim find_first_not_of find_last_not_of contains find is_command has_word
    substr? substr_len? str_eq effect make_user
sender_session_lem_example =
    sender_session_lem pipes-IsReliable no_clock (codes "ann") typed (codes "/quit") [] 6 9 ann
      ann-IsQuiet refl empty_store-Inv (ground arith) typed-IsTyped refl refl (omega arith)
      (omega arith)

-- A client that has joined no room, between two requests.
abbrev bob : Client (Served Pipes ℤ) ℤ
bob = record {
  conn = ann.conn;
  world = record {
    world = λ fd. [];
    store = (make_user (codes "bob") empty_store).1;
    conn = server_end;
    program = sender_loop 3 0 none empty_message >>= closing;
    others = [];
  };
  console = record { input = []; out = []; err = [] };
}

abbrev shouting : Message
shouting = message tag_sendall (codes "hi")
