-- ===== src/Dialogue.antt =====
-- A client, sender.cpp or receiver.cpp, and its thread in the server, server.cpp, in one world: the
-- client waits in `rio_readlineb` for an answer, and meanwhile the server's thread reads the request
-- and goes on until it waits for the next one, or for a message in its user's queue. The other
-- threads go on while the client writes.
pub mod Link
pub mod Speech
pub mod Replies
pub mod Exchange
pub mod Synced
pub mod Talk
pub mod Session
pub mod Quit
pub mod Course
pub mod Texts
pub mod Objects
pub mod Kept
pub mod Modest
pub mod Typed
pub mod Still
pub mod Sent
pub mod Heard
pub mod Abroad
pub mod Login
pub mod Entry
pub mod Joined
pub mod Whole
pub mod Screen
pub mod Audience
use csfassignment.Base.{ℕ, List, Option, Bytes}
use csfassignment.Base.Int.{ℤ}
use csfassignment.Csapp.{Csapp, Line}
use csfassignment.Connection.{Connection}
use csfassignment.Heap.{Store}
use csfassignment.Server.Program.{
  Program, done, call, Machine, receives, dequeues, answer, effect, traffic, perform_on,
}
use csfassignment.Server.Chat.{Exit}
use csfassignment.Server.Deeds.{Deed, stir, rest_of}

-- What is behind the client's descriptor: the world outside both processes, the objects of the
-- server, the thread's end of the connection with what the thread has left to do, and what the other
-- threads will do to the objects, request by request.
pub record Served (W B : Type 0) : Type 0 where
  pub world : W
  pub store : Store
  pub conn : Connection B
  pub program : Program Exit
  pub others : List (List Deed)

abbrev pub machine_of : {W B : Type 0} → Served W B → Machine W B
machine_of p = record { conn = p.conn; world = p.world; store = p.store }

abbrev pub stopped_at : {W B : Type 0} → List (List Deed) → Program Exit × Machine W B → Served W B
stopped_at others (q, s) = record {
  world = s.world;
  store = s.store;
  conn = s.conn;
  program = q;
  others = others;
}

-- The objects when a request has been written, in a world `w`: the other threads have gone on.
abbrev pub met : {W B : Type 0} → W → Served W B → Served W B
met w p = record p { world = w; store = stir p.others p.store; others = rest_of p.others }

module _ {W B : Type 0} (lib : Csapp W B) (clock : W → Option ℕ) where
  -- The calls of a thread up to its next receive, to its wait for a message in the queue, or to its
  -- end.
  unfoldable pub advance : Program Exit → Machine W B → Program Exit × Machine W B
  unfolding answer perform_on effect traffic
  advance (done e) s = (done e, s)
  advance (call (receives m) k) s = (call (receives m) k, s)
  advance (call (dequeues u) k) s = (call (dequeues u) k, s)
  advance (call o k) s = advance (k (answer lib clock o s)) (perform_on lib clock o s)

  abbrev pub resume : Program Exit → Machine W B → Program Exit × Machine W B
  resume (call o k) s = advance (k (answer lib clock o s)) (perform_on lib clock o s)
  resume (done e) s = (done e, s)

  -- The thread receives, or takes a message from its queue, and goes on up to its next wait.
  unfoldable pub serve : Served W B → Served W B
  unfolding advance answer perform_on effect traffic
  serve p = stopped_at p.others (resume p.program (machine_of p))

  abbrev pub served_line : Served W B → Line W B → Line (Served W B) B
  served_line p l = record {
    count = l.count;
    bytes = l.bytes;
    rio = l.rio;
    world = record p { world = l.world };
  }

  -- The calls of csapp.c as the client meets them.
  abbrev pub served_lib : Csapp (Served W B) B
  served_lib = record {
    open_clientfd = λ host port p.
        let (fd, w) = lib.open_clientfd host port p.world in (fd, record p { world = w });
    rio_readinitb = lib.rio_readinitb;
    rio_readlineb = λ b n p. let q = serve p in served_line q (lib.rio_readlineb b n q.world);
    rio_writen = λ fd s p. let (k, w) = lib.rio_writen fd s p.world in (k, met w p);
    close = λ fd p. record p { world = lib.close fd p.world };
  }
