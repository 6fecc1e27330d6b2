-- ===== src/Server/Service/Access.antt =====
-- Who may be in the operations of a user's queue: in Queue/Atomic one thread enqueues and one
-- dequeues at a time.
use csfassignment.Base.{ℕ, ◌≡◌, ap, ◌≢◌, true, false, Option, some, Bool-cases, inl, inr}
use csfassignment.Csapp.{Csapp}
use csfassignment.Connection.{Connection}
use csfassignment.Room.{has_member}
use csfassignment.Queue.{Fetch}
use csfassignment.Server.Program.{Program, call, dequeues}
use csfassignment.Server.Chat.{Exit}
use csfassignment.Server.Membership.{EndedOut}
use csfassignment.Server.System.{System, Reach, resting}
use csfassignment.Server.System.Ghost.{owner, Obeys-guard}
use csfassignment.Server.System.Turn.{Placed-one_room}
use csfassignment.Server.System.Invariant.{Reach-Inv}
use csfassignment.Server.Service.Matches.{Job, jobs_of}
use csfassignment.Server.Service.Refinement.{Reach-Runs}

module _ {W B : Type 0} (lib : Csapp W B) (clock : W → Option ℕ) (raw : B) (fuel : ℕ) where
  -- In every reachable state, if a broadcast in progress has still to send to a user, the broadcast of
  -- another thread has not: no two threads put messages into a queue at a time.
  pub one_sender :
      {w : W} {s : System W B} (u i j : ℕ) (b c : Job)
      → Reach lib clock raw fuel w s
      → jobs_of s.threads i ≡ some b
      → jobs_of s.threads j ≡ some c
      → i ≢ j
      → has_member u b.rest ≡ true
      → has_member u c.rest ≡ false
  one_sender u i j b c r e f apart h =
      let (a, runs, m) = Reach-Runs lib clock raw fuel r in
      let v = Reach-Inv lib clock raw fuel r in
      let x = m.busy i b e in
      let y = m.busy j c f in
      elim (Bool-cases (has_member u c.rest)) [
        | inr out ↦ out
        | inl k ↦
            let same : b.room ≡ c.room =
              Placed-one_room v.placed u b.room c.room (x.inside u h) (y.inside u k) in
            let one : i ≡ j = cc in absurd (apart one)
      ]

  -- In every reachable state, two threads whose next call takes a message from one queue are one.
  pub one_taker :
      {w : W} {s : System W B} (u i j : ℕ) (c d : Connection B) (k l : Fetch → Program Exit)
      → Reach lib clock raw fuel w s
      → s.threads i ≡ resting c (call (dequeues u) k)
      → s.threads j ≡ resting d (call (dequeues u) l)
      → i ≡ j
  one_taker {s = s} u i j c d k l r e f =
      let v = Reach-Inv lib clock raw fuel r in
      let (q, p) = Obeys-guard EndedOut (v.places i) (v.knowns i) (dequeues u) k (v.obeys i _ e) in
      let (q', p') =
        Obeys-guard EndedOut (v.places j) (v.knowns j) (dequeues u) l (v.obeys j _ f) in
      v.placed.distinct i j u (ap owner p) (ap owner p')
