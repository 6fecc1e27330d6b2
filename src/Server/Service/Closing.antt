-- ===== src/Server/Service/Closing.antt =====
-- The end of a broadcast: its thread gives the lock of the room back.
use csfassignment.Base.{
  ℕ, ◌≡◌, false, [], Option, none, some, ◌==◌, inl, inr, Bool-cases, ==_iff, arith,
}
use csfassignment.Heap.{Store}
use csfassignment.Room.{has_member}
use csfassignment.Server.System.{update}
use csfassignment.Server.Service.{Service}
use csfassignment.Server.Service.Matches.{Job, Matches}

module _ {s : Store} {holder : ℕ → Option ℕ} {jobs : ℕ → Option Job} {a : Service}
    (m : Matches s holder jobs a) where
  -- The end of a broadcast's loop.
  pub closing-Matches :
      (i : ℕ) (b : Job)
      → jobs i ≡ some b
      → b.rest ≡ []
      → Matches s (update holder b.room none) (update jobs i none) a
  unfolding has_member
  closing-Matches i b e f = record {
    flight = m.flight;
    names = m.names;
    titles = m.titles;
    members = m.members;
    queues = m.queues;
    busy = λ j c h.
        let apart : (i == j) ≡ false = ground arith in
        let old = m.busy j c (rw apart at h) in
        record {
          locked = ground (arith, old.locked, (m.busy i b e).locked, ==_iff b.room c.room);
          ascending = old.ascending;
          inside = old.inside;
          owes = old.owes;
        };
    flying = λ u. elim (m.flying u) [
      | inl h ↦ inl h
      | inr (j, c, h, k) ↦ elim (Bool-cases (i == j)) [
        | inl same ↦ ground (arith, ==_iff i j)
        | inr apart ↦ inr (j, c, rw apart h, k)
      ]
    ];
  }
