-- ===== src/Server/Service/Opening.antt =====
-- The start of a broadcast: the service has the post in its log when the lock of the room is taken.
use csfassignment.Base.{
  ℕ, ◌≡◌, ◌≢◌, refl, sym, ap, subst, ◌∙◌, true, false, List, [], ◌∷◌, ◌++◌, append_assoc,
  append-nil, Option, none, some, Bytes, ◌==◌, if◌then◌else◌, inl, inr, Bool-cases, ==_iff, ==_refl,
  arith,
}
use csfassignment.Message.{Message}
use csfassignment.Heap.{Store, Room}
use csfassignment.Room.{has_member, delivery, members_at}
use csfassignment.Server.Invariant.{Inv}
use csfassignment.Server.Effects.{member_of}
use csfassignment.Server.System.{update}
use csfassignment.Server.Service.{Service, post, inbox, inbox-append}
use csfassignment.Server.Service.Matches.{
  Job, name_at, title_at, queued, due, Busy, Matches, OneRoom,
}

module _ {s : Store} {holder : ℕ → Option ℕ} {jobs : ℕ → Option Job} {a : Service}
    (m : Matches s holder jobs a) (v : Inv s) (alone : OneRoom s) (i r : ℕ) (n t : Bytes)
    (room : Room) (free : holder r ≡ none) (idle : jobs i ≡ none) (e : s.rooms r ≡ some room) where
  abbrev job : Job
  job = record { room = r; sender = n; text = t; rest = members_at r s }

  abbrev flight : ℕ → List Message
  flight u = if member_of u r s then due (title_at r s) (name_at u s) n t else m.flight u

  member_at : (u : ℕ) → has_member u (members_at r s) ≡ member_of u r s
  member_at u = rw (members_at, member_of, e) refl

  title : title_at r s ≡ some room.room_name
  title = rw (title_at, e) refl

  other : (j : ℕ) (c : Job) → jobs j ≡ some c → r ≢ c.room
  other j c h q = ground (arith, (m.busy j c h).locked, ap holder q)

  elsewhere :
      (j : ℕ) (c : Job)
      → jobs j ≡ some c
      → (u : ℕ) → has_member u c.rest ≡ true
      → member_of u r s ≡ false
  elsewhere j c h u k = elim (Bool-cases (member_of u r s)) [
    | inr q ↦ q
    | inl q ↦ absurd (other j c h (alone u r c.room q ((m.busy j c h).inside u k)))
  ]

  mine_after : Busy s (update holder r (some i)) flight i job
  mine_after = record {
    locked = rw ==_refl refl;
    ascending = rw (members_at, e) (v.ascending r room e);
    inside = λ u h. sym (member_at u) ∙ h;
    owes = λ u h. rw (sym (member_at u) ∙ h) refl;
  }

  other_after : (j : ℕ) (c : Job) → jobs j ≡ some c → Busy s (update holder r (some i)) flight j c
  other_after j c h =
      let old = m.busy j c h in
      record {
        locked = ground (arith, old.locked, other j c h, ==_iff r c.room);
        ascending = old.ascending;
        inside = old.inside;
        owes = λ u k. rw (elsewhere j c h u k) (old.owes u k);
      }

  -- Nothing is in flight to a member of a room whose lock is free.
  landed : (u : ℕ) → member_of u r s ≡ true → m.flight u ≡ []
  landed u h = elim (m.flying u) [
    | inl q ↦ q
    | inr (j, c, q, k) ↦ absurd (ground (arith, h, elsewhere j c q u k))
  ]

  behind :
      (u : ℕ)
      → (queued u s ++ m.flight u)
          ++ (if (post a r room.room_name n t).reaches u
              then delivery room.room_name n t ∷ []
              else [])
        ≡ queued u s ++ flight u
  behind u = elim (Bool-cases (member_of u r s)) [
    | inl inside ↦
        rw (inside, landed u inside, m.members u r, m.names u, title)
          (ground (arith, inside, append-nil (queued u s)))
    | inr outside ↦
        rw (outside, m.members u r) (ground (arith, outside, append-nil (queued u s ++ m.flight u)))
  ]

  queues :
      (u : ℕ)
      → inbox u (a.log ++ post a r room.room_name n t ∷ []) ≡ a.taken u ++ (queued u s ++ flight u)
  queues u =
      inbox-append u a.log (post a r room.room_name n t)
      ∙ ap
          (λ x.
            x
            ++ (if (post a r room.room_name n t).reaches u
                then delivery room.room_name n t ∷ []
                else []))
          (m.queues u)
      ∙ append_assoc (a.taken u) (queued u s ++ m.flight u) _
      ∙ ap (λ x. a.taken u ++ x) (behind u)

  -- A thread takes the lock of a room for a broadcast.
  pub opening-Matches :
      Matches s
        (update holder r (some i))
        (update jobs i (some job))
        (record a { log = a.log ++ post a r room.room_name n t ∷ [] })
  opening-Matches = record {
    flight = flight;
    names = m.names;
    titles = m.titles;
    members = m.members;
    queues = queues;
    busy = λ j c h. elim (Bool-cases (i == j)) [
      | inl same ↦
          let ij : i ≡ j = (==_iff i j).0 same in
          let bc : job ≡ c = ground arith in
          subst (Busy s (update holder r (some i)) flight j) bc
            (subst (λ k. Busy s (update holder r (some i)) flight k job) ij mine_after)
      | inr apart ↦ other_after j c (rw apart at h)
    ];
    flying = λ u. elim (Bool-cases (member_of u r s)) [
      | inl inside ↦ inr (i, job, rw ==_refl refl, member_at u ∙ inside)
      | inr outside ↦ rw outside (elim (m.flying u) [
        | inl h ↦ inl h
        | inr (j, c, h, k) ↦ elim (Bool-cases (i == j)) [
          | inl same ↦ cc (ap jobs ((==_iff i j).0 same))
          | inr apart ↦ inr (j, c, rw apart h, k)
        ]
      ])
    ];
  }
