-- ===== src/Server/Service/Rounds.antt =====
-- One round of a broadcast: what is in flight to a user comes into its queue.
use csfassignment.Base.{
  ℕ, ◌≡◌, ◌≢◌, refl, sym, ap, subst, ◌∙◌, true, false, List, [], ◌∷◌, ◌++◌, append-nil, Option,
  some, Bytes, ◌==◌, if◌then◌else◌, inl, inr, Bool-cases, Option-cases, ==_iff, ==_refl, arith,
}
use csfassignment.Message.{Message}
use csfassignment.Queue.{enqueue}
use csfassignment.Heap.{Store}
use csfassignment.Room.{has_member, deliver_at}
use csfassignment.Room.Members.{IsAscending, below_absent}
use csfassignment.Room.Broadcast.{deliver_lem}
use csfassignment.Server.Effects.{member_of}
use csfassignment.Server.System.{update}
use csfassignment.Server.Service.{Service, inbox}
use csfassignment.Server.Service.Matches.{
  Job, name_at, title_at, queued, due, Busy, Matches, OneRoom,
}

module _ (r : ℕ) (n t : Bytes) (u : ℕ) (s : Store) where
  pub round_name : (v : ℕ) → name_at v (deliver_at r n t u s) ≡ name_at v s
  unfolding deliver_at
  round_name v = elim (Option-cases (s.rooms r)) [
    | inl e ↦ rw (deliver_at, e) refl
    | inr (room, e) ↦
        rw (deliver_at, e) (ground (arith, deliver_lem room.room_name n t u s.users v))
  ]

  pub round_title : (q : ℕ) → title_at q (deliver_at r n t u s) ≡ title_at q s
  unfolding deliver_at
  round_title q = ground arith

  round_member : (v q : ℕ) → member_of v q (deliver_at r n t u s) ≡ member_of v q s
  unfolding deliver_at
  round_member v q = ground arith

  round_queued :
      (v : ℕ)
      → queued v (deliver_at r n t u s)
        ≡ (if v == u then queued v s ++ due (title_at r s) (name_at v s) n t else queued v s)
  unfolding deliver_at enqueue
  round_queued v = elim (Option-cases (s.rooms r)) [
    | inl e ↦ rw (deliver_at, title_at, e) (ground (arith, append-nil (queued v s)))
    | inr (room, e) ↦
        rw (deliver_at, title_at, e)
          (ground (arith, deliver_lem room.room_name n t u s.users v, append-nil (queued v s)))
  ]

module _ {s : Store} {holder : ℕ → Option ℕ} {jobs : ℕ → Option Job} {a : Service}
    (m : Matches s holder jobs a) (alone : OneRoom s) (i : ℕ) (b : Job) (u : ℕ) (rest : List ℕ)
    (e : jobs i ≡ some b) (f : b.rest ≡ u ∷ rest) where
  abbrev after : Store
  after = deliver_at b.room b.sender b.text u s

  abbrev flight : ℕ → List Message
  flight w = if w == u then [] else m.flight w

  mine : Busy s holder m.flight i b
  mine = m.busy i b e

  owed : m.flight u ≡ due (title_at b.room s) (name_at u s) b.sender b.text
  unfolding has_member
  owed = mine.owes u (rw f (ground (arith, ==_refl u)))

  queues :
      (w : ℕ)
      → inbox w a.log ≡ a.taken w ++ (queued w (deliver_at b.room b.sender b.text u s) ++ flight w)
  queues w = elim (Bool-cases (w == u)) [
    | inl same ↦
        let wu : w ≡ u = (==_iff w u).0 same in
        m.queues w
        ∙ ap (λ x. a.taken w ++ x)
            (rw (round_queued b.room b.sender b.text u s w) (
              rw same (
                ground (
                  arith,
                  owed,
                  append-nil (queued w s ++ due (title_at b.room s) (name_at w s) b.sender b.text),
                ))))
    | inr other ↦
        m.queues w
        ∙ ap (λ x. a.taken w ++ x) (rw (round_queued b.room b.sender b.text u s w) (rw other refl))
  ]

  kept :
      (j : ℕ) (c : Job) (l : List ℕ)
      → Busy s holder m.flight j c
      → IsAscending l
      → ((w : ℕ) → has_member w l ≡ true → has_member w c.rest ≡ true)
      → ((w : ℕ) → has_member w l ≡ true → (w == u) ≡ false)
      → Busy after holder flight j (record c { rest = l })
  kept j c l old order sub apart = record {
    locked = old.locked;
    ascending = order;
    inside = λ w h. round_member b.room b.sender b.text u s w c.room ∙ old.inside w (sub w h);
    owes = λ w h.
        rw
          (
            apart w h,
            round_title b.room b.sender b.text u s c.room,
            round_name b.room b.sender b.text u s w,
          )
          (old.owes w (sub w h));
  }

  order : IsAscending (u ∷ rest)
  order = rw f at mine.ascending

  mine_after : Busy after holder flight i (record b { rest = rest })
  unfolding has_member
  mine_after =
      kept i b rest mine order.1 (λ w h. rw f (ground arith))
        (λ w h. ground (arith, below_absent u rest order.0, ==_iff w u))

  here : member_of u b.room s ≡ true
  unfolding has_member
  here = mine.inside u (rw f (ground (arith, ==_refl u)))

  other_after : (j : ℕ) (c : Job) → i ≢ j → jobs j ≡ some c → Busy after holder flight j c
  other_after j c apart h =
      let old = m.busy j c h in
      kept j c c.rest old old.ascending (λ w k. k)
        (λ w k. elim (Bool-cases (w == u)) [
          | inr q ↦ q
          | inl q ↦
              let there : member_of u c.room s ≡ true =
                subst (λ x. member_of x c.room s ≡ true) ((==_iff w u).0 q) (old.inside w k) in
              let room : b.room ≡ c.room = alone u b.room c.room here there in
              absurd (ground (arith, apart, sym mine.locked ∙ ap holder room ∙ old.locked))
        ])

  left :
      (w : ℕ)
      → (w == u) ≡ false
      → (j : ℕ) (c : Job) → jobs j ≡ some c
      → has_member w c.rest ≡ true
      → i ≡ j
      → has_member w rest ≡ true
  unfolding has_member
  left w other j c h k ij =
      let bc : some b ≡ some c = sym e ∙ ap jobs ij ∙ h in
      let cr : c.rest ≡ u ∷ rest = ground arith in ground (arith, ap (has_member w) cr)

  -- One round of the loop.
  pub round-Matches : Matches after holder (update jobs i (some (record b { rest = rest }))) a
  unfolding has_member
  round-Matches = record {
    flight = flight;
    names = λ w. m.names w ∙ sym (round_name b.room b.sender b.text u s w);
    titles = λ r. m.titles r ∙ sym (round_title b.room b.sender b.text u s r);
    members = λ w r. m.members w r ∙ sym (round_member b.room b.sender b.text u s w r);
    queues = queues;
    busy = λ j c h. elim (Bool-cases (i == j)) [
      | inl same ↦
          let ij : i ≡ j = (==_iff i j).0 same in
          let bc : record b { rest = rest } ≡ c = ground arith in
          subst (Busy after holder flight j) bc
            (subst (λ k. Busy after holder flight k (record b { rest = rest })) ij mine_after)
      | inr apart ↦ other_after j c (λ q. ground (arith, ==_iff i j)) (rw apart at h)
    ];
    flying = λ w. elim (Bool-cases (w == u)) [
      | inl same ↦ inl (rw same refl)
      | inr other ↦ rw other (elim (m.flying w) [
        | inl h ↦ inl h
        | inr (j, c, h, k) ↦ elim (Bool-cases (i == j)) [
          | inl same ↦ inr (
            j,
            record b { rest = rest },
            rw same refl,
            left w other j c h k ((==_iff i j).0 same),
          )
          | inr apart ↦ inr (j, c, rw apart h, k)
        ]
      ])
    ];
  }
