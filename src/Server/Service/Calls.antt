-- ===== src/Server/Service/Calls.antt =====
-- The calls that are made at once, against what the service does at each.
use csfassignment.Base.{
  ℕ, ◌≡◌, ◌≢◌, ◌⊎◌, ◌<◌, refl, sym, ap, subst, ◌∙◌, true, false, [], ◌∷◌, ◌++◌, append_assoc,
  Option, none, some, Bytes, ◌==◌, inl, inr, Bool-cases, Option-cases, ==_iff, arith,
}
use csfassignment.Message.{Message}
use csfassignment.Queue.{Fetch, got, nothing}
use csfassignment.Heap.{Store, put, lookup}
use csfassignment.Room.{add_member_at, remove_member_at}
use csfassignment.Server.{find_or_create_room}
use csfassignment.Server.Program.{make_user, dequeue_at}
use csfassignment.Server.Invariant.{Inv}
use csfassignment.Server.Effects.{
  member_of, room_exists, member_of-add_member_at, member_of-remove_member_at,
  member_of-find_or_create_room,
}
use csfassignment.Server.System.{update}
use csfassignment.Server.Service.{
  Service, Event, signs_up, founds, enters, leaves, takes, rests, Act, signing, founding, entering,
  leaving, taking, idling, inbox, set_member,
}
use csfassignment.Server.Service.Matches.{Job, name_at, title_at, queued, Matches}
use csfassignment.Server.Service.Views.{
  add_name, add_queued, add_title, remove_name, remove_queued, remove_title, Dequeued,
  dequeue_at-Dequeued,
}

-- The service can do what is seen, and then the objects stand for it again.
abbrev pub Follows : Service → Event → Store → (ℕ → Option ℕ) → (ℕ → Option Job) → Type 0
Follows a e s holder jobs = (b : Service) × Act a e b × Matches s holder jobs b

member_made : (s : Store) → Inv s → (u r : ℕ) → member_of u r s ≡ true → u < s.next
member_made s v u r h = elim (Option-cases (s.rooms r)) [
  | inl e ↦ ground arith
  | inr (room, e) ↦ v.made r u room e (ground arith)
]

member_room : (s : Store) → Inv s → (u r : ℕ) → member_of u r s ≡ true → r ≢ s.next
member_room s v u r h e = ground (arith, v.free_rooms r)

module _ {s : Store} {holder : ℕ → Option ℕ} {jobs : ℕ → Option Job} {a : Service}
    (m : Matches s holder jobs a) (v : Inv s) where
  -- Broadcasts in progress do not see the change.
  rebuilt :
      (s' : Store) (b : Service)
      → ((u : ℕ) → b.names u ≡ name_at u s')
      → ((r : ℕ) → b.titles r ≡ title_at r s')
      → ((u r : ℕ) → b.members u r ≡ member_of u r s')
      → ((u : ℕ) → inbox u b.log ≡ b.taken u ++ (queued u s' ++ m.flight u))
      → ((i : ℕ) (c : Job)
          → jobs i ≡ some c
          → (u : ℕ) → member_of u c.room s ≡ true
          → (member_of u c.room s' ≡ true)
            × (title_at c.room s' ≡ title_at c.room s)
            × (name_at u s' ≡ name_at u s))
      → Matches s' holder jobs b
  rebuilt s' b names titles members queues same = record {
    flight = m.flight;
    names = names;
    titles = titles;
    members = members;
    queues = queues;
    busy = λ i c h.
        let old = m.busy i c h in
        record {
          locked = old.locked;
          ascending = old.ascending;
          inside = λ u k. (same i c h u (old.inside u k)).0;
          owes = λ u k.
              let (_, title, name) = same i c h u (old.inside u k) in
              rw (title, name) (old.owes u k);
        };
    flying = m.flying;
  }

  pub signing-Follows : (n : Bytes) → Follows a (signs_up s.next n) (make_user n s).1 holder jobs
  unfolding make_user put
  signing-Follows n = (
    record a { names = update a.names s.next (some n) },
    signing s.next n (m.names s.next ∙ (rw (name_at, v.free_users s.next (omega arith)) refl)),
    rebuilt (make_user n s).1 _ (λ u. ground (arith, m.names u)) m.titles m.members
        (λ u. ground (arith, m.queues u, v.free_users s.next))
        (λ i c h u k. (k, refl, ground (arith, member_made s v u c.room k))),
  )

  pub founding-Follows :
      (n : Bytes)
      → lookup n s.room_map ≡ none
      → Follows a (founds s.next n) (find_or_create_room n s).1 holder jobs
  unfolding find_or_create_room put
  founding-Follows n e = (
    record a { titles = update a.titles s.next (some n) },
    founding s.next n (m.titles s.next ∙ (rw (title_at, v.free_rooms s.next (omega arith)) refl)),
    rebuilt (find_or_create_room n s).1 _ (λ u. ground (arith, m.names u))
        (λ r. ground (arith, m.titles r))
        (λ u r. m.members u r ∙ sym (member_of-find_or_create_room n s u r v))
        (λ u. ground (arith, m.queues u))
        (λ i c h u k. (
          member_of-find_or_create_room n s u c.room v ∙ k,
          ground (arith, member_room s v u c.room k),
          ground arith,
        )),
  )

  pub found-Follows :
      (n : Bytes) (r : ℕ)
      → lookup n s.room_map ≡ some r
      → Follows a rests (find_or_create_room n s).1 holder jobs
  unfolding find_or_create_room
  found-Follows n r e = (a, idling, rw (find_or_create_room, e) m)

  pub entering-Follows :
      (r u : ℕ)
      → room_exists r s ≡ true
      → ((q : ℕ) → member_of u q s ≡ false)
      → Follows a (enters u r) (add_member_at r u s) holder jobs
  entering-Follows r u exists out = (
    record a { members = set_member u r true a.members },
    entering u r (λ q. m.members u q ∙ out q),
    rebuilt (add_member_at r u s) _ (λ w. m.names w ∙ sym (add_name r u s w))
        (λ q. m.titles q ∙ sym (add_title r u s q))
        (λ w q. ground (arith, m.members w q, member_of-add_member_at r u s w q exists))
        (λ w. m.queues w ∙ ap (λ x. a.taken w ++ (x ++ m.flight w)) (sym (add_queued r u s w)))
        (λ i c h w k. (
          ground (arith, member_of-add_member_at r u s w c.room exists),
          add_title r u s c.room,
          add_name r u s w,
        )),
  )

  pub leaving-Follows :
      (r u : ℕ)
      → holder r ≡ none
      → member_of u r s ≡ true
      → Follows a (leaves u r) (remove_member_at r u s) holder jobs
  leaving-Follows r u free inside = (
    record a { members = set_member u r false a.members },
    leaving u r (m.members u r ∙ inside),
    rebuilt (remove_member_at r u s) _ (λ w. m.names w ∙ sym (remove_name r u s w))
        (λ q. m.titles q ∙ sym (remove_title r u s q))
        (λ w q. ground (arith, m.members w q, member_of-remove_member_at r u s w q v))
        (λ w. m.queues w ∙ ap (λ x. a.taken w ++ (x ++ m.flight w)) (sym (remove_queued r u s w)))
        (λ i c h w k. (
          member_of-remove_member_at r u s w c.room v ∙ rw (apart i c h) (ground arith),
          remove_title r u s c.room,
          remove_name r u s w,
        )),
  )
    where
      apart : (i : ℕ) (c : Job) → jobs i ≡ some c → (r == c.room) ≡ false
      apart i c h = elim (Bool-cases (r == c.room)) [
        | inr q ↦ q
        | inl q ↦ absurd (ground (arith, (m.busy i c h).locked, ap holder ((==_iff r c.room).0 q)))
      ]

  -- A user that takes nothing, and one that takes a message.
  pub dequeue-Follows :
      (now : Option ℕ) (u : ℕ)
      → let (f, s') = dequeue_at now u s in
        ((f ≡ nothing) × Follows a rests s' holder jobs)
        ⊎ ((x : Message) × (f ≡ got x) × Follows a (takes u x) s' holder jobs)
  dequeue-Follows now u = go (dequeue_at now u s) (dequeue_at-Dequeued now u s v)
    where
      title : (s' : Store) → s'.rooms ≡ s.rooms → (r : ℕ) → title_at r s' ≡ title_at r s
      title s' e r = rw (title_at, e) refl

      member : (s' : Store) → s'.rooms ≡ s.rooms → (w r : ℕ) → member_of w r s' ≡ member_of w r s
      member s' e w r = rw (member_of, e) refl

      go :
          (r : Fetch × Store)
          → Dequeued u s r
          → ((r.0 ≡ nothing) × Follows a rests r.1 holder jobs)
            ⊎ ((x : Message) × (r.0 ≡ got x) × Follows a (takes u x) r.1 holder jobs)
      go (f, s') ((names, rooms, others), inl (idle, same)) = inl (
        idle,
        (
          a,
          idling,
          rebuilt s' a (λ w. m.names w ∙ sym (names w)) (λ q. m.titles q ∙ sym (title s' rooms q))
              (λ w q. m.members w q ∙ sym (member s' rooms w q))
              (λ w. elim (Bool-cases (w == u)) [
                | inl q ↦
                    let old : queued w s' ≡ queued w s =
                      subst (λ x. queued x s' ≡ queued x s) (sym ((==_iff w u).0 q)) same in
                    m.queues w ∙ ap (λ x. a.taken w ++ (x ++ m.flight w)) (sym old)
                | inr q ↦ m.queues w ∙ ap (λ x. a.taken w ++ (x ++ m.flight w)) (sym (others w q))
              ])
              (λ i c h w k. (member s' rooms w c.room ∙ k, title s' rooms c.room, names w)),
        ),
      )
      go (f, s') ((names, rooms, others), inr (x, took, front)) = inr (
        x,
        took,
        (
          record a { taken = update a.taken u (a.taken u ++ x ∷ []) },
          taking u x (queued u s' ++ m.flight u)
              (m.queues u ∙ ap (λ l. a.taken u ++ (l ++ m.flight u)) front),
          rebuilt s' _ (λ w. m.names w ∙ sym (names w)) (λ q. m.titles q ∙ sym (title s' rooms q))
              (λ w q. m.members w q ∙ sym (member s' rooms w q))
              (λ w. elim (Bool-cases (u == w)) [
                | inl q ↦ rw q (
                    subst
                      (λ y. inbox y a.log ≡ (a.taken u ++ x ∷ []) ++ (queued y s' ++ m.flight y))
                      ((==_iff u w).0 q)
                      (m.queues u
                        ∙ ap (λ l. a.taken u ++ (l ++ m.flight u)) front
                        ∙ sym (append_assoc (a.taken u) (x ∷ []) (queued u s' ++ m.flight u))))
                | inr q ↦ rw q (
                    m.queues w
                    ∙ ap (λ l. a.taken w ++ (l ++ m.flight w))
                        (sym (others w (ground (arith, ==_iff u w)))))
              ])
              (λ i c h w k. (member s' rooms w c.room ∙ k, title s' rooms c.room, names w)),
        ),
      )
