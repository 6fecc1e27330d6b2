-- ===== src/Server/Service/Refinement.antt =====
-- The steps of the server against the events of the service: what is seen of each step, and what the
-- shared objects stand for behind it.
use csfassignment.Server.{find_or_create_room}
use csfassignment.Base.{
  ℕ, ◌≡◌, refl, sym, ap, subst, ◌∙◌, true, [], ◌∷◌, Option, none, some, Bytes, inl, inr, Bool-cases,
  Option-cases, arith, ◌++◌,
}
use csfassignment.Csapp.{Csapp}
use csfassignment.Connection.{Connection}
use csfassignment.Heap.{Store, Room, lookup}
use csfassignment.Room.{deliver_at}
use csfassignment.Server.Program.{
  Program, call, Op, Answer, makes_user, finds_room, adds, removes, broadcasts, dequeues, answer,
  effect, perform_on, make_user, receives, last_result, sends, disconnects, username, room_name,
}
use csfassignment.Server.Chat.{Exit}
use csfassignment.Server.Effects.{member_of}
use csfassignment.Server.Membership.{lobby, EndedOut}
use csfassignment.Server.System.{
  System, update, boot, resting, machine, turned, Step, accepts, turns, opens, delivers, closes,
  moves, Reach, start, later, ready, accepted,
}
use csfassignment.Server.System.Ghost.{owner, Guarded, Obeys-guard}
use csfassignment.Server.System.Turn.{Placed-one_room}
use csfassignment.Server.System.Invariant.{SystemInv, Reach-Inv}
use csfassignment.Server.Service.{
  Service, rests, Act, posting, Runs, begins, goes, empty_service, idling, post,
}
use csfassignment.Server.Service.Matches.{job_of, jobs_of, title_at, Matches}
use csfassignment.Server.Service.Calls.{
  Follows, signing-Follows, founding-Follows, found-Follows, entering-Follows, leaving-Follows,
  dequeue-Follows,
}
use csfassignment.Server.Service.Opening.{opening-Matches}
use csfassignment.Server.Service.Rounds.{round-Matches}
use csfassignment.Server.Service.Closing.{closing-Matches}
use csfassignment.Server.Service.Events.{event_of, event, events, Shows}
use csfassignment.Server.Service.Jobs.{jobs-update, jobs_kept}

new_address :
    (n : Bytes) (s : Store) → lookup n s.room_map ≡ none → (find_or_create_room n s).0 ≡ s.next
unfolding find_or_create_room
new_address n s e = rw (find_or_create_room, e) refl

member_here :
    (s : Store) (u r : ℕ) → member_of u r s ≡ true → (room : Room) × (s.rooms r ≡ some room)
member_here s u r h = elim (Option-cases (s.rooms r)) [
  | inl e ↦ ground arith
  | inr (room, e) ↦ (room, e)
]

module _ {W B : Type 0} (lib : Csapp W B) (clock : W → Option ℕ) (raw : B) (fuel : ℕ) where
  -- A user in the lobby is in no room.
  outside_all :
      {s : System W B} (v : SystemInv s) (i r u : ℕ)
      → v.places i ≡ lobby u
      → (q : ℕ) → member_of u q s.store ≡ true
      → ⊥
  outside_all v i r u e q h =
      let (j, f) = v.placed.member u q h in
      let same : i ≡ j = v.placed.distinct i j u (ap owner e) (ap owner f) in
      cc (sym e ∙ ap v.places same ∙ f)

  -- A call that may be made at once does what is seen of it.
  call-Follows :
      (s : System W B) (a : Service) (v : SystemInv s)
      → Shows lib clock raw fuel s a
      → (i : ℕ) (c : Connection B) (o : Op) → Guarded o (v.places i) (v.knowns i)
      → ready s.holder o ≡ true
      → Follows a
          (event_of o (answer lib clock o (machine s c)) s.store)
          (effect (clock s.world) o s.store)
          s.holder
          (jobs_of s.threads)
  unfolding answer effect make_user
  call-Follows s a v m i c (makes_user n) g free = signing-Follows m v.placed.objects n
  call-Follows s a v m i c (finds_room n) g free = elim (Option-cases (lookup n s.store.room_map)) [
    | inl e ↦ rw (event_of, e, new_address n s.store e) (founding-Follows m v.placed.objects n e)
    | inr (r, e) ↦ rw (event_of, e) (found-Follows m v.placed.objects n r e)
  ]
  call-Follows s a v m i c (adds r u) g free =
      entering-Follows m v.placed.objects r u (v.placed.seen i r g.1) (λ q.
        elim (Bool-cases (member_of u q s.store)) [
          | inr h ↦ h
          | inl h ↦ absurd (outside_all v i r u g.0 q h)
        ])
  call-Follows s a v m i c (removes r u) g free =
      leaving-Follows m v.placed.objects r u (ground arith) (v.placed.within i u r g)
  call-Follows s a v m i c (broadcasts r n t) g free = cc
  call-Follows s a v m i c (dequeues u) g free =
      elim (dequeue-Follows m v.placed.objects (clock s.world) u) [
        | inl (e, h) ↦ rw (event_of, e) h
        | inr (x, e, h) ↦ rw (event_of, e) h
      ]
  call-Follows s a v m i c (receives x) g free = (a, idling, m)
  call-Follows s a v m i c last_result g free = (a, idling, m)
  call-Follows s a v m i c (sends x) g free = (a, idling, m)
  call-Follows s a v m i c disconnects g free = (a, idling, m)
  call-Follows s a v m i c (username u) g free = (a, idling, m)
  call-Follows s a v m i c (room_name u) g free = (a, idling, m)

  turn-Follows :
      (s : System W B) (a : Service) (v : SystemInv s)
      → Shows lib clock raw fuel s a
      → (i : ℕ) (c : Connection B) (o : Op) (k : Answer o → Program Exit) → ready s.holder o ≡ true
      → s.threads i ≡ resting c (call o k)
      → let t = turned lib clock raw fuel s i c o k in
        Follows a
          (event_of o (answer lib clock o (machine s c)) s.store)
          t.store
          t.holder
          (jobs_of t.threads)
  unfolding perform_on
  turn-Follows s a v m i c o k free running =
      let told = v.obeys i (record { conn = c; program = call o k; pending = none }) running in
      let conn = (perform_on lib clock o (machine s c)).conn in
      subst
        (Follows a (event_of o (answer lib clock o (machine s c)) s.store)
          (effect (clock s.world) o s.store) s.holder)
        (jobs_kept s.threads i (resting conn (k (answer lib clock o (machine s c))))
          (rw (job_of, running) refl))
        (call-Follows s a v m i c o (Obeys-guard EndedOut (v.places i) (v.knowns i) o k told) free)

  -- A step of the server is what is seen of it, done by the service.
  pub Step-Follows :
      {s t : System W B} (st : Step lib clock raw fuel s t) (a : Service)
      → SystemInv s
      → Shows lib clock raw fuel s a
      → (b : Service) × Act a (event lib clock raw fuel st) b × Shows lib clock raw fuel t b
  Step-Follows (moves w) a v m = (a, idling, m)
  Step-Follows {s} (accepts i fd ok free) a v m =
      subst (Follows a rests s.store s.holder)
        (jobs_kept s.threads i (some (accepted lib clock raw fuel fd)) (rw (job_of, free) refl))
        (a, idling, m)
  Step-Follows {s} (turns i c o k free running) a v m = turn-Follows s a v m i c o k free running
  Step-Follows {s} (opens i c r n t k free running) a v m =
      let told = v.obeys i _ running in
      let (u, e) = Obeys-guard EndedOut (v.places i) (v.knowns i) (broadcasts r n t) k told in
      let inside = v.placed.within i u r e in
      let (room, here) = member_here s.store u r inside in
      let b : Service = record a { log = a.log ++ post a r room.room_name n t ∷ [] } in
      (
        b,
        posting u r room.room_name n t (m.titles r ∙ rw (title_at, here) refl)
            (m.members u r ∙ inside),
        subst (λ jobs. Matches s.store (update s.holder r (some i)) jobs b)
            (sym (jobs-update s.threads i _))
            (opening-Matches m v.placed.objects (Placed-one_room v.placed) i r n t room free
              (rw (job_of, running) refl) here),
      )
  Step-Follows {s} (delivers i c r n t k u rest running) a v m = (
    a,
    idling,
    subst (λ jobs. Matches (deliver_at r n t u s.store) s.holder jobs a)
        (sym (jobs-update s.threads i _))
        (round-Matches m (Placed-one_room v.placed) i
          (record { room = r; sender = n; text = t; rest = u ∷ rest }) u rest
          (rw (job_of, running) refl) refl),
  )
  Step-Follows {s} (closes i c r n t k running) a v m = (
    a,
    idling,
    subst (λ jobs. Matches s.store (update s.holder r none) jobs a)
        (sym (jobs-update s.threads i _))
        (closing-Matches m i (record { room = r; sender = n; text = t; rest = [] })
          (rw (job_of, running) refl) refl),
  )

  boot-Shows : (w : W) → Shows lib clock raw fuel (boot w) empty_service
  boot-Shows w = record {
    flight = λ u. [];
    names = λ u. refl;
    titles = λ r. refl;
    members = λ u r. refl;
    queues = λ u. refl;
    busy = λ i b h. cc;
    flying = λ u. inl refl;
  }

  -- Whatever the clients send and however the threads are interleaved, what happens in a run of the
  -- server happens, event by event, in a run of the service, and the objects of the server stand for
  -- the state that the service is in then.
  pub Reach-Runs :
      {w : W} {s : System W B} (r : Reach lib clock raw fuel w s)
      → (a : Service) × Runs (events lib clock raw fuel r) a × Shows lib clock raw fuel s a
  Reach-Runs {w} start = (empty_service, begins, boot-Shows w)
  Reach-Runs (later r st) =
      let (a, runs, shows) = Reach-Runs r in
      let (b, act, shows') = Step-Follows st a (Reach-Inv lib clock raw fuel r) shows in
      (b, goes runs act, shows')
