-- ===== src/Server/System/Turn.antt =====
-- The invariant of the whole server, and the call of one thread.
use csfassignment.Base.{
  ℕ, suc, ◌<◌, ◌≡◌, ◌⊎◌, refl, sym, ap, ◌∙◌, true, List, Option, some, ◌==◌, inl, inr, Bool-cases,
  ==_iff, ==_refl, arith,
}
use csfassignment.Csapp.{Csapp}
use csfassignment.Heap.{Store}
use csfassignment.Room.{has_member}
use csfassignment.Server.Program.{
  Machine, Op, Answer, makes_user, finds_room, adds, effect, answer, make_user,
}
use csfassignment.Server.Invariant.{Inv, IsAllowed, effect-Inv}
use csfassignment.Server.Effects.{
  member_of, room_exists, HasRoom, member_of-effect, room_exists-effect, next-effect,
  found_room_exists,
}
use csfassignment.Server.Users.{user_exists, user_exists-effect, made_user_exists}
use csfassignment.Server.Membership.{Place, inside}
use csfassignment.Server.System.{update}
use csfassignment.Server.System.Ghost.{
  owner, next_place, next_known, Guarded, member_after, member_inside, member_other, MakesNow,
  owner_after,
}

-- The shared objects with the place of each thread's user and the rooms that each thread has found:
-- the members of the rooms are exactly the users whose threads are inside, the user of each thread
-- exists, and no two threads have one user.
pub record Placed (s : Store) (places : ℕ → Place) (knowns : ℕ → List ℕ) : Type 0 where
  pub objects : Inv s
  pub seen : (i r : ℕ) → has_member r (knowns i) ≡ true → room_exists r s ≡ true
  pub made : (i u : ℕ) → owner (places i) ≡ some u → u < s.next
  pub lives : (i u : ℕ) → owner (places i) ≡ some u → user_exists u s ≡ true
  pub distinct : (i j u : ℕ) → owner (places i) ≡ some u → owner (places j) ≡ some u → i ≡ j
  pub member : (u r : ℕ) → member_of u r s ≡ true → (i : ℕ) × (places i ≡ inside u r)
  pub within : (i u r : ℕ) → places i ≡ inside u r → member_of u r s ≡ true

room_eq : {u q r : ℕ} → inside u q ≡ inside u r → q ≡ r
room_eq h = cc

pub Placed-one_room :
    {s : Store} {places : ℕ → Place} {knowns : ℕ → List ℕ}
    → Placed s places knowns
    → (u q r : ℕ) → member_of u q s ≡ true
    → member_of u r s ≡ true
    → q ≡ r
Placed-one_room {places = places} v u q r h k =
    let (i, e) = v.member u q h in
    let (j, f) = v.member u r k in
    let same : i ≡ j = v.distinct i j u (ap owner e) (ap owner f) in
    room_eq (sym e ∙ ap places same ∙ f)

-- What an answer tells of the shared objects that it comes from.
abbrev Answers : (o : Op) → Answer o → Store → Store → Type 0
Answers (makes_user n) a s s' = (a ≡ s.next) × (s'.next ≡ suc s.next) × (user_exists a s' ≡ true)
Answers (finds_room n) a s s' = room_exists a s' ≡ true
Answers o a s s' = Unit

module _ {W B : Type 0} (lib : Csapp W B) (clock : W → Option ℕ) where
  pub Answers-answer :
      (m : Machine W B) (o : Op)
      → Inv m.store
      → Answers o (answer lib clock o m) m.store (effect (clock m.world) o m.store)
  unfolding answer effect make_user
  Answers-answer m (makes_user n) v = (refl, omega arith, made_user_exists n m.store)
  Answers-answer m (finds_room n) v = found_room_exists n m.store v
  Answers-answer m o v = tt

allowed :
    {s : Store} {places : ℕ → Place} {knowns : ℕ → List ℕ}
    → Placed s places knowns
    → (i : ℕ) (o : Op) → Guarded o (places i) (knowns i)
    → IsAllowed o s × HasRoom o s
allowed v i (adds r u) g = (v.made i u (ground (arith, g.0)), v.seen i r g.1)
allowed v i o g = (tt, tt)

made_now :
    (o : Op) (a : Answer o) (s s' : Store) (u : ℕ)
    → MakesNow o a u
    → Answers o a s s'
    → (u ≡ s.next) × (s'.next ≡ suc s.next)
made_now (makes_user n) a s s' u m t = (sym m ∙ t.0, t.1)
made_now o a s s' u m t = absurd m

lives_now :
    (o : Op) (a : Answer o) (s s' : Store) (u : ℕ)
    → MakesNow o a u
    → Answers o a s s'
    → user_exists u s' ≡ true
lives_now (makes_user n) a s s' u m t = ap (λ v. user_exists v s') (sym m) ∙ t.2
lives_now o a s s' u m t = absurd m

seen_after :
    (o : Op) (a : Answer o) (s s' : Store) (known : List ℕ) (r : ℕ)
    → Answers o a s s'
    → ((q : ℕ) → has_member q known ≡ true → room_exists q s' ≡ true)
    → has_member r (next_known o a known) ≡ true
    → room_exists r s' ≡ true
unfolding has_member
seen_after (finds_room n) a s s' known r t old h = elim (Bool-cases (r == a)) [
  | inl e ↦ rw ((==_iff r a).0 e) t
  | inr e ↦ old r (ground arith)
]
seen_after o a s s' known r t old h = old r h

module _ {s : Store} {places : ℕ → Place} {knowns : ℕ → List ℕ} (v : Placed s places knowns)
    (clock : Option ℕ) (i : ℕ) (o : Op) (a : Answer o) (g : Guarded o (places i) (knowns i))
    (told : Answers o a s (effect clock o s)) where
  turn_member :
      (u r : ℕ)
      → member_of u r (effect clock o s) ≡ true
      → (j : ℕ) × (update places i (next_place o a (places i)) j ≡ inside u r)
  turn_member u r h = go (
      member_after (places i) (knowns i) u r (member_of u r s) o a g
        (sym (member_of-effect clock o s u r v.objects (allowed v i o g).1) ∙ h))
    where
      go :
          (next_place o a (places i) ≡ inside u r)
            ⊎ ((member_of u r s ≡ true)
                × (places i ≡ inside u r → next_place o a (places i) ≡ inside u r))
          → (j : ℕ) × (update places i (next_place o a (places i)) j ≡ inside u r)
      go (inl e) = (i, rw ==_refl e)
      go (inr (old, stays)) =
          let (j, e) = v.member u r old in
          elim (Bool-cases (i == j)) [
            | inl same ↦ (i, rw ==_refl (stays (ap places ((==_iff i j).0 same) ∙ e)))
            | inr other ↦ (j, rw other e)
          ]

  turn_within :
      (j u r : ℕ)
      → update places i (next_place o a (places i)) j ≡ inside u r
      → member_of u r (effect clock o s) ≡ true
  turn_within j u r h =
      rw (member_of-effect clock o s u r v.objects (allowed v i o g).1)
        (elim (Bool-cases (i == j)) [
          | inl same ↦
              member_inside (places i) (knowns i) u r (member_of u r s) o a g (v.within i u r)
                (rw same at h)
          | inr other ↦
              let old : places j ≡ inside u r = rw other at h in
              member_other (places i) (knowns i) u r (member_of u r s) o g
                (λ q. ground (arith, v.distinct i j u q (ap owner old))) (v.within j u r old)
        ])

  turn_owner :
      (j u : ℕ)
      → owner (update places i (next_place o a (places i)) j) ≡ some u
      → (owner (places j) ≡ some u) ⊎ ((i ≡ j) × MakesNow o a u)
  turn_owner j u h = elim (Bool-cases (i == j)) [
    | inr other ↦ inl (rw other at h)
    | inl same ↦
        let ij : i ≡ j = (==_iff i j).0 same in
        elim (owner_after (places i) (knowns i) u o a g (rw same at h)) [
          | inl q ↦ inl (ap (λ x. owner (places x)) (sym ij) ∙ q)
          | inr m ↦ inr (ij, m)
        ]
  ]

  turn_made :
      (j u : ℕ)
      → owner (update places i (next_place o a (places i)) j) ≡ some u
      → u < (effect clock o s).next
  turn_made j u h = elim (turn_owner j u h) [
    | inl q ↦ omega (arith, v.made j u q, next-effect clock o s)
    | inr (_, m) ↦ omega (arith, made_now o a s (effect clock o s) u m told)
  ]

  turn_lives :
      (j u : ℕ)
      → owner (update places i (next_place o a (places i)) j) ≡ some u
      → user_exists u (effect clock o s) ≡ true
  turn_lives j u h = elim (turn_owner j u h) [
    | inl q ↦ user_exists-effect clock o s u v.objects (v.lives j u q)
    | inr (_, m) ↦ lives_now o a s (effect clock o s) u m told
  ]

  -- A user that is made now is no older thread's.
  fresh : (j u : ℕ) → owner (places j) ≡ some u → MakesNow o a u → ⊥
  fresh j u q m = omega (arith, v.made j u q, made_now o a s (effect clock o s) u m told)

  turn_distinct :
      (j k u : ℕ)
      → owner (update places i (next_place o a (places i)) j) ≡ some u
      → owner (update places i (next_place o a (places i)) k) ≡ some u
      → j ≡ k
  turn_distinct j k u h l = elim (turn_owner j u h) [
    | inl q ↦ elim (turn_owner k u l) [
      | inl q' ↦ v.distinct j k u q q'
      | inr (_, m) ↦ absurd (fresh j u q m)
    ]
    | inr (ij, m) ↦ elim (turn_owner k u l) [
      | inl q' ↦ absurd (fresh k u q' m)
      | inr (ik, _) ↦ sym ij ∙ ik
    ]
  ]

  turn_seen :
      (j r : ℕ)
      → has_member r (update knowns i (next_known o a (knowns i)) j) ≡ true
      → room_exists r (effect clock o s) ≡ true
  turn_seen j r h = elim (Bool-cases (i == j)) [
    | inl same ↦
        seen_after o a s (effect clock o s) (knowns i) r told
          (λ q k. room_exists-effect clock o s q (v.seen i q k)) (rw same at h)
    | inr other ↦ room_exists-effect clock o s r (v.seen j r (rw other at h))
  ]

  -- A call of thread `i` keeps the invariant, with the thread's place moved.
  pub turn-Placed :
      Placed
        (effect clock o s)
        (update places i (next_place o a (places i)))
        (update knowns i (next_known o a (knowns i)))
  turn-Placed = record {
    objects = effect-Inv clock o s v.objects (allowed v i o g).0;
    seen = turn_seen;
    made = turn_made;
    lives = turn_lives;
    distinct = turn_distinct;
    member = turn_member;
    within = turn_within;
  }
