-- ===== src/Server/System/Invariant.antt =====
-- The invariant of the whole server, and its steps.
use csfassignment.Base.{
  ℕ, ◌≡◌, refl, sym, ap, subst, ◌∙◌, true, List, [], Option, none, some, ◌==◌, inl, inr, Bool-cases,
  ==_iff, arith,
}
use csfassignment.Csapp.{Csapp}
use csfassignment.Room.{has_member}
use csfassignment.Server.Program.{call, Answer, answer, perform_on}
use csfassignment.Server.Invariant.{empty_store-Inv}
use csfassignment.Server.Effects.{room_exists}
use csfassignment.Server.Membership.{Place, outside, Obeys, EndedOut, worker-Obeys}
use csfassignment.Server.System.{
  Thread, System, update, boot, accepted, machine, turned, Step, accepts, turns, opens, delivers,
  closes, moves, Reach, start, later,
}
use csfassignment.Server.System.Ghost.{next_place, next_known, Obeys-guard, Obeys-next}
use csfassignment.Server.System.Turn.{Placed, turn-Placed, Answers-answer}
use csfassignment.Heap.{Store}
use csfassignment.Server.Program.{broadcasts}
use csfassignment.Room.{deliver_at}
use csfassignment.Server.System.Rounds.{deliver_at-Placed}

-- Each thread's program goes on from the place of its user.
pub record SystemInv {W B : Type 0} (s : System W B) : Type 0 where
  pub places : ℕ → Place
  pub knowns : ℕ → List ℕ
  pub placed : Placed s.store places knowns
  pub idle : (i : ℕ) → s.threads i ≡ none → places i ≡ outside
  pub obeys :
      (i : ℕ) (t : Thread B) → s.threads i ≡ some t → Obeys EndedOut (places i) (knowns i) t.program

absent : (r : ℕ) → has_member r [] ≡ true → ⊥
unfolding has_member
absent r h = cc

-- The entry that was changed is the new one.
changed :
    {A : Type 0} (f : ℕ → Option A) (i : ℕ) (x : A) (j : ℕ) (y : A)
    → (i == j) ≡ true
    → update f i (some x) j ≡ some y
    → x ≡ y
changed f i x j y same h = ground arith

module _ {W B : Type 0} (lib : Csapp W B) (clock : W → Option ℕ) (raw : B) (fuel : ℕ) where
  boot-Inv : (w : W) → SystemInv (boot {W = W} {B = B} w)
  unfolding has_member
  boot-Inv w = record {
    places = λ _. outside;
    knowns = λ _. [];
    placed = record {
      objects = empty_store-Inv;
      seen = λ i r h. cc;
      made = λ i u h. cc;
      lives = λ i u h. cc;
      distinct = λ i j u h k. cc;
      member = λ u r h. cc;
      within = λ i u r h. cc;
    };
    idle = λ i h. refl;
    obeys = λ i t h. cc;
  }

  -- A thread goes on at the place where its user is, over a store in which the places still hold.
  same_place :
      (s : System W B) (v : SystemInv s) (st : Store) (h : ℕ → Option ℕ) (i : ℕ) (t t' : Thread B)
      → s.threads i ≡ some t
      → Placed st v.places v.knowns
      → Obeys EndedOut (v.places i) (v.knowns i) t'.program
      → SystemInv (record {
        world = s.world;
        store = st;
        threads = update s.threads i (some t');
        holder = h;
      })
  same_place s v st h i t t' started placed told = record {
    places = v.places;
    knowns = v.knowns;
    placed = placed;
    idle = λ j q. v.idle j (ground arith);
    obeys = λ j x q. elim (Bool-cases (i == j)) [
      | inl same ↦
          subst (λ k. Obeys EndedOut (v.places k) (v.knowns k) x.program) ((==_iff i j).0 same)
            (subst (λ (y : Thread B). Obeys EndedOut (v.places i) (v.knowns i) y.program)
              (changed s.threads i t' j x same q) told)
      | inr other ↦ v.obeys j x (rw other at q)
    ];
  }

  Step-Inv : {s t : System W B} → Step lib clock raw fuel s t → SystemInv s → SystemInv t
  unfolding perform_on
  Step-Inv (moves w) v = record {
    places = v.places;
    knowns = v.knowns;
    placed = v.placed;
    idle = v.idle;
    obeys = v.obeys;
  }
  Step-Inv {s} (accepts i fd ok free) v = record {
    places = v.places;
    knowns = update v.knowns i [];
    placed = record {
      objects = v.placed.objects;
      seen = seen;
      made = v.placed.made;
      lives = v.placed.lives;
      distinct = v.placed.distinct;
      member = v.placed.member;
      within = v.placed.within;
    };
    idle = λ j h. v.idle j (unused j h);
    obeys = obeys;
  }
    where
      unused :
          (j : ℕ)
          → update s.threads i (some (accepted lib clock raw fuel fd)) j ≡ none
          → s.threads j ≡ none
      unused j h = ground arith

      seen : (j r : ℕ) → has_member r (update v.knowns i [] j) ≡ true → room_exists r s.store ≡ true
      seen j r h = elim (Bool-cases (i == j)) [
        | inl same ↦ absurd (absent r (rw same at h))
        | inr other ↦ v.placed.seen j r (rw other at h)
      ]

      obeys :
          (j : ℕ) (t : Thread B)
          → update s.threads i (some (accepted lib clock raw fuel fd)) j ≡ some t
          → Obeys EndedOut (v.places j) (update v.knowns i [] j) t.program
      obeys j t h = elim (Bool-cases (i == j)) [
        | inl same ↦
            let ij : i ≡ j = (==_iff i j).0 same in
            rw (same, v.idle j (ap s.threads (sym ij) ∙ free))
              (subst (λ (x : Thread B). Obeys EndedOut outside [] x.program)
                (changed s.threads i _ j t same h) (worker-Obeys fuel))
        | inr other ↦ rw other (v.obeys j t (rw other at h))
      ]
  Step-Inv {s} (turns i c o k free running) v = record {
    places = update v.places i (next_place o a (v.places i));
    knowns = update v.knowns i (next_known o a (v.knowns i));
    placed = moved;
    idle = idle;
    obeys = obeys;
  }
    where
      a : Answer o
      a = answer lib clock o (machine s c)

      told : Obeys EndedOut (v.places i) (v.knowns i) (call o k)
      told = v.obeys i (record { conn = c; program = call o k; pending = none }) running

      moved :
          Placed
            (turned lib clock raw fuel s i c o k).store
            (update v.places i (next_place o a (v.places i)))
            (update v.knowns i (next_known o a (v.knowns i)))
      moved =
          turn-Placed v.placed (clock s.world) i o a
            (Obeys-guard EndedOut (v.places i) (v.knowns i) o k told)
            (Answers-answer lib clock (machine s c) o v.placed.objects)

      idle :
          (j : ℕ)
          → (turned lib clock raw fuel s i c o k).threads j ≡ none
          → update v.places i (next_place o a (v.places i)) j ≡ outside
      idle j h = elim (Bool-cases (i == j)) [
        | inl same ↦ ground arith
        | inr other ↦ rw other (v.idle j (rw other at h))
      ]

      obeys :
          (j : ℕ) (t : Thread B)
          → (turned lib clock raw fuel s i c o k).threads j ≡ some t
          → Obeys EndedOut
              (update v.places i (next_place o a (v.places i)) j)
              (update v.knowns i (next_known o a (v.knowns i)) j)
              t.program
      obeys j t h = elim (Bool-cases (i == j)) [
        | inl same ↦ rw same (
            subst
              (λ (x : Thread B).
                Obeys EndedOut (next_place o a (v.places i)) (next_known o a (v.knowns i))
                  x.program)
              (changed s.threads i _ j t same h)
              (Obeys-next EndedOut (v.places i) (v.knowns i) o k a told))
        | inr other ↦ rw other (v.obeys j t (rw other at h))
      ]
  Step-Inv {s} (opens i c r n t k free running) v =
      same_place s v s.store _ i _ _ running v.placed (v.obeys i _ running)
  Step-Inv {s} (delivers i c r n t k u rest running) v =
      same_place s v (deliver_at r n t u s.store) _ i _ _ running
        (deliver_at-Placed r n t u v.placed) (v.obeys i _ running)
  Step-Inv {s} (closes i c r n t k running) v =
      same_place s v s.store _ i _ _ running v.placed (
        Obeys-next EndedOut (v.places i) (v.knowns i) (broadcasts r n t) k tt (v.obeys i _ running))

  pub Reach-Inv : {w : W} {s : System W B} → Reach lib clock raw fuel w s → SystemInv s
  Reach-Inv {w} start = boot-Inv w
  Reach-Inv (later r st) = Step-Inv st (Reach-Inv r)
