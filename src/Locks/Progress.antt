-- ===== src/Locks/Progress.antt =====
-- Threads that wait for a lock, and the threads that they wait for.
use csfassignment.Base.{
  ◌+◌, ◌⊎◌, ℕ, zero, suc, ◌<◌, ◌≤◌, ◌≡◌, ◌≢◌, refl, sym, ap, subst, ◌∙◌, true, List, [], ◌∷◌, none,
  some, All, ==_refl, inl, inr, Bool-cases, Option-cases, arith,
}
use csfassignment.Server.System.{update}
use csfassignment.Locks.{
  Lock, server_lock, room_lock, queue_lock, Action, acquire, release, lock_eq, Locks, set_holder,
  Step, locks, unlocks, Reach,
}
use csfassignment.Locks.Order.{rank, lock_eq_sound, has_lock, Nested}
use csfassignment.Locks.Invariant.{Inv, Reach-Inv}

-- A thread takes the next action of its operation.
pub record Goes (s : Locks) : Type 0 where
  pub thread : ℕ
  pub action : Action
  pub after : Locks
  pub taken : s.todo thread ≡ action ∷ after.todo thread
  pub step : Step s after

changed : {A : Type 0} (f : ℕ → A) (i : ℕ) (x : A) → update f i x i ≡ x
changed f i x = rw (==_refl i) refl

release-Goes :
    (s : Locks) (i : ℕ) (l : Lock) (rest : List Action) → s.todo i ≡ release l ∷ rest → Goes s
release-Goes s i l rest e = record {
  thread = i;
  action = release l;
  after = record { holder = set_holder l none s.holder; todo = update s.todo i rest };
  taken = e ∙ ap (λ r. release l ∷ r) (sym (changed s.todo i rest));
  step = unlocks i l rest e;
}

acquire-Goes :
    (s : Locks) (i : ℕ) (l : Lock) (rest : List Action)
    → s.todo i ≡ acquire l ∷ rest
    → s.holder l ≡ none
    → Goes s
acquire-Goes s i l rest e free = record {
  thread = i;
  action = acquire l;
  after = record { holder = set_holder l (some i) s.holder; todo = update s.todo i rest };
  taken = e ∙ ap (λ r. acquire l ∷ r) (sym (changed s.todo i rest));
  step = locks i l rest e free;
}

rank_bound : (l : Lock) → rank l ≤ 1
rank_bound server_lock = omega arith
rank_bound (room_lock r) = omega arith
rank_bound (queue_lock u) = omega arith

lower_rank :
    (k l : Lock) (hs : List Lock)
    → has_lock k hs ≡ true
    → All (λ j. rank j < rank l) hs
    → rank k < rank l
lower_rank k l [] h low = cc
lower_rank k l (j ∷ hs) h low = elim (Bool-cases (lock_eq j k)) [
  | inl same ↦ omega (arith, low.0, ap rank (lock_eq_sound j k same))
  | inr apart ↦ lower_rank k l hs (rw apart at h) low.1
]

nothing_left : (k : Lock) (hs : List Lock) → has_lock k hs ≡ true → hs ≡ [] → ⊥
nothing_left k [] h e = cc
nothing_left k (j ∷ hs) h e = cc

todo_cases : (l : List Action) → (l ≡ []) ⊎ ((a : Action) × (rest : List Action) × (l ≡ a ∷ rest))
todo_cases [] = inl refl
todo_cases (a ∷ rest) = inr (a, rest, refl)

-- From a thread that waits for a lock or is about to unlock one, along the locks of ever higher rank
-- that threads wait for, to a thread that can go on.
wait_chain :
    (n : ℕ) (s : Locks) (v : Inv s) (i : ℕ) (a : Action) (rest : List Action)
    → s.todo i ≡ a ∷ rest
    → ((l : Lock) → a ≡ acquire l → 2 ≤ rank l + n)
    → Goes s
wait_chain n s v i (release l) rest e bound = release-Goes s i l rest e
wait_chain zero s v i (acquire l) rest e bound = absurd (omega (arith, bound l refl, rank_bound l))
wait_chain (suc n) s v i (acquire l) rest e bound = elim (Option-cases (s.holder l)) [
  | inl free ↦ acquire-Goes s i l rest e free
  | inr (j, taken) ↦
      let has = v.owns j l taken in
      elim (todo_cases (s.todo j)) [
        | inl idle ↦
            absurd (nothing_left l (v.held j) has (subst (Nested (v.held j)) idle (v.nested j)))
        | inr (b, rest', f) ↦ wait_chain n s v j b rest' f λ k q.
            let above = subst (Nested (v.held j)) (f ∙ ap (λ x. x ∷ rest') q) (v.nested j) in
            omega (arith, bound l refl, lower_rank l k (v.held j) has above.0)
      ]
]

-- In every interleaving of any number of threads there is no deadlock: while a thread is in an
-- operation that locks, some thread can take the next action of its operation.
pub no_deadlock : {s : Locks} (i : ℕ) → Reach s → s.todo i ≢ [] → Goes s
no_deadlock {s} i r busy = elim (todo_cases (s.todo i)) [
  | inl idle ↦ absurd (busy idle)
  | inr (a, rest, e) ↦ wait_chain 2 s (Reach-Inv r) i a rest e (λ l q. omega arith)
]
