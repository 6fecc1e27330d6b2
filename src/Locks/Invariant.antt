-- ===== src/Locks/Invariant.antt =====
-- Who holds which lock while threads lock and unlock.
use csfassignment.Base.{
  ℕ, ◌<◌, ◌≡◌, refl, sym, ap, subst, ◌∙◌, true, false, List, [], ◌∷◌, none, some, All, ◌==◌,
  ==_refl, ==_iff, inl, inr, Bool-cases, arith,
}
use csfassignment.Server.System.{update}
use csfassignment.Locks.{
  Lock, Action, acquire, release, Operation, locks_of, lock_eq, Locks, unlocked, set_holder, Step,
  enters, locks, unlocks, Reach, start, later,
}
use csfassignment.Locks.Order.{
  rank, lock_eq_refl, lock_eq_sound, has_lock, Nested, Stacked, below_absent, locks_of-Nested,
}

-- The locks that each thread holds, and that they are those that it is the holder of.
pub record Inv (s : Locks) : Type 0 where
  pub held : ℕ → List Lock
  pub nested : (i : ℕ) → Nested (held i) (s.todo i)
  pub stacked : (i : ℕ) → Stacked (held i)
  pub owns : (i : ℕ) (l : Lock) → s.holder l ≡ some i → has_lock l (held i) ≡ true
  pub owned : (i : ℕ) (l : Lock) → has_lock l (held i) ≡ true → s.holder l ≡ some i

-- What is true of the changed entry and of the others is true of all.
update-elim :
    {A : Type 0} (P : ℕ → A → Type 0) (f : ℕ → A) (i : ℕ) (v : A)
    → P i v
    → ((j : ℕ) → (i == j) ≡ false → P j (f j))
    → (j : ℕ) → P j (update f i v j)
update-elim P f i v here there j = elim (Bool-cases (i == j)) [
  | inl same ↦ rw same (subst (λ k. P k v) ((==_iff i j).0 same) here)
  | inr other ↦ rw other (there j other)
]

-- The same for two maps that are changed at one place.
update-elim₂ :
    {A C : Type 0} (P : ℕ → A → C → Type 0) (f : ℕ → A) (g : ℕ → C) (i : ℕ) (v : A) (w : C)
    → P i v w
    → ((j : ℕ) → (i == j) ≡ false → P j (f j) (g j))
    → (j : ℕ) → P j (update f i v j) (update g i w j)
update-elim₂ P f g i v w here there j = elim (Bool-cases (i == j)) [
  | inl same ↦ rw same (subst (λ k. P k v w) ((==_iff i j).0 same) here)
  | inr other ↦ rw other (there j other)
]

released :
    (hs : List Lock) (l : Lock) (rest : List Action)
    → Nested hs (release l ∷ rest)
    → (h : List Lock) × (hs ≡ l ∷ h) × Nested h rest
released [] l rest n = absurd n
released (k ∷ h) l rest n = (h, ap (λ x. x ∷ h) n.0, n.1)

unlocked-Inv : Inv unlocked
unlocked-Inv = record {
  held = λ i. [];
  nested = λ i. refl;
  stacked = λ i. tt;
  owns = λ i l h. cc;
  owned = λ i l h. cc;
}

enters-Inv :
    (s : Locks) (i : ℕ) (o : Operation)
    → s.todo i ≡ []
    → Inv s
    → Inv (record s { todo = update s.todo i (locks_of o) })
enters-Inv s i o e v = record {
  held = v.held;
  nested =
      update-elim (λ j a. Nested (v.held j) a) s.todo i (locks_of o)
        (rw (subst (Nested (v.held i)) e (v.nested i)) (locks_of-Nested o)) (λ j other. v.nested j);
  stacked = v.stacked;
  owns = v.owns;
  owned = v.owned;
}

locks-Inv :
    (s : Locks) (i : ℕ) (l : Lock) (rest : List Action)
    → s.todo i ≡ acquire l ∷ rest
    → s.holder l ≡ none
    → Inv s
    → Inv (record { holder = set_holder l (some i) s.holder; todo = update s.todo i rest })
locks-Inv s i l rest e free v =
    let (lower, after) = subst (Nested (v.held i)) e (v.nested i) in
    record {
      held = update v.held i (l ∷ v.held i);
      nested =
          update-elim₂ (λ j h a. Nested h a) v.held s.todo i _ rest after (λ j other. v.nested j);
      stacked =
          update-elim (λ j h. Stacked h) v.held i _ (lower, v.stacked i) (λ j other. v.stacked j);
      owns =
          update-elim
            (λ j h. (k : Lock) → set_holder l (some i) s.holder k ≡ some j → has_lock k h ≡ true)
            v.held i _ (λ k h. ground (arith, v.owns i k))
            (λ j other k h. ground (arith, v.owns j k, ==_refl i));
      owned =
          update-elim
            (λ j h. (k : Lock) → has_lock k h ≡ true → set_holder l (some i) s.holder k ≡ some j)
            v.held i _ (λ k h. ground (arith, v.owned i k))
            (λ j other k h. fresh j k (v.owned j k h));
    }
  where
    fresh : (j : ℕ) (k : Lock) → s.holder k ≡ some j → set_holder l (some i) s.holder k ≡ some j
    fresh j k h = elim (Bool-cases (lock_eq l k)) [
      | inl same ↦ cc (lock_eq_sound l k same)
      | inr apart ↦ rw apart h
    ]

unlocks-Inv :
    (s : Locks) (i : ℕ) (l : Lock) (rest : List Action)
    → s.todo i ≡ release l ∷ rest
    → Inv s
    → Inv (record { holder = set_holder l none s.holder; todo = update s.todo i rest })
unlocks-Inv s i l rest e v =
    let (h, top, after) = released (v.held i) l rest (subst (Nested (v.held i)) e (v.nested i)) in
    let below : All (λ k. rank k < rank l) h × Stacked h = subst Stacked top (v.stacked i) in
    let mine : s.holder l ≡ some i = v.owned i l (rw (top, lock_eq_refl) refl) in
    record {
      held = update v.held i h;
      nested =
          update-elim₂ (λ j h a. Nested h a) v.held s.todo i _ rest after (λ j other. v.nested j);
      stacked = update-elim (λ j h. Stacked h) v.held i _ below.1 (λ j other. v.stacked j);
      owns =
          update-elim
            (λ j h. (k : Lock) → set_holder l none s.holder k ≡ some j → has_lock k h ≡ true) v.held
            i _
            (λ k q. elim (Bool-cases (lock_eq l k)) [
              | inl same ↦ cc (rw same at q)
              | inr apart ↦ rw (top, apart) at (v.owns i k (rw apart at q))
            ])
            (λ j other k q. ground (arith, v.owns j k));
      owned =
          update-elim
            (λ j h. (k : Lock) → has_lock k h ≡ true → set_holder l none s.holder k ≡ some j) v.held
            i _
            (λ k q. elim (Bool-cases (lock_eq l k)) [
              | inl same ↦
                  cc (below_absent l h below.0, ap (λ x. has_lock x h) (lock_eq_sound l k same), q)
              | inr apart ↦ rw apart (v.owned i k (rw (top, apart) q))
            ])
            (λ j other k q. elim (Bool-cases (lock_eq l k)) [
              | inl same ↦
                  let there : s.holder l ≡ some j =
                    ap s.holder (lock_eq_sound l k same) ∙ v.owned j k q in
                  ground (arith, sym mine ∙ there)
              | inr apart ↦ rw apart (v.owned j k q)
            ]);
    }

Step-Inv : {s t : Locks} → Step s t → Inv s → Inv t
Step-Inv {s} (enters i o e) v = enters-Inv s i o e v
Step-Inv {s} (locks i l rest e free) v = locks-Inv s i l rest e free v
Step-Inv {s} (unlocks i l rest e) v = unlocks-Inv s i l rest e v

pub Reach-Inv : {s : Locks} → Reach s → Inv s
Reach-Inv start = unlocked-Inv
Reach-Inv (later r st) = Step-Inv st (Reach-Inv r)
