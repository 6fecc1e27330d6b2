-- ===== src/Server/Service/Order.antt =====
-- What a user takes, against the log of all posts.
use csfassignment.Room.{has_member}
use csfassignment.Base.{
  ℕ, ◌≡◌, refl, ap, ◌∙◌, true, List, [], ◌∷◌, ◌++◌, Option, some, ◌==◌, if◌then◌else◌, inl, inr,
  Bool-cases, ==_iff, ◌⊎◌,
}
use csfassignment.Csapp.{Csapp}
use csfassignment.Message.{Message}
use csfassignment.Server.System.{System, Reach}
use csfassignment.Server.Service.{
  Service, Event, takes, Act, signing, founding, entering, leaving, posting, taking, idling, Runs,
  begins, goes, inbox,
}
use csfassignment.Server.Service.Matches.{jobs_of, queued, due, title_at, name_at, Job}
use csfassignment.Server.Service.Refinement.{Reach-Runs}
use csfassignment.Server.Service.Events.{events}

-- The messages that a user takes in these events, the last event first, in the order of taking.
abbrev pub taken_by : ℕ → List Event → List Message
taken_by u [] = []
taken_by u (takes v m ∷ es) = if v == u then taken_by u es ++ m ∷ [] else taken_by u es
taken_by u (e ∷ es) = taken_by u es

Act-taken :
    (u : ℕ) {a b : Service} {e : Event} (es : List Event)
    → Act a e b
    → a.taken u ≡ taken_by u es
    → b.taken u ≡ taken_by u (e ∷ es)
Act-taken u es (signing v n h) q = q
Act-taken u es (founding r t h) q = q
Act-taken u es (entering v r h) q = q
Act-taken u es (leaving v r h) q = q
Act-taken u es (posting v r t n x h k) q = q
Act-taken u {a} es (taking v m rest h) q = elim (Bool-cases (v == u)) [
  | inl same ↦ rw same (ap (λ l. l ++ m ∷ []) (ap a.taken ((==_iff v u).0 same) ∙ q))
  | inr other ↦ rw other q
]
Act-taken u es idling q = q

Runs-taken : (u : ℕ) {es : List Event} {a : Service} → Runs es a → a.taken u ≡ taken_by u es
Runs-taken u begins = refl
Runs-taken u (goes {events = es} r act) = Act-taken u es act (Runs-taken u r)

module _ {W B : Type 0} (lib : Csapp W B) (clock : W → Option ℕ) (raw : B) (fuel : ℕ) where
  -- Nothing is lost, doubled or put out of order: in every run of the server, the posts for a user, in
  -- the order of one log for all users, are what the user's thread has taken from its queue, then
  -- what is in the queue, then a rest; and the rest is empty, or a broadcast in progress still has
  -- the user on its list, and the rest is what that broadcast has for the user.
  pub nothing_lost :
      {w : W} {s : System W B} (u : ℕ) (r : Reach lib clock raw fuel w s)
      → (a : Service) × (rest : List Message) × Runs (events lib clock raw fuel r) a
        × (inbox u a.log ≡ taken_by u (events lib clock raw fuel r) ++ (queued u s.store ++ rest))
        × ((rest ≡ [])
            ⊎ ((i : ℕ) × (b : Job) × (jobs_of s.threads i ≡ some b)
                × (has_member u b.rest ≡ true)
                × (rest ≡ due (title_at b.room s.store) (name_at u s.store) b.sender b.text)))
  nothing_lost {s = s} u r =
      let (a, runs, m) = Reach-Runs lib clock raw fuel r in
      (
        a,
        m.flight u,
        runs,
        m.queues u ∙ ap (λ l. l ++ (queued u s.store ++ m.flight u)) (Runs-taken u runs),
        elim (m.flying u) [
          | inl none_left ↦ inl none_left
          | inr (i, b, busy, listed) ↦ inr (i, b, busy, listed, (m.busy i b busy).owes u listed)
        ],
      )
