-- ===== src/Server/Service/Jobs.antt =====
-- How the broadcasts in progress change with the thread of one client.
use csfassignment.Base.{ℕ, ◌≡◌, refl, sym, ap, ◌∙◌, Option, ◌==◌, inl, inr, Bool-cases, ==_iff}
use mathlib.Core.Path.{fun_ext}
use csfassignment.Server.System.{Thread, update}
use csfassignment.Server.Service.Matches.{job_of, jobs_of}

pub jobs-update :
    {B : Type 0} (threads : ℕ → Option (Thread B)) (i : ℕ) (t : Option (Thread B))
    → jobs_of (update threads i t) ≡ update (jobs_of threads) i (job_of t)
jobs-update threads i t = fun_ext λ j. elim (Bool-cases (i == j)) [
  | inl same ↦ rw (jobs_of, same) refl
  | inr other ↦ rw (jobs_of, other) refl
]

update_same : {A : Type 0} (f : ℕ → A) (i : ℕ) (x : A) → f i ≡ x → update f i x ≡ f
update_same f i x e = fun_ext λ j. elim (Bool-cases (i == j)) [
  | inl same ↦ rw same (sym e ∙ ap f ((==_iff i j).0 same))
  | inr other ↦ rw other refl
]

-- A thread that stays out of broadcasts changes no broadcast in progress.
pub jobs_kept :
    {B : Type 0} (threads : ℕ → Option (Thread B)) (i : ℕ) (t : Option (Thread B))
    → job_of (threads i) ≡ job_of t
    → jobs_of threads ≡ jobs_of (update threads i t)
jobs_kept threads i t e =
    sym (jobs-update threads i t ∙ update_same (jobs_of threads) i (job_of t) e)
