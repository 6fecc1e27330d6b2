-- ===== src/Server/Service/Views.antt =====
-- What the calls change of the names of users, of the names of rooms and of the queues.
use csfassignment.Base.{
  ℕ, ◌≡◌, ◌⊎◌, refl, sym, ap, ◌∙◌, false, List, [], ◌∷◌, Option, none, some, ◌==◌, inl, inr,
  Option-cases, ==_refl, arith,
}
use csfassignment.Message.{Message}
use csfassignment.Queue.{MessageQueue, Fetch, got, nothing, dequeue}
use csfassignment.Queue.Fifo.{IsCounted, Serves, dequeue_lem}
use csfassignment.Heap.{Store, put}
use csfassignment.Room.{add_member_at, remove_member_at}
use csfassignment.Room.Members.{add_member_name, remove_member_name}
use csfassignment.Server.Program.{dequeue_at}
use csfassignment.Server.Invariant.{Inv}
use csfassignment.Server.Service.Matches.{name_at, title_at, queued}

module _ (r u : ℕ) (s : Store) where
  pub add_name : (w : ℕ) → name_at w (add_member_at r u s) ≡ name_at w s
  unfolding add_member_at
  add_name w = ground arith

  pub add_queued : (w : ℕ) → queued w (add_member_at r u s) ≡ queued w s
  unfolding add_member_at
  add_queued w = ground arith

  pub add_title : (q : ℕ) → title_at q (add_member_at r u s) ≡ title_at q s
  unfolding add_member_at put
  add_title q = elim (Option-cases (s.rooms r)) [
    | inl e ↦ ground arith
    | inr (room, e) ↦ ground (arith, add_member_name u room)
  ]

  pub remove_name : (w : ℕ) → name_at w (remove_member_at r u s) ≡ name_at w s
  unfolding remove_member_at
  remove_name w = ground arith

  pub remove_queued : (w : ℕ) → queued w (remove_member_at r u s) ≡ queued w s
  unfolding remove_member_at
  remove_queued w = ground arith

  pub remove_title : (q : ℕ) → title_at q (remove_member_at r u s) ≡ title_at q s
  unfolding remove_member_at put
  remove_title q = elim (Option-cases (s.rooms r)) [
    | inl e ↦ ground arith
    | inr (room, e) ↦ ground (arith, remove_member_name u room)
  ]

-- What `dequeue` takes from a user's queue, and that it changes nothing else that shows.
abbrev pub Dequeued : ℕ → Store → Fetch × Store → Type 0
Dequeued u s (f, s') =
    (((w : ℕ) → name_at w s' ≡ name_at w s)
      × (s'.rooms ≡ s.rooms)
      × ((w : ℕ) → (w == u) ≡ false → queued w s' ≡ queued w s))
    × (((f ≡ nothing) × (queued u s' ≡ queued u s))
        ⊎ ((m : Message) × (f ≡ got m) × (queued u s ≡ m ∷ queued u s')))

taken_shape :
    (q q' : MessageQueue) (f : Fetch) (ms : List Message)
    → q.messages ≡ ms
    → Serves ms (f, q')
    → ((f ≡ nothing) × (q'.messages ≡ q.messages))
      ⊎ ((m : Message) × (f ≡ got m) × (q.messages ≡ m ∷ q'.messages))
taken_shape q q' f [] e h = inl (h.0, h.1 ∙ sym e)
taken_shape q q' f (m ∷ ms) e h = inr (m, h.0, e ∙ ap (λ l. m ∷ l) (sym h.1))

dequeue_taken :
    (now : Option ℕ) (q : MessageQueue)
    → IsCounted q
    → let (f, q') = dequeue now q in
      ((f ≡ nothing) × (q'.messages ≡ q.messages))
      ⊎ ((m : Message) × (f ≡ got m) × (q.messages ≡ m ∷ q'.messages))
dequeue_taken none q h = unfold dequeue in inl (refl, refl)
dequeue_taken (some now) q h = taken_shape q _ _ q.messages refl (dequeue_lem now q h).0

pub dequeue_at-Dequeued :
    (now : Option ℕ) (u : ℕ) (s : Store) → Inv s → Dequeued u s (dequeue_at now u s)
unfolding dequeue_at put
dequeue_at-Dequeued now u s v = elim (Option-cases (s.users u)) [
  | inl e ↦ rw (dequeue_at, e) ((λ w. refl, refl, λ w h. refl), inl (refl, refl))
  | inr (user, e) ↦
      let (f, q) = dequeue now user.mqueue in
      let s' : Store = record s { users = put u (record user { mqueue = q }) s.users } in
      let before : queued u s ≡ user.mqueue.messages = rw (queued, e) refl in
      let after : queued u s' ≡ q.messages = rw (queued, ==_refl u) refl in
      rw (dequeue_at, e)
        (
          (λ w. ground arith, refl, λ w h. ground arith),
          elim (dequeue_taken now user.mqueue (v.counted u user e)) [
            | inl (idle, same) ↦ inl (idle, after ∙ same ∙ sym before)
            | inr (m, took, front) ↦ inr (m, took, before ∙ front ∙ ap (λ l. m ∷ l) (sym after))
          ],
        )
]
