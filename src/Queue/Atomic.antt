-- ===== src/Queue/Atomic.antt =====
-- Why `enqueue` and `dequeue` may be taken as one step each: the steps in between, with one thread
-- that enqueues and one that dequeues at a time.
use csfassignment.Base.{
  ℕ, suc, ◌+◌, ◌≡◌, refl, sym, ap, subst, ◌∙◌, List, [], ◌∷◌, ◌++◌, append_assoc, append-nil,
  Option, none, some, length, length-append, inl, inr, Option-cases, arith,
}
use csfassignment.Message.{Message}
use csfassignment.Queue.{
  MessageQueue, new_queue, push_back, post, enqueue, sem_timedwait, Fetch, got, nothing, undefined,
  pop_front, fetch, dequeue,
}
use csfassignment.Queue.Fifo.{IsCounted}

-- A call, with what it yields, at the moment at which it takes effect.
pub data Event : Type 0 where
  enqueues : Message → Event
  dequeues : Option ℕ → Fetch → Event

-- The queue, the message that is pushed and not yet posted, and what a `dequeue` is to yield that has
-- taken the semaphore and not yet popped.
pub record Sections : Type 0 where
  pub queue : MessageQueue
  pub posting : Option Message
  pub popping : Option Fetch

abbrev pub untouched : Sections
untouched = record { queue = new_queue; posting = none; popping = none }

-- A lock, a semaphore operation or a return at a time, with the call that takes effect by it.
pub data Step (s : Sections) : Option Event → Sections → Type 0 where
  -- `enqueue`, up to the unlock
  push :
      (m : Message)
      → s.posting ≡ none
      → Step s none (record s { queue = push_back m s.queue; posting = some m })
  -- the rest of `enqueue`
  posts :
      (m : Message)
      → s.posting ≡ some m
      → Step s (some (enqueues m)) (record s { queue = post s.queue; posting = none })
  -- `dequeue`, up to a wait that succeeds
  waits :
      (seconds : ℕ) {left : ℕ}
      → s.popping ≡ none
      → sem_timedwait (seconds + 1) s.queue.avail ≡ some left
      → Step s (some (dequeues (some seconds) (pop_front s.queue.messages).0)) (record s {
        queue = record (s.queue) { avail = left };
        popping = some (pop_front s.queue.messages).0;
      })
  -- `dequeue` that returns at the deadline
  times_out :
      (seconds : ℕ)
      → s.popping ≡ none
      → sem_timedwait (seconds + 1) s.queue.avail ≡ none
      → Step s (some (dequeues (some seconds) nothing)) s
  -- `dequeue` for which `clock_gettime` fails
  no_clock : s.popping ≡ none → Step s (some (dequeues none nothing)) s
  -- the rest of `dequeue`
  pops :
      (f : Fetch)
      → s.popping ≡ some f
      → Step s none (record s { queue = (fetch s.queue).1; popping = none })

abbrev pub noted : Option Event → List Event → List Event
noted none events = events
noted (some e) events = e ∷ events

-- The calls that have taken effect, the last one first.
pub data Reach : List Event → Sections → Type 0 where
  start : Reach [] untouched
  later :
      {events : List Event} {e : Option Event} {s t : Sections}
      → Reach events s
      → Step s e t
      → Reach (noted e events) t

-- The same calls one after the other.
pub data Calls : List Event → MessageQueue → Type 0 where
  begins : Calls [] new_queue
  enqueued :
      {events : List Event} {q : MessageQueue} (m : Message)
      → Calls events q
      → Calls (enqueues m ∷ events) (enqueue m q)
  dequeued :
      {events : List Event} {q q' : MessageQueue} (now : Option ℕ) (f : Fetch)
      → Calls events q
      → dequeue now q ≡ (f, q')
      → Calls (dequeues now f ∷ events) q'

-- The messages at the front that a `dequeue` in progress has, and at the back those of an `enqueue`
-- in progress.
abbrev pub claimed : Option Fetch → List Message
claimed (some (got m)) = m ∷ []
claimed f = []

abbrev pub unposted : Option Message → List Message
unposted none = []
unposted (some m) = m ∷ []

-- A call that has taken the semaphore is to yield a message.
abbrev pub IsGot : Option Fetch → Type 0
IsGot (some nothing) = ⊥
IsGot (some undefined) = ⊥
IsGot f = Unit

pub record Stands (s : Sections) (q : MessageQueue) : Type 0 where
  pub avail : q.avail ≡ s.queue.avail
  pub messages : s.queue.messages ≡ claimed s.popping ++ (q.messages ++ unposted s.posting)
  pub counted : IsCounted q
  pub sure : IsGot s.popping

abbrev Follows : List Event → Sections → Type 0
Follows events s = (q : MessageQueue) × Calls events q × Stands s q

-- A counted queue from which one can be taken has a front.
has_front :
    (q : MessageQueue) (left : ℕ)
    → IsCounted q
    → q.avail ≡ suc left
    → (m : Message) × (ms : List Message) × (q.messages ≡ m ∷ ms) × (length ms ≡ left)
has_front q left h e = split q.messages (omega (arith, h, e))
  where
    split :
        (l : List Message)
        → length l ≡ suc left
        → (m : Message) × (ms : List Message) × (l ≡ m ∷ ms) × (length ms ≡ left)
    split [] k = cc
    split (m ∷ ms) k = (m, ms, refl, omega arith)

sem_timedwait-some :
    (deadline n : ℕ) {left : ℕ} → sem_timedwait deadline n ≡ some left → n ≡ suc left
sem_timedwait-some deadline n e = ground arith

sem_timedwait-none : (deadline n : ℕ) → sem_timedwait deadline n ≡ none → n ≡ 0
sem_timedwait-none deadline n e = ground arith

dequeue_front :
    (seconds : ℕ) (q : MessageQueue) {left : ℕ} (m : Message) (ms : List Message)
    → q.avail ≡ suc left
    → q.messages ≡ m ∷ ms
    → dequeue (some seconds) q ≡ (got m, record { avail = left; messages = ms })
unfolding dequeue fetch
dequeue_front seconds q m ms e f = ground arith

dequeue_empty :
    (seconds : ℕ) (q : MessageQueue) → q.avail ≡ 0 → dequeue (some seconds) q ≡ (nothing, q)
unfolding dequeue
dequeue_empty seconds q e = ground arith

-- A `dequeue` in progress is to yield the message at the front.
in_progress :
    (s : Sections) (q : MessageQueue) (f : Fetch)
    → s.popping ≡ some f
    → Stands s q
    → (m : Message) × (f ≡ got m) × (s.queue.messages ≡ m ∷ (q.messages ++ unposted s.posting))
in_progress s q nothing e v = absurd (subst IsGot e v.sure)
in_progress s q undefined e v = absurd (subst IsGot e v.sure)
in_progress s q (got m) e v =
    (m, refl, v.messages ∙ ap (λ o. claimed o ++ (q.messages ++ unposted s.posting)) e)

Step-Follows :
    {events : List Event} {e : Option Event} {s t : Sections}
    → Step s e t
    → Follows events s
    → Follows (noted e events) t
unfolding fetch enqueue dequeue
Step-Follows {s = s} (push m free) (q, run, v) = (
  q,
  run,
  record {
    avail = v.avail;
    messages =
        ap (λ l. l ++ m ∷ []) v.messages
        ∙ append_assoc (claimed s.popping) (q.messages ++ unposted s.posting) (m ∷ [])
        ∙ ap (λ o. claimed s.popping ++ ((q.messages ++ unposted o) ++ m ∷ [])) free
        ∙ ap (λ l. claimed s.popping ++ (l ++ m ∷ [])) (append-nil q.messages);
    counted = v.counted;
    sure = v.sure;
  },
)
Step-Follows {s = s} (posts m e) (q, run, v) = (
  enqueue m q,
  enqueued m run,
  record {
    avail = ap (λ n. n + 1) v.avail;
    messages =
        v.messages
        ∙ ap (λ o. claimed s.popping ++ (q.messages ++ unposted o)) e
        ∙ ap (λ l. claimed s.popping ++ l) (sym (append-nil (q.messages ++ m ∷ [])));
    counted = omega (arith, v.counted, length-append q.messages (m ∷ []));
    sure = v.sure;
  },
)
Step-Follows {s = s} (waits seconds {left} free e) (q, run, v) =
    let taken = sem_timedwait-some (seconds + 1) s.queue.avail e in
    let (m, ms, front, few) = has_front q left v.counted (v.avail ∙ taken) in
    let there : s.queue.messages ≡ m ∷ (ms ++ unposted s.posting) =
      v.messages
      ∙ ap (λ o. claimed o ++ (q.messages ++ unposted s.posting)) free
      ∙ ap (λ l. l ++ unposted s.posting) front in
    let yields : (pop_front s.queue.messages).0 ≡ got m = rw there refl in
    let q' : MessageQueue = record { avail = left; messages = ms } in
    (
      q',
      dequeued (some seconds) (pop_front s.queue.messages).0 run
          (dequeue_front seconds q m ms (v.avail ∙ taken) front ∙ ap (λ f. (f, q')) (sym yields)),
      record {
        avail = refl;
        messages = there ∙ sym (ap (λ f. claimed (some f) ++ (ms ++ unposted s.posting)) yields);
        counted = sym few;
        sure = rw yields tt;
      },
    )
Step-Follows {s = s} (times_out seconds free e) (q, run, v) = (
  q,
  dequeued (some seconds) nothing run
      (dequeue_empty seconds q (v.avail ∙ sem_timedwait-none (seconds + 1) s.queue.avail e)),
  v,
)
Step-Follows (no_clock free) (q, run, v) = (q, dequeued none nothing run refl, v)
Step-Follows {s = s} (pops f e) (q, run, v) =
    let (m, yields, there) = in_progress s q f e v in
    (q, run, record { avail = v.avail; messages = rw there refl; counted = v.counted; sure = tt })

-- What the front yields to a `dequeue` in progress.
abbrev pub Yields : Option Fetch → Fetch → Type 0
Yields none front = Unit
Yields (some f) front = (m : Message) × (f ≡ got m) × (front ≡ f)

-- With one thread that enqueues and one that dequeues at a time, the sections of `enqueue` and
-- `dequeue` in any interleaving amount to calls made one after the other, with the same messages and
-- the same results: each call takes effect at once, `enqueue` when it posts and `dequeue` when it
-- takes the semaphore or gives up. A `dequeue` in between finds at the front the message that its
-- call yields.
pub Reach-Calls :
    {events : List Event} {s : Sections}
    → Reach events s
    → (q : MessageQueue) × Calls events q × Stands s q × Yields s.popping (fetch s.queue).0
unfolding fetch
Reach-Calls {s = s} r =
    let (q, run, v) = all r in
    (
      q,
      run,
      v,
      elim (Option-cases s.popping) [
        | inl e ↦ rw e tt
        | inr (f, e) ↦
            let (m, yields, there) = in_progress s q f e v in
            rw e (m, yields, rw there (sym yields))
      ],
    )
  where
    all : {events : List Event} {s : Sections} → Reach events s → Follows events s
    all start =
        (new_queue, begins, record { avail = refl; messages = refl; counted = refl; sure = tt })
    all (later r st) = Step-Follows st (all r)
