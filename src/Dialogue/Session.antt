-- ===== src/Dialogue/Session.antt =====
-- The loop of a sender against its thread, line by line.
use csfassignment.Base.{
  ℕ, suc, ◌-◌, ◌<◌, ◌≡◌, refl, sym, ap, ap₂, subst, ◌∙◌, List, ◌∷◌, Option, Bytes, arith,
}
use csfassignment.Base.Int.{ℤ}
use csfassignment.Csapp.{Csapp}
use csfassignment.Text.{trim}
use csfassignment.Message.{Message}
use csfassignment.Heap.{Store}
use csfassignment.Server.Program.{Program}
use csfassignment.Server.Chat.{Exit}
use csfassignment.Server.Deeds.{stir, rest_of}
use csfassignment.Client.{Client, print_err}
use csfassignment.Client.Sender.{Turn, next, first_line, read_line, exchange, sender_turn}
use csfassignment.Dialogue.{Served, served_lib}
use csfassignment.Dialogue.Link.{IsReliable, IsPlain}
use csfassignment.Dialogue.Replies.{reply_to}
use csfassignment.Dialogue.Exchange.{heard}
use csfassignment.Dialogue.Synced.{IsSynced, heard_by, IsSynced-same, exchange_answered}
use csfassignment.Dialogue.Talk.{
  Request, silent, complains, asks, quits, fails, request_of, makes, sender_turn-makes, at_prompt,
  Talk, grumbled, stirred, spoken, talked, prompted, talk_line, IsSpeakable,
}

module _ {W B : Type 0} {lib : Csapp W B} {owner : B → ℤ} {peer : ℤ → ℤ}
    {lines : B → W → List Bytes} (h : IsReliable lib owner peer lines) (clock : W → Option ℕ)
    (user : ℕ) (k : Exit → Program Exit) where
  -- Client, thread and objects are at this point of the conversation, and the thread has fuel for more
  -- than `n` rounds.
  pub record Ready (n : ℕ) (s : Client (Served W B) B) (t : Talk) : Type 0 where
    pub rounds : ℕ
    pub enough : n < rounds
    pub synced : IsSynced h clock rounds user t.room t.msg k s
    pub store : s.world.store ≡ t.store
    pub others : s.world.others ≡ t.others
    pub console : s.console ≡ t.console

  Ready-asks :
      (n : ℕ) (m : Message) (s : Client (Served W B) B) (t : Talk)
      → Ready (suc n) s t
      → IsSpeakable user (asks m) t
      → Ready n (exchange (served_lib lib clock) m s) (spoken user m t)
  Ready-asks n m s t v (plain, other, said) =
      let f = v.rounds - 2 in
      let more : v.rounds ≡ suc (suc f) = omega (arith, v.enough) in
      let a = λ (st : Store). reply_to user t.room (heard m t.msg) st in
      let same : stir s.world.others s.world.store ≡ stirred t = ap₂ stir v.others v.store in
      let (synced, store, others, console) =
        exchange_answered h clock f user t.room m t.msg k s
          (subst (λ x. IsSynced h clock x user t.room t.msg k s) more v.synced) plain other
          (subst (λ st. IsPlain (a st).said) (sym same) said) in
      record {
        rounds = suc f;
        enough = omega (arith, v.enough, more);
        synced =
            subst
              (λ st.
                IsSynced h clock (suc f) user (a st).room (heard m t.msg) k
                  (exchange (served_lib lib clock) m s))
              same synced;
        store = store ∙ ap (λ st. (a st).store) same;
        others = others ∙ ap rest_of v.others;
        console =
            console
            ∙ ap (λ st. heard_by (a st).said s.console) same
            ∙ ap (heard_by (a (stirred t)).said) v.console;
      }

  Ready-fewer : (n : ℕ) (s : Client (Served W B) B) (t : Talk) → Ready (suc n) s t → Ready n s t
  Ready-fewer n s t v = record {
    rounds = v.rounds;
    enough = omega (arith, v.enough);
    synced = v.synced;
    store = v.store;
    others = v.others;
    console = v.console;
  }

  -- Each request that can be made leads on.
  makes-Ready :
      (n : ℕ) (r : Request) (s : Client (Served W B) B) (t : Talk)
      → Ready (suc n) s t
      → IsSpeakable user r t
      → ((makes (served_lib lib clock) r s).0 ≡ next)
        × Ready n (makes (served_lib lib clock) r s).1 (talked user r t)
  makes-Ready n silent s t v ok = (refl, Ready-fewer n s t v)
  makes-Ready n (complains text) s t v ok = (
    refl,
    record {
      rounds = v.rounds;
      enough = omega (arith, v.enough);
      synced = IsSynced-same h clock s (print_err text s) refl refl v.synced;
      store = v.store;
      others = v.others;
      console = ap (grumbled text) v.console;
    },
  )
  makes-Ready n (asks m) s t v ok = (refl, Ready-asks n m s t v ok)
  makes-Ready n (quits m) s t v ok = elim ok [ ]
  makes-Ready n fails s t v ok = elim ok [ ]

  pub prompted-Ready :
      (n : ℕ) (s : Client (Served W B) B) (t : Talk)
      → Ready n s t
      → Ready n (read_line (served_lib lib clock) s).1 (prompted t)
  unfolding read_line
  prompted-Ready n s t v = record {
    rounds = v.rounds;
    enough = v.enough;
    synced = IsSynced-same h clock s (read_line (served_lib lib clock) s).1 refl refl v.synced;
    store = v.store;
    others = v.others;
    console = ap at_prompt v.console;
  }

  -- A round of the client's loop is one line of the conversation.
  pub turn-Ready :
      (n : ℕ) (raw : Bytes) (rest : List Bytes) (s : Client (Served W B) B) (t : Talk)
      → Ready (suc n) s t
      → t.console.input ≡ raw ∷ rest
      → IsSpeakable user (request_of (trim raw)) (prompted t)
      → ((sender_turn (served_lib lib clock) s).0 ≡ next)
        × Ready n (sender_turn (served_lib lib clock) s).1 (talk_line user raw t)
  turn-Ready n raw rest s t v e ok =
      let at_head : first_line s.console.input ≡ raw =
        ap first_line (ap (λ c. c.input) v.console ∙ e) in
      let s1 = (read_line (served_lib lib clock) s).1 in
      let same = sender_turn-makes (served_lib lib clock) raw s at_head in
      let (goes_on, ready) =
        makes-Ready n (request_of (trim raw)) s1 (prompted t) (prompted-Ready (suc n) s t v) ok in
      (
        ap (λ r. r.0) same ∙ goes_on,
        subst (λ (r : Turn × Client (Served W B) B). Ready n r.1 (talk_line user raw t)) (sym same)
            ready,
      )
