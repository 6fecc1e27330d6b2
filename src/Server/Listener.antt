-- ===== src/Server/Listener.antt =====
-- `listen` and `handle_client_requests` of server.cpp and `main` of server_main.cpp. The calls of
-- csapp.c, of the kernel and of the thread library are arguments: `open_listenfd`, `Accept`, `close`
-- and `pthread_create`.
use csfassignment.Base.{
  ℕ, zero, suc, ◌≡◌, Bool, true, false, not, List, [], ◌∷◌, ◌++◌, Option, none, some, Bytes,
  if◌then◌else◌, All, All-append, inl, inr, Bool-cases, Option-cases, if_cases,
}
use csfassignment.Base.Int.{ℤ, negsuc, is_negative, greater_than_zero}
use csfassignment.Connection.{to_string}
use csfassignment.Client.{stoi}
use csfassignment.Heap.{Store, empty_store}

-- The fields of `Server`; the room map and its lock are in `store`.
pub record Server : Type 0 where
  pub port : ℤ
  pub ssock : ℤ
  pub store : Store

-- The constructor.
abbrev pub server : ℤ → Server
server port = record { port = port; ssock = negsuc 0; store = empty_store }

-- The calls that the listener makes. `accept` is `none` where `Accept` ends the process.
pub record Network (W : Type 0) : Type 0 where
  pub open_listenfd : Bytes → W → ℤ × W
  pub accept : ℤ → W → Option ℤ × W
  pub create_thread : ℤ → W → Bool × W
  pub close : ℤ → W → W

-- How `main` ends: with a code, by an exception, in `Accept`, or not within the fuel.
pub data End : Type 0 where
  exits : ℕ → End
  throws stopped runs : End

module _ {W : Type 0} (net : Network W) where
  unfoldable pub listen : Server → W → Bool × Server × W
  unfolding to_string
  listen s w =
      let (fd, w') = net.open_listenfd (to_string s.port) w in
      let s' = record s { ssock = fd } in if is_negative fd then (false, s', w') else (true, s', w')

  -- The loop of `handle_client_requests`, with the descriptors that threads were started for. Where a
  -- thread cannot be started, `delete info` closes the connection. When the loop returns, `main` ends
  -- with code 0.
  unfoldable pub accept_loop : ℕ → ℤ → List ℤ → W → End × List ℤ × W
  accept_loop zero ssock started w = (runs, started, w)
  accept_loop (suc fuel) ssock started w =
      let (accepted, w1) = net.accept ssock w in
      elim accepted [
        | none ↦ (stopped, started, w1)
        | some client_fd ↦
            let (created, w2) = net.create_thread client_fd w1 in
            let on = accept_loop fuel ssock (started ++ client_fd ∷ []) w2 in
            if greater_than_zero client_fd
            then (if not created then (exits 0, started, net.close client_fd w2) else on)
            else (exits 0, started, w1)
      ]

  unfoldable pub handle_client_requests : ℕ → Server → W → End × List ℤ × W
  unfolding accept_loop
  handle_client_requests fuel s w = accept_loop fuel s.ssock [] w

  -- `main`; the arguments are those behind the program's name.
  unfoldable pub main : ℕ → List Bytes → W → End × List ℤ × W
  unfolding listen handle_client_requests
  main fuel (port ∷ []) w = elim (stoi port) [
    | none ↦ (throws, [], w)
    | some n ↦
        let (ok, s, w') = listen (server n) w in
        if not ok then (exits 1, [], w') else handle_client_requests fuel s w'
  ]
  main fuel arguments w = (exits 1, [], w)

  -- Every descriptor that a thread was started for is positive, whatever `Accept` returns.
  accept_loop_lem :
      (fuel : ℕ) (ssock : ℤ) (started : List ℤ) (w : W)
      → All (λ fd. greater_than_zero fd ≡ true) started
      → All (λ fd. greater_than_zero fd ≡ true) (accept_loop fuel ssock started w).1
  unfolding accept_loop
  accept_loop_lem zero ssock started w h = h
  accept_loop_lem (suc fuel) ssock started w h = elim (Option-cases (net.accept ssock w).0) [
    | inl e ↦ rw (accept_loop, All, e) h
    | inr (fd, e) ↦ elim (Bool-cases (greater_than_zero fd)) [
      | inr bad ↦ rw (accept_loop, All, e, bad) h
      | inl good ↦
          let (created, w2) = net.create_thread fd (net.accept ssock w).1 in
          elim (Bool-cases created) [
            | inr failed ↦ rw (accept_loop, All, e, good, failed) h
            | inl made ↦
                rw (accept_loop, All, e, good, made)
                  (accept_loop_lem fuel ssock (started ++ fd ∷ []) w2
                    (All-append _ started (fd ∷ []) h (good, tt)))
          ]
    ]
  ]

  -- Whatever the arguments are and whatever the network does, `main` starts threads for positive
  -- descriptors only.
  pub main_lem :
      (fuel : ℕ) (arguments : List Bytes) (w : W)
      → All (λ fd. greater_than_zero fd ≡ true) (main fuel arguments w).1
  unfolding main handle_client_requests
  main_lem fuel [] w = tt
  main_lem fuel (port ∷ a ∷ rest) w = tt
  main_lem fuel (port ∷ []) w = elim (Option-cases (stoi port)) [
    | inl e ↦ rw (main, All, e) tt
    | inr (n, e) ↦
        let (ok, s, w') = listen (server n) w in
        rw (main, All, e)
          (if_cases (λ (r : End × List ℤ × W). All (λ fd. greater_than_zero fd ≡ true) r.1) (not ok)
            _ _ tt (accept_loop_lem fuel s.ssock [] w' tt))
  ]
