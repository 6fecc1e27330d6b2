-- ===== src/Tests/Clients.antt =====
-- Examples for the loop of the sender.
use csfassignment.Base.{ℕ, ◌≡◌, ◌↔◌, refl, List, [], ◌∷◌, Bytes, codes}
use csfassignment.Base.Int.{pos}
use csfassignment.Text.{trim}
use csfassignment.Connection.{success}
use csfassignment.Client.{Client, runs}
use csfassignment.Client.Sender.{threw, first_line, sender_turn, sender_loop}
use csfassignment.Client.Laws.{bare_join, sender_turn_throws, sender_loop_spins}
use csfassignment.Tests.World.{World, world_lib}

-- A client with these lines on its standard input.
abbrev typing : List Bytes → Client World ℕ
typing input = record {
  conn = record { fd = pos 4; fdbuf = 0; last_result = success };
  world = record { lines = []; written = [] };
  console = record { input = input; out = []; err = [] };
}

sender_turn_throws_example :
    ((sender_turn world_lib (typing (codes "/join" ∷ []))).0 ≡ threw)
    ↔ (trim (first_line (codes "/join" ∷ [])) ≡ bare_join)
sender_turn_throws_example = sender_turn_throws world_lib (typing (codes "/join" ∷ []))

sender_loop_spins_example : (sender_loop world_lib 100 (typing [])).0 ≡ runs
sender_loop_spins_example = sender_loop_spins world_lib 100 (typing []) refl
