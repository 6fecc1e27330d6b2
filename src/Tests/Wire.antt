-- ===== src/Tests/Wire.antt =====
-- Examples for connections and deliveries.
use csfassignment.Base.{
  ℕ, zero, suc, ◌<◌, ◌≤◌, ◌+◌, take, length, Bytes, ◌≡◌, ◌↔◌, refl, true, false, [], ◌∷◌, ◌++◌,
  codes, arith,
}
use csfassignment.Base.Int.{pos}
use csfassignment.Text.{
  rtrim, trim, ltrim, find_first_not_of, find_last_not_of, contains, find, is_lower_cased,
}
use csfassignment.Message.{Message, message, empty_message, tag_ok, count}
use csfassignment.Connection.{
  Connection, success, eof_or_error, c_string, decode, wire, send, receive, to_string, split_tag,
}
use csfassignment.Connection.Decode.{IsWritable}
use csfassignment.Connection.Laws.{
  Outcome, receive-Outcome, send_outcome, Wrote, receive-wire, Carries,
}
use csfassignment.Room.{delivery}
use csfassignment.Client.{Client, print_out, print_err}
use csfassignment.Client.Receiver.{show_message}
use csfassignment.Delivery.{IsDeliverable, delivery_shown, delivery_lost}
use csfassignment.Tests.World.{World, world_lib, next_line}
use csfassignment.Connection.Bounds.{IsBounded, receive_bounds, delivery_cut}
use csfassignment.Csapp.{Csapp}

abbrev here : Connection ℕ
here = record { fd = pos 4; fdbuf = 0; last_result = success }

abbrev greeting : Message
greeting = message tag_ok (codes "hi ")

greeting-IsWritable : IsWritable greeting
greeting-IsWritable = record { lower = ground arith; no_zero = ground arith }

-- The world in which a message waits to be read.
abbrev bringing : Message → World
bringing m = record { lines = wire m ∷ []; written = [] }

receive-Outcome_example :
    Outcome world_lib empty_message here
      (bringing greeting)
      (receive world_lib empty_message here (bringing greeting))
receive-Outcome_example = receive-Outcome world_lib empty_message here (bringing greeting)

send_outcome_example :
    let (done, c', w') = send world_lib greeting here (bringing greeting) in
    ((done ≡ true) ↔ Wrote world_lib (c_string (wire greeting)) here (bringing greeting))
    × ((done ≡ false) → c' ≡ record here { last_result = eof_or_error })
    × ((done ≡ true) → c' ≡ here)
    × (w' ≡ (world_lib.rio_writen here.fd (c_string (wire greeting)) (bringing greeting)).1)
send_outcome_example = send_outcome world_lib greeting here (bringing greeting)

receive-wire_example :
    let (done, m', c', w') = receive world_lib empty_message here (bringing greeting) in
    (done ≡ true) × (m'.tag ≡ tag_ok) × (m'.payload ≡ rtrim (codes "hi "))
receive-wire_example =
    receive-wire world_lib greeting empty_message here (bringing greeting) greeting-IsWritable
      (refl, refl)

tea-IsDeliverable : IsDeliverable (codes "tea") (codes "ann") (codes "hi")
tea-IsDeliverable = record {
  room_plain = record {
    no_zero = ground arith;
    no_newline = ground arith;
    no_colon = ground arith;
  };
  sender_plain = record {
    no_zero = ground arith;
    no_newline = ground arith;
    no_colon = ground arith;
  };
  text_plain = record {
    no_zero = ground arith;
    no_newline = ground arith;
    no_colon = ground arith;
  };
  fits = omega arith;
}

abbrev news : Message
news = delivery (codes "tea") (codes "ann") (codes "hi")

abbrev reader : Client World ℕ
reader = record {
  conn = here;
  world = bringing news;
  console = record { input = []; out = []; err = [] };
}

delivery_shown_example :
    show_message (receive world_lib empty_message here (bringing news)).1 reader
    ≡ print_out (codes "ann" ++ codes ": " ++ rtrim (codes "hi") ++ codes "\n") reader
delivery_shown_example =
    delivery_shown world_lib (codes "tea") (codes "ann") (codes "hi") empty_message here
      (bringing news) reader tea-IsDeliverable (refl, refl)

-- A chat message with the time of day.
abbrev timed : Message
timed = delivery (codes "tea") (codes "ann") (codes "at 5:00")

delivery_lost_example : show_message timed reader ≡ print_err (codes "invalid payload size") reader
unfolding count
delivery_lost_example = delivery_lost timed reader refl (λ e. ground arith)

-- The bytes of a line that fit a buffer with its zero byte.
abbrev fitting : ℕ → Bytes → Bytes
fitting zero l = []
fitting (suc n) l = take n l

length-take : (n : ℕ) (l : Bytes) → length (take n l) ≤ n
length-take zero l = omega arith
length-take (suc n) [] = omega arith
length-take (suc n) (c ∷ l) = omega (arith, length-take n l)

length-fitting : (n : ℕ) (l : Bytes) → 0 < n → length (fitting n l) < n
length-fitting zero l h = omega arith
length-fitting (suc n) l h = omega (arith, length-take n l)

-- The world in which `rio_readlineb` keeps to the size of the buffer.
abbrev bounded_lib : Csapp World ℕ
bounded_lib = record world_lib {
  rio_readlineb = λ b n w. let l = next_line w in record l { bytes = fitting n l.bytes };
}

bounded_lib-IsBounded : IsBounded bounded_lib
bounded_lib-IsBounded = record { reads = λ b n w h. length-fitting n (next_line w).bytes h }

receive_bounds_example :
    let (_, m, _, _) = receive bounded_lib empty_message here (bringing greeting) in
    length m.tag + length m.payload ≤ 254
unfolding to_string c_string split_tag decode receive rtrim trim ltrim find_first_not_of
    find_last_not_of contains find is_lower_cased wire
receive_bounds_example =
    receive_bounds bounded_lib bounded_lib-IsBounded empty_message here (bringing greeting) refl

-- A text of 256 bytes.
abbrev twice : ℕ → Bytes → Bytes
twice zero s = s
twice (suc n) s = twice n (s ++ s)

abbrev long_text : Bytes
long_text = twice 8 (codes "a")

delivery_cut_example :
    ¬ Carries bounded_lib
      (wire (delivery (codes "tea") (codes "ann") long_text))
      here
      (bringing (delivery (codes "tea") (codes "ann") long_text))
delivery_cut_example =
    delivery_cut bounded_lib bounded_lib-IsBounded (codes "tea") (codes "ann") long_text here
      (bringing (delivery (codes "tea") (codes "ann") long_text)) (omega arith)
