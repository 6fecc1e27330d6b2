-- ===== src/Csapp.antt =====
-- The calls of csapp.c and of the kernel that the program makes on a connection, as an interface.
-- `W` is the state of the world outside the process and `B` stands for `rio_t`.
use csfassignment.Base.{ℕ, Bytes}
use csfassignment.Base.Int.{ℤ}

-- What `rio_readlineb(rp, usrbuf, maxlen)` leaves behind: its return value, the bytes in `usrbuf`
-- before the terminating zero that it writes, the buffer and the world.
pub record Line (W B : Type 0) : Type 0 where
  pub count : ℤ
  pub bytes : Bytes
  pub rio : B
  pub world : W

pub record Csapp (W B : Type 0) : Type 0 where
  pub open_clientfd : Bytes → Bytes → W → ℤ × W
  pub rio_readinitb : ℤ → B → B
  pub rio_readlineb : B → ℕ → W → Line W B
  pub rio_writen : ℤ → Bytes → W → ℤ × W
  pub close : ℤ → W → W
