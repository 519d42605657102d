-- ===== src/Errors.antt =====
-- src/errors.rs: the error of a call of the operating system, and `Result` with `?` as the bind of a
-- `do` block. The services that return a boxed error box no other.
use cncnet_server.Base.{ℕ, Option, none, some}

-- The code of the `std::io::Error`.
pub data ServerError : Type 0 where
  io : ℕ → ServerError

pub data Result (T : Type 0) : Type 0 where
  err : ServerError → Result T
  ok : T → Result T

infixl 4 ◌>>=◌
abbrev pub ◌>>=◌ : {T U : Type 0} → Result T → (T → Result U) → Result U
err e >>= next = err e
ok t >>= next = next t

-- What a call gives where the system answers with an error or with none.
abbrev pub answered : {T : Type 0} → Option ServerError → T → Result T
answered none t = ok t
answered (some e) t = err e
