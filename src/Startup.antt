-- ===== src/Startup.antt =====
-- The system calls that the client's `main` and the server's child make before a transfer, as actions
-- that leave a trace. What a call answers may depend on all calls before it.
pub mod Ends
pub mod Good
pub mod ClientMain
pub mod ServerChild
pub mod Joined
mod Tests
use tcp_implementation_over.Common.{ℕ, Bool, true, false, List, [], ◌∷◌, if◌then◌else◌}
use tcp_implementation_over.Wire.{ServerAck}

-- `socket`, `close_socket` and the calls between them are made on the program's own socket;
-- `close_listener i` and `send_answer i` on the socket of interface `i` that the child inherits.
-- `request n` sends the name of the file `n` times.
pub data Call : Type 0 where
  socket get_sock_name get_peer_name to_text create_threads open_file : Call
  read_confirmation close_socket close_file : Call
  set_dont_route close_listener request : ℕ → Call
  bind connect : ℕ → ℕ → Call
  send_answer : ℕ → ServerAck → Call
  write_confirmation : ServerAck → Call

-- How a part of `main` ends: with a value, by `return -1`, by `exit`, still waiting for a message, or
-- by an access outside an array.
pub data Outcome (A : Type 0) : Type 0 where
  ok : A → Outcome A
  failed : Outcome A
  exited : ℕ → Outcome A
  waiting : Outcome A
  undefined : Outcome A

-- The trace has the last call first.
abbrev pub Exec : Type 0 → Type 0
Exec A = List Call → Outcome A × List Call

abbrev pub and_then : {A B : Type 0} → Outcome A × List Call → (A → Exec B) → Outcome B × List Call
and_then (ok a, tr) f = f a tr
and_then (failed, tr) f = (failed, tr)
and_then (exited n, tr) f = (exited n, tr)
and_then (waiting, tr) f = (waiting, tr)
and_then (undefined, tr) f = (undefined, tr)

infixl 5 ◌>>=◌ ◌>>◌
abbrev pub ◌>>=◌ : {A B : Type 0} → Exec A → (A → Exec B) → Exec B
◌>>=◌ m f tr = and_then (m tr) f

abbrev pub ◌>>◌ : {B : Type 0} → Exec (Unit {0}) → Exec B → Exec B
m >> k = m >>= λ _. k

abbrev pub pure : {A : Type 0} → A → Exec A
pure a tr = (ok a, tr)

abbrev pub end : {A : Type 0} → Outcome A → Exec A
end o tr = (o, tr)

-- A call whose answer the code does not look at.
abbrev pub perform : Call → Exec (Unit {0})
perform c tr = (ok tt, c ∷ tr)

abbrev pub close_and : {A : Type 0} → Outcome A → Exec A
close_and o tr = (o, close_socket ∷ tr)

module _ (succeeds : List Call → Call → Bool) where
  -- A call on the socket; if it fails, the socket is closed, and `main` ends.
  abbrev pub or_close : Call → Outcome (Unit {0}) → Exec (Unit {0})
  or_close c o tr = if succeeds tr c then (ok tt, c ∷ tr) else (o, close_socket ∷ c ∷ tr)

  abbrev pub or_fail : Call → Exec (Unit {0})
  or_fail c tr = if succeeds tr c then (ok tt, c ∷ tr) else (failed, c ∷ tr)

  -- The library's wrappers exit on an error.
  abbrev pub or_exit : Call → Exec (Unit {0})
  or_exit c tr = if succeeds tr c then (ok tt, c ∷ tr) else (exited 1, c ∷ tr)
