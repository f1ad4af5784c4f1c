-- ===== src/Handshake.antt =====
-- The request for a file: the retries in `main` of client.c, and the answer of the server's child in
-- `main` of server.c. The byte order functions are parameters.
pub mod Request
pub mod Agreement
mod Tests
use Prim.Native.Nat.{bit_and}
use Prim.Native.String.{String}
use text.Mathlib.Text.{◌==◌ as str_eq}
use tcp_implementation_over.Common.{
  ℕ, ◌+◌, Bool, true, false, Option, none, some, List, [], ◌∷◌, ◌==◌, if◌then◌else◌, leb,
}
use tcp_implementation_over.Wire.{ServerAck}

-- What `Select` and `recv` give the client: nothing in time, an error, or the server's answer.
pub data Reply : Type 0 where
  timeout : Reply
  receive_error : Reply
  answer : ServerAck → Reply

-- How the request ends, with the number of datagrams sent: the client exits, it goes on with the
-- answer that is in `serverAck`, or it still waits.
pub data RequestOutcome : Type 0 where
  no_response : ℕ → RequestOutcome
  responded : ServerAck → ℕ → RequestOutcome
  pending : ℕ → RequestOutcome

-- The code behind `loop`; the reply is what comes next, if anything does.
unfoldable pub request_file : ServerAck → ℕ → ℕ → List Reply → RequestOutcome
request_file server_ack timeoutnum sent [] =
    if leb 12 timeoutnum then no_response sent else pending (sent + 1)
request_file server_ack timeoutnum sent (timeout ∷ rs) =
    let rest = request_file server_ack (timeoutnum + 1) (sent + 1) rs in
    if leb 12 timeoutnum then no_response sent else rest
request_file server_ack timeoutnum sent (receive_error ∷ rs) =
    if leb 12 timeoutnum then no_response sent else responded server_ack (sent + 1)
request_file server_ack timeoutnum sent (answer a ∷ rs) =
    if leb 12 timeoutnum then no_response sent else responded a (sent + 1)

-- What the client writes back on the new port.
unfoldable pub confirm : ℕ → ServerAck → ServerAck
confirm receiving_window_size a = record a { original_recv_window = receiving_window_size }

-- The file length that the consumer is given, and the one that the producer is given.
unfoldable pub thread_lengths : (ℕ → ℕ) → ServerAck → ℕ × ℕ
thread_lengths ntohl a = (ntohl a.sent_file_length, a.sent_file_length)

-- An interface of the server, its addresses as `inet_pton` gives them.
pub record ServerInterface : Type 0 where
  pub server_ip : String
  pub net_mask : ℕ
  pub subnet_addr : ℕ

pub record Location : Type 0 where
  pub interface_count : ℕ
  pub is_local : Bool
  pub is_same_host : Bool

-- The search for the interface of the client, from number `k` on.
unfoldable pub locate : String → ℕ → ℕ → List ServerInterface → Location
locate ip client_addr k [] = record { interface_count = k; is_local = false; is_same_host = false }
locate ip client_addr k (x ∷ xs) =
    let rest = locate ip client_addr (k + 1) xs in
    if str_eq x.server_ip ip
    then record { interface_count = k; is_local = false; is_same_host = true }
    else if bit_and client_addr x.net_mask == x.subnet_addr
    then record { interface_count = k; is_local = true; is_same_host = false }
    else rest

-- The answer with the new port and the length of the file.
unfoldable pub server_info : (ℕ → ℕ) → (ℕ → ℕ) → ℕ → ℕ → ServerAck
server_info htons htonl port file_length = record {
  server_port = htons port;
  sent_file_length = htonl file_length;
  original_recv_window = 0;
}

-- What the child waits for: nothing in time, an error of `Read`, which exits, a short read, or the
-- client's confirmation.
pub data Confirmation : Type 0 where
  late : Confirmation
  read_error : Confirmation
  short_read : Confirmation
  confirmed : ServerAck → Confirmation

-- The window that the transmission starts with, and the count of short reads; `none`: the child ends.
unfoldable pub await_confirmation : ℕ → ℕ → Confirmation → Option (ℕ × ℕ)
await_confirmation client_original_window file_send_count late = none
await_confirmation client_original_window file_send_count read_error = none
await_confirmation client_original_window file_send_count short_read =
    if file_send_count + 1 == 12 then none else some (client_original_window, file_send_count + 1)
await_confirmation client_original_window file_send_count (confirmed a) =
    some (a.original_recv_window, 0)
