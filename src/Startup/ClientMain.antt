-- ===== src/Startup/ClientMain.antt =====
-- `main` of client.c up to its threads. The address of `clientInput.serverIP` is `address`; the byte
-- order functions and 127.0.0.1 are parameters.
pub mod Started
pub mod Succeeds
use tcp_implementation_over.Common.{
  ℕ, ◌%◌, ◌^◌, Bool, true, false, Option, none, some, List, [], ◌∷◌, if◌then◌else◌,
}
use tcp_implementation_over.Common.Int.{ℤ, to_unsigned}
use tcp_implementation_over.Wire.{ServerAck}
use tcp_implementation_over.Interface.{Interface, Choice, get_client_ip_address}
use tcp_implementation_over.Input
use tcp_implementation_over.Input.{ClientInput, read_client_input}
use tcp_implementation_over.Handshake.{
  Reply, RequestOutcome, no_response, responded, pending, request_file, confirm, thread_lengths,
}
use tcp_implementation_over.Startup.{
  Call, socket, get_sock_name, get_peer_name, to_text, create_threads, set_dont_route, bind,
  connect, request, write_confirmation, Outcome, ok, failed, exited, waiting, undefined, Exec,
  ◌>>=◌, ◌>>◌, pure, end, perform, or_close, or_fail, or_exit,
}

-- The functions of the library, with what the calls answer; and what `writeFileFd` happens to hold.
pub record ClientLibrary (F : Type 0) : Type 0 where
  pub write_file_fd : ℤ
  pub inet_pton : List ℕ → Bool
  pub address : List ℕ → ℕ
  pub atof : List ℕ → F
  pub htons : ℕ → ℕ
  pub ntohs : ℕ → ℕ
  pub ntohl : ℕ → ℕ
  pub loopback : ℕ
  pub succeeds : List Call → Call → Bool

-- What the threads are started with. Nothing sets `writeFileFd`.
pub record Session : Type 0 where
  pub write_file_fd : ℤ
  pub receiving_window_size : ℤ
  pub seed_value : ℤ
  pub consumer_length : ℕ
  pub producer_length : ℕ

module _ {F : Type 0} (lib : ClientLibrary F) where
  open lib use {write_file_fd, inet_pton, address, atof, htons, ntohs, ntohl, loopback, succeeds}

  -- An `int` as the 16 bits of a port.
  abbrev pub port_of : ℤ → ℕ
  port_of n = to_unsigned n % 2 ^ 16

  abbrev pub set_route : Bool → Exec (Unit {0})
  set_route true = or_exit succeeds (set_dont_route 1)
  set_route false = pure tt

  -- From `bind` to `getpeername`.
  abbrev pub bind_and_connect : Choice → ℕ → Exec (Unit {0})
  bind_and_connect choice port = do
    or_close succeeds (bind choice.client_addr (htons 0)) failed
    or_close succeeds get_sock_name failed
    or_close succeeds to_text failed
    or_close succeeds (connect choice.server_addr port) (exited 1)
    or_close succeeds get_peer_name failed
    or_close succeeds to_text failed

  -- The socket, connected to the server's address and this port.
  pub set_up : Choice → ℕ → Exec (Unit {0})
  set_up choice port = do
    or_fail succeeds socket
    set_route choice.is_local
    bind_and_connect choice port

  -- The end of the request, with the number of datagrams sent.
  abbrev pub answered : RequestOutcome → Exec ServerAck
  answered (no_response n) = do perform (request n); end (exited 1)
  answered (responded a n) = do perform (request n); pure a
  answered (pending n) = do perform (request n); end waiting

  -- Behind the answer: the socket is connected to the new port, and the threads start.
  pub begin_session : ClientInput F → Choice → ServerAck → Exec Session
  unfolding to_unsigned
  begin_session input choice a = do
    let ack = confirm (to_unsigned input.receiving_window_size) a
    or_close succeeds (connect choice.server_addr (htons (ntohs ack.server_port))) (exited 1)
    or_exit succeeds (write_confirmation ack)
    perform create_threads
    pure (record {
      write_file_fd = write_file_fd;
      receiving_window_size = input.receiving_window_size;
      seed_value = input.seed_value;
      consumer_length = (thread_lengths ntohl ack).0;
      producer_length = (thread_lengths ntohl ack).1;
    })

  abbrev pub with_input : Input.Reading (ClientInput F) → Exec (ClientInput F)
  with_input (Input.ok c) = pure c
  with_input Input.exits = end (exited 0)
  with_input Input.out_of_bounds = end undefined

  abbrev pub choice_of : List Interface → ClientInput F → Choice
  choice_of xs input = get_client_ip_address loopback (address input.server_ip) 0 xs

  -- The start with this input.
  pub with_settings : List Interface → ServerAck → List Reply → ClientInput F → Exec Session
  unfolding set_up begin_session
  with_settings xs unset_ack rs input = do
    set_up (choice_of xs input) (htons (port_of input.server_port))
    a ← answered (request_file unset_ack 0 0 rs)
    begin_session input (choice_of xs input) a

  -- The whole start of the client: its file, its interfaces, and what comes back to its requests.
  pub client_main :
      Option (List ℕ) → ClientInput F → List Interface → ServerAck → List Reply → Exec Session
  unfolding with_settings
  client_main file unset xs unset_ack rs =
      with_input (read_client_input inet_pton atof file unset) >>= with_settings xs unset_ack rs
