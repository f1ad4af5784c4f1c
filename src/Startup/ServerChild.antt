-- ===== src/Startup/ServerChild.antt =====
-- The child that `main` of server.c forks for a request, up to `HandleFileTransmission`.
pub mod Started
pub mod Succeeds
use Prim.Native.String.{String}
use tcp_implementation_over.Common.{
  ℕ, ◌-◌, ◌^◌, Bool, true, false, Option, none, some, List, [], ◌∷◌, length, if◌then◌else◌,
}
use tcp_implementation_over.Wire.{ServerAck}
use tcp_implementation_over.Handshake.{
  ServerInterface, Location, locate, server_info, Confirmation, late, read_error, short_read,
  confirmed, await_confirmation,
}
use tcp_implementation_over.Listen.{close_others, child_address, dont_route}
use tcp_implementation_over.Startup.{
  Call, socket, get_sock_name, to_text, open_file, read_confirmation, close_file, close_socket,
  set_dont_route, close_listener, bind, connect, send_answer, Outcome, ok, failed, exited,
  undefined, Exec, ◌>>=◌, ◌>>◌, pure, end, perform, or_close,
}

-- The functions of the library, with what the calls answer: `sin_port` of the bound socket, and the
-- length that `lseek` gives, if the file can be opened.
pub record ServerLibrary : Type 0 where
  pub from_text : String → ℕ
  pub htons : ℕ → ℕ
  pub htonl : ℕ → ℕ
  pub bound_port : ℕ
  pub file_length : String → Option ℕ
  pub succeeds : List Call → Call → Bool

-- Who asks for which file.
pub record Request : Type 0 where
  pub client_ip : String
  pub client_port : ℕ
  pub file_name : String

-- What `HandleFileTransmission` is called with.
pub record Job : Type 0 where
  pub file_length : ℕ
  pub client_original_window : ℕ

-- `lseek` gives -1 for a file that is not open.
abbrev pub length_or_error : Option ℕ → ℕ
length_or_error (some n) = n
length_or_error none = 2 ^ 32 - 1

module _ (lib : ServerLibrary) where
  open lib use {from_text, htons, htonl, bound_port, file_length, succeeds}

  abbrev pub close_listeners : List ℕ → Exec (Unit {0})
  close_listeners [] = pure tt
  close_listeners (i ∷ is) = do perform (close_listener i); close_listeners is

  -- `none`: the address stands in an entry that was not filled.
  abbrev pub bind_to : Option String → Exec (Unit {0})
  bind_to none = end undefined
  bind_to (some ip) = or_close succeeds (bind (from_text ip) (htons 0)) failed

  -- An error of `setsockopt` is only printed.
  abbrev pub set_option : Option ℕ → Exec (Unit {0})
  set_option none = pure tt
  set_option (some v) = perform (set_dont_route v)

  abbrev pub answer_of : Request → ServerAck
  answer_of r = server_info htons htonl bound_port (length_or_error (file_length r.file_name))

  -- The code at `done`.
  abbrev pub finish_child : {A : Type 0} → Exec A
  finish_child = do perform close_file; perform close_socket; end (exited 0)

  -- From `close` on the inherited socket: `none` is the jump to `done`.
  pub begin_job : ℕ → Request → Option (ℕ × ℕ) → Exec Job
  begin_job count r none = finish_child
  begin_job count r (some (window, reads)) = do
    perform (close_listener count)
    or_close succeeds (connect (from_text r.client_ip) (htons r.client_port)) (exited 1)
    pure (record {
      file_length = ServerAck.sent_file_length (answer_of r);
      client_original_window = window;
    })

  -- From `getsockname` to the answer.
  abbrev pub name_and_answer : ℕ → Request → Location → Exec (Unit {0})
  name_and_answer count r l = do
    or_close succeeds get_sock_name failed
    or_close succeeds to_text failed
    set_option (dont_route l)
    perform open_file
    perform (send_answer count (answer_of r))

  -- The socket of the child, bound and named, and the answer to the client.
  pub make_socket : List ServerInterface → ℕ → Request → Location → Exec (Unit {0})
  make_socket xs count r l = do
    perform socket
    bind_to (child_address xs l)
    name_and_answer count r l

  -- From the `Read` of the confirmation on, if something comes in time. On an error the wrapper exits, and
  -- nothing is closed. `ClientOriginalWindow` and `file_send_count` are 0 at the start of `main`.
  pub confirmed_job : ℕ → Request → Confirmation → Exec Job
  unfolding begin_job
  confirmed_job count r late = begin_job count r (await_confirmation 0 0 late)
  confirmed_job count r read_error = do perform read_confirmation; end (exited 1)
  confirmed_job count r short_read = do
    perform read_confirmation
    begin_job count r (await_confirmation 0 0 short_read)
  confirmed_job count r (confirmed a) = do
    perform read_confirmation
    begin_job count r (await_confirmation 0 0 (confirmed a))

  pub server_child : List ServerInterface → ℕ → Request → Confirmation → Exec Job
  unfolding make_socket confirmed_job
  server_child xs count r c = do
    close_listeners (close_others count 0 (length xs))
    make_socket xs count r (locate r.client_ip (from_text r.client_ip) 0 xs)
    confirmed_job count r c
