-- ===== src/Startup/ClientMain/Started.antt =====
-- Every run of the client's start: which calls it makes, and how it ends.
use tcp_implementation_over.Common.{
  ℕ, ◌≡◌, refl, sym, ap, subst, Bool, true, false, Option, none, some, List, [], ◌∷◌, if◌then◌else◌,
}
use tcp_implementation_over.Common.Int.{to_unsigned}
use tcp_implementation_over.Wire.{ServerAck}
use tcp_implementation_over.Interface.{Interface, Choice}
use tcp_implementation_over.Input
use tcp_implementation_over.Input.{ClientInput, read_client_input}
use tcp_implementation_over.Handshake.{
  Reply, RequestOutcome, no_response, responded, pending, request_file, confirm, thread_lengths,
}
use tcp_implementation_over.Startup.{
  Call, socket, get_sock_name, get_peer_name, to_text, create_threads, close_socket, set_dont_route,
  bind, connect, request, write_confirmation, Exec, ◌>>=◌,
}
use tcp_implementation_over.Startup.Ends.{
  Ends, and_then-Ends, or_close-last, or_close-fails, or_close-exits, or_fail-Ends, or_exit-Ends,
}
use tcp_implementation_over.Startup.ClientMain.{
  ClientLibrary, Session, port_of, set_route, bind_and_connect, set_up, choice_of, answered,
  begin_session, with_settings, with_input, client_main,
}

module _ {F : Type 0} (lib : ClientLibrary F) where
  open lib use {write_file_fd, inet_pton, address, atof, htons, ntohs, ntohl, loopback, succeeds}

  -- An end by `return -1` comes on a failed `socket`, or with the socket closed.
  abbrev pub IsTidy : Option ℕ → List Call → Type 0
  IsTidy none [] = ⊥
  IsTidy none (socket ∷ tr) = Unit
  IsTidy none (close_socket ∷ tr) = Unit
  IsTidy none (c ∷ tr) = ⊥
  IsTidy (some n) tr = Unit

  -- The calls of a set-up without an error, the last one first.
  abbrev pub connected_calls : Choice → ℕ → List Call → List Call
  connected_calls choice port tr =
      to_text
      ∷ get_peer_name
      ∷ connect choice.server_addr port
      ∷ to_text
      ∷ get_sock_name
      ∷ bind choice.client_addr (htons 0)
      ∷ tr

  abbrev pub set_up_calls : Choice → ℕ → List Call → List Call
  set_up_calls choice port tr =
      connected_calls choice port
        (if choice.is_local then set_dont_route 1 ∷ socket ∷ tr else socket ∷ tr)

  bind_and_connect-Ends :
      (choice : Choice) (port : ℕ) (tr : List Call)
      → Ends
          (λ u tr'. tr' ≡ connected_calls choice port tr)
          IsTidy
          (bind_and_connect lib choice port tr)
  bind_and_connect-Ends choice port tr =
      let P = λ (u : Unit {0}) (tr' : List Call). tr' ≡ connected_calls choice port tr in
      or_close-fails succeeds P IsTidy _ _ _ tt (
        or_close-fails succeeds P IsTidy _ _ _ tt (
          or_close-fails succeeds P IsTidy _ _ _ tt (
            or_close-exits succeeds P IsTidy _ 1 _ _ tt
              (or_close-fails succeeds P IsTidy _ _ _ tt (or_close-last succeeds IsTidy _ _ tt)))))

  route-Ends :
      (P : Unit {0} → List Call → Type 0) (b : Bool) (tr : List Call)
      (f : Unit {0} → Exec (Unit {0}))
      → ((tr' : List Call)
          → tr' ≡ (if b then set_dont_route 1 ∷ tr else tr)
          → Ends P IsTidy (f tt tr'))
      → Ends P IsTidy ((set_route lib b >>= f) tr)
  route-Ends P true tr f h = or_exit-Ends succeeds P IsTidy _ _ f tt (h _ refl)
  route-Ends P false tr f h = h _ refl

  set_up-Ends :
      (choice : Choice) (port : ℕ) (tr : List Call)
      → Ends (λ u tr'. tr' ≡ set_up_calls choice port tr) IsTidy (set_up lib choice port tr)
  unfolding set_up
  set_up-Ends choice port tr =
      let P = λ (u : Unit {0}) (tr' : List Call). tr' ≡ set_up_calls choice port tr in
      or_fail-Ends succeeds P IsTidy _ _ _ tt (
        route-Ends P choice.is_local _ _ (λ tr' e.
          subst (λ (l : List Call). Ends P IsTidy (bind_and_connect lib choice port l)) (sym e)
            (bind_and_connect-Ends choice port _)))

  -- The session that an answer starts, and the calls of the whole start, the last one first.
  abbrev pub session_of : ClientInput F → ServerAck → Session
  session_of input a = record {
    write_file_fd = write_file_fd;
    receiving_window_size = input.receiving_window_size;
    seed_value = input.seed_value;
    consumer_length = ntohl a.sent_file_length;
    producer_length = a.sent_file_length;
  }

  abbrev pub start_calls : ClientInput F → Choice → ServerAck → ℕ → List Call
  start_calls input choice a n =
      create_threads
      ∷ write_confirmation (confirm (to_unsigned input.receiving_window_size) a)
      ∷ connect choice.server_addr (htons (ntohs a.server_port))
      ∷ request n
      ∷ set_up_calls choice (htons (port_of lib input.server_port)) []

  module _ (file : Option (List ℕ)) (unset : ClientInput F) (xs : List Interface)
      (unset_ack : ServerAck) (rs : List Reply) where
    -- The start with this input, answer and number of requests.
    pub record IsStarted (s : Session) (tr : List Call) : Type 0 where
      pub input : ClientInput F
      pub a : ServerAck
      pub n : ℕ
      pub was_read : read_client_input inet_pton atof file unset ≡ Input.ok input
      pub was_answered : request_file unset_ack 0 0 rs ≡ responded a n
      pub session : s ≡ session_of input a
      pub calls : tr ≡ start_calls input (choice_of lib xs input) a n

    begin_session-Ends :
        (input : ClientInput F) (a : ServerAck) (n : ℕ) (tr : List Call)
        → read_client_input inet_pton atof file unset ≡ Input.ok input
        → request_file unset_ack 0 0 rs ≡ responded a n
        → tr
          ≡ request n
            ∷ set_up_calls (choice_of lib xs input) (htons (port_of lib input.server_port)) []
        → Ends IsStarted IsTidy (begin_session lib input (choice_of lib xs input) a tr)
    unfolding begin_session thread_lengths confirm
    begin_session-Ends input a n tr read got e =
        or_close-exits succeeds IsStarted IsTidy _ 1 _ _ tt (
          or_exit-Ends succeeds IsStarted IsTidy _ _ _ tt (record {
            input = input;
            a = a;
            n = n;
            was_read = read;
            was_answered = got;
            session = refl;
            calls =
                ap
                  (λ (l : List Call).
                    create_threads
                    ∷ write_confirmation (confirm (to_unsigned input.receiving_window_size) a)
                    ∷ connect (choice_of lib xs input).server_addr (htons (ntohs a.server_port))
                    ∷ l)
                  e;
          }))

    answer-Ends :
        (input : ClientInput F) (o : RequestOutcome) (tr : List Call)
        → read_client_input inet_pton atof file unset ≡ Input.ok input
        → request_file unset_ack 0 0 rs ≡ o
        → tr ≡ set_up_calls (choice_of lib xs input) (htons (port_of lib input.server_port)) []
        → Ends IsStarted IsTidy
            ((answered lib o >>= λ a. begin_session lib input (choice_of lib xs input) a) tr)
    answer-Ends input (no_response n) tr read got e = tt
    answer-Ends input (pending n) tr read got e = tt
    answer-Ends input (responded a n) tr read got e =
        begin_session-Ends input a n (request n ∷ tr) read got
          (ap (λ (l : List Call). request n ∷ l) e)

    with_settings-Ends :
        (input : ClientInput F)
        → read_client_input inet_pton atof file unset ≡ Input.ok input
        → Ends IsStarted IsTidy (with_settings lib xs unset_ack rs input [])
    unfolding with_settings
    with_settings-Ends input read =
        let port = htons (port_of lib input.server_port) in
        and_then-Ends (λ u tr. tr ≡ set_up_calls (choice_of lib xs input) port []) IsStarted IsTidy
          (set_up lib (choice_of lib xs input) port []) _
          (set_up-Ends (choice_of lib xs input) port [])
          (λ u tr e. answer-Ends input (request_file unset_ack 0 0 rs) tr read refl e)

    read-Ends :
        (r : Input.Reading (ClientInput F))
        → read_client_input inet_pton atof file unset ≡ r
        → Ends IsStarted IsTidy ((with_input lib r >>= with_settings lib xs unset_ack rs) [])
    read-Ends (Input.ok input) e = with_settings-Ends input e
    read-Ends Input.exits e = tt
    read-Ends Input.out_of_bounds e = tt

    pub client_main-Ends : Ends IsStarted IsTidy (client_main lib file unset xs unset_ack rs [])
    unfolding client_main
    client_main-Ends = read-Ends (read_client_input inet_pton atof file unset) refl
