-- ===== src/Startup/ServerChild/Started.antt =====
-- Every run of the server's child up to the transmission: which calls it makes, and how it ends.
use Prim.Native.String.{String}
use tcp_implementation_over.Common.{
  ◌⊎◌, inl, inr, ℕ, ◌≡◌, refl, ap, Option, none, some, List, [], ◌∷◌, length,
}
use tcp_implementation_over.Wire.{ServerAck}
use tcp_implementation_over.Handshake.{
  ServerInterface, Location, locate, Confirmation, late, read_error, short_read, confirmed,
  await_confirmation,
}
use tcp_implementation_over.Listen.{close_others, child_address, dont_route}
use tcp_implementation_over.Startup.{
  Call, socket, get_sock_name, to_text, open_file, read_confirmation, close_socket, set_dont_route,
  close_listener, bind, connect, send_answer, Exec, ◌>>=◌, ◌>>◌, perform,
}
use tcp_implementation_over.Startup.Ends.{Ends, and_then-Ends, or_close-fails, or_close-exits}
use tcp_implementation_over.Startup.ServerChild.{
  ServerLibrary, Request, Job, close_listeners, bind_to, set_option, answer_of, begin_job,
  confirmed_job, name_and_answer, make_socket, server_child,
}

-- The child ends with its socket closed, or by `exit(1)` on an error of `Read`.
abbrev pub IsClosed : Option ℕ → List Call → Type 0
IsClosed o [] = ⊥
IsClosed o (close_socket ∷ tr) = Unit
IsClosed o (read_confirmation ∷ tr) = o ≡ some 1
IsClosed o (c ∷ tr) = ⊥

abbrev pub listener_calls : List ℕ → List Call → List Call
listener_calls [] tr = tr
listener_calls (i ∷ is) tr = listener_calls is (close_listener i ∷ tr)

abbrev pub option_calls : Option ℕ → List Call → List Call
option_calls none tr = tr
option_calls (some v) tr = set_dont_route v ∷ tr

module _ (lib : ServerLibrary) where
  open lib use {from_text, htons, succeeds}

  abbrev pub socket_calls : ℕ → Request → Location → String → List Call → List Call
  socket_calls count r l ip tr =
      send_answer count (answer_of lib r)
      ∷ open_file
      ∷ option_calls (dont_route l)
          (to_text ∷ get_sock_name ∷ bind (from_text ip) (htons 0) ∷ socket ∷ tr)

  module _ {B : Type 0} (P : B → List Call → Type 0) where
    listeners-Ends :
        (is : List ℕ) (f : Unit {0} → Exec B) (tr : List Call)
        → Ends P IsClosed (f tt (listener_calls is tr))
        → Ends P IsClosed ((close_listeners lib is >>= f) tr)
    listeners-Ends [] f tr h = h
    listeners-Ends (i ∷ is) f tr h = listeners-Ends is f (close_listener i ∷ tr) h

    option-Ends :
        (o : Option ℕ) (f : Unit {0} → Exec B) (tr : List Call)
        → Ends P IsClosed (f tt (option_calls o tr))
        → Ends P IsClosed ((set_option lib o >>= f) tr)
    option-Ends none f tr h = h
    option-Ends (some v) f tr h = h

  module _ (xs : List ServerInterface) (count : ℕ) (r : Request) (c : Confirmation) where
    abbrev place : Location
    place = locate r.client_ip (from_text r.client_ip) 0 xs

    -- The calls up to the answer, the last one first.
    abbrev pub answer_calls : String → List Call
    answer_calls ip =
        socket_calls count r place ip (listener_calls (close_others count 0 (length xs)) [])

    -- A child that starts the transmission: it has the address of an interface, and the client has not
    -- kept it waiting. Its window is that of the confirmation, or 0 if the read was short.
    pub record IsStarted (job : Job) (tr : List Call) : Type 0 where
      pub ip : String
      pub window : ℕ
      pub reads : ℕ
      pub found : child_address xs place ≡ some ip
      pub was_confirmed : await_confirmation 0 0 c ≡ some (window, reads)
      pub heard :
          ((a : ServerAck) × (c ≡ confirmed a) × (window ≡ a.original_recv_window))
          ⊎ ((c ≡ short_read) × (window ≡ 0))
      pub job_eq : job ≡ record {
        file_length = ServerAck.sent_file_length (answer_of lib r);
        client_original_window = window;
      }
      pub calls :
          tr
          ≡ connect (from_text r.client_ip) (htons r.client_port)
            ∷ close_listener count
            ∷ read_confirmation
            ∷ answer_calls ip

    job-Ends :
        (window reads : ℕ) (ip : String) (tr : List Call)
        → await_confirmation 0 0 c ≡ some (window, reads)
        → ((a : ServerAck) × (c ≡ confirmed a) × (window ≡ a.original_recv_window))
          ⊎ ((c ≡ short_read) × (window ≡ 0))
        → child_address xs place ≡ some ip
        → tr ≡ answer_calls ip
        → Ends IsStarted IsClosed
            (begin_job lib count r (some (window, reads)) (read_confirmation ∷ tr))
    unfolding begin_job
    job-Ends window reads ip tr e heard found made =
        or_close-exits succeeds IsStarted IsClosed _ 1 _ _ tt (record {
          heard = heard;
          ip = ip;
          window = window;
          reads = reads;
          found = found;
          was_confirmed = e;
          job_eq = refl;
          calls =
              ap
                (λ (l : List Call).
                  connect (from_text r.client_ip) (htons r.client_port)
                  ∷ close_listener count
                  ∷ read_confirmation
                  ∷ l)
                made;
        })

    confirmed_job-Ends :
        (c' : Confirmation) (ip : String) (tr : List Call)
        → c ≡ c'
        → child_address xs place ≡ some ip
        → tr ≡ answer_calls ip
        → Ends IsStarted IsClosed (confirmed_job lib count r c' tr)
    unfolding confirmed_job begin_job await_confirmation
    confirmed_job-Ends late ip tr e found made = tt
    confirmed_job-Ends read_error ip tr e found made = refl
    confirmed_job-Ends short_read ip tr e found made =
        job-Ends 0 1 ip tr (ap (await_confirmation 0 0) e) (inr (e, refl)) found made
    confirmed_job-Ends (confirmed a) ip tr e found made =
        job-Ends a.original_recv_window 0 ip tr (ap (await_confirmation 0 0) e) (inl (a, e, refl))
          found made

    abbrev IsMade : List Call → Unit {0} → List Call → Type 0
    IsMade tr u tr' =
        (ip : String) × (child_address xs place ≡ some ip)
        × (tr' ≡ socket_calls count r place ip tr)

    bound-Ends :
        (o : Option String) (tr : List Call)
        → child_address xs place ≡ o
        → Ends
            (IsMade tr)
            IsClosed
            ((bind_to lib o >> name_and_answer lib count r place) (socket ∷ tr))
    bound-Ends none tr e = tt
    bound-Ends (some ip) tr e = or_close-fails succeeds (IsMade tr) IsClosed _ _ _ tt (
        or_close-fails succeeds (IsMade tr) IsClosed _ _ _ tt (
          or_close-fails succeeds (IsMade tr) IsClosed _ _ _ tt (
            option-Ends (IsMade tr) (dont_route place)
              (λ u. perform open_file >> perform (send_answer count (answer_of lib r))) _
              (ip, e, refl))))

    make_socket-Ends :
        (tr : List Call) → Ends (IsMade tr) IsClosed (make_socket lib xs count r place tr)
    unfolding make_socket
    make_socket-Ends tr = bound-Ends (child_address xs place) tr refl

    -- Whatever the interfaces are, whatever each call answers and whatever the client sends: a child that
    -- starts a transmission has bound its socket to the address of an interface, has the window of the
    -- confirmation, or 0 behind a short read, hands over the length that it has told the client, and has
    -- made exactly the calls of a start in their order; and a child that ends before has closed its socket
    -- last, or exits with 1 right behind an error of its `Read`.
    pub server_child-Ends : Ends IsStarted IsClosed (server_child lib xs count r c [])
    unfolding server_child
    server_child-Ends = listeners-Ends IsStarted (close_others count 0 (length xs)) _ [] (
        and_then-Ends (IsMade (listener_calls (close_others count 0 (length xs)) [])) IsStarted
          IsClosed
          (make_socket lib xs count r place (listener_calls (close_others count 0 (length xs)) []))
          _ (make_socket-Ends (listener_calls (close_others count 0 (length xs)) []))
          (λ u tr made. confirmed_job-Ends c made.0 tr refl made.1 made.2))
