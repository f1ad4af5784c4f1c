-- ===== src/Startup/ClientMain/Succeeds.antt =====
-- The client gets to its threads when no call fails.
use tcp_implementation_over.Common.{
  ℕ, ◌≡◌, refl, ap, ◌∙◌, Bool, true, false, Option, List, [], ◌∷◌, if◌then◌else◌,
}
use tcp_implementation_over.Wire.{ServerAck}
use tcp_implementation_over.Interface.{Interface, Choice}
use tcp_implementation_over.Input
use tcp_implementation_over.Input.{ClientInput, read_client_input}
use tcp_implementation_over.Handshake.{Reply, responded, request_file, confirm, thread_lengths}
use tcp_implementation_over.Startup.{Call, set_dont_route, Outcome, ok, Exec, and_then, ◌>>=◌}
use tcp_implementation_over.Startup.Good.{
  AllSucceed, or_close_good, past_close, past_fail, past_exit,
}
use tcp_implementation_over.Startup.ClientMain.{
  ClientLibrary, port_of, set_route, bind_and_connect, set_up, choice_of, answered, begin_session,
  with_settings, client_main,
}
use tcp_implementation_over.Startup.ClientMain.Started.{
  connected_calls, set_up_calls, session_of, start_calls,
}

module _ {F : Type 0} (lib : ClientLibrary F) (all : AllSucceed lib.succeeds) where
  open lib use {inet_pton, atof, htons, succeeds}

  bind_and_connect_good :
      (choice : Choice) (port : ℕ) (tr : List Call)
      → bind_and_connect lib choice port tr ≡ (ok tt, connected_calls lib choice port tr)
  bind_and_connect_good choice port tr =
      past_close succeeds all _ _ _ _
      ∙ past_close succeeds all _ _ _ _
      ∙ past_close succeeds all _ _ _ _
      ∙ past_close succeeds all _ _ _ _
      ∙ past_close succeeds all _ _ _ _
      ∙ or_close_good succeeds all _ _ _

  past_route :
      (b : Bool) (f : Unit {0} → Exec (Unit {0})) (tr : List Call)
      → (set_route lib b >>= f) tr ≡ f tt (if b then set_dont_route 1 ∷ tr else tr)
  past_route true f tr = past_exit succeeds all f _ _
  past_route false f tr = refl

  set_up_good :
      (choice : Choice) (port : ℕ)
      → set_up lib choice port [] ≡ (ok tt, set_up_calls lib choice port [])
  unfolding set_up
  set_up_good choice port =
      past_fail succeeds all _ _ _
      ∙ past_route choice.is_local _ _
      ∙ bind_and_connect_good choice port _

  -- If no call fails, the input is read and an answer comes, the client gets to its threads.
  pub client_main-starts :
      (file : Option (List ℕ)) (unset input : ClientInput F) (xs : List Interface)
      (unset_ack a : ServerAck) (rs : List Reply) (n : ℕ)
      → read_client_input inet_pton atof file unset ≡ Input.ok input
      → request_file unset_ack 0 0 rs ≡ responded a n
      → client_main lib file unset xs unset_ack rs []
        ≡ (ok (session_of lib input a), start_calls lib input (choice_of lib xs input) a n)
  unfolding client_main with_settings begin_session thread_lengths confirm
  client_main-starts file unset input xs unset_ack a rs n read got =
      rw (read, got)
        (ap
            (λ (r : Outcome (Unit {0}) × List Call). and_then r (λ u.
              answered lib (responded a n) >>= begin_session lib input (choice_of lib xs input)))
            (set_up_good (choice_of lib xs input) (htons (port_of lib input.server_port)))
          ∙ past_close succeeds all _ _ _ _
          ∙ past_exit succeeds all _ _ _)
