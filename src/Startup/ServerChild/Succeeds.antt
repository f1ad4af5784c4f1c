-- ===== src/Startup/ServerChild/Succeeds.antt =====
-- The child gets to the transmission when no call fails.
use Prim.Native.String.{String}
use tcp_implementation_over.Common.{
  ℕ, ◌≡◌, refl, ap, ◌∙◌, Option, none, some, List, [], ◌∷◌, length,
}
use tcp_implementation_over.Wire.{ServerAck}
use tcp_implementation_over.Handshake.{
  ServerInterface, Location, locate, Confirmation, late, read_error, short_read, confirmed,
  await_confirmation,
}
use tcp_implementation_over.Listen.{close_others, child_address, dont_route}
use tcp_implementation_over.Startup.{
  Call, open_file, read_confirmation, close_listener, connect, send_answer, Outcome, ok, Exec,
  and_then, ◌>>=◌, ◌>>◌, perform,
}
use tcp_implementation_over.Startup.Good.{AllSucceed, past_close}
use tcp_implementation_over.Startup.ServerChild.{
  ServerLibrary, Request, close_listeners, set_option, answer_of, begin_job, confirmed_job,
  make_socket, server_child,
}
use tcp_implementation_over.Startup.ServerChild.Started.{
  listener_calls, option_calls, socket_calls, answer_calls,
}

module _ (lib : ServerLibrary) (all : AllSucceed lib.succeeds) where
  open lib use {from_text, htons, succeeds}

  past_listeners :
      {B : Type 0} (is : List ℕ) (f : Unit {0} → Exec B) (tr : List Call)
      → (close_listeners lib is >>= f) tr ≡ f tt (listener_calls is tr)
  past_listeners [] f tr = refl
  past_listeners (i ∷ is) f tr = past_listeners is f (close_listener i ∷ tr)

  past_option :
      {B : Type 0} (o : Option ℕ) (f : Unit {0} → Exec B) (tr : List Call)
      → (set_option lib o >>= f) tr ≡ f tt (option_calls o tr)
  past_option none f tr = refl
  past_option (some v) f tr = refl

  make_socket_good :
      (xs : List ServerInterface) (count : ℕ) (r : Request) (l : Location) (ip : String)
      (tr : List Call)
      → child_address xs l ≡ some ip
      → make_socket lib xs count r l tr ≡ (ok tt, socket_calls lib count r l ip tr)
  unfolding make_socket
  make_socket_good xs count r l ip tr found = rw found (
      past_close succeeds all _ _ _ _
      ∙ past_close succeeds all _ _ _ _
      ∙ past_close succeeds all _ _ _ _
      ∙ past_option (dont_route l)
          (λ u. perform open_file >> perform (send_answer count (answer_of lib r))) _)

  confirmed_job_good :
      (count : ℕ) (r : Request) (c : Confirmation) (window reads : ℕ) (tr : List Call)
      → await_confirmation 0 0 c ≡ some (window, reads)
      → confirmed_job lib count r c tr
        ≡ begin_job lib count r (some (window, reads)) (read_confirmation ∷ tr)
  unfolding confirmed_job await_confirmation
  confirmed_job_good count r late window reads tr e = absurd (cc e)
  confirmed_job_good count r read_error window reads tr e = absurd (cc e)
  confirmed_job_good count r short_read window reads tr e =
      ap (λ (o : Option (ℕ × ℕ)). begin_job lib count r o (read_confirmation ∷ tr)) e
  confirmed_job_good count r (confirmed a) window reads tr e =
      ap (λ (o : Option (ℕ × ℕ)). begin_job lib count r o (read_confirmation ∷ tr)) e

  -- If no call fails, the client is near to an interface and confirms in time, the child gets to the
  -- transmission. Whether the file could be opened is not looked at.
  pub server_child-starts :
      (xs : List ServerInterface) (count : ℕ) (r : Request) (c : Confirmation) (ip : String)
      (window reads : ℕ)
      → child_address xs (locate r.client_ip (from_text r.client_ip) 0 xs) ≡ some ip
      → await_confirmation 0 0 c ≡ some (window, reads)
      → server_child lib xs count r c [] ≡ (
        ok (record {
          file_length = ServerAck.sent_file_length (answer_of lib r);
          client_original_window = window;
        }),
        connect (from_text r.client_ip) (htons r.client_port)
            ∷ close_listener count
            ∷ read_confirmation
            ∷ answer_calls lib xs count r c ip,
      )
  unfolding server_child begin_job
  server_child-starts xs count r c ip window reads found in_time =
      let closed = listener_calls (close_others count 0 (length xs)) [] in
      let l = locate r.client_ip (from_text r.client_ip) 0 xs in
      past_listeners (close_others count 0 (length xs)) _ []
      ∙ ap (λ (q : Outcome (Unit {0}) × List Call). and_then q (λ u. confirmed_job lib count r c))
          (make_socket_good xs count r l ip closed found)
      ∙ confirmed_job_good count r c window reads (answer_calls lib xs count r c ip) in_time
      ∙ past_close succeeds all _ _ _ _
