-- ===== src/Startup/Joined.antt =====
-- A client and the child that serves it: the ports that they connect to, and the lengths that they use.
use tcp_implementation_over.Common.{ℕ, ◌≡◌, ap, subst, ◌∙◌, Option, none, some, List, [], ◌∷◌}
use tcp_implementation_over.Wire.{ServerAck}
use tcp_implementation_over.Interface.{Interface}
use tcp_implementation_over.Input.{ClientInput}
use tcp_implementation_over.Handshake.{
  Reply, responded, request_file, ServerInterface, Confirmation, server_info,
}
use tcp_implementation_over.Startup.{Call, connect, ok}
use tcp_implementation_over.Startup.Ends.{Ends}
use tcp_implementation_over.Startup.ClientMain.{ClientLibrary, Session, client_main}
use tcp_implementation_over.Startup.ClientMain.Started as ClientStarted
use tcp_implementation_over.Startup.ServerChild.{
  ServerLibrary, Request, Job, answer_of, length_or_error, server_child,
}
use tcp_implementation_over.Startup.ServerChild.Started as ChildStarted

-- The port of the last `connect`.
abbrev pub last_port : List Call → Option ℕ
last_port [] = none
last_port (connect a p ∷ tr) = some p
last_port (c ∷ tr) = last_port tr

module _ {F : Type 0} (clib : ClientLibrary F) (slib : ServerLibrary) where
  -- A client that gets the child's answer to its threads, and the child that gets to its transmission. With
  -- `ntohs` and `ntohl` undoing the child's `htons` and `htonl`: the client connects to the port of the
  -- child's socket after `htons`, and the child to the port of the client after `htons`; the consumer
  -- has the length of the file, and the producer and the sender have it after `htonl`.
  pub startup_joined :
      (file : Option (List ℕ)) (unset : ClientInput F) (xs : List Interface) (unset_ack : ServerAck)
      (rs : List Reply) (n : ℕ) (s : Session) (tr : List Call) (ys : List ServerInterface)
      (count : ℕ) (r : Request) (c : Confirmation) (job : Job) (tr' : List Call)
      → client_main clib file unset xs unset_ack rs [] ≡ (ok s, tr)
      → server_child slib ys count r c [] ≡ (ok job, tr')
      → request_file unset_ack 0 0 rs ≡ responded (answer_of slib r) n
      → clib.ntohs (slib.htons slib.bound_port) ≡ slib.bound_port
      → clib.ntohl (slib.htonl (length_or_error (slib.file_length r.file_name)))
        ≡ length_or_error (slib.file_length r.file_name)
      → let len = length_or_error (slib.file_length r.file_name) in
        (last_port tr ≡ some (clib.htons slib.bound_port))
        × (last_port tr' ≡ some (slib.htons r.client_port))
        × (s.consumer_length ≡ len)
        × (s.producer_length ≡ slib.htonl len)
        × (job.file_length ≡ slib.htonl len)
  unfolding server_info
  startup_joined file unset xs unset_ack rs n s tr ys count r c job tr' started served got ports
        lengths =
      let x =
        subst
          (Ends (ClientStarted.IsStarted clib file unset xs unset_ack rs)
            (ClientStarted.IsTidy clib))
          started (ClientStarted.client_main-Ends clib file unset xs unset_ack rs) in
      let y =
        subst (Ends (ChildStarted.IsStarted slib ys count r c) ChildStarted.IsClosed) served
          (ChildStarted.server_child-Ends slib ys count r c) in
      let same : x.a ≡ answer_of slib r = cc (x.was_answered, got) in
      (
        ap last_port x.calls
            ∙ ap (λ (a : ServerAck). some (clib.htons (clib.ntohs a.server_port))) same
            ∙ ap (λ (p : ℕ). some (clib.htons p)) ports,
        ap last_port y.calls,
        ap (λ (q : Session). q.consumer_length) x.session
            ∙ ap (λ (a : ServerAck). clib.ntohl a.sent_file_length) same
            ∙ lengths,
        ap (λ (q : Session). q.producer_length) x.session
            ∙ ap (λ (a : ServerAck). a.sent_file_length) same,
        ap (λ (j : Job). j.file_length) y.job_eq,
      )
