-- ===== src/Transfer/Closing.antt =====
-- A server that closes, and its client: acknowledgements may be lost, repeated and reordered, but none
-- is made up. The fields of an acknowledgement go over the network as they are, and the length as `htonl` makes it.
use tcp_implementation_over.Common.{
  ℕ, ◌<◌, ◌≡◌, ◌≢◌, refl, sym, ap, ◌∙◌, subst, List, ◌∷◌, Memᴰ, length, ◌⊎◌,
}
use tcp_implementation_over.Common.Int.{pos, to_int}
use tcp_implementation_over.Wire.{Segment, ClientAck}
use tcp_implementation_over.Segments.{get_segment_count}
use tcp_implementation_over.Rtt.{RttInfo, Timeval}
use tcp_implementation_over.Transmit.{Sender}
use tcp_implementation_over.Transmit.Loop
use tcp_implementation_over.Transmit.Loop.{closing, handle_file_transmission}
use tcp_implementation_over.Transmit.Holds.{MayMeet}
use tcp_implementation_over.Transmit.LastAck.{closing-Allowed}
use tcp_implementation_over.Client.{Config}
use tcp_implementation_over.Client.Runs
use tcp_implementation_over.Client.Runs.{reached, WasFull}
use tcp_implementation_over.Client.LastAck.{datagrams}
use tcp_implementation_over.Client.Complete.{last_ack-IsComplete}

module _ (file stale : List ℕ) (env : Config) (size : ℕ) (zeroed : Segment) where
  -- Of the length in the answer of the server, by which both sides count the segments.
  abbrev IsCompleteFor :
      ℕ
      → ℕ
      → ClientAck
      → RttInfo
      → Timeval
      → List Loop.Event
      → Sender
      → List Runs.Event
      → ℕ
      → Type 0
  IsCompleteFor sent_length w ack info now server_events t client_events j =
      MayMeet (λ a. Memᴰ a (ack ∷ (reached env file size zeroed sent_length client_events).acks))
        server_events
      → handle_file_transmission file stale sent_length w ack info now server_events ≡ closing t
      → ((s : Segment) × Memᴰ s (datagrams client_events) × (to_int s.segment_num ≡ pos j))
        ⊎ WasFull env file size zeroed sent_length client_events

  known-IsCompleteFor :
      (w : ℕ) (ack : ClientAck) (info : RttInfo) (now : Timeval) (ses : List Loop.Event)
      (t : Sender) (ces : List Runs.Event) (j : ℕ)
      → 0 < size
      → ack.lastack_sent ≢ 1
      → j < get_segment_count (length file)
      → IsCompleteFor (length file) w ack info now ses t ces j
  known-IsCompleteFor w ack info now ses t ces j room unmarked low carried closed =
      let (held, last) =
        closing-Allowed file stale
          (λ a. Memᴰ a (ack ∷ (reached env file size zeroed (length file) ces).acks)) w ack info now
          ses t (Memᴰ.head refl) carried closed in
      last_ack-IsComplete env file size zeroed ces t.ack j room (sent held last) last low
    where
      sent :
          {a : ClientAck}
          → Memᴰ a (ack ∷ (reached env file size zeroed (length file) ces).acks)
          → a.lastack_sent ≡ 1
          → Memᴰ a (reached env file size zeroed (length file) ces).acks
      sent (Memᴰ.head e) h = absurd (unmarked (sym (ap (λ (x : ClientAck). x.lastack_sent) e) ∙ h))
      sent (Memᴰ.tail m) h = m

  -- Let the byte order function change nothing of the file's length, let the client's window have room,
  -- let what stands in `ack` at first not be marked as the last, and let every acknowledgement that the
  -- server reads, in a probe too, be this one or one that the client has sent. Where the server closes,
  -- each segment of the file has come to the client, or the client's window was full at some moment.
  pub closing-IsComplete :
      (client_original_window : ℕ) (ack : ClientAck) (info : RttInfo) (now : Timeval)
      (server_events : List Loop.Event) (t : Sender) (client_events : List Runs.Event) (j : ℕ)
      → env.htonl (length file) ≡ length file
      → 0 < size
      → ack.lastack_sent ≢ 1
      → j < get_segment_count (length file)
      → MayMeet
          (λ a.
            Memᴰ a
              (ack ∷ (reached env file size zeroed (env.htonl (length file)) client_events).acks))
          server_events
      → handle_file_transmission file stale
          (env.htonl (length file))
          client_original_window
          ack
          info
          now
          server_events
        ≡ closing t
      → ((s : Segment) × Memᴰ s (datagrams client_events) × (to_int s.segment_num ≡ pos j))
        ⊎ WasFull env file size zeroed (env.htonl (length file)) client_events
  closing-IsComplete w ack info now ses t ces j same room unmarked low =
      subst (λ (sent_length : ℕ). IsCompleteFor sent_length w ack info now ses t ces j) (sym same)
        (known-IsCompleteFor w ack info now ses t ces j room unmarked low)
