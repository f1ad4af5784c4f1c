-- ===== src/Transmit/Output.antt =====
-- What the whole transmission puts on the socket.
use tcp_implementation_over.Common.{ℕ, ◌<◌, ◌≡◌, sym, subst, none, some, List, [], ◌∷◌, length}
use tcp_implementation_over.Wire.{Segment, ClientAck}
use tcp_implementation_over.Segments.{get_segment_count}
use tcp_implementation_over.Segments.Bytes.{CarriesSegment, payload-CarriesSegment}
use tcp_implementation_over.Segments.Table.{initialize-IsTable}
use tcp_implementation_over.Rtt.{RttInfo, Timeval}
use tcp_implementation_over.Probe
use tcp_implementation_over.Transmit.{start}
use tcp_implementation_over.Transmit.Probing.{MayProbe}
use tcp_implementation_over.Transmit.Genuine.{
  All, IsOfFile, IsGenuine, AnyAck, IsGenuine-IsInvariant,
}
use tcp_implementation_over.Transmit.Holds.{MayMeet, Holds, transmission-Holds}
use tcp_implementation_over.Transmit.Loop.{
  Event, reads, alarm, Progress, running, probing, sent_all, closing, gave_up, dead, undefined,
  handle_file_transmission,
}

any_probe : (ps : List Probe.Event) → MayProbe AnyAck ps
any_probe [] = tt
any_probe (Probe.reply a ∷ ps) = (tt, any_probe ps)
any_probe (Probe.timeout ∷ ps) = any_probe ps
any_probe (Probe.select_error ∷ ps) = any_probe ps

any_events : (es : List Event) → MayMeet AnyAck es
any_events [] = tt
any_events (reads (some a) ps now ∷ es) = (tt, any_probe ps, any_events es)
any_events (reads none ps now ∷ es) = (tt, any_probe ps, any_events es)
any_events (alarm now ∷ es) = any_events es

module _ (file stale : List ℕ) where
  -- Every segment sent is one of the file; and where the sender closes, the acknowledgement that it holds
  -- is marked as the last.
  pub sent-IsOfFile :
      (client_original_window : ℕ) (ack : ClientAck) (info : RttInfo) (now : Timeval)
      (es : List Event)
      → Holds
          (λ s. All (IsOfFile file stale) s.sent)
          (handle_file_transmission file stale (length file) client_original_window ack info now es)
  unfolding start
  sent-IsOfFile w ack info now es = output_of _ (
      transmission-Holds file stale (IsGenuine file stale) AnyAck (IsGenuine-IsInvariant file stale)
        w ack info now es (any_events es)
        (record { table = initialize-IsTable (length file); sent = tt }))
    where
      output_of :
          (p : Progress)
          → Holds (IsGenuine file stale) p
          → Holds (λ s. All (IsOfFile file stale) s.sent) p
      output_of (running s) h = h.sent
      output_of (probing s) h = h.sent
      output_of (sent_all s) h = h.sent
      output_of (closing s) h = (h.0.sent, h.1)
      output_of (gave_up s) h = h.sent
      output_of (dead s) h = h.sent
      output_of undefined h = tt

  -- What has been sent has a number of the file, and the bytes of that segment.
  abbrev pub IsPart : Segment → Type 0
  IsPart s =
      (s.segment_num < get_segment_count (length file))
      × CarriesSegment file stale s.segment_num s.segment_data

  parts : (sent : List Segment) → All (IsOfFile file stale) sent → All IsPart sent
  parts [] h = tt
  parts (s ∷ sent) ((low, same), h) = (
    (
      low,
      subst (CarriesSegment file stale s.segment_num) (sym same)
          (payload-CarriesSegment file stale s.segment_num),
    ),
    parts sent h,
  )

  parts-Holds :
      (p : Progress)
      → Holds (λ s. All (IsOfFile file stale) s.sent) p
      → Holds (λ s. All IsPart s.sent) p
  parts-Holds (running s) h = parts s.sent h
  parts-Holds (probing s) h = parts s.sent h
  parts-Holds (sent_all s) h = parts s.sent h
  parts-Holds (closing s) h = (parts s.sent h.0, h.1)
  parts-Holds (gave_up s) h = parts s.sent h
  parts-Holds (dead s) h = parts s.sent h
  parts-Holds undefined h = tt

  -- Let `htonl` change nothing of the file's length. For any advertised window, any timer, any start time
  -- and whatever acknowledgements, timeouts and probes the sender meets: unless the run is undefined, every
  -- segment sent up to where it stands has a number of the file and carries, byte by byte, what the file
  -- holds from that many segments on, but no byte of the file in the last segment of a file whose length is
  -- a multiple of the segment's; and where the sender closes, the acknowledgement that it holds is marked as
  -- the last.
  pub sent-IsPart :
      (htonl : ℕ → ℕ) (client_original_window : ℕ) (ack : ClientAck) (info : RttInfo)
      (now : Timeval) (es : List Event)
      → htonl (length file) ≡ length file
      → Holds
          (λ s. All IsPart s.sent)
          (handle_file_transmission file stale
            (htonl (length file))
            client_original_window
            ack
            info
            now
            es)
  sent-IsPart htonl w ack info now es same =
      subst
        (λ (n : ℕ).
          Holds (λ s. All IsPart s.sent) (handle_file_transmission file stale n w ack info now es))
        (sym same) (parts-Holds _ (sent-IsOfFile w ack info now es))
