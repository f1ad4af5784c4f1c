-- ===== src/Client/Writes.antt =====
-- What the consumer has written, after any interleaving of the two threads.
use tcp_implementation_over.Common.{
  ℕ, ◌+◌, ◌-◌, ◌%◌, ◌<◌, ◌≡◌, subst, ◌∙◌, List, [], ◌∷◌, ◌==◌, arith, if◌then◌else◌, take, length,
  length-map, map,
}
use tcp_implementation_over.Wire.{Segment, segment_data_size}
use tcp_implementation_over.Segments.{get_segment_count}
use tcp_implementation_over.Segments.Reassemble.{IsCopy, Copies, write_segments-eq-take}
use tcp_implementation_over.Window.{Window}
use tcp_implementation_over.Window.Delivery.{InOrder, fetched-InOrder}
use tcp_implementation_over.Client.{Client, Config}
use tcp_implementation_over.Client.Calls.{data_of}
use tcp_implementation_over.Client.Explain
use tcp_implementation_over.Client.Runs.{Event, run_client, start}

module _ (env : Config) (file : List ℕ) (size : ℕ) (zeroed : Segment) where
  abbrev IsSegmentOf : ℕ → Segment → Type 0
  IsSegmentOf k s = IsCopy file k s.segment_data

  abbrev total : ℕ
  total = get_segment_count (length file)

  -- A datagram that is marked with an index of the file carries that segment.
  abbrev pub AllGenuine : List Event → Type 0
  AllGenuine = Explain.AllGenuine env file size zeroed IsSegmentOf

  module _ (R : ℕ → Segment → Type 0) where
    pub outs-InOrder :
        (c : Client) (x : Explain.Explained env file size zeroed R c)
        → 0 < size
        → InOrder R 0 x.outs × (c.window.current_index ≡ length x.outs)
    outs-InOrder c x room =
        subst
          (λ (r : List (Segment × ℕ) × Window Segment).
            InOrder R 0 r.0 × (r.1.current_index ≡ length r.0))
          x.reached (fetched-InOrder R size zeroed x.ops room x.genuine)

  module _ (R : ℕ → Segment → Type 0) (copy : (k : ℕ) (s : Segment) → R k s → IsSegmentOf k s) where
    Copies-InOrder :
        (i : ℕ) (outs : List (Segment × ℕ)) → InOrder R i outs → Copies file i (map data_of outs)
    Copies-InOrder i [] h = tt
    Copies-InOrder i ((s, k) ∷ outs) h = (copy i s h.1, Copies-InOrder (i + 1) outs h.2)

    pub Explained-writes :
        (c : Client)
        → Explain.Explained env file size zeroed R c
        → 0 < size
        → c.count ≡ total
        → let len = length file in
          c.written
          ≡ take (if len % segment_data_size == 0 then len - segment_data_size else len) file
    Explained-writes c x room all =
        x.wrote
        ∙ write_segments-eq-take file (map data_of x.outs)
            (omega (arith, length-map x.outs data_of, x.counted, all))
            (Copies-InOrder 0 x.outs (outs-InOrder R c x room).0)

  -- Let the window have room, and let every datagram that is marked with an index of the file carry
  -- that segment. Whatever datagrams are lost, repeated or reordered, however the two threads
  -- alternate, and whichever acknowledgements are dropped: when the consumer has counted all segments,
  -- what it has handed to `write` is the file, but for the last full segment of a file whose length is a
  -- multiple of the segment's.
  pub client_writes_file :
      (es : List Event)
      → 0 < size
      → AllGenuine es
      → let c = run_client env file size zeroed (length file) (start env file size zeroed) es in
        let len = length file in
        c.count ≡ total
        → c.written
          ≡ take (if len % segment_data_size == 0 then len - segment_data_size else len) file
  client_writes_file es room g all =
      Explained-writes IsSegmentOf (λ k s h. h)
        (run_client env file size zeroed (length file) (start env file size zeroed) es)
        (Explain.run_client-Explained env file size zeroed IsSegmentOf (start env file size zeroed)
          es g (Explain.start-Explained env file size zeroed IsSegmentOf))
        room all
