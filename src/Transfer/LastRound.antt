-- ===== src/Transfer/LastRound.antt =====
-- The two programs from the last round of a file on: whatever is lost in this round is repaired.
use tcp_implementation_over.Common.{
  ℕ, ◌+◌, ◌^◌, ◌≤◌, ◌<◌, ◌≡◌, refl, true, false, List, arith, length, ◌==◌, ◌⊎◌, inl, inr, ltb,
}
use tcp_implementation_over.Wire.{Segment}
use tcp_implementation_over.Segments.Table.{IsTable}
use tcp_implementation_over.Rtt.{Timeval, rtt_maxnrexmt}
use tcp_implementation_over.Transmit.{Sender, quota, allotted, stamp}
use tcp_implementation_over.Transmit.Loop.{running, outer}
use tcp_implementation_over.Transmit.Bursts.{advanced, begin_round-sent}
use tcp_implementation_over.Transmit.Waiting.{IsWaiting}
use tcp_implementation_over.Window.Bounds.{next_ack-IsFirstVacant}
use tcp_implementation_over.Client.{Client, Config}
use tcp_implementation_over.Client.Runs.{Event, run_client}
use tcp_implementation_over.Client.Asking.{AsksFor}
use tcp_implementation_over.Client.Ready.{OfFile, run_client-Ready}
use tcp_implementation_over.Transfer.Joint.{total, IsOver, repairs}
use tcp_implementation_over.Transfer.Repair.{repairs-IsOver}

module _ (file stale : List ℕ) where
  -- The server where a round begins that is to send the rest of the file.
  pub record IsLastRound (s : Sender) : Type 0 where
    pub entries : IsTable (length file) s.table
    pub asked : s.ack.current_request ≡ s.index
    pub rest : s.index + quota s ≡ total file
    pub fresh : (s.last_ack_received ≤ s.index) ⊎ (total file < s.last_ack_received)
    pub left : s.rttinfo.rtt_nrexmt < rtt_maxnrexmt

  -- The round sends the rest, and the server waits for the first segment of it.
  last_round-IsWaiting :
      (s : Sender)
      → IsLastRound s
      → s.index < total file
      → total file < 2 ^ 31
      → (t : Sender) × (outer file stale (total file) s ≡ running t)
        × IsWaiting file stale t s.index
        × (t.rttinfo.rtt_nrexmt < rtt_maxnrexmt)
  unfolding outer
  last_round-IsWaiting s h low small =
      let (table, e, entries) =
        begin_round-sent file stale s h.entries (omega (arith, h.rest, small))
          (omega (arith, h.rest)) in
      let more : ltb s.index (total file) ≡ true = ground (arith, low) in
      (
        stamp (advanced file stale (allotted s) (quota s) table),
        rw (more, e) refl,
        record {
          entries = entries;
          position = h.rest;
          asked = h.asked;
          fresh = h.fresh;
          expected = omega (arith, h.rest);
        },
        h.left,
      )

module _ (file stale : List ℕ) (env : Config) (size : ℕ) (zeroed : Segment) (now : Timeval) where
  -- Let the byte order functions change nothing, and let the server, with the table of the file's
  -- segments, begin the round that sends the rest of the file, the segments from `s.index` on, with the
  -- last acknowledgement asking for the first of them, the one remembered for none behind it up to the
  -- end of the file, and retransmissions left; let the client's producer run, ask for this segment or a
  -- later one of the file, its valid window reach past the end of the file, and the count of the file's
  -- segments with the size of this window stay below 2 ^ 31. The round begins, and now let anything
  -- happen to the client: any datagrams with numbers of segments of the file, in any order and any
  -- number, and any passes of the consumer. Let the server hear none of the answers. Then either the
  -- producer has returned, or as many of the server's timeouts as there are segments in the round, where
  -- what they send and what the client answers gets through, end the transmission on both sides.
  pub last_round-IsOver :
      (n : ℕ) (s : Sender) (c : Client) (k : ℕ) (es : List Event)
      → ((m : ℕ) → env.htonl m ≡ m)
      → IsLastRound file stale s
      → AsksFor (total file) c.window k
      → (c.lastack == 1) ≡ false
      → s.index ≤ k
      → k < total file
      → total file + c.window.receiving_window_size < 2 ^ 31
      → OfFile (total file) es
      → quota s ≤ n
      → let c' = run_client env file size zeroed (length file) c es in
        (t : Sender) × (outer file stale (total file) s ≡ running t)
        × ((c'.lastack ≡ 1)
            ⊎ IsOver file (
                repairs file stale env size zeroed now n
                  (record { server = running t; client = c' })))
  last_round-IsOver n s c k es same h asks runs lo hi small of enough =
      let c' = run_client env file size zeroed (length file) c es in
      let (t, e, waits, left) =
        last_round-IsWaiting file stale s h (omega (arith, lo, hi)) (omega (arith, small)) in
      (
        t,
        e,
        elim (run_client-Ready env file size zeroed c.window.receiving_window_size s.index es c of
            (inr (k, runs, (asks, refl), lo, hi))) [
              | inl last ↦ inl last
              | inr (k', runs', (asks', size'), lo', hi') ↦ inr (
                  repairs-IsOver file stale env size zeroed now n t c' s.index k' same
                    (record {
                      waits = waits;
                      behind_client = lo';
                      missing = hi';
                      left = left;
                      asks = asks';
                      runs = runs';
                      small = omega (
                        arith,
                        small,
                        size',
                        hi',
                        (next_ack-IsFirstVacant c'.window k' asks'.shown).0,
                      );
                    })
                    (omega (arith, enough, h.rest)))
            ],
      )
