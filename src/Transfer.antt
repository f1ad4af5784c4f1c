-- ===== src/Transfer.antt =====
-- The two programs over a network that may lose, repeat and reorder datagrams: what the server's
-- `HandleFileTransmission` sends, the client's threads receive.
pub mod Closing
pub mod Joint
pub mod Repair
pub mod LastRound
pub mod Unheard
mod Tests
mod RepairTests
use tcp_implementation_over.Common.{
  ℕ, ◌+◌, ◌≤◌, ◌∙◌, Bool, inl, inr, Bool-cases, some, ltb, ◌-◌, ◌%◌, ◌<◌, ◌≡◌, refl, sym, subst,
  List, [], ◌∷◌, Memᴰ, ◌==◌, arith, if◌then◌else◌, take, length,
}
use tcp_implementation_over.Common.Int.{pos, to_int}
use tcp_implementation_over.Wire.{Segment, ClientAck, segment_data_size}
use tcp_implementation_over.Segments.{get_segment_count}
use tcp_implementation_over.Segments.Reassemble.{IsCopy, payload-IsCopy}
use tcp_implementation_over.Rtt.{RttInfo, Timeval}
use tcp_implementation_over.Transmit.{Sender}
use tcp_implementation_over.Transmit.Genuine.{All, IsOfFile}
use tcp_implementation_over.Transmit.Loop
use tcp_implementation_over.Transmit.Loop.{
  Progress, running, probing, sent_all, closing, gave_up, dead, undefined, handle_file_transmission,
}
use tcp_implementation_over.Transmit.Holds.{Holds}
use tcp_implementation_over.Transmit.Output.{sent-IsOfFile}
use tcp_implementation_over.Client.{Client, Config, consume_pass}
use tcp_implementation_over.Client.Explain.{IsGenuine}
use tcp_implementation_over.Client.Runs.{Event, datagram, pass, step, start, run_client}
use tcp_implementation_over.Client.Explain
use tcp_implementation_over.Client.Writes.{outs-InOrder, Explained-writes, client_writes_file}
use tcp_implementation_over.Client.Finish.{consume_pass-reaches_ack}
use tcp_implementation_over.Window
use tcp_implementation_over.Window.Bounds.{IsValid, init-IsValid, run-IsValid}
use tcp_implementation_over.Window.Delivery.{InOrder}
use tcp_implementation_over.Window.{Window, init, get_next_ack_index}

-- What the server has put on the socket. Of an undefined run nothing is known.
abbrev pub output : Progress → List Segment
output (running s) = s.sent
output (probing s) = s.sent
output (sent_all s) = s.sent
output (closing s) = s.sent
output (gave_up s) = s.sent
output (dead s) = s.sent
output undefined = []

-- Every datagram that reaches the client was sent, in any order and any number of times.
abbrev pub IsCarried : List Segment → List Event → Type 0
IsCarried sent [] = Unit
IsCarried sent (datagram s a b d ∷ es) = Memᴰ s sent × IsCarried sent es
IsCarried sent (pass a ∷ es) = IsCarried sent es

All-Memᴰ : (P : Segment → Type 0) (xs : List Segment) (x : Segment) → All P xs → Memᴰ x xs → P x
All-Memᴰ P [] x h m = elim m [ ]
All-Memᴰ P (y ∷ ys) x h (Memᴰ.head e) = subst P (sym e) h.0
All-Memᴰ P (y ∷ ys) x h (Memᴰ.tail m) = All-Memᴰ P ys x h.1 m

to_int-eq-pos : (n k : ℕ) → to_int n ≡ pos k → n ≡ k
unfolding to_int
to_int-eq-pos n k e = ground arith

module _ (file stale : List ℕ) where
  output-IsOfFile :
      (p : Progress)
      → Holds (λ s. All (IsOfFile file stale) s.sent) p
      → All (IsOfFile file stale) (output p)
  output-IsOfFile (running s) h = h
  output-IsOfFile (probing s) h = h
  output-IsOfFile (sent_all s) h = h
  output-IsOfFile (closing s) h = h.0
  output-IsOfFile (gave_up s) h = h
  output-IsOfFile (dead s) h = h
  output-IsOfFile undefined h = tt

  -- What the client may know of a segment that is marked with the index `k`.
  abbrev IsSegmentOf : ℕ → Segment → Type 0
  IsSegmentOf k s = (k < get_segment_count (length file)) × IsCopy file k s.segment_data

  module _ (env : Config) (size : ℕ) (zeroed : Segment) where
    of_file-IsGenuine :
        (s : Segment) → IsOfFile file stale s → Explain.IsGenuine env file size zeroed IsSegmentOf s
    of_file-IsGenuine s h k e =
        let same = to_int-eq-pos s.segment_num k e in
        let copy : IsCopy file s.segment_num s.segment_data =
          subst (IsCopy file s.segment_num) (sym h.1)
            (payload-IsCopy file stale s.segment_num h.0) in
        subst (λ (j : ℕ). IsSegmentOf j s) same (h.0, copy)

    carried-AllGenuine :
        (sent : List Segment) (es : List Event)
        → All (IsOfFile file stale) sent
        → IsCarried sent es
        → Explain.AllGenuine env file size zeroed IsSegmentOf es
    carried-AllGenuine sent [] all c = tt
    carried-AllGenuine sent (datagram s a b d ∷ es) all c = (
      of_file-IsGenuine s (All-Memᴰ (IsOfFile file stale) sent s all c.0),
      carried-AllGenuine sent es all c.1,
    )
    carried-AllGenuine sent (pass a ∷ es) all c = carried-AllGenuine sent es all c

    abbrev Explained : Client → Type 0
    Explained = Explain.Explained env file size zeroed IsSegmentOf

    Explained-count :
        (i : ℕ) (outs : List (Segment × ℕ))
        → i ≤ get_segment_count (length file)
        → InOrder IsSegmentOf i outs
        → i + length outs ≤ get_segment_count (length file)
    Explained-count i [] h o = omega arith
    Explained-count i ((s, k) ∷ outs) h o =
        omega (arith, Explained-count (i + 1) outs (omega (arith, o.1.0)) o.2)

    window-IsValid : (c : Client) → Explained c → 0 < size → IsValid c.window
    window-IsValid c x room =
        subst (λ (r : List (Segment × ℕ) × Window Segment). IsValid r.1) x.reached
          (run-IsValid (init size zeroed) x.ops (init-IsValid size zeroed room))

    module _ (client_original_window : ℕ) (ack : ClientAck) (info : RttInfo) (now : Timeval)
        (met : List Loop.Event) (es : List Event) (same : env.htonl (length file) ≡ length file)
        (carried : IsCarried
          (output (
            handle_file_transmission file stale
              (env.htonl (length file))
              client_original_window
              ack
              info
              now
              met))
          es) where
      -- The length that the server sends, and that both it and the client's producer count by.
      abbrev sent_length : ℕ
      sent_length = env.htonl (length file)

      abbrev reached : Client
      reached = run_client env file size zeroed sent_length (start env file size zeroed) es

      reached-Explained : Explained reached
      reached-Explained =
          let p =
            handle_file_transmission file stale (length file) client_original_window ack info now
              met in
          let came : IsCarried (output p) es =
            subst
              (λ (n : ℕ).
                IsCarried
                  (output
                    (handle_file_transmission file stale n client_original_window ack info now met))
                  es)
              same carried in
          subst
            (λ (n : ℕ).
              Explained (run_client env file size zeroed n (start env file size zeroed) es))
            (sym same)
            (Explain.run_client-Explained env file size zeroed IsSegmentOf
              (start env file size zeroed) es
              (carried-AllGenuine (output p) es
                (output-IsOfFile p
                  (sent-IsOfFile file stale client_original_window ack info now met))
                came)
              (Explain.start-Explained env file size zeroed IsSegmentOf))

      -- Let the byte order function change nothing of the file's length, and let the client's window have
      -- room. Whatever acknowledgements, timeouts and probes the server
      -- meets, whichever of the segments it sends reach the client, how often and in which order,
      -- however the client's threads alternate and whichever of its acknowledgements are dropped: when
      -- the consumer has counted all segments, the bytes that it has handed to `write` for the file's
      -- descriptor, which nothing has set, are those of the file of the server, but for the last full
      -- segment of a file whose length is a multiple of the segment's.
      pub file_transferred :
          0 < size
          → let len = length file in
            reached.count ≡ get_segment_count len
            → reached.written
              ≡ take (if len % segment_data_size == 0 then len - segment_data_size else len) file
      file_transferred room all =
          Explained-writes env file size zeroed IsSegmentOf (λ k s h. h.1) reached reached-Explained
            room all

      passed-Explained :
          (lost : Bool) → Explained (step env file size zeroed sent_length reached (pass lost))
      unfolding run_client
      passed-Explained lost =
          Explain.run_client-Explained env file size zeroed IsSegmentOf reached (pass lost ∷ []) tt
            reached-Explained

      passed-count :
          (lost : Bool) (k : ℕ)
          → 0 < size
          → get_next_ack_index reached.window ≡ some k
          → get_segment_count (length file) ≤ k
          → get_segment_count (length file)
            ≤ (step env file size zeroed sent_length reached (pass lost)).count
      unfolding step
      passed-count lost k room e enough =
          let total = get_segment_count (length file) in
          let c' = consume_pass env (length file) total reached lost in
          elim (Bool-cases (ltb reached.count total)) [
            | inl more ↦
                let x : Explained c' =
                  subst Explained (unfold step in rw more refl) (passed-Explained lost) in
                let last =
                  consume_pass-reaches_ack env (length file) total reached lost k
                    (window-IsValid reached reached-Explained room) e in
                rw more (
                  omega (
                    arith,
                    last,
                    x.counted,
                    (outs-InOrder env file size zeroed IsSegmentOf c' x room).1,
                  ))
            | inr done ↦ rw done (ground (arith, done))
          ]

      -- Under the same conditions: once the window acknowledges the end of the file, a single further
      -- pass of the consumer is enough to have these bytes handed to `write`.
      pub transfer_completes :
          (lost : Bool) (k : ℕ)
          → 0 < size
          → get_next_ack_index reached.window ≡ some k
          → get_segment_count (length file) ≤ k
          → let c = step env file size zeroed sent_length reached (pass lost) in
            let len = length file in
            (c.count ≡ get_segment_count len)
            × (c.written
                ≡ take (if len % segment_data_size == 0 then len - segment_data_size else len) file)
      transfer_completes lost k room e enough =
          let c = step env file size zeroed sent_length reached (pass lost) in
          let x = passed-Explained lost in
          let order = outs-InOrder env file size zeroed IsSegmentOf c x room in
          let all : c.count ≡ get_segment_count (length file) = omega (
            arith,
            passed-count lost k room e enough,
            x.counted,
            Explained-count 0 x.outs (omega arith) order.0,
          ) in
          (all, Explained-writes env file size zeroed IsSegmentOf (λ j s h. h.1) c x room all)
