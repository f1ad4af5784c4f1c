-- ===== src/Client.antt =====
-- The two threads of client.c behind the handshake: the producer stores what arrives and
-- acknowledges it, the consumer hands the segments to `write`.
-- A step of the producer includes the acknowledgement that it sends right behind the mutex.
-- `htonl` is a parameter, and so is `left_over`, the value that a caller reads when
-- `SlidingWindowGetNextAckIndex` runs off its end.
pub mod Calls
pub mod Drain
pub mod Finish
pub mod Runs
pub mod Explain
pub mod Writes
pub mod LastAck
pub mod Marked
pub mod Complete
pub mod Returned
pub mod Rounds
pub mod Resent
pub mod Recovers
pub mod Asking
pub mod Fed
pub mod Fetched
pub mod Ready
mod Tests
use tcp_implementation_over.Common.{
  ℕ, zero, suc, ◌+◌, ◌-◌, Bool, true, false, Option, none, some, List, [], ◌∷◌, ◌++◌, ◌&&◌, ◌==◌,
  if◌then◌else◌, take,
}
use tcp_implementation_over.Common.Int.{ℤ, pos, ltb_ℤ, leb_ℤ, ◌-ℤ◌, ◌+ℤ◌, to_int, to_unsigned}
use tcp_implementation_over.Wire.{Segment, ClientAck}
use tcp_implementation_over.Segments.{write_length}
use tcp_implementation_over.Window.{Window, get_next_ack_index, add_segment, fetch_and_remove}

-- The window and `lastack`, which the threads share; the acknowledgements written to the socket; the
-- consumer's `fileFd`, its `count`, and the bytes that it has handed to `write`, in each turn first for
-- `fileFd` and then for the standard output. What becomes of them depends on the descriptor.
pub record Client : Type 0 where
  pub file_fd : ℤ
  pub window : Window Segment
  pub lastack : ℕ
  pub acks : List ClientAck
  pub count : ℕ
  pub written : List ℕ

-- The consumer's write of one segment.
unfoldable pub write_segment : ℕ → ℕ → Client → Segment → Client
unfolding write_length
write_segment file_length total c segment = record c {
  written = c.written ++ take (write_length file_length total c.count) segment.segment_data;
  count = c.count + 1;
}

-- The body of the loop, behind a fetch: `none` is a `currentSegmentNum` of -1.
abbrev pub on_fetched :
    ℕ → ℕ → Client → Option (Segment × ℕ) × Window Segment → (Client → Client) → Client
on_fetched file_length total c (none, w) rest = c
on_fetched file_length total c (some (segment, index), w) rest =
    rest (write_segment file_length total (record c { window = w }) segment)

-- `while (currentSegmentNum >= 0)`, from the fetch on, with `n` rounds left.
unfoldable pub drain : ℕ → ℕ → ℕ → Client → Client
unfolding write_segment
drain file_length total zero c = c
drain file_length total (suc n) c =
    on_fetched file_length total c (fetch_and_remove c.window) (λ c'. drain file_length total n c')

-- What the model does not fix. `write_file_fd` is what `writeFileFd` of `main` holds, which nothing sets:
-- no file is opened for what the client gets.
pub record Config : Type 0 where
  pub write_file_fd : ℤ
  pub htonl : ℕ → ℕ
  pub left_over : Window Segment → ℤ

module _ (env : Config) where
  open env use {htonl, left_over}

  -- The two results as the callers see them.
  unfoldable pub next_ack : Window Segment → ℤ
  next_ack w = elim (get_next_ack_index w) [ none ↦ left_over w | some k ↦ pos k ]

  unfoldable pub available : Window Segment → ℤ
  unfolding next_ack ◌-ℤ◌
  available w = pos (w.receiving_window_size + w.current_index) -ℤ next_ack w

  -- `lost` is the answer of `ShouldSimulatePacketLoss`.
  unfoldable pub send_client_ack_with_loss : Client → Bool → Client
  unfolding next_ack available to_unsigned
  send_client_ack_with_loss c lost = if lost then c else record c {
    acks =
        c.acks
        ++ record {
          current_request = htonl (to_unsigned (next_ack c.window));
          advt_window = htonl (to_unsigned (available c.window));
          lastack_sent = if c.lastack == 1 then 1 else 0;
        }
          ∷ [];
  }

  -- One datagram of the full size. The three flags are the answers of `ShouldSimulatePacketLoss`,
  -- in the order of the calls; `true` beside the state: the thread returns.
  unfoldable pub produce : ℕ → Client → Segment → Bool → Bool → Bool → Client × Bool
  unfolding send_client_ack_with_loss to_int
  produce total c segment lost ack_lost last_ack_lost =
      let stored : Client = record c {
        window = add_segment c.window segment (to_int segment.segment_num);
      } in
      let acked = send_client_ack_with_loss stored ack_lost in
      if lost
      then (c, false)
      else if leb_ℤ (pos total) (next_ack acked.window)
      then (send_client_ack_with_loss (record acked { lastack = 1 }) last_ack_lost, true)
      else (acked, false)

  -- One pass of the consumer under the mutex. A pass cannot fetch more than the window's segments.
  unfoldable pub consume_pass : ℕ → ℕ → Client → Bool → Client
  unfolding drain next_ack available send_client_ack_with_loss
  consume_pass file_length total c lost =
      let drained = drain file_length total (c.window.receiving_window_size + 1) c in
      if leb_ℤ (available c.window) (pos 0) && leb_ℤ (pos 0) (available c.window)
      then if ltb_ℤ (next_ack drained.window) (pos total)
        then send_client_ack_with_loss drained lost
        else drained
      else drained
