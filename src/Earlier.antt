-- ===== src/Earlier.antt =====
-- server_bkup.c, an earlier server: it sends in lockstep, a window of segments and then as many reads,
-- and it never takes a client into its list of known ones.
-- Its `SendSegment` and the entries of its table are those of server.c, but it allocates a pointer's size
-- for each entry of four integers.
pub mod Ordered
pub mod Forks
mod Tests
use Prim.Native.String.{String}
use tcp_implementation_over.Common.{
  ℕ, zero, suc, ◌+◌, ◌*◌, ◌-◌, ◌^◌, Bool, true, false, Option, none, some, List, [], ◌∷◌, ◌++◌,
  ◌==◌, if◌then◌else◌, ltb, length,
}
use tcp_implementation_over.Common.Int.{ℤ, pos, ltb_ℤ, pos_part, to_int}
use tcp_implementation_over.Wire.{Segment, ClientAck}
use tcp_implementation_over.Segments.{
  FileSegment, get_segment_count, initialize_file_segment_info, send_segment,
}
use tcp_implementation_over.Clients.{ClientInfo, chk_request_retransmitted}
use tcp_implementation_over.Listen.{Ready, Selected, interrupted, ready, first_request}

-- The local variables of `HandleFileTransmission` that live across its rounds, the table and the
-- socket's output. `lastAckReceived` is an `int` of -1 at first, read as unsigned where it is compared.
pub record Transmission : Type 0 where
  pub index : ℕ
  pub current_window : ℤ
  pub last_advt_window : ℤ
  pub last_ack_received : ℕ
  pub duplicate_ack : ℕ
  pub ack : ClientAck
  pub table : List FileSegment
  pub sent : List Segment

-- `sizeof (FileSegment)`, four integers.
abbrev pub entry_size : ℕ
entry_size = 16

-- The bytes that `InitializeFileSegmentInfo` allocates: `sizeof fileSegment` is the size of a pointer.
unfoldable pub allocated : ℕ → ℕ → ℕ
allocated pointer_size total = total * pointer_size

-- `ack` is not initialised by the code.
unfoldable pub initial : ℕ → ℤ → ClientAck → Transmission
initial file_length sending_window_size ack = record {
  index = 0;
  current_window = pos 1;
  last_advt_window = sending_window_size;
  last_ack_received = 2 ^ 32 - 1;
  duplicate_ack = 0;
  ack = ack;
  table = initialize_file_segment_info file_length;
  sent = [];
}

-- A short `Read` leaves `ack` as it is.
abbrev pub received : Option ClientAck → Transmission → Transmission
received none t = t
received (some a) t = record t { ack = a }

-- Behind a `Read`, whatever it returned.
unfoldable pub note_ack : Option ClientAck → Transmission → Transmission
unfolding to_int
note_ack got t =
    let u = received got t in
    let same = u.last_ack_received == u.ack.current_request in
    record u {
      last_ack_received = if same then u.last_ack_received else u.ack.current_request;
      duplicate_ack = if same then u.duplicate_ack + 1 else u.duplicate_ack;
      current_window = to_int u.ack.advt_window;
    }

-- `totalToSend` of the next round.
abbrev pub total_to_send : Transmission → ℤ
total_to_send t =
    if ltb_ℤ t.current_window t.last_advt_window then t.current_window else t.last_advt_window

-- In the second inner loop with so many reads left; past the loops; in an endless loop, since a round
-- without segments changes nothing; or past the table.
pub data Stage : Type 0 where
  reading : Transmission → ℕ → Stage
  sent_all spinning : Transmission → Stage
  undefined : Stage

abbrev pub reading_or_undefined : ℕ → Option Transmission → Stage
reading_or_undefined n none = undefined
reading_or_undefined n (some t) = reading t n

infixl 5 ◌>>=◌
abbrev pub ◌>>=◌ : {A B : Type 0} → Option A → (A → Option B) → Option B
none >>= f = none
some a >>= f = f a

module _ (file stale : List ℕ) where
  -- `SendSegment(sockfd, fd, index); index++;`
  unfoldable pub send_next : Transmission → Option Transmission
  send_next t = do
    (segment, table) ← send_segment file stale t.table t.index
    some (record t { index = t.index + 1; table = table; sent = t.sent ++ segment ∷ [] })

  unfoldable pub send_some : ℕ → Transmission → Option Transmission
  unfolding send_next
  send_some zero t = some t
  send_some (suc n) t = do u ← send_next t; send_some n u

  -- A round of `n` segments.
  unfoldable pub send_window : ℕ → Transmission → Stage
  unfolding send_some
  send_window zero t = spinning t
  send_window (suc n) t = reading_or_undefined (suc n) (send_some (suc n) t)

  -- The test of the outer loop, and a round up to its first read.
  unfoldable pub begin_window : Transmission → Stage
  unfolding send_window
  begin_window t =
      if ltb t.index (get_segment_count (length file))
      then send_window (pos_part (total_to_send t)) t
      else sent_all t

  -- A `Read`, with `n` left behind it.
  unfoldable pub after_ack_read : ℕ → Transmission → Stage
  unfolding begin_window
  after_ack_read zero t = begin_window t
  after_ack_read (suc n) t = reading t (suc n)

  unfoldable pub read_ack : Stage → Option ClientAck → Stage
  unfolding after_ack_read note_ack
  read_ack (reading t zero) got = begin_window t
  read_ack (reading t (suc n)) got = after_ack_read n (note_ack got t)
  read_ack (sent_all t) got = sent_all t
  read_ack (spinning t) got = spinning t
  read_ack undefined got = undefined

  unfoldable pub read_acks : Stage → List (Option ClientAck) → Stage
  unfolding read_ack
  read_acks p [] = p
  read_acks p (got ∷ gots) = read_acks (read_ack p got) gots

  -- The whole function, up to the code that frees the table. A table that is larger than what was
  -- allocated for it is filled behind its end.
  unfoldable pub transmit_in_lockstep : ℕ → ℤ → ClientAck → List (Option ClientAck) → Stage
  unfolding read_acks begin_window initial allocated
  transmit_in_lockstep pointer_size sending_window_size ack gots =
      let total = get_segment_count (length file) in
      if ltb (allocated pointer_size total) (total * entry_size)
      then undefined
      else read_acks (begin_window (initial (length file) sending_window_size ack)) gots

-- A client is put into every empty place.
unfoldable pub add_to_each_empty : String → ℕ → List ClientInfo → List ClientInfo
add_to_each_empty ip port [] = []
add_to_each_empty ip port (c ∷ cs) =
    (if c.in_use then c else record c { client_ip = ip; client_port = port; in_use = true })
    ∷ add_to_each_empty ip port cs

-- A round of `main`: a child for a request of a client that is not known. Nobody is made known.
abbrev pub child_for :
    List ClientInfo → Option (ℕ × String × ℕ) → List (ℕ × String × ℕ) → List (ℕ × String × ℕ)
child_for cs none rest = rest
child_for cs (some (count, ip, port)) rest =
    if chk_request_retransmitted ip port cs then rest else (count, ip, port) ∷ rest

-- The endless loop of `main`, over what `select` returns: the children that are forked.
unfoldable pub earlier_loop : List ClientInfo → List Selected → List (ℕ × String × ℕ)
earlier_loop cs [] = []
earlier_loop cs (interrupted ∷ ss) = earlier_loop cs ss
earlier_loop cs (ready rs ∷ ss) = child_for cs (first_request 0 rs) (earlier_loop cs ss)
