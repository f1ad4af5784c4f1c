-- ===== src/Transmit.antt =====
-- `HandleFileTransmission` of server.c: the windowed sender with its congestion control.
-- Time stands still between two events; an event carries the time at which it comes. `unsigned int`
-- counters are exact, since they grow by a few with each acknowledgement.
pub mod Loop
pub mod Congestion
pub mod Duplicates
pub mod Bursts
pub mod Invariant
pub mod Probing
pub mod Holds
pub mod Genuine
pub mod Output
pub mod LastAck
pub mod Repair
pub mod Waiting
mod Tests
use tcp_implementation_over.Common.{
  ℕ, zero, suc, ◌+◌, ◌-◌, ◌*◌, ◌/◌, ◌%◌, ◌^◌, Bool, true, false, Option, none, some, List, [], ◌∷◌,
  ◌++◌, ◌&&◌, ◌==◌, if◌then◌else◌, leb, ltb, length,
}
use tcp_implementation_over.Common.Int.{ℤ, pos, ltb_ℤ}
use tcp_implementation_over.Wire.{Segment, ClientAck}
use tcp_implementation_over.Segments.{
  FileSegment, get_segment_count, initialize_file_segment_info, send_segment,
}
use tcp_implementation_over.Rtt.{RttInfo, Timeval, rtt_ts, rtt_stop, rtt_newpack, rtt_timeout}
use tcp_implementation_over.Rtt.Sample.{sample}

abbrev pub ssthresh_min : ℕ
ssthresh_min = 2

-- The local variables that live across the loops, the table, the socket's output and the time.
pub record Sender : Type 0 where
  pub index : ℕ
  pub cwindow : ℕ
  pub ssthresh : ℕ
  pub current_window : ℕ
  pub last_advt_window : ℕ
  pub last_ack_received : ℕ
  pub duplicate_ack : ℕ
  pub total_to_send : ℕ
  pub total_to_recv : ℕ
  pub tsend : ℕ
  pub ack : ClientAck
  pub rttinfo : RttInfo
  pub table : List FileSegment
  pub sent : List Segment
  pub now : Timeval

-- `rtt_stop(&rttinfo, tsend - trecv); rtt_newpack(&rttinfo)` with `trecv` read now.
unfoldable pub take_sample : Sender → Sender
take_sample s = record s {
  rttinfo = rtt_newpack (rtt_stop s.rttinfo (sample s.tsend (rtt_ts s.rttinfo s.now)));
}

-- The initial values. `rttinfo` has been set up by `rtt_init`, `ack` is not initialised by the code,
-- and `lastAckReceived` is -1, read as unsigned where it is compared.
unfoldable pub start : ℕ → ℕ → ClientAck → RttInfo → Timeval → Sender
start file_length client_original_window ack rttinfo now = record {
  index = 0;
  cwindow = 1;
  ssthresh = client_original_window;
  current_window = 1;
  last_advt_window = client_original_window;
  last_ack_received = 2 ^ 32 - 1;
  duplicate_ack = 0;
  total_to_send = 0;
  total_to_recv = 0;
  tsend = 0;
  ack = ack;
  rttinfo = rttinfo;
  table = initialize_file_segment_info file_length;
  sent = [];
  now = now;
}

-- A timeout of the retransmission timer, behind the test of `rtt_timeout`.
unfoldable pub collapse : Sender → Sender
collapse s = record s {
  cwindow = 1;
  ssthresh = if leb (2 * ssthresh_min) s.ssthresh then s.ssthresh / 2 else ssthresh_min;
}

-- What the code reads from the socket: a whole acknowledgement, or an error (`ack` stays). A shorter
-- datagram is not modelled.
unfoldable pub receive : Option ClientAck → Sender → Sender
receive none s = s
receive (some a) s = record s { ack = a; current_window = a.advt_window }

-- A repeated acknowledgement is counted; a new one is a sample and may open the window.
unfoldable pub on_new_ack : Sender → Sender
unfolding take_sample
on_new_ack s =
    let t : Sender = record (take_sample s) {
      total_to_recv = s.total_to_recv + 1;
      last_ack_received = s.ack.current_request;
      duplicate_ack = 0;
      current_window = s.ack.advt_window;
    } in
    if ltb s.cwindow s.ssthresh && ltb s.cwindow s.last_advt_window
    then record t { cwindow = s.cwindow + 1 }
    else t

-- Where control goes behind an acknowledgement.
pub data Control : Type 0 where
  again round_over probe_window : Control

-- The window part of a fast retransmit, around the send.
pub halve : Sender → Sender
halve s = record s {
  current_window = if ltb s.ssthresh s.current_window then s.ssthresh else s.current_window;
  cwindow = s.cwindow / 2;
}

pub inflate : Sender → Sender
unfolding take_sample
inflate s = take_sample (record s { cwindow = s.cwindow + 3 })

-- Behind the inner loop.
unfoldable pub open_window : Sender → Sender
open_window s =
    if leb s.ssthresh s.cwindow && ltb s.cwindow s.last_advt_window
    then record s { cwindow = s.cwindow + 1 }
    else s

unfoldable pub next_round : Sender → Sender
unfolding take_sample
next_round s = take_sample (record s { last_advt_window = s.ack.advt_window })

infixl 5 ◌>>=◌
abbrev pub ◌>>=◌ : {A B : Type 0} → Option A → (A → Option B) → Option B
none >>= f = none
some a >>= f = f a

-- `totalToSend`: the smaller of the two windows.
abbrev pub quota : Sender → ℕ
quota s = if ltb s.last_advt_window s.cwindow then s.last_advt_window else s.cwindow

-- The rounds of the loop up to it: it is an `int`, and from 2 ^ 31 on negative.
abbrev pub rounds : Sender → ℕ
rounds s = if ltb (quota s) (2 ^ 31) then quota s else 0

abbrev pub allotted : Sender → Sender
allotted s = record s { total_to_send = quota s }

abbrev pub stamp : Sender → Sender
stamp s = record s { total_to_recv = 0; tsend = rtt_ts s.rttinfo s.now }

module _ (file stale : List ℕ) where
  -- `SendSegment`; `none` is an access outside the table.
  unfoldable pub send : Sender → ℕ → Option Sender
  send s k = do
    (segment, table) ← send_segment file stale s.table k
    some (record s { table = table; sent = s.sent ++ segment ∷ [] })

  -- `for(i = 0; i < totalToSend; i++) { SendSegment(sockfd, fd, index); index++; }`
  unfoldable pub burst : ℕ → Sender → Option Sender
  unfolding send
  burst zero s = some s
  burst (suc n) s = do t ← send s s.index; burst n (record t { index = t.index + 1 })

  -- The head of the outer loop, up to the timer.
  unfoldable pub begin_round : Sender → Option Sender
  unfolding burst
  begin_round s = burst (rounds s) (allotted s) >>= λ t. some (stamp t)

  -- The timer ran out: `none` is undefined behaviour; `true` gives the client up.
  unfoldable pub on_alarm : Sender → Option (Sender × Bool)
  unfolding send collapse
  on_alarm s =
      let (info, result) = rtt_timeout s.rttinfo in
      let t : Sender = record s { rttinfo = info } in
      if ltb_ℤ result (pos 0)
      then some (t, true)
      else send t t.ack.current_request >>= λ u. some (collapse u, false)

  pub fast_retransmit : Sender → Option Sender
  unfolding halve send inflate
  fast_retransmit s = send (halve s) s.last_ack_received >>= λ t. some (inflate t)

  -- The end of an inner round: a second repetition of an acknowledgement sends the segment again.
  unfoldable pub after_ack : Sender → Option (Sender × Control)
  unfolding fast_retransmit
  after_ack s =
      if s.duplicate_ack == 2 then (fast_retransmit s >>= λ t. some (t, again)) else some (s, again)

  -- One round of the inner loop.
  unfoldable pub on_read : Option ClientAck → Sender → Option (Sender × Control)
  unfolding receive on_new_ack after_ack
  on_read got s0 =
      let s = receive got s0 in
      let t = on_new_ack s in
      if s.ack.lastack_sent == 1
      then some (s, round_over)
      else if s.ack.advt_window == 0
      then some (s, probe_window)
      else if s.last_ack_received == s.ack.current_request
      then after_ack (record s { duplicate_ack = s.duplicate_ack + 1 })
      else if t.total_to_recv == t.total_to_send
      then some (record t { last_advt_window = t.ack.advt_window }, round_over)
      else after_ack t
