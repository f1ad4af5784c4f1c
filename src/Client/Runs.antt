-- ===== src/Client/Runs.antt =====
-- The client's two threads as steps: what happens to it, and what it does.
use tcp_implementation_over.Common.{
  ℕ, ◌≡◌, ◌++◌, none, Bool, List, [], ◌∷◌, ◌==◌, if◌then◌else◌, ltb, length,
}
use tcp_implementation_over.Wire.{Segment}
use tcp_implementation_over.Segments.{get_segment_count}
use tcp_implementation_over.Window.{init, get_next_ack_index}
use tcp_implementation_over.Client.{Client, Config, produce, consume_pass}

-- What happens to the client: a datagram with the three draws of the producer, or a pass of the
-- consumer with its draw.
pub data Event : Type 0 where
  datagram : Segment → Bool → Bool → Bool → Event
  pass : Bool → Event

module _ (env : Config) (file : List ℕ) (size : ℕ) (zeroed : Segment) where
  abbrev pub total : ℕ
  total = get_segment_count (length file)

  -- The client before its threads start.
  unfoldable pub start : Client
  start = record {
    file_fd = env.write_file_fd;
    window = init size zeroed;
    lastack = 0;
    acks = [];
    count = 0;
    written = [];
  }

  -- `sent_length` is the length as it has come in the answer of the server: `main` gives it to the
  -- producer as it is, and the consumer the length that `ntohl` makes of it, that of the file.
  module _ (sent_length : ℕ) where
    -- A thread that has returned does nothing more.
    unfoldable pub step : Client → Event → Client
    step c (datagram s lost ack_lost last_ack_lost) =
        if c.lastack == 1
        then c
        else (produce env (get_segment_count sent_length) c s lost ack_lost last_ack_lost).0
    step c (pass lost) =
        if ltb c.count total then consume_pass env (length file) total c lost else c

    unfoldable pub run_client : Client → List Event → Client
    unfolding step
    run_client c [] = c
    run_client c (e ∷ es) = run_client (step c e) es

    -- The client behind these events.
    abbrev pub reached : List Event → Client
    reached es = run_client start es

    -- The window was full at some moment.
    abbrev pub WasFull : List Event → Type 0
    WasFull es =
        (before : List Event) × (after : List Event) × (es ≡ before ++ after)
        × (get_next_ack_index (reached before).window ≡ none)
