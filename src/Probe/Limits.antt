-- ===== src/Probe/Limits.antt =====
-- How long the probe goes on, and how its waits grow.
use tcp_implementation_over.Common.{
  ℕ, zero, suc, ◌+◌, ◌*◌, ◌^◌, ◌<◌, ◌≡◌, refl, ap, ◌∙◌, Bool, true, Option, some, List, [], ◌∷◌,
  ◌++◌, arith, ltb, ◌&&◌, if◌then◌else◌, length, ◌==◌,
}
use tcp_implementation_over.Wire.{ClientAck}
use tcp_implementation_over.Probe.{
  Probe, Event, timeout, select_error, reply, start, lengthen, exited, waiting, probe_loop,
  client_window_probe,
}

-- A sender that only counts.
abbrev pub tally : ℕ → ℕ → Option ℕ
tally n k = some (n + 1)

-- The client stays silent, or answers with a window of 0.
abbrev pub IsClosed : List Event → Type 0
IsClosed [] = Unit
IsClosed (timeout ∷ es) = IsClosed es
IsClosed (select_error ∷ es) = ⊥
IsClosed (reply a ∷ es) = (a.advt_window ≡ 0) × IsClosed es

abbrev pub timeouts : List Event → ℕ
timeouts [] = 0
timeouts (timeout ∷ es) = suc (timeouts es)
timeouts (select_error ∷ es) = timeouts es
timeouts (reply a ∷ es) = timeouts es

loop-exited :
    (es : List Event) (p : Probe) (ack : ClientAck) (k : ℕ)
    → IsClosed es
    → p.network_timeout + timeouts es ≡ 10
    → probe_loop tally (es ++ timeout ∷ []) p ack k ≡ exited (k + length es + 1)
unfolding probe_loop lengthen
loop-exited [] p ack k c h = ground arith
loop-exited (timeout ∷ es) p ack k c h = ground (
  arith,
  loop-exited es (lengthen (record p { network_timeout = p.network_timeout + 1 })) ack (k + 1) c,
)
loop-exited (select_error ∷ es) p ack k c h = absurd c
loop-exited (reply a ∷ es) p ack k c h = ground (arith, loop-exited es (lengthen p) a (k + 1) c.1)

-- The eleventh timeout ends the process, however many answers with a window of 0 come in between:
-- with `n` of them the segment has been sent `n + 11` times.
pub probe-exited :
    (es : List Event) (ack : ClientAck)
    → IsClosed es
    → timeouts es ≡ 10
    → client_window_probe tally ack 0 (es ++ timeout ∷ []) ≡ exited (length es + 1)
unfolding client_window_probe
probe-exited es ack c h =
    loop-exited es start ack 0 c (unfold start in omega arith)
    ∙ ap (λ (n : ℕ). exited n) (omega arith)

loop-waiting :
    (es : List Event) (p : Probe) (ack : ClientAck) (k : ℕ)
    → IsClosed es
    → p.network_timeout + timeouts es < 11
    → (q : Probe) × (a : ClientAck) × (probe_loop tally es p ack k
        ≡ waiting q a (k + length es + 1))
unfolding probe_loop lengthen
loop-waiting [] p ack k c h = (p, ack, ground arith)
loop-waiting (timeout ∷ es) p ack k c h =
    let p' = lengthen (record p { network_timeout = p.network_timeout + 1 }) in
    let (q, a, e) = loop-waiting es p' ack (k + 1) c (omega arith) in (q, a, ground (arith, e))
loop-waiting (select_error ∷ es) p ack k c h = absurd c
loop-waiting (reply b ∷ es) p ack k c h =
    let (q, a, e) = loop-waiting es (lengthen p) b (k + 1) c.1 (omega arith) in
    (q, a, ground (arith, e))

-- With fewer than eleven timeouts, and no window yet, it has sent one probe more than it has waited,
-- and goes on.
pub probe-waiting :
    (es : List Event) (ack : ClientAck)
    → IsClosed es
    → timeouts es < 11
    → (q : Probe) × (a : ClientAck) × (client_window_probe tally ack 0 es
        ≡ waiting q a (length es + 1))
unfolding client_window_probe
probe-waiting es ack c h =
    let (q, a, e) = loop-waiting es start ack 0 c (unfold start in omega arith) in
    (q, a, e ∙ ap (λ (n : ℕ). waiting q a n) (omega arith))

-- `n` waits.
pub lengthened : Probe → ℕ → Probe
lengthened p zero = p
lengthened p (suc n) = lengthen (lengthened p n)

all_below : ℕ → (ℕ → Bool) → Bool
all_below zero f = true
all_below (suc n) f = f n && all_below n f

all_below_sound : (n : ℕ) (f : ℕ → Bool) (k : ℕ) → all_below n f ≡ true → k < n → f k ≡ true
unfolding all_below
all_below_sound zero f k h lt = absurd (omega arith)
all_below_sound (suc n) f k h lt = ground (arith, all_below_sound n f k)

abbrev expected : ℕ → ℕ
expected n = if ltb n 3 then 6 * 2 ^ n else 60

wait_table : all_below 28 (λ n. (lengthened start n).timeout_sec == expected n) ≡ true
unfolding all_below lengthened lengthen start
wait_table = refl

-- The first 28 waits are 6, 12 and 24 seconds, and 60 from then on.
pub wait_seconds :
    (n : ℕ) → n < 28 → (lengthened start n).timeout_sec ≡ (if ltb n 3 then 6 * 2 ^ n else 60)
wait_seconds n h =
    ground (
      arith,
      all_below_sound 28 (λ k. (lengthened start k).timeout_sec == expected k) n wait_table h,
    )

-- The next one is more than fifty years: twice the wait no longer fits an `int`.
wait_overflow : (lengthened start 28).timeout_sec ≡ 6 * 2 ^ 28
unfolding lengthened lengthen start
wait_overflow = refl
