-- ===== src/Rtt/Sample.antt =====
-- The sample that server.c hands to the estimator is `tsend - trecv`, a `uint32_t` difference.
use tcp_implementation_over.Common.{ℕ, ◌+◌, ◌-◌, ◌%◌, ◌^◌, ◌<◌, ◌≡◌, arith, List, [], ◌∷◌}
use tcp_implementation_over.Common.Int.{ℤ, pos, ◌≤ℤ◌, ◌+ℤ◌, ◌-ℤ◌, quot_ℤ, to_int}
use tcp_implementation_over.Rtt.{RttInfo, Timeval, rtt_init, rtt_stop, rtt_newpack, rtt_timeout}
use tcp_implementation_over.Rtt.Bounds.{RttOp, stops, times_out, newpacks, apply, apply_all}

-- `tsend - trecv` of two timestamps.
abbrev pub sample : ℕ → ℕ → ℕ
sample tsend trecv = (tsend + 2 ^ 32 - trecv) % 2 ^ 32

-- `elapsed` milliseconds after `tsend`, on the 32-bit clock.
abbrev pub later : ℕ → ℕ → ℕ
later tsend elapsed = (tsend + elapsed) % 2 ^ 32

-- For less than 2 ^ 31 milliseconds between two timestamps, the round-trip time that is recorded is
-- the elapsed time with its sign turned.
pub sample_negated :
    (p : RttInfo) (tsend elapsed : ℕ)
    → tsend < 2 ^ 32
    → elapsed < 2 ^ 31
    → (rtt_stop p (sample tsend (later tsend elapsed))).rtt_rtt ≡ pos 0 -ℤ pos elapsed
unfolding rtt_stop ◌-ℤ◌ to_int
sample_negated p tsend elapsed ht he = ground arith

-- A difference the other way round would be the elapsed time.
pub sample_swapped :
    (p : RttInfo) (tsend elapsed : ℕ)
    → tsend < 2 ^ 32
    → elapsed < 2 ^ 31
    → (rtt_stop p (sample (later tsend elapsed) tsend)).rtt_rtt ≡ pos elapsed
unfolding rtt_stop to_int
sample_swapped p tsend elapsed ht he = ground arith

srtt-le-zero : (a s : ℤ) → a ≤ℤ pos 0 → s ≤ℤ pos 0 → a +ℤ quot_ℤ (s -ℤ a) 8 ≤ℤ pos 0
unfolding ◌+ℤ◌ ◌-ℤ◌ quot_ℤ
srtt-le-zero a s ha hs = ground arith

-- A value that `tsend - trecv` takes when less than 2 ^ 31 milliseconds pass.
pub record IsSample (ms : ℕ) : Type 0 where
  pub tsend : ℕ
  pub elapsed : ℕ
  pub on_clock : tsend < 2 ^ 32
  pub short : elapsed < 2 ^ 31
  pub value : ms ≡ sample tsend (later tsend elapsed)

sample-le-zero : {ms : ℕ} → IsSample ms → to_int ms ≤ℤ pos 0
unfolding to_int
sample-le-zero s = ground arith

-- Every time that is handed to the estimator is such a difference.
abbrev pub AreSamples : List RttOp → Type 0
AreSamples [] = Unit
AreSamples (stops ms ∷ os) = IsSample ms × AreSamples os
AreSamples (times_out ∷ os) = AreSamples os
AreSamples (newpacks ∷ os) = AreSamples os

stop-le-zero :
    (p : RttInfo) (ms : ℕ)
    → p.rtt_srtt ≤ℤ pos 0
    → to_int ms ≤ℤ pos 0
    → (rtt_stop p ms).rtt_srtt ≤ℤ pos 0
unfolding rtt_stop
stop-le-zero p ms hp hs = srtt-le-zero p.rtt_srtt (to_int ms) hp hs

apply_all-le-zero :
    (p : RttInfo) (os : List RttOp)
    → p.rtt_srtt ≤ℤ pos 0
    → AreSamples os
    → (apply_all p os).rtt_srtt ≤ℤ pos 0
unfolding apply_all apply rtt_newpack rtt_timeout
apply_all-le-zero p [] h hs = h
apply_all-le-zero p (stops ms ∷ os) h hs =
    apply_all-le-zero (rtt_stop p ms) os (stop-le-zero p ms h (sample-le-zero hs.0)) hs.1
apply_all-le-zero p (times_out ∷ os) h hs = apply_all-le-zero (rtt_timeout p).0 os h hs
apply_all-le-zero p (newpacks ∷ os) h hs = apply_all-le-zero (rtt_newpack p) os h hs

-- However slow the network, with these samples the smoothed round-trip time never gets positive.
pub srtt_never_positive :
    (p : RttInfo) (tv : Timeval) (os : List RttOp)
    → AreSamples os
    → (apply_all (rtt_init p tv) os).rtt_srtt ≤ℤ pos 0
unfolding rtt_init
srtt_never_positive p tv os hs = apply_all-le-zero (rtt_init p tv) os (omega arith) hs
