-- ===== src/Rtt/Bounds.antt =====
-- The retransmission timeout stays between its two limits, and the estimators stay in range.
use tcp_implementation_over.Common.{ℕ, ◌+◌, ◌*◌, ◌≤◌, ◌<◌, ◌≡◌, ◌^◌, arith, refl, List, [], ◌∷◌}
use tcp_implementation_over.Common.Int.{
  ℤ, pos, pos_part, neg_part, ◌≤ℤ◌, ◌+ℤ◌, ◌-ℤ◌, quot_ℤ, to_int,
}
use tcp_implementation_over.Rtt.{
  RttInfo, Timeval, rtt_rxtmin, rtt_rxtmax, rtt_minmax, rtt_init, rtt_newpack, rtt_stop,
  rtt_timeout, abs_ℤ, rtt_rtocalc,
}

abbrev pub IsBounded : ℤ → Type 0
IsBounded rto = (pos rtt_rxtmin ≤ℤ rto) × (rto ≤ℤ pos rtt_rxtmax)

pub minmax-IsBounded : (rto : ℤ) → IsBounded (rtt_minmax rto)
unfolding rtt_minmax
minmax-IsBounded rto = ground arith

-- What the transmission loop does to its estimator.
pub data RttOp : Type 0 where
  stops : ℕ → RttOp
  times_out : RttOp
  newpacks : RttOp

unfoldable pub apply : RttInfo → RttOp → RttInfo
apply p (stops ms) = rtt_stop p ms
apply p times_out = (rtt_timeout p).0
apply p newpacks = rtt_newpack p

unfoldable pub apply_all : RttInfo → List RttOp → RttInfo
unfolding apply
apply_all p [] = p
apply_all p (o ∷ os) = apply_all (apply p o) os

pub rto-stop :
    (p : RttInfo) (ms : ℕ) → (rtt_stop p ms).rtt_rto ≡ rtt_minmax (rtt_rtocalc (rtt_stop p ms))
unfolding rtt_stop
rto-stop p ms = refl

pub rto-timeout : (p : RttInfo) → (rtt_timeout p).0.rtt_rto ≡ rtt_minmax (rtt_rtocalc p)
unfolding rtt_timeout
rto-timeout p = refl

apply-IsBounded : (p : RttInfo) (o : RttOp) → IsBounded p.rtt_rto → IsBounded (apply p o).rtt_rto
unfolding apply rtt_newpack
apply-IsBounded p (stops ms) h = rw (rto-stop p ms) (minmax-IsBounded (rtt_rtocalc (rtt_stop p ms)))
apply-IsBounded p times_out h = rw (rto-timeout p) (minmax-IsBounded (rtt_rtocalc p))
apply-IsBounded p newpacks h = h

apply_all-IsBounded :
    (p : RttInfo) (os : List RttOp) → IsBounded p.rtt_rto → IsBounded (apply_all p os).rtt_rto
unfolding apply_all
apply_all-IsBounded p [] h = h
apply_all-IsBounded p (o ∷ os) h = apply_all-IsBounded (apply p o) os (apply-IsBounded p o h)

init-IsBounded : (p : RttInfo) (tv : Timeval) → IsBounded (rtt_init p tv).rtt_rto
unfolding rtt_init
init-IsBounded p tv = minmax-IsBounded (pos 0)

-- From its start on, whatever is measured and however often the timer runs out, the timeout lies
-- between RTT_RXTMIN and RTT_RXTMAX.
pub rto-IsBounded :
    (p : RttInfo) (tv : Timeval) (os : List RttOp)
    → IsBounded (apply_all (rtt_init p tv) os).rtt_rto
rto-IsBounded p tv os = apply_all-IsBounded (rtt_init p tv) os (init-IsBounded p tv)

abbrev pub IsWithin : ℕ → ℤ → Type 0
IsWithin b z = (pos_part z ≤ b) × (neg_part z ≤ b)

-- The range of an `int`.
abbrev pub IsInt : ℤ → Type 0
IsInt z = (pos_part z < 2 ^ 31) × (neg_part z ≤ 2 ^ 31)

pub record InRange (b : ℕ) (p : RttInfo) : Type 0 where
  pub srtt : IsWithin b p.rtt_srtt
  pub rttvar_low : pos 0 ≤ℤ p.rtt_rttvar
  pub rttvar_high : p.rtt_rttvar ≤ℤ pos (2 * b)

-- Each estimator moves towards the sample by a part of the distance.
quot_between :
    (a b : ℤ) (k : ℕ)
    → 0 < k
    → a ≤ℤ b
    → (a ≤ℤ a +ℤ quot_ℤ (b -ℤ a) k) × (a +ℤ quot_ℤ (b -ℤ a) k ≤ℤ b)
unfolding ◌+ℤ◌ ◌-ℤ◌ quot_ℤ
quot_between a b k pk h = ground arith

srtt-IsWithin :
    (b : ℕ) (a s : ℤ) (k : ℕ)
    → 0 < k
    → IsWithin b a
    → IsWithin b s
    → IsWithin b (a +ℤ quot_ℤ (s -ℤ a) k)
unfolding ◌+ℤ◌ ◌-ℤ◌ quot_ℤ
srtt-IsWithin b a s k pk ha hs = ground arith

rttvar_within :
    (b : ℕ) (v d : ℤ) (k : ℕ)
    → 0 < k
    → pos 0 ≤ℤ v
    → v ≤ℤ pos b
    → pos 0 ≤ℤ d
    → d ≤ℤ pos b
    → (pos 0 ≤ℤ v +ℤ quot_ℤ (d -ℤ v) k) × (v +ℤ quot_ℤ (d -ℤ v) k ≤ℤ pos b)
unfolding ◌+ℤ◌ ◌-ℤ◌ quot_ℤ
rttvar_within b v d k pk hv hb hd hc = ground arith

abs-bounds :
    (b : ℕ) (s a : ℤ)
    → IsWithin b s
    → IsWithin b a
    → (pos 0 ≤ℤ abs_ℤ (s -ℤ a)) × (abs_ℤ (s -ℤ a) ≤ℤ pos (2 * b))
unfolding abs_ℤ ◌-ℤ◌
abs-bounds b s a hs ha = ground arith

stop-srtt :
    (b : ℕ) (p : RttInfo) (ms : ℕ)
    → IsWithin b (to_int ms)
    → IsWithin b p.rtt_srtt
    → IsWithin b (rtt_stop p ms).rtt_srtt
unfolding rtt_stop
stop-srtt b p ms hs ha = srtt-IsWithin b p.rtt_srtt (to_int ms) 8 (omega arith) ha hs

stop-rttvar :
    (b : ℕ) (p : RttInfo) (ms : ℕ)
    → pos 0 ≤ℤ abs_ℤ (to_int ms -ℤ p.rtt_srtt)
    → abs_ℤ (to_int ms -ℤ p.rtt_srtt) ≤ℤ pos (2 * b)
    → InRange b p
    → (pos 0 ≤ℤ (rtt_stop p ms).rtt_rttvar) × ((rtt_stop p ms).rtt_rttvar ≤ℤ pos (2 * b))
unfolding rtt_stop
stop-rttvar b p ms low high h =
    rttvar_within (2 * b) p.rtt_rttvar (abs_ℤ (to_int ms -ℤ p.rtt_srtt)) 4 (omega arith)
      h.rttvar_low h.rttvar_high low high

diff-IsInt :
    (b : ℕ) (s a : ℤ)
    → b < 2 ^ 31
    → pos_part s + neg_part a ≤ b
    → neg_part s + pos_part a ≤ b
    → IsInt (s -ℤ a)
unfolding ◌-ℤ◌
diff-IsInt b s a hb p q = ground arith

near-IsInt :
    (b : ℕ) (s a : ℤ)
    → b < 2 ^ 31
    → pos 0 ≤ℤ s
    → s ≤ℤ pos b
    → pos 0 ≤ℤ a
    → a ≤ℤ pos b
    → IsInt (s -ℤ a)
unfolding ◌-ℤ◌
near-IsInt b s a hb p q r t = ground arith

-- Samples of at most `b` keep the smoothed time within `b` and its deviation within `2 * b`; no
-- difference on the way overflows an `int`, if `b` is below 2 ^ 30.
pub stop-InRange :
    (b : ℕ) (p : RttInfo) (ms : ℕ)
    → b < 2 ^ 30
    → IsWithin b (to_int ms)
    → InRange b p
    → InRange b (rtt_stop p ms)
      × IsInt (to_int ms -ℤ p.rtt_srtt)
      × IsInt (abs_ℤ (to_int ms -ℤ p.rtt_srtt) -ℤ p.rtt_rttvar)
stop-InRange b p ms hb hs h =
    let near = abs-bounds b (to_int ms) p.rtt_srtt hs h.srtt in
    (
      record {
        srtt = stop-srtt b p ms hs h.srtt;
        rttvar_low = (stop-rttvar b p ms near.0 near.1 h).0;
        rttvar_high = (stop-rttvar b p ms near.0 near.1 h).1;
      },
      diff-IsInt (2 * b) (to_int ms) p.rtt_srtt (omega arith) (omega arith) (omega arith),
      near-IsInt (2 * b) (abs_ℤ (to_int ms -ℤ p.rtt_srtt)) p.rtt_rttvar (omega arith) near.0 near.1
          h.rttvar_low h.rttvar_high,
    )
