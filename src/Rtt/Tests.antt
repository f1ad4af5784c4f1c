-- ===== src/Rtt/Tests.antt =====
-- The estimator at its start and after a sample of the sender.
use tcp_implementation_over.Common.{◌≡◌, refl, List, [], ◌∷◌, arith}
use tcp_implementation_over.Common.Int.{pos, negsuc, ◌≤ℤ◌, ◌-ℤ◌, to_int}
use tcp_implementation_over.Rtt.{
  RttInfo, Timeval, rtt_rtocalc, rtt_minmax, rtt_init, rtt_stop, abs_ℤ,
}
use tcp_implementation_over.Rtt.Bounds.{
  RttOp, stops, times_out, newpacks, apply_all, IsBounded, rto-IsBounded, IsWithin, IsInt, InRange,
  stop-InRange,
}
use tcp_implementation_over.Rtt.Retransmit.{timeouts, timeout-no_backoff}
use tcp_implementation_over.Rtt.Sample.{sample, later, IsSample, srtt_never_positive}

abbrev noon : Timeval
noon = record { tv_sec = 12; tv_usec = 5000 }

abbrev fresh : RttInfo
fresh =
    rtt_init
      (record {
        rtt_rtt = pos 0;
        rtt_srtt = pos 0;
        rtt_rttvar = pos 0;
        rtt_rto = pos 0;
        rtt_nrexmt = 0;
        rtt_base = 0;
      })
      noon

-- The first timeout is a second, not the three that the estimators' initial values stand for.
first_rto : fresh.rtt_rto ≡ pos 1000
unfolding rtt_init rtt_minmax rtt_rtocalc
first_rto = refl

-- 40 milliseconds, measured the wrong way round.
slow_sample : (rtt_stop fresh (sample 100 140)).rtt_srtt ≡ negsuc 4
unfolding rtt_init rtt_stop rtt_minmax rtt_rtocalc
slow_sample = refl

abbrev busy : List RttOp
busy = stops (sample 100 140) ∷ times_out ∷ newpacks ∷ []

rto-IsBounded_example : IsBounded (apply_all (rtt_init fresh noon) busy).rtt_rto
rto-IsBounded_example = rto-IsBounded fresh noon busy

timeout-no_backoff_example : (timeouts (rtt_stop fresh 40) 5).rtt_rto ≡ (rtt_stop fresh 40).rtt_rto
timeout-no_backoff_example = timeout-no_backoff fresh 40 5

abbrev forty : IsSample (sample 100 (later 100 40))
forty = record {
  tsend = 100;
  elapsed = 40;
  on_clock = omega arith;
  short = omega arith;
  value = refl;
}

srtt_never_positive_example :
    (apply_all (rtt_init fresh noon) (stops (sample 100 (later 100 40)) ∷ times_out ∷ [])).rtt_srtt
    ≤ℤ pos 0
srtt_never_positive_example =
    srtt_never_positive fresh noon (stops (sample 100 (later 100 40)) ∷ times_out ∷ []) (forty, tt)

fresh-InRange : InRange 1000 fresh
unfolding rtt_init
fresh-InRange = record {
  srtt = ground arith;
  rttvar_low = ground arith;
  rttvar_high = ground arith;
}

forty-IsWithin : IsWithin 1000 (to_int 40)
unfolding to_int
forty-IsWithin = ground arith

stop-InRange_example :
    InRange 1000 (rtt_stop fresh 40)
    × IsInt (to_int 40 -ℤ fresh.rtt_srtt)
    × IsInt (abs_ℤ (to_int 40 -ℤ fresh.rtt_srtt) -ℤ fresh.rtt_rttvar)
stop-InRange_example = stop-InRange 1000 fresh 40 (omega arith) forty-IsWithin fresh-InRange
