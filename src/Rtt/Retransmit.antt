-- ===== src/Rtt/Retransmit.antt =====
-- The count of retransmissions: when the sender gives a segment up, and that it never backs off.
use tcp_implementation_over.Common.{
  ℕ, zero, suc, ◌+◌, ◌≡◌, refl, ap, sym, ◌∙◌, arith, ltb, if◌then◌else◌,
}
use tcp_implementation_over.Common.Int.{pos, negsuc}
use tcp_implementation_over.Rtt.{
  RttInfo, rtt_maxnrexmt, rtt_minmax, rtt_rtocalc, rtt_newpack, rtt_stop, rtt_timeout,
}
use tcp_implementation_over.Rtt.Bounds.{rto-timeout, rto-stop}

-- `n` timeouts in a row.
unfoldable pub timeouts : RttInfo → ℕ → RttInfo
timeouts p zero = p
timeouts p (suc n) = timeouts (rtt_timeout p).0 n

nrexmt-timeouts : (p : RttInfo) (n : ℕ) → (timeouts p n).rtt_nrexmt ≡ p.rtt_nrexmt + n
unfolding timeouts rtt_timeout
nrexmt-timeouts p zero = omega arith
nrexmt-timeouts p (suc n) = omega (arith, nrexmt-timeouts (rtt_timeout p).0 n)

-- After a new packet, `n` timeouts are survived, and the next is fatal, exactly when `n` is at
-- least RTT_MAXNREXMT: the thirteenth timeout in a row gives the packet up.
pub timeout-gives_up :
    (p : RttInfo) (n : ℕ)
    → (rtt_timeout (timeouts (rtt_newpack p) n)).1
      ≡ (if ltb n rtt_maxnrexmt then pos 0 else negsuc 0)
unfolding rtt_timeout rtt_newpack
timeout-gives_up p n = ground (arith, nrexmt-timeouts (record p { rtt_nrexmt = 0 }) n)

same_estimate : (p : RttInfo) (n : ℕ) → rtt_rtocalc (timeouts p n) ≡ rtt_rtocalc p
unfolding timeouts rtt_timeout rtt_rtocalc
same_estimate p zero = refl
same_estimate p (suc n) = same_estimate (rtt_timeout p).0 n

rto-timeouts :
    (p : RttInfo) (n : ℕ)
    → p.rtt_rto ≡ rtt_minmax (rtt_rtocalc p)
    → (timeouts p n).rtt_rto ≡ p.rtt_rto
unfolding timeouts
rto-timeouts p zero h = refl
rto-timeouts p (suc n) h =
    rto-timeouts (rtt_timeout p).0 n (rto-timeout p ∙ ap rtt_minmax (sym (same_estimate p 1)))
    ∙ rto-timeout p
    ∙ sym h

-- However many timeouts follow a sample, the retransmission timeout is the one that the sample set:
-- `rtt_timeout` does not back off.
pub timeout-no_backoff :
    (p : RttInfo) (ms n : ℕ) → (timeouts (rtt_stop p ms) n).rtt_rto ≡ (rtt_stop p ms).rtt_rto
timeout-no_backoff p ms n = rto-timeouts (rtt_stop p ms) n (rto-stop p ms)
