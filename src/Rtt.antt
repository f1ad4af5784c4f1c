-- ===== src/Rtt.antt =====
-- The estimator of round-trip times, rtt.c and unprtt.h.
-- `int` fields are exact integers; `Bounds.stop-InRange` shows that they do not overflow.
-- `RTT_RTOCALC` is a double, and `rtt_minmax` takes a float: both hold every integer up to 2 ^ 24
-- exactly and keep the order beyond, so that what is cut to 1000 … 3000 is the exact value.
pub mod Bounds
pub mod Retransmit
pub mod Sample
mod Tests
use tcp_implementation_over.Common.{ℕ, ◌+◌, ◌-◌, ◌*◌, ◌/◌, ◌%◌, ◌^◌, if◌then◌else◌, ltb}
use tcp_implementation_over.Common.Int.{ℤ, pos, negsuc, ltb_ℤ, ◌+ℤ◌, ◌-ℤ◌, quot_ℤ, to_int}

abbrev pub rtt_rxtmin : ℕ
rtt_rxtmin = 1000

abbrev pub rtt_rxtmax : ℕ
rtt_rxtmax = 3000

abbrev pub rtt_maxnrexmt : ℕ
rtt_maxnrexmt = 12

-- `struct rtt_info`; `rtt_nrexmt` starts at 0 and only counts up.
pub record RttInfo : Type 0 where
  pub rtt_rtt : ℤ
  pub rtt_srtt : ℤ
  pub rtt_rttvar : ℤ
  pub rtt_rto : ℤ
  pub rtt_nrexmt : ℕ
  pub rtt_base : ℕ

-- srtt + 4.0 * rttvar
pub rtt_rtocalc : RttInfo → ℤ
unfolding ◌+ℤ◌
rtt_rtocalc p = p.rtt_srtt +ℤ p.rtt_rttvar +ℤ p.rtt_rttvar +ℤ p.rtt_rttvar +ℤ p.rtt_rttvar

pub rtt_minmax : ℤ → ℤ
rtt_minmax rto =
    if ltb_ℤ rto (pos rtt_rxtmin)
    then pos rtt_rxtmin
    else if ltb_ℤ (pos rtt_rxtmax) rto
    then pos rtt_rxtmax
    else rto

abbrev set_rto : RttInfo → RttInfo
set_rto p = record p { rtt_rto = rtt_minmax (rtt_rtocalc p) }

-- The fields that `Gettimeofday` fills in.
pub record Timeval : Type 0 where
  pub tv_sec : ℕ
  pub tv_usec : ℕ

-- `rtt_nrexmt` keeps the value that the caller's memory has. The constant 0.75 is cut to 0 by the
-- `int` field.
pub rtt_init : RttInfo → Timeval → RttInfo
unfolding rtt_minmax rtt_rtocalc quot_ℤ
rtt_init p tv = set_rto (record p {
  rtt_base = tv.tv_sec * 1000 % 2 ^ 32;
  rtt_rtt = pos 0;
  rtt_srtt = pos 0;
  rtt_rttvar = quot_ℤ (pos 75) 100;
})

-- Milliseconds since `rtt_init`, a `uint32_t`.
pub rtt_ts : RttInfo → Timeval → ℕ
rtt_ts p tv = (tv.tv_sec * 1000 % 2 ^ 32 + 2 ^ 32 - p.rtt_base + tv.tv_usec / 1000) % 2 ^ 32

unfoldable pub rtt_newpack : RttInfo → RttInfo
rtt_newpack p = record p { rtt_nrexmt = 0 }

pub rtt_start : RttInfo → ℤ
rtt_start p = p.rtt_rto

pub abs_ℤ : ℤ → ℤ
unfolding ◌-ℤ◌
abs_ℤ d = if ltb_ℤ d (pos 0) then pos 0 -ℤ d else d

pub rtt_stop : RttInfo → ℕ → RttInfo
unfolding rtt_minmax rtt_rtocalc abs_ℤ to_int quot_ℤ ◌+ℤ◌ ◌-ℤ◌
rtt_stop p ms =
    let delta = to_int ms -ℤ p.rtt_srtt in
    set_rto (record p {
      rtt_rtt = to_int ms;
      rtt_srtt = p.rtt_srtt +ℤ quot_ℤ delta 8;
      rtt_rttvar = p.rtt_rttvar +ℤ quot_ℤ (abs_ℤ delta -ℤ p.rtt_rttvar) 4;
    })

-- The estimator after a timeout, and the value returned. The doubled `rtt_rto` is not read by
-- `RTT_RTOCALC`, and is overwritten.
unfoldable pub rtt_timeout : RttInfo → RttInfo × ℤ
unfolding rtt_minmax rtt_rtocalc
rtt_timeout p =
    let doubled : RttInfo = record p { rtt_rto = p.rtt_rto +ℤ p.rtt_rto } in
    let p' : RttInfo = record (set_rto doubled) { rtt_nrexmt = p.rtt_nrexmt + 1 } in
    (p', if ltb rtt_maxnrexmt p'.rtt_nrexmt then negsuc 0 else pos 0)
