-- ===== src/Startup/Good.antt =====
-- Calls that succeed.
use tcp_implementation_over.Common.{◌≡◌, refl, Bool, true, List, ◌∷◌}
use tcp_implementation_over.Startup.{Call, Outcome, ok, Exec, ◌>>=◌, or_close, or_fail, or_exit}

-- Every call succeeds, whatever came before it.
abbrev pub AllSucceed : (List Call → Call → Bool) → Type 0
AllSucceed succeeds = (tr : List Call) (c : Call) → succeeds tr c ≡ true

module _ (succeeds : List Call → Call → Bool) (all : AllSucceed succeeds) where
  pub or_close_good :
      (c : Call) (o : Outcome (Unit {0})) (tr : List Call)
      → or_close succeeds c o tr ≡ (ok tt, c ∷ tr)
  or_close_good c o tr = rw (all tr c) refl

  pub or_fail_good : (c : Call) (tr : List Call) → or_fail succeeds c tr ≡ (ok tt, c ∷ tr)
  or_fail_good c tr = rw (all tr c) refl

  pub or_exit_good : (c : Call) (tr : List Call) → or_exit succeeds c tr ≡ (ok tt, c ∷ tr)
  or_exit_good c tr = rw (all tr c) refl

  module _ {B : Type 0} (f : Unit {0} → Exec B) where
    pub past_close :
        (c : Call) (o : Outcome (Unit {0})) (tr : List Call)
        → (or_close succeeds c o >>= f) tr ≡ f tt (c ∷ tr)
    past_close c o tr = rw (all tr c) refl

    pub past_fail : (c : Call) (tr : List Call) → (or_fail succeeds c >>= f) tr ≡ f tt (c ∷ tr)
    past_fail c tr = rw (all tr c) refl

    pub past_exit : (c : Call) (tr : List Call) → (or_exit succeeds c >>= f) tr ≡ f tt (c ∷ tr)
    past_exit c tr = rw (all tr c) refl
