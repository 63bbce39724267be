-- ===== src/Bypass/Rules.antt =====
-- What holds of the state behind a chain of checks, also where one of them raises.
use p2p_livestreaming.Prelude.{Bool, true, false, if◌then◌else◌}
use p2p_livestreaming.Bypass.{Switch, Outcome, ok, raised, state, ◌>>=◌, assert}

module _ {ℓ} (P : Switch → Type ℓ) where
  pub bind_rule :
      (m : Outcome) (k : Switch → Outcome)
      → P (state m)
      → ((s : Switch) → P s → P (state (k s)))
      → P (state (m >>= k))
  bind_rule (ok s) k h hk = hk s h
  bind_rule (raised x s) k h hk = h

  pub if_rule :
      (b : Bool) (m n : Outcome) → P (state m) → P (state n) → P (state (if b then m else n))
  if_rule true m n hm hn = hm
  if_rule false m n hm hn = hn

  pub assert_rule :
      (b : Bool) (s : Switch) (k : Switch → Outcome)
      → P s
      → P (state (k s))
      → P (state (assert b s >>= k))
  assert_rule true s k h hk = hk
  assert_rule false s k h hk = h
