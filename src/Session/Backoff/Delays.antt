-- ===== src/Session/Backoff/Delays.antt =====
-- The delays of the reconnect back-off.
use i2pchat.Prelude.{
  ℕ, suc, ◌<◌, Bool-cases, inl, inr, leb, ◌-◌, ◌*◌, ◌^◌, ◌≤◌, ◌≡◌, refl, true, false, min, arith,
}
use native.Mathlib.Nat.{pow-suc, one-le-pow, pow-le-pow_right}
use i2pchat.Session.Backoff.{delay_of, backoff_delay}
use i2pchat.Session.State.{Time, Result, ok, overflow_error, ◌>>=◌}

-- The computing of a delay raises, or gives a delay.
pub backoff_rule {ℓ κ} :
    {R : Type ℓ} (P : Result R → Type κ) (base max_delay attempt : ℕ) (f : Time → Result R)
    → P overflow_error
    → ((delay : Time) → P (f delay))
    → P (backoff_delay base max_delay attempt >>= f)
unfolding backoff_delay
backoff_rule P base max_delay attempt f raised given = elim (Bool-cases (leb attempt 1024)) [
  | inl e ↦ rw e (given (delay_of base max_delay attempt))
  | inr e ↦ rw e raised
]

pub backoff_delay-ok :
    (base max_delay attempt : ℕ)
    → attempt ≤ 1024
    → backoff_delay base max_delay attempt ≡ ok (delay_of base max_delay attempt)
unfolding backoff_delay
backoff_delay-ok base max_delay attempt h =
    let e : leb attempt 1024 ≡ true = ground arith in rw e refl

-- The delay of attempt a + 1
delay_suc : (base max_delay a : ℕ) → delay_of base max_delay (suc a) ≡ min max_delay (base * 2 ^ a)
unfolding delay_of
delay_suc base max_delay a = let e : suc a - 1 ≡ a = omega arith in rw e

doubled : (base a : ℕ) → base * 2 ^ suc a ≡ 2 * (base * 2 ^ a)
doubled base a = rw (pow-suc 2 a) (omega arith)

delays :
    (base max_delay a b : ℕ)
    → a ≤ b
    → (delay_of base max_delay (suc a) ≤ max_delay)
      × (min max_delay base ≤ delay_of base max_delay (suc a))
      × (delay_of base max_delay (suc a) ≤ delay_of base max_delay (suc b))
      × (delay_of base max_delay (suc (suc a))
          ≡ min max_delay (2 * delay_of base max_delay (suc a)))
delays base max_delay a b le =
    let one : 1 ≤ 2 ^ a = one-le-pow a 2 (omega arith) in
    let grown : 2 ^ a ≤ 2 ^ b = pow-le-pow_right {n = 2} (omega arith) le in
    let at_least : base ≤ base * 2 ^ a = grind arith in
    let no_less : base * 2 ^ a ≤ base * 2 ^ b = grind arith in
    rw (delay_suc, delay_suc, delay_suc, doubled)
      (omega arith, omega arith, omega arith, omega arith)

-- Up to attempt 1024 an attempt has a delay, and from attempt 1025 on the call raises `OverflowError`. The
-- delay is at most the largest and at least the base delay or the largest, a later attempt waits no less,
-- and one more attempt doubles it, up to the largest.
pub backoff_delay_bounds :
    (base max_delay a b late : ℕ)
    → a ≤ b
    → a < 1023
    → b < 1024
    → 1024 < late
    → (x y z : Time) × (backoff_delay base max_delay (suc a) ≡ ok x)
      × (backoff_delay base max_delay (suc b) ≡ ok y)
      × (backoff_delay base max_delay (suc (suc a)) ≡ ok z)
      × (backoff_delay base max_delay late ≡ overflow_error)
      × (x ≤ max_delay)
      × (min max_delay base ≤ x)
      × (x ≤ y)
      × (z ≡ min max_delay (2 * x))
unfolding backoff_delay
backoff_delay_bounds base max_delay a b late le few_a few_b many =
    let bounds = delays base max_delay a b le in
    let beyond : leb late 1024 ≡ false = ground arith in
    (
      delay_of base max_delay (suc a),
      delay_of base max_delay (suc b),
      delay_of base max_delay (suc (suc a)),
      backoff_delay-ok base max_delay (suc a) (omega arith),
      backoff_delay-ok base max_delay (suc b) (omega arith),
      backoff_delay-ok base max_delay (suc (suc a)) (omega arith),
      rw beyond refl,
      bounds.0,
      bounds.1,
      bounds.2,
      bounds.3,
    )
