-- ===== src/Guest/Throttle/Backoff.antt =====
-- The timeout doubles from half a minute up to its bound, although the shift wraps.
use Prim.Native.Nat.{min}
use native.Mathlib.Nat.{one-le-pow}
use native.Mathlib.Numerals.{unary_clauses}
use lanrunner.Common.{
  ℕ, zero, suc, ◌+◌, ◌-◌, ◌*◌, ◌%◌, ◌^◌, ◌≤◌, ◌<◌, ◌≡◌, refl, sym, Bool, true, if◌then◌else◌, ◌==◌,
  arith, ltb, ==_iff, Bool-cases, inl, inr, ap,
}
use lanrunner.Guest.Throttle.{second, guest_auth_ban_max, backoff}

-- How many numbers under a bound fail a test.
failing : (ℕ → Bool) → ℕ → ℕ
failing test zero = 0
failing test (suc bound) = (if test bound then 0 else 1) + failing test bound

failing_none : (test : ℕ → Bool) (k bound : ℕ) → k < bound → failing test bound ≡ 0 → test k ≡ true
unfolding failing
failing_none test k zero below none_fails = elim below [ ]
failing_none test k (suc bound) below none_fails = ground (arith, failing_none test k bound)

backoff_table : failing (λ k. backoff k == min (30 * second * 2 ^ k) guest_auth_ban_max) 64 ≡ 0
unfolding failing backoff
backoff_table = refl

pow-add : (a j : ℕ) → 2 ^ (j + a) ≡ 2 ^ j * 2 ^ a
pow-add zero j = simp unary_clauses (omega arith)
pow-add (suc a) j =
    simp unary_clauses (omega (arith, pow-add a j, ap (λ (t : ℕ). t * 2) (pow-add a j)))

split : (k : ℕ) → 64 ≤ k → k - 64 + 64 ≡ k
split k h = omega arith

wrapped : (j : ℕ) → 30 * second * 2 ^ (j + 64) % 2 ^ 64 ≡ 0
wrapped j = omega (arith, pow-add 64 j)

backoff_wrapped : (j : ℕ) → backoff (j + 64) ≡ min (30 * second * 2 ^ (j + 64)) guest_auth_ban_max
unfolding backoff
backoff_wrapped j = rw (wrapped j) (omega (arith, pow-add 64 j, one-le-pow j 2 (omega arith)))

-- For every number of failures beyond the fourth the timeout is half a minute doubled each time, at
-- most a quarter of an hour: where the 64-bit shift has wrapped, the bound takes over.
pub backoff-min : (k : ℕ) → backoff k ≡ min (30 * second * 2 ^ k) guest_auth_ban_max
backoff-min k = elim (Bool-cases (ltb k 64)) [
  | inl small ↦ (==_iff _ _).0 (failing_none _ k 64 (ground arith) backoff_table)
  | inr big ↦ rw (sym (split k (ground arith))) (backoff_wrapped (k - 64))
]
