-- ===== src/Hash/Range.antt =====
-- The range of hash32 of Lab5/libs/hash.c.
use native.Mathlib.Nat.{div-lt_iff_lt-mul, one-le-pow, two-pow-succ}
use nku_os_ucore.Common.{ℕ, zero, suc, sym, ap, ◌∙◌, ◌+◌, ◌-◌, ◌*◌, ◌≤◌, ◌<◌, ◌^◌, ◌≡◌, arith}
use nku_os_ucore.Hash.{hash32}

pow_sum : (a b : ℕ) → 2 ^ a * 2 ^ b ≡ 2 ^ (a + b)
pow_sum zero b = rw (let e : zero + b ≡ b = omega arith in e) (grind arith)
pow_sum (suc a) b =
    rw (let e : suc a + b ≡ suc (a + b) = omega arith in e)
      (rw (two-pow-succ a, two-pow-succ (a + b), sym (pow_sum a b)) (grind arith))

powers : (bits : ℕ) → bits ≤ 32 → 2 ^ bits * 2 ^ (32 - bits) ≡ 2 ^ 32
powers bits h = pow_sum bits (32 - bits) ∙ ap (λ k. 2 ^ k) {y = 32} (omega arith)

positive_power : (k : ℕ) → 0 < 2 ^ k
positive_power k = one-le-pow k 2 (omega arith)

-- For up to 32 bits, the result of `hash32` is below 2^bits, whatever the value is.
pub hash32-below : (val bits : ℕ) → bits ≤ 32 → hash32 val bits < 2 ^ bits
unfolding hash32
hash32-below val bits h =
    (div-lt_iff_lt-mul (positive_power (32 - bits))).1 (rw (powers bits h) (omega arith))
