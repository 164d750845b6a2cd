-- ===== src/Strings/Number.antt =====
-- What strtol of lab2/libs/string.c reads.
use nku_os_ucore.Common.{
  ℕ, zero, suc, ◌+◌, ◌-◌, ◌*◌, ◌≤◌, ◌<◌, ◌^◌, ◌≡◌, ◌≢◌, refl, ap, ◌∙◌, true, false, Bool, ◌⊎◌,
  Option-cases, Bool-cases, ltb, leb, if◌then◌else◌, arith, List, [], ◌∷◌, length, ok, u64,
  u64_small, some, inl, inr,
}
use nku_os_ucore.Strings.{
  Memory, skip_blanks, skip_sign, skip_prefix, digit_of, digits_loop, strtol,
}

-- The character of a digit.
abbrev pub digit_char : ℕ → ℕ
digit_char d = if ltb d 10 then 48 + d else 87 + d

-- The same in capitals.
abbrev pub capital_char : ℕ → ℕ
capital_char d = if ltb d 10 then 48 + d else 55 + d

-- The byte `c` stands for the digit `d`.
abbrev pub Shows : ℕ → ℕ → Type 0
Shows d c = (c ≡ digit_char d) ⊎ (c ≡ capital_char d)

digit_of-digit_char : (d : ℕ) → d < 36 → digit_of (digit_char d) ≡ some d
unfolding digit_of
digit_of-digit_char d h = ground arith

digit_of-capital_char : (d : ℕ) → d < 36 → digit_of (capital_char d) ≡ some d
unfolding digit_of
digit_of-capital_char d h = ground arith

digit_of-Shows : (d c : ℕ) → d < 36 → Shows d c → digit_of c ≡ some d
digit_of-Shows d c h (inl e) = ap digit_of e ∙ digit_of-digit_char d h
digit_of-Shows d c h (inr e) = ap digit_of e ∙ digit_of-capital_char d h

digit_of-some : (d c : ℕ) → digit_of c ≡ some d → Shows d c
unfolding digit_of
digit_of-some d c e = ground arith

-- The digits of a number in this base end at the byte `c`.
abbrev pub Stops : ℕ → ℕ → Type 0
Stops base c = (d : ℕ) → d < base → Shows d c → ⊥

-- The digits `ds` are written at `s`, and no further digit follows.
abbrev pub Written : ℕ → Memory → ℕ → List ℕ → Type 0
Written base m s [] = Stops base (m s)
Written base m s (d ∷ ds) = Shows d (m s) × (d < base) × Written base m (s + 1) ds

-- The number with these digits, the first one the most significant, behind a number `v`.
abbrev pub value : ℕ → ℕ → List ℕ → ℕ
value base v [] = v
value base v (d ∷ ds) = value base (v * base + d) ds

grows : (v b d : ℕ) → v ≤ v * suc b + d
grows v b d = grind arith

value_grows : (b v : ℕ) (ds : List ℕ) → v ≤ value (suc b) v ds
value_grows b v [] = omega arith
value_grows b v (d ∷ ds) = omega (arith, value_grows b (v * suc b + d) ds, grows v b d)

ended : (base d c : ℕ) → digit_of c ≡ some d → Stops base c → leb base d ≡ true
ended base d c e w = elim (Bool-cases (leb base d)) [
  | inl h ↦ h
  | inr h ↦ absurd (w d (leb_lt h) (digit_of-some d c e))
]
  where
    leb_lt : leb base d ≡ false → d < base
    leb_lt h = ground arith

below-base : (base d : ℕ) → d < base → leb base d ≡ false
below-base base d h = ground arith

digits_loop-value :
    (fuel s v b : ℕ) (m : Memory) (ds : List ℕ)
    → length ds < fuel
    → suc b ≤ 36
    → value (suc b) v ds < 2 ^ 63
    → Written (suc b) m s ds
    → digits_loop fuel s v (suc b) m ≡ ok (value (suc b) v ds, s + length ds)
unfolding digits_loop
digits_loop-value zero s v b m ds f b36 l w = absurd (omega arith)
digits_loop-value (suc f) s v b m [] fu b36 l w = elim (Option-cases (digit_of (m s))) [
  | inl e ↦ rw (digits_loop, e) (ap (λ q. ok (v, q)) (omega arith))
  | inr (d, e) ↦ rw (digits_loop, e, ended (suc b) d (m s) e w) (ap (λ q. ok (v, q)) (omega arith))
]
digits_loop-value (suc f) s v b m (d ∷ ds) fu b36 l w =
    let small : v * suc b + d < 2 ^ 64 = omega (arith, value_grows b (v * suc b + d) ds) in
    let e = digits_loop-value f (s + 1) (v * suc b + d) b m ds (omega arith) b36 l w.2 in
    let z : digit_of (m s) ≡ some d = digit_of-Shows d (m s) (omega (arith, w.1)) w.0 in
    rw (digits_loop, z)
      (rw (below-base (suc b) d w.1) (
        ap (λ q. digits_loop f (s + 1) q (suc b) m) (u64_small (v * suc b + d) small)
        ∙ e
        ∙ ap (λ q. ok (value (suc b) (v * suc b + d) ds, q)) (omega arith)))

-- The minus sign before a number.
abbrev pub Signed : Bool → Memory → ℕ → Type 0
Signed true m s = m s ≡ 45
Signed false m s = Unit

-- Where the digits of a number that begins at `s` stand.
abbrev pub digits_at : Bool → ℕ → ℕ
digits_at true s = s + 1
digits_at false s = s

-- The two's complement of a number with this sign.
abbrev pub with_sign : Bool → ℕ → ℕ
with_sign neg v = if neg then u64 (2 ^ 64 - v) else v

Shows-bounds : (d c : ℕ) → d < 36 → Shows d c → (48 ≤ c) × (c ≤ 122)
Shows-bounds d c h (inl e) = (ground arith, ground arith)
Shows-bounds d c h (inr e) = (ground arith, ground arith)

skip_blanks-none : (fuel s : ℕ) (m : Memory) → 0 < fuel → 43 ≤ m s → skip_blanks fuel s m ≡ ok s
unfolding skip_blanks
skip_blanks-none zero s m f h = absurd (omega arith)
skip_blanks-none (suc f) s m fu h = ground arith

skip_sign-Signed :
    (neg : Bool) (s : ℕ) (m : Memory)
    → Signed neg m s
    → 48 ≤ m (digits_at neg s)
    → skip_sign s m ≡ (digits_at neg s, neg)
unfolding skip_sign
skip_sign-Signed true s m g h = (let z = g in ground (arith, z))
skip_sign-Signed false s m g h = ground arith

skip_prefix-none : (s b : ℕ) (m : Memory) → suc b ≢ 16 → skip_prefix s (suc b) m ≡ (s, suc b)
unfolding skip_prefix
skip_prefix-none s b m h = ground (arith, h)

-- If digits of a base up to 36, but not 16 (for which a prefix would be skipped), those from ten
-- on written as letters, small or capital, stand at `s`, with or without a minus sign before them,
-- and no further digit of the base follows, and the number they write is below 2^63, then `strtol`
-- returns this number, or the two's complement of its negative, and the address behind the last
-- digit. Fuel above the number of digits is enough.
pub strtol-value :
    (fuel s b d : ℕ) (neg : Bool) (m : Memory) (ds : List ℕ)
    → suc (length ds) < fuel
    → suc b ≤ 36
    → suc b ≢ 16
    → value (suc b) 0 (d ∷ ds) < 2 ^ 63
    → Signed neg m s
    → Written (suc b) m (digits_at neg s) (d ∷ ds)
    → strtol fuel s (suc b) m
      ≡ ok (with_sign neg (value (suc b) 0 (d ∷ ds)), digits_at neg s + suc (length ds))
unfolding strtol
strtol-value fuel s b d neg m ds f b36 b16 l g w =
    let at = digits_at neg s in
    let h : 48 ≤ m at = (Shows-bounds d (m at) (omega (arith, w.1)) w.0).0 in
    rw (skip_blanks-none fuel s m (omega arith) (blank neg s m g h)) (
      rw (skip_sign-Signed neg s m g h) (
        rw (skip_prefix-none at b m b16)
          (rw (digits_loop-value fuel at 0 b m (d ∷ ds) f b36 l w) refl)))
  where
    blank : (neg : Bool) (s : ℕ) (m : Memory) → Signed neg m s → 48 ≤ m (digits_at neg s) → 43 ≤ m s
    blank true s m g h = omega (arith, g)
    blank false s m g h = omega (arith, h)
