-- ===== src/Strings/Tests.antt =====
-- Concrete runs of lab2/libs/string.c: "ab" stands at 10, "ac" at 20, and all else is null.
use nku_os_ucore.Common.{
  true, ◌^◌, ℕ, ◌-◌, ◌≡◌, refl, ◌==◌, ◌||◌, if◌then◌else◌, arith, ◌<◌, inl, inr, List, [], ◌∷◌,
  Option, ok, ℤ,
}
use nku_os_ucore.Strings.{strtol, Memory, strcmp, strchr, strfind, memmove}
use nku_os_ucore.Strings.Bytes.{Str, Compared, strcmp-Compared}
use nku_os_ucore.Strings.Scan.{strfind-strchr, or_end}
use nku_os_ucore.Strings.Number.{Written, Shows, strtol-value}
use nku_os_ucore.Strings.Moving.{moved, memmove-moved}

abbrev text : Memory
text x = if x == 10 || x == 20 then 97 else if x == 11 then 98 else if x == 21 then 99 else 0

abbrev ab : List ℕ
ab = 97 ∷ 98 ∷ []

abbrev ac : List ℕ
ac = 97 ∷ 99 ∷ []

ab-Str : Str text 10 ab
ab-Str = (refl, omega arith, (refl, omega arith, refl))

ac-Str : Str text 20 ac
ac-Str = (refl, omega arith, (refl, omega arith, refl))

strcmp-Compared_example : (r : ℤ) × (strcmp 3 10 20 text ≡ ok r) × Compared ab ac r
strcmp-Compared_example = strcmp-Compared 3 10 20 text ab ac (omega arith) ab-Str ac-Str

memmove-moved_example :
    ((memmove 11 10 2 text).0 ≡ 11) × ((x : ℕ) → (memmove 11 10 2 text).1 x ≡ moved 11 10 2 text x)
memmove-moved_example = memmove-moved 11 10 2 text

strfind-strchr_example :
    (r : Option ℕ) × (strchr 3 10 99 text ≡ ok r) × (strfind 3 10 99 text ≡ ok (or_end r 12))
strfind-strchr_example = strfind-strchr 3 10 99 text ab (omega arith) ab-Str

-- "-1fF"
abbrev minus_1ff : Memory
minus_1ff x =
    if x == 10
    then 45
    else if x == 11
    then 49
    else if x == 12
    then 102
    else if x == 13
    then 70
    else 0

null-Stops : (d : ℕ) → d < 20 → Shows d 0 → ⊥
null-Stops d h (inl e) = ground arith
null-Stops d h (inr e) = ground arith

minus_1ff-Written : Written 20 minus_1ff 11 (1 ∷ 15 ∷ 15 ∷ [])
minus_1ff-Written =
    (inl refl, omega arith, (inl refl, omega arith, (inr refl, omega arith, null-Stops)))

strtol-value_example : strtol 5 10 20 minus_1ff ≡ ok (2 ^ 64 - 715, 14)
strtol-value_example =
    strtol-value 5 10 19 1 true minus_1ff (15 ∷ 15 ∷ []) (omega arith) (omega arith)
      (λ e. omega (arith, e)) (omega arith) refl minus_1ff-Written
