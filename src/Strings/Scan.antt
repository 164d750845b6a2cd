-- ===== src/Strings/Scan.antt =====
-- The walks of lab2/libs/string.c to the end of a string: strlen, strnlen, strchr, strfind.
use nku_os_ucore.Common.{
  ℕ, zero, suc, ◌+◌, ◌<◌, ◌^◌, ◌≡◌, inl, inr, refl, ap, ◌∙◌, Bool-cases, ◌==◌, ltb, if◌then◌else◌,
  arith, List, [], ◌∷◌, length, ok, u64_small, Option, none, some,
}
use nku_os_ucore.Strings.{Memory, strlen_loop, strlen, strnlen_loop, strnlen, strchr, strfind}
use nku_os_ucore.Strings.Bytes.{Str, positive}

strlen_loop_lem :
    (fuel s cnt : ℕ) (m : Memory) (xs : List ℕ)
    → length xs < fuel
    → cnt + length xs < 2 ^ 64
    → Str m s xs
    → strlen_loop fuel s cnt m ≡ ok (cnt + length xs)
unfolding strlen_loop
strlen_loop_lem zero s cnt m xs f b h = absurd (omega arith)
strlen_loop_lem (suc f) s cnt m [] fu b h = rw h (ap ok (omega arith))
strlen_loop_lem (suc f) s cnt m (x ∷ xs) fu b h =
    let e = strlen_loop_lem f (s + 1) (cnt + 1) m xs (omega arith) (omega arith) h.2 in
    let w = u64_small (cnt + 1) (omega arith) in let z = h.1 in rw (w, e) (ground (arith, h.0, z))

-- On a string shorter than 2^64 bytes, `strlen` ends, with fuel above its length, and returns its
-- length.
pub strlen-length :
    (fuel s : ℕ) (m : Memory) (xs : List ℕ)
    → length xs < fuel
    → length xs < 2 ^ 64
    → Str m s xs
    → strlen fuel s m ≡ ok (length xs)
unfolding strlen
strlen-length fuel s m xs f b h =
    strlen_loop_lem fuel s 0 m xs f (omega arith) h ∙ ap ok (omega arith)

-- The smaller of two numbers.
abbrev pub min : ℕ → ℕ → ℕ
min a b = if ltb a b then a else b

strnlen_loop_lem :
    (k s cnt : ℕ) (m : Memory) (xs : List ℕ)
    → Str m s xs
    → strnlen_loop k s cnt m ≡ cnt + min (length xs) k
unfolding strnlen_loop
strnlen_loop_lem zero s cnt m xs h = ground arith
strnlen_loop_lem (suc k) s cnt m [] h = rw h (ground arith)
strnlen_loop_lem (suc k) s cnt m (x ∷ xs) h =
    let e = strnlen_loop_lem k (s + 1) (cnt + 1) m xs h.2 in
    let z = h.1 in rw e (ground (arith, h.0, z))

-- On a string, `strnlen` returns the smaller one of its length and `len`.
pub strnlen-min :
    (s len : ℕ) (m : Memory) (xs : List ℕ) → Str m s xs → strnlen s len m ≡ min (length xs) len
unfolding strnlen
strnlen-min s len m xs h = strnlen_loop_lem len s 0 m xs h ∙ omega arith

-- Where the byte `c` first stands in a string at `s`.
abbrev pub find_char : ℕ → ℕ → List ℕ → Option ℕ
find_char c s [] = none
find_char c s (x ∷ xs) = if x == c then some s else find_char c (s + 1) xs

-- On a string, with fuel above its length, `strchr` returns the address of the first byte equal to
-- `c`, or null if there is none.
pub strchr-find_char :
    (fuel s c : ℕ) (m : Memory) (xs : List ℕ)
    → length xs < fuel
    → Str m s xs
    → strchr fuel s c m ≡ ok (find_char c s xs)
unfolding strchr
strchr-find_char zero s c m xs f h = absurd (omega arith)
strchr-find_char (suc f) s c m [] l h = rw h refl
strchr-find_char (suc f) s c m (x ∷ xs) l h =
    let e = strchr-find_char f (s + 1) c m xs (omega arith) h.2 in
    let z = h.1 in rw (e, h.0) (ground (arith, z))

abbrev pub or_end : Option ℕ → ℕ → ℕ
or_end none e = e
or_end (some p) e = p

-- On a string, with fuel above its length, `strfind` returns what `strchr` returns, and the end of
-- the string where that is null.
pub strfind-strchr :
    (fuel s c : ℕ) (m : Memory) (xs : List ℕ)
    → length xs < fuel
    → Str m s xs
    → (r : Option ℕ) × (strchr fuel s c m ≡ ok r)
      × (strfind fuel s c m ≡ ok (or_end r (s + length xs)))
unfolding strchr strfind
strfind-strchr zero s c m xs f h = absurd (omega arith)
strfind-strchr (suc f) s c m [] l h = (none, rw h refl, rw h (ap ok (omega arith)))
strfind-strchr (suc f) s c m (x ∷ xs) l h =
    let (r, e, k) = strfind-strchr f (s + 1) c m xs (omega arith) h.2 in
    let z = h.1 in
    elim (Bool-cases (x == c)) [
      | inl t ↦ (some s, rw h.0 (ground (arith, t, z)), rw h.0 (ground (arith, t, z)))
      | inr n ↦ (
        r,
        rw h.0 (ground (arith, n, z, e)),
        rw (h.0, positive x h.1, n, k) (ap (λ q. ok (or_end r q)) (omega arith)),
      )
    ]
