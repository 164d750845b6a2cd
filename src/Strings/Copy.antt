-- ===== src/Strings/Copy.antt =====
-- strcpy and strncpy of lab2/libs/string.c.
use nku_os_ucore.Common.{
  ℕ, zero, suc, ◌+◌, ◌-◌, ◌≤◌, ◌<◌, ◌≡◌, ◌⊎◌, inl, inr, refl, ◌∙◌, false, ◌==◌, ◌&&◌, ltb, leb,
  if◌then◌else◌, arith, List, [], ◌∷◌, length, ok,
}
use nku_os_ucore.Strings.{Memory, put, copy_up, strcpy_loop, strcpy, strncpy_loop, strncpy}
use nku_os_ucore.Strings.Bytes.{Str, positive}
use nku_os_ucore.Strings.Moving.{moved, copy_up-moved}

Str-shift :
    (d s : ℕ) (m m' : Memory) (xs : List ℕ)
    → ((i : ℕ) → i ≤ length xs → m' (d + i) ≡ m (s + i))
    → Str m s xs
    → Str m' d xs
Str-shift d s m m' [] e h = (let e' = e 0 (omega arith) in grind (arith, e', h))
Str-shift d s m m' (x ∷ xs) e h =
    let first = e 0 (omega arith) in
    let shifted : (i : ℕ) → i ≤ length xs → m' (d + 1 + i) ≡ m (s + 1 + i) =
      λ i l. (let k = e (i + 1) (omega arith) in grind (arith, k)) in
    (grind (arith, first, h.0), h.1, Str-shift (d + 1) (s + 1) m m' xs shifted h.2)

other : (x p : ℕ) → (p < x) ⊎ (x < p) → (x == p) ≡ false
other x p o = ground arith

Str-put :
    (s p c : ℕ) (m : Memory) (xs : List ℕ)
    → (p < s) ⊎ (s + length xs < p)
    → Str m s xs
    → Str (put m p c) s xs
Str-put s p c m [] o h = (let z = h in ground (arith, o))
Str-put s p c m (x ∷ xs) o h =
    let o' : (p < s + 1) ⊎ (s + 1 + length xs < p) = elim o [
      | inl a ↦ inl (omega arith)
      | inr b ↦ inr (omega arith)
    ] in
    (
      rw (other s p (elim o [ inl a ↦ inl (omega arith) | inr b ↦ inr (omega arith) ])) h.0,
      h.1,
      Str-put (s + 1) p c m xs o' h.2,
    )

-- The place of a copy: it does not begin inside of the string that is read.
abbrev pub Apart : ℕ → ℕ → ℕ → Type 0
Apart dst src n = (dst ≤ src) ⊎ (src + n < dst)

strcpy_loop-copy_up :
    (fuel p s : ℕ) (m : Memory) (xs : List ℕ)
    → length xs < fuel
    → Apart p s (length xs)
    → Str m s xs
    → strcpy_loop fuel p s m ≡ ok (copy_up (suc (length xs)) p s m)
unfolding strcpy_loop copy_up
strcpy_loop-copy_up zero p s m xs f o h = absurd (omega arith)
strcpy_loop-copy_up (suc f) p s m [] l o h = rw h refl
strcpy_loop-copy_up (suc f) p s m (x ∷ xs) l o h =
    let l' : Apart (p + 1) (s + 1) (length xs) = elim o [
      | inl a ↦ inl (omega arith)
      | inr b ↦ inr (omega arith)
    ] in
    let k =
      Str-put (s + 1) p (m s) m xs
        (elim o [ inl a ↦ inl (omega arith) | inr b ↦ inr (omega arith) ]) h.2 in
    let e = strcpy_loop-copy_up f (p + 1) (s + 1) (put m p (m s)) xs (omega arith) l' k in
    let z : (m s == 0) ≡ false = rw h.0 (positive x h.1) in rw z e

-- The byte `i` of a string, null behind its end.
abbrev pub char_at : List ℕ → ℕ → ℕ
char_at [] i = 0
char_at (x ∷ xs) zero = x
char_at (x ∷ xs) (suc i) = char_at xs i

char_at-later :
    (p c x : ℕ) (xs : List ℕ) → p < x → char_at (c ∷ xs) (x - p) ≡ char_at xs (x - (p + 1))
char_at-later p c x xs h = rw (let e : x - p ≡ suc (x - (p + 1)) = omega arith in e) refl

char_at-here : (p c : ℕ) (xs : List ℕ) → char_at (c ∷ xs) (p - p) ≡ c
char_at-here p c xs = rw (let e : p - p ≡ 0 = omega arith in e) refl

order : (x p : ℕ) → (x < p) ⊎ (p < x) ⊎ (x ≡ p)
order x p = ground arith

-- One character, and those that follow it.
char_at_step :
    (len p c x : ℕ) (m : Memory) (xs : List ℕ)
    → (if leb (p + 1) x && ltb x (p + 1 + len) then char_at xs (x - (p + 1)) else put m p c x)
      ≡ (if leb p x && ltb x (p + suc len) then char_at (c ∷ xs) (x - p) else m x)
char_at_step len p c x m xs = elim (order x p) [
  | inl a ↦ ground arith
  | inr (inl b) ↦ rw (char_at-later p c x xs b) (ground arith)
  | inr (inr e) ↦ rw e (rw (char_at-here p c xs) (ground arith))
]

strncpy_loop_lem :
    (len p s : ℕ) (m : Memory) (xs : List ℕ)
    → (p + len ≤ s) ⊎ (s + length xs < p)
    → Str m s xs
    → (x : ℕ)
    → strncpy_loop len p s m x ≡ (if leb p x && ltb x (p + len) then char_at xs (x - p) else m x)
unfolding strncpy_loop
strncpy_loop_lem zero p s m xs o h x = ground arith
strncpy_loop_lem (suc len) p s m [] o h x =
    let k =
      Str-put s p 0 m [] (elim o [ inl a ↦ inl (omega arith) | inr b ↦ inr (omega arith) ]) h in
    let e =
      strncpy_loop_lem len (p + 1) s (put m p 0) []
        (elim o [ inl a ↦ inl (omega arith) | inr b ↦ inr (omega arith) ]) k x in
    rw h (ground (arith, e))
strncpy_loop_lem (suc len) p s m (c ∷ xs) o h x =
    let k =
      Str-put (s + 1) p c m xs (elim o [ inl a ↦ inl (omega arith) | inr b ↦ inr (omega arith) ])
        h.2 in
    let e =
      strncpy_loop_lem len (p + 1) (s + 1) (put m p c) xs
        (elim o [ inl a ↦ inl (omega arith) | inr b ↦ inr (omega arith) ]) k x in
    rw (h.0, positive c h.1) (e ∙ char_at_step len p c x m xs)

-- If a string stands at `src` and the destination does not begin inside of it, `strcpy` returns
-- `dst`, that string then stands at `dst`, and the bytes outside of the copy stay as they are.
-- Fuel above the length is enough.
pub strcpy-Str :
    (fuel dst src : ℕ) (m : Memory) (xs : List ℕ)
    → length xs < fuel
    → Apart dst src (length xs)
    → Str m src xs
    → (m' : Memory) × (strcpy fuel dst src m ≡ ok (dst, m'))
      × Str m' dst xs
      × ((x : ℕ) → (x < dst) ⊎ (dst + length xs < x) → m' x ≡ m x)
unfolding strcpy
strcpy-Str fuel dst src m xs f o h = (
  copy_up (suc (length xs)) dst src m,
  rw (strcpy_loop-copy_up fuel dst src m xs f o h) refl,
  Str-shift dst src m (copy_up (suc (length xs)) dst src m) xs (λ i l. e (dst + i) ∙ inside i l) h,
  λ x a. e x ∙ outside x a,
)
  where
    o' : (dst ≤ src) ⊎ (src + suc (length xs) ≤ dst)
    o' = elim o [ inl a ↦ inl a | inr b ↦ inr (omega arith) ]

    e : (x : ℕ) → copy_up (suc (length xs)) dst src m x ≡ moved dst src (suc (length xs)) m x
    e = copy_up-moved (suc (length xs)) dst src m o'

    inside : (i : ℕ) → i ≤ length xs → moved dst src (suc (length xs)) m (dst + i) ≡ m (src + i)
    inside i l = rw (let z : dst + i - dst ≡ i = omega arith in z) (ground arith)

    outside :
        (x : ℕ) → (x < dst) ⊎ (dst + length xs < x) → moved dst src (suc (length xs)) m x ≡ m x
    outside x a = ground arith

-- If the `len` bytes at `dst` lie apart from the string at `src`, `strncpy` writes exactly these
-- bytes: the string, cut at `len`, and null bytes behind it.
pub strncpy-padded :
    (dst src len : ℕ) (m : Memory) (xs : List ℕ)
    → (dst + len ≤ src) ⊎ (src + length xs < dst)
    → Str m src xs
    → (x : ℕ)
    → (strncpy dst src len m).1 x
      ≡ (if leb dst x && ltb x (dst + len) then char_at xs (x - dst) else m x)
unfolding strncpy
strncpy-padded dst src len m xs o h x = strncpy_loop_lem len dst src m xs o h x
