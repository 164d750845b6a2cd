-- ===== src/Strings/Moving.antt =====
-- memmove, memcpy and memset of lab2/libs/string.c.
use nku_os_ucore.Common.{
  ℕ, zero, suc, ◌+◌, ◌-◌, ◌≤◌, ◌<◌, ◌≡◌, ◌⊎◌, inl, inr, refl, Bool-cases, ◌&&◌, ltb, leb,
  if◌then◌else◌, arith,
}
use nku_os_ucore.Strings.{Memory, put, fill, memset, copy_up, copy_down, memmove, memcpy}

-- The memory in which the `n` bytes at `d` are those that were at `s`.
abbrev pub moved : ℕ → ℕ → ℕ → Memory → Memory
moved d s n m x = if leb d x && ltb x (d + n) then m (s + (x - d)) else m x

pub copy_up-moved :
    (n d s : ℕ) (m : Memory) → (d ≤ s) ⊎ (s + n ≤ d) → (x : ℕ) → copy_up n d s m x ≡ moved d s n m x
unfolding copy_up
copy_up-moved zero d s m h x = ground arith
copy_up-moved (suc n) d s m h x =
    let e =
      copy_up-moved n (d + 1) (s + 1) (put m d (m s))
        (elim h [ inl a ↦ inl (omega arith) | inr b ↦ inr (omega arith) ]) x in
    grind (arith, e)

copy_down-moved :
    (n d s : ℕ) (m : Memory) → s ≤ d → (x : ℕ) → copy_down n (d + n) (s + n) m x ≡ moved d s n m x
unfolding copy_down
copy_down-moved zero d s m h x = ground arith
copy_down-moved (suc n) d s m h x =
    rw (a, b) (let e = copy_down-moved n d s (put m (d + n) (m (s + n))) h x in grind (arith, e))
  where
    a : d + suc n - 1 ≡ d + n
    a = omega arith

    b : s + suc n - 1 ≡ s + n
    b = omega arith

-- `memmove` copies the block also where source and destination overlap, in either direction:
-- afterwards each byte of the destination is what the byte of the source was before the call. It
-- changes no other byte, and returns the destination.
pub memmove-moved :
    (dst src n : ℕ) (m : Memory)
    → ((memmove dst src n m).0 ≡ dst) × ((x : ℕ) → (memmove dst src n m).1 x ≡ moved dst src n m x)
unfolding memmove
memmove-moved dst src n m = elim (Bool-cases (ltb src dst && ltb dst (src + n))) [
  | inl t ↦ rw t (refl, copy_down-moved n dst src m (ground arith))
  | inr e ↦ rw e (
    refl,
    copy_up-moved n dst src m
        (elim (compared dst src) [ inl a ↦ inl a | inr b ↦ inr (ground arith) ]),
  )
]
  where
    compared : (a b : ℕ) → (a ≤ b) ⊎ (b < a)
    compared a b = ground arith

-- If the destination does not begin inside of the source, each byte of the destination is, after
-- `memcpy`, what the byte of the source was before the call, and no other byte is changed.
pub memcpy-moved :
    (dst src n : ℕ) (m : Memory)
    → (dst ≤ src) ⊎ (src + n ≤ dst)
    → (x : ℕ) → (memcpy dst src n m).1 x ≡ moved dst src n m x
unfolding memcpy
memcpy-moved dst src n m h x = copy_up-moved n dst src m h x

fill_lem :
    (n p c : ℕ) (m : Memory) (x : ℕ)
    → fill n p c m x ≡ (if leb p x && ltb x (p + n) then c else m x)
unfolding fill
fill_lem zero p c m x = ground arith
fill_lem (suc n) p c m x = let e = fill_lem n (p + 1) c (put m p c) x in ground (arith, e)

-- After `memset` the `n` bytes at `s` are `c`, and all others are as they were.
pub memset-fill :
    (s c n : ℕ) (m : Memory) (x : ℕ)
    → (memset s c n m).1 x ≡ (if leb s x && ltb x (s + n) then c else m x)
unfolding memset
memset-fill s c n m x = fill_lem n s c m x
