-- ===== src/Strings.antt =====
-- lab2/libs/string.c: strings and blocks of memory. (Lab5 has the same file.)
-- A memory maps addresses to bytes; a `char` of this target is unsigned, so that it is its byte.
pub mod Bytes
pub mod Moving
pub mod Scan
pub mod Copy
pub mod Number
mod Tests
use nku_os_ucore.Common.{
  ℕ, zero, suc, ◌+◌, ◌-◌, ◌*◌, ◌^◌, Bool, true, false, not, ◌&&◌, ◌||◌, ◌==◌, ltb, leb,
  if◌then◌else◌, Outcome, ok, out_of_fuel, Option, none, some, u64, ℤ, pos, negsuc, ◌⊖◌, ◌>>=◌,
}

abbrev pub Memory : Type 0
Memory = ℕ → ℕ

-- `*p = c`
abbrev pub put : Memory → ℕ → ℕ → Memory
put m p c x = if x == p then c else m x

-- `while (*s ++ != '\0')`
unfoldable pub strlen_loop : ℕ → ℕ → ℕ → Memory → Outcome ℕ
strlen_loop zero s cnt m = out_of_fuel
strlen_loop (suc f) s cnt m =
    let rest = strlen_loop f (s + 1) (u64 (cnt + 1)) m in if m s == 0 then ok cnt else rest

unfoldable pub strlen : ℕ → ℕ → Memory → Outcome ℕ
strlen fuel s m = strlen_loop fuel s 0 m

-- `while (cnt < len && *s ++ != '\0')`: the first argument is `len - cnt`.
unfoldable pub strnlen_loop : ℕ → ℕ → ℕ → Memory → ℕ
strnlen_loop zero s cnt m = cnt
strnlen_loop (suc k) s cnt m =
    let rest = strnlen_loop k (s + 1) (cnt + 1) m in if m s == 0 then cnt else rest

unfoldable pub strnlen : ℕ → ℕ → Memory → ℕ
strnlen s len m = strnlen_loop len s 0 m

unfoldable pub strcpy_loop : ℕ → ℕ → ℕ → Memory → Outcome Memory
strcpy_loop zero p src m = out_of_fuel
strcpy_loop (suc f) p src m =
    let m' = put m p (m src) in
    let rest = strcpy_loop f (p + 1) (src + 1) m' in if m src == 0 then ok m' else rest

unfoldable pub strcpy : ℕ → ℕ → ℕ → Memory → Outcome (ℕ × Memory)
strcpy fuel dst src m = do m' ← strcpy_loop fuel dst src m; ok (dst, m')

-- `while (len > 0)`
unfoldable pub strncpy_loop : ℕ → ℕ → ℕ → Memory → Memory
strncpy_loop zero p src m = m
strncpy_loop (suc len) p src m =
    strncpy_loop len (p + 1) (if m src == 0 then src else src + 1) (put m p (m src))

unfoldable pub strncpy : ℕ → ℕ → ℕ → Memory → ℕ × Memory
strncpy dst src len m = (dst, strncpy_loop len dst src m)

unfoldable pub strcmp : ℕ → ℕ → ℕ → Memory → Outcome ℤ
strcmp zero s1 s2 m = out_of_fuel
strcmp (suc f) s1 s2 m =
    let rest = strcmp f (s1 + 1) (s2 + 1) m in
    if not (m s1 == 0) && m s1 == m s2 then rest else ok (m s1 ⊖ m s2)

unfoldable pub strncmp : ℕ → ℕ → ℕ → Memory → ℤ
strncmp s1 s2 zero m = pos 0
strncmp s1 s2 (suc n) m =
    let rest = strncmp (s1 + 1) (s2 + 1) n m in
    if not (m s1 == 0) && m s1 == m s2 then rest else m s1 ⊖ m s2

unfoldable pub strchr : ℕ → ℕ → ℕ → Memory → Outcome (Option ℕ)
strchr zero s c m = out_of_fuel
strchr (suc f) s c m =
    let rest = strchr f (s + 1) c m in
    if m s == 0 then ok none else if m s == c then ok (some s) else rest

unfoldable pub strfind : ℕ → ℕ → ℕ → Memory → Outcome ℕ
strfind zero s c m = out_of_fuel
strfind (suc f) s c m =
    let rest = strfind f (s + 1) c m in if m s == 0 then ok s else if m s == c then ok s else rest

unfoldable pub fill : ℕ → ℕ → ℕ → Memory → Memory
fill zero p c m = m
fill (suc n) p c m = fill n (p + 1) c (put m p c)

unfoldable pub memset : ℕ → ℕ → ℕ → Memory → ℕ × Memory
memset s c n m = (s, fill n s c m)

-- `while (n -- > 0) *d ++ = *s ++;`
unfoldable pub copy_up : ℕ → ℕ → ℕ → Memory → Memory
copy_up zero d s m = m
copy_up (suc n) d s m = copy_up n (d + 1) (s + 1) (put m d (m s))

-- `while (n -- > 0) *-- d = *-- s;`
unfoldable pub copy_down : ℕ → ℕ → ℕ → Memory → Memory
copy_down zero d s m = m
copy_down (suc n) d s m = copy_down n (d - 1) (s - 1) (put m (d - 1) (m (s - 1)))

unfoldable pub memmove : ℕ → ℕ → ℕ → Memory → ℕ × Memory
memmove dst src n m =
    if ltb src dst && ltb dst (src + n)
    then (dst, copy_down n (dst + n) (src + n) m)
    else (dst, copy_up n dst src m)

unfoldable pub memcpy : ℕ → ℕ → ℕ → Memory → ℕ × Memory
memcpy dst src n m = (dst, copy_up n dst src m)

unfoldable pub memcmp : ℕ → ℕ → ℕ → Memory → ℤ
memcmp v1 v2 zero m = pos 0
memcmp v1 v2 (suc n) m =
    let rest = memcmp (v1 + 1) (v2 + 1) n m in if m v1 == m v2 then rest else m v1 ⊖ m v2

-- `while (*s == ' ' || *s == '\t')`
unfoldable pub skip_blanks : ℕ → ℕ → Memory → Outcome ℕ
skip_blanks zero s m = out_of_fuel
skip_blanks (suc f) s m =
    let rest = skip_blanks f (s + 1) m in if m s == 32 || m s == 9 then rest else ok s

-- The sign: where the number goes on, and `neg`.
unfoldable pub skip_sign : ℕ → Memory → ℕ × Bool
skip_sign s m =
    if m s == 43 then (s + 1, false) else if m s == 45 then (s + 1, true) else (s, false)

-- The prefix "0x" or "0": where the digits begin, and their base.
unfoldable pub skip_prefix : ℕ → ℕ → Memory → ℕ × ℕ
skip_prefix s base m =
    if (base == 0 || base == 16) && (m s == 48 && m (s + 1) == 120)
    then (s + 2, 16)
    else if base == 0 && m s == 48
    then (s + 1, 8)
    else if base == 0
    then (s, 10)
    else (s, base)

-- What a digit or a letter is worth.
unfoldable pub digit_of : ℕ → Option ℕ
digit_of c =
    if leb 48 c && leb c 57
    then some (c - 48)
    else if leb 97 c && leb c 122
    then some (c - 97 + 10)
    else if leb 65 c && leb c 90
    then some (c - 65 + 10)
    else none

-- The loop over the digits. A `long` is its two's complement in 64 bits.
unfoldable pub digits_loop : ℕ → ℕ → ℕ → ℕ → Memory → Outcome (ℕ × ℕ)
digits_loop zero s val base m = out_of_fuel
digits_loop (suc f) s val base m = elim (digit_of (m s)) [
  | none ↦ ok (val, s)
  | some dig ↦
      let rest = digits_loop f (s + 1) (u64 (val * base + dig)) base m in
      if leb base dig then ok (val, s) else rest
]

-- The number and `*endptr`.
unfoldable pub strtol : ℕ → ℕ → ℕ → Memory → Outcome (ℕ × ℕ)
strtol fuel s base m = do
  s1 ← skip_blanks fuel s m
  let signed = skip_sign s1 m
  let prefixed = skip_prefix signed.0 base m
  r ← digits_loop fuel prefixed.0 0 prefixed.1 m
  ok ((if signed.1 then u64 (2 ^ 64 - r.0) else r.0), r.1)
