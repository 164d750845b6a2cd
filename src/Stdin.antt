-- ===== src/Stdin.antt =====
-- The input buffer of lab8/kern/fs/devs/dev_stdin.c. The wait queue and `schedule` are in files that
-- the repository has not: what `wait_queue_empty` says comes with each character, the calls of
-- `wakeup_queue` are counted, and what happens while the reader sleeps is an argument.
pub mod Buffer
pub mod Read
mod Tests
use nku_os_ucore.Common.{
  ℕ, zero, suc, ◌+◌, ◌%◌, Bool, true, false, ◌==◌, ltb, if◌then◌else◌, List, [], ◌∷◌, ◌-◌, ℤ, pos,
  negsuc,
}

pub record Stdin : Type 0 where
  pub stdin_buffer : ℕ → ℕ
  pub p_rpos : ℕ
  pub p_wpos : ℕ
  pub wakeups : ℕ

abbrev pub stdin_bufsize : ℕ
stdin_bufsize = 4096

abbrev pub put_char : (ℕ → ℕ) → ℕ → ℕ → ℕ → ℕ
put_char b i c j = if j == i then c else b j

unfoldable pub stdin_device_init : Stdin → Stdin
stdin_device_init s = record s { p_rpos = 0; p_wpos = 0 }

unfoldable pub dev_stdin_write : ℕ → Bool → Stdin → Stdin
dev_stdin_write c empty s =
    let s1 = record s {
      stdin_buffer = put_char s.stdin_buffer (s.p_wpos % stdin_bufsize) c;
      p_wpos = if ltb s.p_wpos (s.p_rpos + stdin_bufsize) then s.p_wpos + 1 else s.p_wpos;
    } in
    let s2 = if empty then s1 else record s1 { wakeups = s1.wakeups + 1 } in
    if c == 0 then s else s2

-- What happens while the reader sleeps: the characters that arrive, and if `wakeup_flags` is WT_KBD
-- then.
pub record Sleep : Type 0 where
  pub typed : List (ℕ × Bool)
  pub by_keyboard : Bool

abbrev pub write_all : List (ℕ × Bool) → Stdin → Stdin
write_all [] s = s
write_all ((c, empty) ∷ cs) s = write_all cs (dev_stdin_write c empty s)

-- A character, or the reader is interrupted, or it sleeps on.
pub data Next : Type 0 where
  got : ℕ → Stdin → List Sleep → Next
  stopped : Stdin → List Sleep → Next
  asleep : Stdin → Next

abbrev pub char_at : Stdin → ℕ
char_at s = s.stdin_buffer (s.p_rpos % stdin_bufsize)

-- From the label `try_again` on.
abbrev pub next_char : List Sleep → Stdin → Next
next_char [] s = if ltb s.p_rpos s.p_wpos then got (char_at s) s [] else asleep s
next_char (e ∷ es) s =
    let s1 = write_all e.typed s in
    let again = next_char es s1 in
    if ltb s.p_rpos s.p_wpos
    then got (char_at s) s (e ∷ es)
    else if e.by_keyboard
    then again
    else stopped s1 es

-- How a read ends: with the return value and the characters in `buf`; or it has not ended.
pub data Reading : Type 0 where
  ended : ℕ → List ℕ → Stdin → List Sleep → Reading
  waits : List ℕ → Stdin → Reading

abbrev pub stored : ℕ → Reading → Reading
stored c (ended ret buf s es) = ended ret (c ∷ buf) s es
stored c (waits buf s) = waits (c ∷ buf) s

-- `left` characters are missing when `ret` have been read.
abbrev pub read_loop : ℕ → ℕ → List Sleep → Stdin → Reading
read_loop zero ret es s = ended ret [] s es
read_loop (suc left) ret es s = elim (next_char es s) [
  | got c s1 es1 ↦ stored c (read_loop left (ret + 1) es1 (record s1 { p_rpos = s1.p_rpos + 1 }))
  | stopped s1 es1 ↦ ended ret [] s1 es1
  | asleep s1 ↦ waits [] s1
]

unfoldable pub dev_stdin_read : ℕ → List Sleep → Stdin → Reading
dev_stdin_read len es s = read_loop len 0 es s

-- How a transfer ends: the return value, `io_resid`, and the rest as for a read.
pub data Transfer : Type 0 where
  done : ℤ → ℕ → List ℕ → Stdin → List Sleep → Transfer
  blocked : List ℕ → Stdin → Transfer

abbrev pub transferred : ℕ → Reading → Transfer
transferred resid (ended ret buf s es) =
    done (pos ret) (if ret == 0 then resid else resid - ret) buf s es
transferred resid (waits buf s) = blocked buf s

abbrev pub e_inval : ℤ
e_inval = negsuc 2

unfoldable pub stdin_io : Bool → ℕ → List Sleep → Stdin → Transfer
stdin_io write resid es s =
    if write then done e_inval resid [] s es else transferred resid (dev_stdin_read resid es s)
