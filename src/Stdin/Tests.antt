-- ===== src/Stdin/Tests.antt =====
-- Runs of lab8/kern/fs/devs/dev_stdin.c.
use nku_os_ucore.Common.{
  ℕ, ◌≡◌, refl, true, false, arith, ◌==◌, if◌then◌else◌, List, [], ◌∷◌, length,
}
use nku_os_ucore.Stdin.{Stdin, Sleep, Reading, ended, waits, dev_stdin_write, dev_stdin_read}
use nku_os_ucore.Stdin.Buffer.{Unread, heard, dev_stdin_write-Unread}
use nku_os_ucore.Stdin.Read.{ReadOf, dev_stdin_read-ReadOf, dev_stdin_read-full}

-- One character is unread, in the last place of the buffer.
abbrev at_end : Stdin
at_end = record {
  stdin_buffer = λ j. if j == 4095 then 97 else 0;
  p_rpos = 4095;
  p_wpos = 4096;
  wakeups = 0;
}

at_end-Unread : Unread at_end (97 ∷ [])
at_end-Unread = record { contents = (refl, tt); ends = refl; fits = omega arith }

-- The reader is woken when a character is typed; another one follows before it runs.
abbrev two_keys : List Sleep
two_keys = record { typed = (98, false) ∷ (0, true) ∷ (99, true) ∷ []; by_keyboard = true } ∷ []

dev_stdin_write-Unread_example : Unread (dev_stdin_write 98 false at_end) (heard 98 (97 ∷ []))
dev_stdin_write-Unread_example = dev_stdin_write-Unread 98 false at_end (97 ∷ []) at_end-Unread

dev_stdin_read-ReadOf_example : ReadOf 2 0 two_keys (97 ∷ []) (dev_stdin_read 2 two_keys at_end)
dev_stdin_read-ReadOf_example =
    dev_stdin_read-ReadOf 2 two_keys at_end (97 ∷ []) at_end-Unread (omega arith)

dev_stdin_read-full_example :
    (buf : List ℕ) × (s' : Stdin) × (es' : List Sleep) × (dev_stdin_read 3 two_keys at_end
      ≡ ended 3 buf s' es')
    × (length buf ≡ 3)
dev_stdin_read-full_example =
    dev_stdin_read-full 3 two_keys at_end (97 ∷ []) at_end-Unread (omega arith) (omega arith)
      (refl, tt)

-- What was typed is read in order.
abbrev chars : Reading → List ℕ
chars r = elim r [ ended ret buf s es ↦ buf | waits buf s ↦ buf ]

read_three : chars (dev_stdin_read 3 two_keys at_end) ≡ 97 ∷ 98 ∷ 99 ∷ []
unfolding dev_stdin_read dev_stdin_write
read_three = refl
