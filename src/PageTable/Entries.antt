-- ===== src/PageTable/Entries.antt =====
-- The entries of the page tables of lab3/kern/mm/pmm.c.
use nku_os_ucore.Common.{ℕ, ◌^◌, ◌<◌, ◌≡◌, ◌≢◌, true, arith}
use nku_os_ucore.PageTable.{valid, frame_of, pte_create, put_entry, clear_frame}

pub pte_create-valid : (ppn type : ℕ) → valid (pte_create ppn type) ≡ true
unfolding pte_create
pte_create-valid ppn type = ground arith

-- The entry names the frame that it was made for.
pub frame_of-pte_create :
    (ppn type : ℕ) → ppn < 2 ^ 44 → type < 2 ^ 10 → frame_of (pte_create ppn type) ≡ ppn
unfolding frame_of pte_create
frame_of-pte_create ppn type h k = ground arith

pub put_entry_self : (m : ℕ → ℕ → ℕ) (f i e : ℕ) → put_entry m f i e f i ≡ e
put_entry_self m f i e = ground arith

pub put_entry_frame : (m : ℕ → ℕ → ℕ) (f i e g j : ℕ) → g ≢ f → put_entry m f i e g j ≡ m g j
put_entry_frame m f i e g j h = ground arith

pub put_entry_index : (m : ℕ → ℕ → ℕ) (f i e g j : ℕ) → j ≢ i → put_entry m f i e g j ≡ m g j
put_entry_index m f i e g j h = ground arith

pub clear_frame_self : (m : ℕ → ℕ → ℕ) (f j : ℕ) → clear_frame m f f j ≡ 0
clear_frame_self m f j = ground arith

pub clear_frame_other : (m : ℕ → ℕ → ℕ) (f g j : ℕ) → g ≢ f → clear_frame m f g j ≡ m g j
clear_frame_other m f g j h = ground arith
