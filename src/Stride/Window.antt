-- ===== src/Stride/Window.antt =====
-- The comparison of strides in lab8/kern/schedule/default_sched_stride.c.
use nku_os_ucore.Common.{ℕ, ◌+◌, ◌%◌, ◌^◌, ◌≤◌, ◌≡◌, ltb, arith}
use nku_os_ucore.Skew.{is_less}
use nku_os_ucore.Stride.{big_stride, stride_comp, pass_of}

-- If two numbers lie in a window of BIG_STRIDE, then the signed comparison of their remainders
-- modulo 2^32 is -1 just if the first number is smaller: overflows of the strides do not harm.
pub stride_comp-window :
    (lo a b : ℕ)
    → lo ≤ a
    → a ≤ lo + big_stride
    → lo ≤ b
    → b ≤ lo + big_stride
    → is_less (stride_comp (a % 2 ^ 32) (b % 2 ^ 32)) ≡ ltb a b
unfolding stride_comp
stride_comp-window lo a b la ha lb hb = ground arith

pub pass_of-le : (priority : ℕ) → pass_of priority ≤ big_stride
unfolding pass_of
pass_of-le priority = ground arith
