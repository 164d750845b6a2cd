-- ===== src/Proc/Pid.antt =====
-- get_pid of Lab5/kern/process/proc.c.
pub mod Fresh
pub mod Window
use nku_os_ucore.Common.{
  ℕ, zero, suc, ◌+◌, Bool, true, false, not, ◌&&◌, ◌||◌, ◌==◌, ltb, leb, if◌then◌else◌, Outcome, ok,
  out_of_fuel, ◌>>=◌, ℤ, pos, negsuc,
}
use nku_os_ucore.Proc.{Proc, Kernel, proc_list, max_pid, is_pid}

-- `proc->pid > n`, and the value of such a pid.
abbrev pub is_above : ℤ → ℕ → Bool
is_above (pos p) n = ltb n p
is_above (negsuc p) n = false

abbrev pub number : ℤ → ℕ
number (pos p) = p
number (negsuc p) = 0

-- How one walk over the processes ends: with `last_pid` and `next_safe`, or with the `goto repeat`.
pub data Walk : Type 0 where
  settled : ℕ → ℕ → Walk
  repeat : ℕ → Walk

unfoldable pub pid_walk : ℕ → ℕ → ℕ → ℕ → Kernel → Outcome Walk
pid_walk zero le last next k = out_of_fuel
pid_walk (suc f) le last next k =
    let le' = k.list.next le in
    let pid = (k.procs le').pid in
    let taken = is_pid pid last in
    let nearer = is_above pid last && ltb (number pid) next in
    let rest =
      pid_walk f le' (if taken then last + 1 else last)
        (if not taken && nearer then number pid else next) k in
    if le' == proc_list
    then ok (settled last next)
    else if taken && leb next (last + 1)
    then ok (repeat (if leb max_pid (last + 1) then 1 else last + 1))
    else rest

-- The walks from `inside` on.
unfoldable pub pid_search : ℕ → ℕ → ℕ → Kernel → Outcome (ℕ × ℕ)
pid_search zero fuel last k = out_of_fuel
pid_search (suc rounds) fuel last k = pid_walk fuel proc_list last max_pid k >>= λ w. elim w [
  | settled l n ↦ ok (l, n)
  | repeat l ↦ pid_search rounds fuel l k
]

unfoldable pub get_pid : ℕ → ℕ → Kernel → Outcome (ℕ × Kernel)
get_pid rounds fuel k = do
  let last = k.last_pid + 1
  let wrapped = leb max_pid last
  let searched = pid_search rounds fuel (if wrapped then 1 else last) k
  r ← (if wrapped || leb k.next_safe last then searched else ok (last, k.next_safe))
  ok (r.0, record k { last_pid = r.0; next_safe = r.1 })
