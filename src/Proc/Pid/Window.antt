-- ===== src/Proc/Pid/Window.antt =====
-- The window of pids that get_pid knows to be free.
use nku_os_ucore.Common.{
  ℕ, zero, suc, ◌+◌, ◌-◌, ◌≤◌, ◌<◌, ◌≡◌, ◌≢◌, ◌⊎◌, inl, inr, refl, true, false, Bool-cases, List,
  [], ◌∷◌, arith, length, All, ok, ℤ, pos, negsuc, leb, ltb, ◌==◌, if◌then◌else◌, ◌&&◌,
}
use nku_os_ucore.Common.Distinct.{NotIn}
use nku_os_ucore.DList.Ring.{Linked}
use nku_os_ucore.Proc.{Kernel, proc_list, max_pid, is_pid}
use nku_os_ucore.Proc.Pid.{is_above, number, Walk, settled, repeat, pid_walk}

-- The pid of a process, as the search sees it.
abbrev pub num : Kernel → ℕ → ℕ
num k x = number (k.procs x).pid

-- No pid of these processes lies in `last .. next - 1`.
abbrev pub Window : Kernel → ℕ → ℕ → List ℕ → Type 0
Window k last next xs = All (λ x. (num k x < last) ⊎ (next ≤ num k x)) xs

Window-narrow :
    (k : Kernel) (last next last' next' : ℕ) (xs : List ℕ)
    → last ≤ last'
    → next' ≤ next
    → Window k last next xs
    → Window k last' next' xs
Window-narrow k a b a' b' [] h g w = tt
Window-narrow k a b a' b' (x ∷ xs) h g w =
    (omega (arith, w.0), Window-narrow k a b a' b' xs h g w.1)

-- How far the pid `q` is ahead of `last`, in the cycle of the pids 1 to 8191.
abbrev pub ahead : ℕ → ℕ → ℕ
ahead last q = if leb last q then q - last else q + 8191 - last

-- A walk ends with a window for all processes, or comes closer to a free pid `q`.
abbrev pub Walked : Kernel → ℕ → ℕ → List ℕ → List ℕ → Walk → Type 0
Walked k last q done xs (settled l n) =
    (1 ≤ l) × (l < n) × (n ≤ 8192) × Window k l n done × Window k l n xs
Walked k last q done xs (repeat l) = (1 ≤ l) × (l < 8192) × (ahead l q < ahead last q)

is_pid-number : (p : ℤ) (n : ℕ) → 1 ≤ n → is_pid p n ≡ (number p == n)
is_pid-number (pos p) n h = refl
is_pid-number (negsuc p) n h = ground arith

is_above-number : (p : ℤ) (n : ℕ) → is_above p n ≡ ltb n (number p)
is_above-number (pos p) n = refl
is_above-number (negsuc p) n = ground arith

not_head : (x : ℕ) → proc_list ≢ x → (x == proc_list) ≡ false
not_head x h = ground arith

num_is : (a b : ℕ) → (a == b) ≡ true → a ≡ b
num_is a b h = ground arith

repeat_closer :
    (last q : ℕ)
    → 1 ≤ q
    → q < 8192
    → last < 8192
    → last ≢ q
    → let l = (if leb max_pid (last + 1) then 1 else last + 1) in
      (1 ≤ l) × (l < 8192) × (ahead l q < ahead last q)
repeat_closer last q q1 q8 l8 n = (ground arith, ground arith, ground arith)

-- A process with another pid joins those that were seen.
Walked-other :
    (k : Kernel) (last q : ℕ) (done : List ℕ) (x : ℕ) (xs : List ℕ) (w : Walk)
    → Walked k last q (x ∷ done) xs w
    → Walked k last q done (x ∷ xs) w
Walked-other k last q done x xs (settled l m) v = (v.0, v.1, v.2, v.3.1, (v.3.0, v.4))
Walked-other k last q done x xs (repeat l) v = v

Walked-found :
    (k : Kernel) (last q n : ℕ) (done : List ℕ) (x : ℕ) (xs : List ℕ) (w : Walk)
    → n ≢ q
    → n ≡ last
    → q < 8192
    → last < 8191
    → Walked k (last + 1) q (x ∷ done) xs w
    → Walked k last q done (x ∷ xs) w
Walked-found k last q n done x xs (settled l m) nq e q8 l8 v = (v.0, v.1, v.2, v.3.1, (v.3.0, v.4))
Walked-found k last q n done x xs (repeat l) nq e q8 l8 v = (v.0, v.1, let y = v.2 in ground arith)

pub pid_walk-Walked :
    (fuel le last next q : ℕ) (k : Kernel) (done xs : List ℕ)
    → length xs < fuel
    → NotIn proc_list xs
    → Linked k.list le xs proc_list
    → 1 ≤ last
    → last < next
    → next ≤ 8192
    → q < 8192
    → 1 ≤ q
    → All (λ x. num k x ≢ q) xs
    → Window k last next done
    → (w : Walk) × (pid_walk fuel le last next k ≡ ok w) × Walked k last q done xs w
unfolding pid_walk
pid_walk-Walked zero le last next q k done xs f z l lo lt hi q8 q1 free w = absurd (omega arith)
pid_walk-Walked (suc f) le last next q k done [] fu z l lo lt hi q8 q1 free w =
    (settled last next, ground (arith, l.0), (lo, lt, hi, w, tt))
pid_walk-Walked (suc f) le last next q k done (x ∷ xs) fu z l lo lt hi q8 q1 free w =
    elim (Bool-cases (num k x == last)) [
      | inl t ↦ elim (Bool-cases (leb next (last + 1))) [
        | inl g ↦ (
          repeat (if leb max_pid (last + 1) then 1 else last + 1),
          rw (l.0, not_head x z.0, is_pid-number (k.procs x).pid last lo, t, g) refl,
          (repeat_closer last q q1 q8 (ground arith)
              (λ e. free.0 (omega (arith, e, num_is (num k x) last t)))),
        )
        | inr g ↦
            let (w', e, v) =
              pid_walk-Walked f x (last + 1) next q k (x ∷ done) xs (omega arith) z.1 l.2
                (omega arith) (ground arith) hi q8 q1 free.1
                (
                  ground arith,
                  Window-narrow k last next (last + 1) next done (omega arith) (omega arith) w,
                ) in
            (
              w',
              rw (l.0, not_head x z.0, is_pid-number (k.procs x).pid last lo, t, g) e,
              Walked-found k last q (num k x) done x xs w' free.0 (ground arith) q8 (ground arith)
                  v,
            )
      ]
      | inr t ↦ elim (Bool-cases (ltb last (num k x) && ltb (num k x) next)) [
        | inl g ↦
            let (w', e, v) =
              pid_walk-Walked f x last (num k x) q k (x ∷ done) xs (omega arith) z.1 l.2 lo
                (ground arith) (ground arith) q8 q1 free.1
                (
                  ground arith,
                  Window-narrow k last next last (num k x) done (omega arith) (ground arith) w,
                ) in
            (
              w',
              rw
                  (
                    l.0,
                    not_head x z.0,
                    is_pid-number (k.procs x).pid last lo,
                    t,
                    is_above-number (k.procs x).pid last,
                    g,
                  )
                  e,
              Walked-other k last q done x xs w' v,
            )
        | inr g ↦
            let (w', e, v) =
              pid_walk-Walked f x last next q k (x ∷ done) xs (omega arith) z.1 l.2 lo lt hi q8 q1
                free.1 (ground arith, w) in
            (
              w',
              rw
                  (
                    l.0,
                    not_head x z.0,
                    is_pid-number (k.procs x).pid last lo,
                    t,
                    is_above-number (k.procs x).pid last,
                    g,
                  )
                  e,
              Walked-other k last q done x xs w' v,
            )
      ]
    ]
