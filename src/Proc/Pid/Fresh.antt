-- ===== src/Proc/Pid/Fresh.antt =====
-- get_pid of Lab5/kern/process/proc.c finds a pid that no process has.
use nku_os_ucore.Common.{
  ℕ, zero, suc, ◌+◌, ◌≤◌, ◌<◌, ◌≡◌, ◌≢◌, ◌⊎◌, inl, inr, refl, sym, subst, true, false, Bool-cases,
  List, [], ◌∷◌, map, arith, length, All, ok, leb, ◌==◌, ◌||◌, if◌then◌else◌,
}
use nku_os_ucore.Common.Distinct.{NotIn}
use nku_os_ucore.DList.Ring.{Ring}
use nku_os_ucore.Proc.{Kernel, proc_list, max_pid}
use nku_os_ucore.Proc.Pid.{settled, repeat, pid_walk, pid_search, get_pid}
use nku_os_ucore.Proc.Pid.Window.{num, Window, ahead, Walked, pid_walk-Walked}

-- A list without the number `n`.
without : ℕ → List ℕ → List ℕ
without n [] = []
without n (x ∷ xs) = if x == n then without n xs else x ∷ without n xs

same : (a b : ℕ) → (a == b) ≡ true → a ≡ b
same a b h = ground arith

other : (a b : ℕ) → (a == b) ≡ false → b ≢ a
other a b h = ground arith

NotIn-without : (n q : ℕ) (xs : List ℕ) → q ≢ n → NotIn q (without n xs) → NotIn q xs
unfolding without
NotIn-without n q [] h k = tt
NotIn-without n q (x ∷ xs) h k = elim (Bool-cases (x == n)) [
  | inl t ↦
      let k' : NotIn q (without n xs) =
        subst (λ b. NotIn q (if b then without n xs else x ∷ without n xs)) t k in
      (λ e. h (omega (arith, e, same x n t)), NotIn-without n q xs h k')
  | inr t ↦
      let k' : NotIn q (x ∷ without n xs) =
        subst (λ b. NotIn q (if b then without n xs else x ∷ without n xs)) t k in
      (k'.0, NotIn-without n q xs h k'.1)
]

length-without_le : (n : ℕ) (xs : List ℕ) → length (without n xs) ≤ length xs
unfolding without
length-without_le n [] = omega arith
length-without_le n (x ∷ xs) = let e = length-without_le n xs in ground (arith, e)

length-without : (n : ℕ) (xs : List ℕ) → NotIn n xs ⊎ (length (without n xs) < length xs)
unfolding without
length-without n [] = inl tt
length-without n (x ∷ xs) = elim (Bool-cases (x == n)) [
  | inl t ↦ inr (rw t (omega (arith, length-without_le n xs)))
  | inr t ↦ elim (length-without n xs) [
    | inl a ↦ inl (other x n t, a)
    | inr l ↦ inr (rw t (omega (arith, l)))
  ]
]

-- Among the numbers 1 to `n` there is one that a list of fewer than `n` numbers lacks.
free_number : (n : ℕ) (xs : List ℕ) → length xs < n → (q : ℕ) × (1 ≤ q) × (q ≤ n) × NotIn q xs
free_number zero xs h = absurd (omega arith)
free_number (suc n) xs h = elim (length-without (suc n) xs) [
  | inl a ↦ (suc n, omega arith, omega arith, a)
  | inr l ↦
      let (q, q1, qn, m) = free_number n (without (suc n) xs) (omega arith) in
      (q, q1, omega arith, NotIn-without (suc n) q xs (λ e. omega (arith, e)) m)
]

-- A pid below 8192 that none of fewer than 8191 processes has.
free_pid :
    (k : Kernel) (xs : List ℕ)
    → length xs < 8191
    → (q : ℕ) × (1 ≤ q) × (q < 8192) × All (λ x. num k x ≢ q) xs
free_pid k xs h =
    let (q, q1, q8, m) = free_number 8191 (map (num k) xs) (omega (arith, length_map k xs)) in
    (q, q1, omega arith, others k q xs m)
  where
    length_map : (k : Kernel) (xs : List ℕ) → length (map (num k) xs) ≡ length xs
    length_map k [] = refl
    length_map k (x ∷ xs) = omega (arith, length_map k xs)

    others :
        (k : Kernel) (q : ℕ) (xs : List ℕ) → NotIn q (map (num k) xs) → All (λ x. num k x ≢ q) xs
    others k q [] m = tt
    others k q (x ∷ xs) m = ((λ e. m.0 (sym e)), others k q xs m.1)

pid_search-settled :
    (rounds fuel last q : ℕ) (k : Kernel) (xs : List ℕ)
    → Ring k.list proc_list xs
    → length xs < fuel
    → ahead last q < rounds
    → 1 ≤ last
    → last < 8192
    → q < 8192
    → 1 ≤ q
    → All (λ x. num k x ≢ q) xs
    → (r : ℕ) × (n : ℕ) × (pid_search rounds fuel last k ≡ ok (r, n))
      × (1 ≤ r)
      × (r < n)
      × (n ≤ 8192)
      × Window k r n xs
unfolding pid_search
pid_search-settled zero fuel last q k xs ring f d lo hi q8 q1 free = absurd (omega arith)
pid_search-settled (suc rounds) fuel last q k xs ring f d lo hi q8 q1 free =
    let (w, e, v) =
      pid_walk-Walked fuel proc_list last 8192 q k [] xs f ring.distinct.0 ring.linked lo hi
        (omega arith) q8 q1 free tt in
    elim w
        as (λ w.
          Walked k last q [] xs w
          → pid_walk fuel proc_list last max_pid k ≡ ok w
          → (r : ℕ) × (n : ℕ) × (pid_search (suc rounds) fuel last k ≡ ok (r, n))
            × (1 ≤ r)
            × (r < n)
            × (n ≤ 8192)
            × Window k r n xs) [
              | settled l n ↦ λ v e. (l, n, rw e refl, v.0, v.1, v.2, v.4)
              | repeat l ↦ λ v e.
                  let (r, n, e', r1, rn, n8, u) =
                    pid_search-settled rounds fuel l q k xs ring f (omega (arith, v.2)) v.0 v.1 q8
                      q1 free in
                  (r, n, rw e e', r1, rn, n8, u)
            ]
      v e

-- No process has a pid in the window.
Window-free :
    (k : Kernel) (r n : ℕ) (xs : List ℕ) → r < n → Window k r n xs → All (λ x. num k x ≢ r) xs
Window-free k r n [] h w = tt
Window-free k r n (x ∷ xs) h w =
    ((λ e. let y = w.0 in ground (arith, e)), Window-free k r n xs h w.1)

Window-next : (k : Kernel) (r n : ℕ) (xs : List ℕ) → Window k r n xs → Window k (r + 1) n xs
Window-next k r n [] w = tt
Window-next k r n (x ∷ xs) w = (let y = w.0 in ground arith, Window-next k r n xs w.1)

-- If `proc_list` holds fewer than 8191 processes, and no pid among them lies in the window from
-- `last_pid + 1` to `next_safe - 1`, then `get_pid` ends, and returns a pid from 1 to 8191 that
-- none of them has. It changes no variable but these two, and the window that it leaves is free of
-- their pids too. 16385 walks, each with fuel above the length of the list, are enough.
pub get_pid-fresh :
    (rounds fuel : ℕ) (k : Kernel) (xs : List ℕ)
    → Ring k.list proc_list xs
    → length xs < fuel
    → length xs < 8191
    → 16384 < rounds
    → Window k (k.last_pid + 1) k.next_safe xs
    → (r : ℕ) × (n : ℕ) × (get_pid rounds fuel k ≡ ok (r, record k { last_pid = r; next_safe = n }))
      × (1 ≤ r)
      × (r < 8192)
      × All (λ x. num k x ≢ r) xs
      × Window k (r + 1) n xs
unfolding get_pid
get_pid-fresh rounds fuel k xs ring f few enough w =
    elim (Bool-cases (leb max_pid (k.last_pid + 1) || leb k.next_safe (k.last_pid + 1))) [
      | inl t ↦
          let (q, q1, q8, free) = free_pid k xs few in
          let last : ℕ = (if leb max_pid (k.last_pid + 1) then 1 else k.last_pid + 1) in
          let (r, n, e, r1, rn, n8, v) =
            pid_search-settled rounds fuel last q k xs ring f (ground arith) (ground arith)
              (ground arith) q8 q1 free in
          (r, n, rw (t, e) refl, r1, omega arith, Window-free k r n xs rn v, Window-next k r n xs v)
      | inr t ↦ (
        k.last_pid + 1,
        k.next_safe,
        rw t refl,
        omega arith,
        ground arith,
        Window-free k (k.last_pid + 1) k.next_safe xs (ground arith) w,
        Window-next k (k.last_pid + 1) k.next_safe xs w,
      )
    ]
