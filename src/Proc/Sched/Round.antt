-- ===== src/Proc/Sched/Round.antt =====
-- The round of schedule over the processes, Lab5/kern/schedule/sched.c.
use nku_os_ucore.Common.{
  ℕ, zero, suc, ◌+◌, ◌<◌, ◌≡◌, ◌≢◌, ◌⊎◌, inl, inr, refl, sym, subst, true, false, Bool-cases, List,
  [], ◌∷◌, ◌++◌, arith, length, length-append, ok, ◌==◌, if◌then◌else◌, Option, none, some,
}
use nku_os_ucore.Common.Distinct.{
  NotIn, last, NotIn-append_left, NotIn-append_right, Distinct-middle,
}
use nku_os_ucore.DList.Ring.{Linked, Ring, Linked-split, next-last_end}
use nku_os_ucore.Proc.{Proc, Kernel, proc_list, set}
use nku_os_ucore.Proc.Sched.{is_runnable, sched_loop, or_idle, proc_run, schedule}

-- The first process of a sequence that can run, or else the idle process.
abbrev pub first_runnable : (ℕ → Proc) → ℕ → List ℕ → ℕ
first_runnable m idle [] = idle
first_runnable m idle (x ∷ xs) = if is_runnable (m x) then x else first_runnable m idle xs

not_head : (x : ℕ) → proc_list ≢ x → (x == proc_list) ≡ false
not_head x h = ground arith

differ : (x y : ℕ) → x ≢ y → (y == x) ≡ false
differ x y h = ground arith

-- The loop returns, and `schedule` then takes `t`.
abbrev pub Picks : ℕ → ℕ → ℕ → Option ℕ → Kernel → ℕ → Type 0
Picks fuel le stop next k t =
    (r : Option ℕ) × (sched_loop fuel le stop next k ≡ ok r) × (or_idle r k ≡ t)

-- The walk through a segment without the entry `stop` at which the loop ends.
segment :
    (fuel le stop b t : ℕ) (next : Option ℕ) (k : Kernel) (xs : List ℕ)
    → length xs < fuel
    → NotIn proc_list xs
    → NotIn stop xs
    → Linked k.list le xs b
    → or_idle next k ≡ k.idleproc
    → ((g : ℕ) (next' : Option ℕ)
        → g + length xs ≡ fuel
        → or_idle next' k ≡ k.idleproc
        → Picks g (last le xs) stop next' k t)
    → Picks fuel le stop next k (first_runnable k.procs t xs)
unfolding sched_loop
segment fuel le stop b t next k [] f z n l e h = h fuel next (omega arith) e
segment zero le stop b t next k (x ∷ xs) f z n l e h = absurd (omega arith)
segment (suc fuel) le stop b t next k (x ∷ xs) f z n l e h =
    elim (Bool-cases (is_runnable (k.procs x))) [
      | inl u ↦ (some x, rw (l.0, not_head x z.0, u) refl, rw u refl)
      | inr u ↦
          let (r, q, v) =
            segment fuel x stop b t (some x) k xs (omega arith) z.1 n.1 l.2 (rw u refl)
              (λ g next' a d. h g next' (omega arith) d) in
          (r, rw (l.0, not_head x z.0, u, differ stop x n.0) q, rw u v)
    ]

-- The entry at which the loop ends, for the idle process: the head.
stop_at_head :
    (fuel le : ℕ) (next : Option ℕ) (k : Kernel)
    → 0 < fuel
    → k.list.next le ≡ proc_list
    → or_idle next k ≡ k.idleproc
    → Picks fuel le proc_list next k k.idleproc
unfolding sched_loop
stop_at_head zero le next k f l e = absurd (omega arith)
stop_at_head (suc fuel) le next k f l e = (next, rw l refl, e)

-- For another process: that process.
stop_at :
    (fuel le c : ℕ) (next : Option ℕ) (k : Kernel)
    → 0 < fuel
    → proc_list ≢ c
    → k.list.next le ≡ c
    → Picks fuel le c next k (first_runnable k.procs k.idleproc (c ∷ []))
unfolding sched_loop
stop_at zero le c next k f z l = absurd (omega arith)
stop_at (suc fuel) le c next k f z l = elim (Bool-cases (is_runnable (k.procs c))) [
  | inl u ↦ (some c, rw (l, not_head c z, u) refl, refl)
  | inr u ↦ (some c, rw (l, not_head c z, u, equal c) refl, refl)
]
  where
    equal : (c : ℕ) → (c == c) ≡ true
    equal c = ground arith

-- The step over the head.
over_head :
    (fuel le c t : ℕ) (next : Option ℕ) (k : Kernel)
    → proc_list ≢ c
    → k.list.next le ≡ proc_list
    → Picks fuel proc_list c next k t
    → Picks (suc fuel) le c next k t
unfolding sched_loop
over_head fuel le c t next k z l (r, q, v) = (r, rw (l, differ c proc_list (λ e. z (sym e))) q, v)

first_runnable-append :
    (m : ℕ → Proc) (idle : ℕ) (xs ys : List ℕ)
    → first_runnable m idle (xs ++ ys) ≡ first_runnable m (first_runnable m idle ys) xs
first_runnable-append m idle [] ys = refl
first_runnable-append m idle (x ∷ xs) ys = rw (first_runnable-append m idle xs ys) refl

-- The loop of the idle process.
pub idle_round :
    (fuel : ℕ) (k : Kernel) (xs : List ℕ)
    → Ring k.list proc_list xs
    → length xs < fuel
    → Picks fuel proc_list proc_list none k (first_runnable k.procs k.idleproc xs)
idle_round fuel k xs r f =
    segment fuel proc_list proc_list proc_list k.idleproc none k xs f r.distinct.0 r.distinct.0
      r.linked refl
      (λ g next a e.
        stop_at_head g (last proc_list xs) next k (omega arith)
          (next-last_end k.list proc_list xs proc_list r.linked) e)

-- The loop of another process.
pub process_round :
    (fuel c : ℕ) (k : Kernel) (pre post : List ℕ)
    → Ring k.list proc_list (pre ++ c ∷ post)
    → length (pre ++ c ∷ post) < fuel
    → Picks fuel c c none k (first_runnable k.procs k.idleproc (post ++ (pre ++ c ∷ [])))
process_round fuel c k pre post r f =
    let s = Linked-split k.list proc_list pre c post proc_list r.linked in
    let d = Distinct-middle pre c post r.distinct.1 in
    let zc = NotIn-append_right proc_list pre (c ∷ post) r.distinct.0 in
    let n = length-append {0} pre (c ∷ post) in
    rw
      (
        first_runnable-append k.procs k.idleproc post (pre ++ c ∷ []),
        first_runnable-append k.procs k.idleproc pre (c ∷ []),
      )
      (segment fuel c c proc_list
        (first_runnable k.procs (first_runnable k.procs k.idleproc (c ∷ [])) pre) none k post
        (omega (arith, n)) zc.1 d.1 s.1 refl
        (λ g next a e. wrapped g next (omega (arith, n)) e s zc d.0))
  where
    wrapped :
        (g : ℕ) (next : Option ℕ)
        → suc (length pre) < g
        → or_idle next k ≡ k.idleproc
        → (Linked k.list proc_list pre c × Linked k.list c post proc_list)
        → NotIn proc_list (c ∷ post)
        → NotIn c pre
        → Picks g
            (last c post)
            c
            next
            k
            (first_runnable k.procs (first_runnable k.procs k.idleproc (c ∷ [])) pre)
    wrapped zero next h e s z n = absurd (omega arith)
    wrapped (suc g) next h e s z n =
        over_head g (last c post) c _ next k z.0 (next-last_end k.list c post proc_list s.1) (
          segment g proc_list c c _ next k pre (omega arith)
            (NotIn-append_left proc_list pre (c ∷ post) r.distinct.0) n s.0 e
            (λ g' next' a e'.
              stop_at g' (last proc_list pre) c next' k (omega arith) z.0
                (next-last_end k.list proc_list pre c s.0)))

-- The order in which `schedule` asks the processes: all others from the current one on, around the
-- list, and the current one last; for the idle process, the list.
abbrev pub Turn : Kernel → List ℕ → List ℕ → Type 0
Turn k xs order =
    ((k.current ≡ k.idleproc) × (order ≡ xs))
    ⊎ ((pre : List ℕ) × (post : List ℕ) × (k.current ≢ k.idleproc)
        × (xs ≡ pre ++ k.current ∷ post)
        × (order ≡ post ++ (pre ++ k.current ∷ [])))

abbrev flagged : Kernel → Kernel
flagged k = record k {
  procs = set k.procs k.current (record (k.procs k.current) { need_resched = false });
}

first_runnable-flagged :
    (k : Kernel) (idle : ℕ) (xs : List ℕ)
    → first_runnable (flagged k).procs idle xs ≡ first_runnable k.procs idle xs
first_runnable-flagged k idle [] = refl
first_runnable-flagged k idle (x ∷ xs) =
    rw (first_runnable-flagged k idle xs) (same_test k x (first_runnable k.procs idle xs))
  where
    same_test :
        (k : Kernel) (x y : ℕ)
        → (if is_runnable ((flagged k).procs x) then x else y)
          ≡ (if is_runnable (k.procs x) then x else y)
    same_test k x y = ground arith

-- What the choice of `t` leaves.
abbrev pub Scheduled : Kernel → ℕ → Kernel → Type 0
Scheduled k t k' =
    (k'.current ≡ t)
    × ((k'.procs t).runs ≡ (k.procs t).runs + 1)
    × (k'.list ≡ k.list)
    × ((x : ℕ) → (k'.procs x).state ≡ (k.procs x).state)

-- The kernel after the choice.
abbrev chosen : Kernel → ℕ → Kernel
chosen k t =
    let k1 = flagged k in
    proc_run t
      (record k1 { procs = set k1.procs t (record (k1.procs t) { runs = (k1.procs t).runs + 1 }) })

Scheduled-proc_run : (k : Kernel) (t : ℕ) → Scheduled k t (chosen k t)
unfolding proc_run
Scheduled-proc_run k t = (ground arith, ground arith, ground arith, λ x. ground arith)

schedule_from :
    (fuel : ℕ) (k : Kernel) (stop t : ℕ)
    → (if k.current == k.idleproc then proc_list else k.current) ≡ stop
    → Picks fuel stop stop none (flagged k) t
    → (k' : Kernel) × (schedule fuel k ≡ ok k') × Scheduled k t k'
unfolding schedule
schedule_from fuel k stop t l (n, e, v) = (chosen k t, rw (l, e, v) refl, Scheduled-proc_run k t)

idle_start : (c i : ℕ) → c ≡ i → (if c == i then proc_list else c) ≡ proc_list
idle_start c i h = ground arith

other_start : (c i : ℕ) → c ≢ i → (if c == i then proc_list else c) ≡ c
other_start c i h = ground arith

-- If `proc_list` holds `xs`, `schedule` ends, and `current` is then the first process that can
-- run, in the order of the list from behind the current process on, around the list and with the
-- current process last (for the idle process, in the order of the list), and the idle process if
-- there is none. Its `runs` is one more, the list is as it was, and no process has another state.
pub schedule-Scheduled :
    (fuel : ℕ) (k : Kernel) (xs order : List ℕ)
    → Ring k.list proc_list xs
    → Turn k xs order
    → length xs < fuel
    → (k' : Kernel) × (schedule fuel k ≡ ok k')
      × Scheduled k (first_runnable k.procs k.idleproc order) k'
schedule-Scheduled fuel k xs order r (inl (c, o)) f =
    rw (o, sym (first_runnable-flagged k k.idleproc xs))
      (schedule_from fuel k proc_list (first_runnable (flagged k).procs k.idleproc xs)
        (idle_start k.current k.idleproc c) (idle_round fuel (flagged k) xs r f))
schedule-Scheduled fuel k xs order r (inr (pre, post, c, x, o)) f =
    rw (o, sym (first_runnable-flagged k k.idleproc (post ++ (pre ++ k.current ∷ []))))
      (schedule_from fuel k k.current
        (first_runnable (flagged k).procs k.idleproc (post ++ (pre ++ k.current ∷ [])))
        (other_start k.current k.idleproc c)
        (process_round fuel k.current (flagged k) pre post (subst (Ring k.list proc_list) x r)
          (subst (λ z. length z < fuel) x f)))
