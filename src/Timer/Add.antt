-- ===== src/Timer/Add.antt =====
-- add_timer of lab8/kern/schedule/sched.c.
use nku_os_ucore.Common.{
  ℕ, zero, suc, ◌+◌, ◌-◌, ◌≤◌, ◌<◌, ◌≡◌, ◌≢◌, refl, sym, ap, ◌∙◌, subst, true, false, Bool-cases,
  List, [], ◌∷◌, ◌++◌, arith, length, ltb, ◌==◌, ltb_pos, ok, inl, inr,
}
use nku_os_ucore.Common.Distinct.{NotIn, Distinct, first}
use nku_os_ucore.DList.{Links, list_add_before, list_empty}
use nku_os_ucore.DList.Ring.{Linked, Ring, next-first, list_add_before-Ring}
use nku_os_ucore.Timer.{Timer, Sched, put, timer_list, add_loop, add_timer, is_some}
use nku_os_ucore.Timer.Due.{dues, insert_due, dues-put}

-- Where the walk stops, and what it leaves.
abbrev Placed : ℕ → ℕ → ℕ → ℕ → Links → (ℕ → Timer) → ℕ → List ℕ → Type 0
Placed fuel t le acc l m e zs =
    (ys : List ℕ) × (ws : List ℕ) × (m' : ℕ → Timer) × (add_loop fuel t le l m
      ≡ ok (first ws timer_list, m'))
    × (zs ≡ ys ++ ws)
    × (dues m' acc (ys ++ t ∷ ws) ≡ insert_due t (acc + e) (dues m acc zs))
    × ((x : ℕ) → x ≢ t → NotIn x zs → m' x ≡ m x)

pub put-other : (m : ℕ → Timer) (t e x : ℕ) → x ≢ t → put m t e x ≡ m x
put-other m t e x h = ground arith

pub put-expires : (m : ℕ → Timer) (t e : ℕ) → (put m t e t).expires ≡ e
put-expires m t e = ground arith

not_head : (x : ℕ) → timer_list ≢ x → (x == timer_list) ≡ false
not_head x h = ground arith

sooner : (a e d : ℕ) → ltb e d ≡ true → ltb (a + e) (a + d) ≡ true
sooner a e d h = ground arith

later : (a e d : ℕ) → ltb e d ≡ false → ltb (a + e) (a + d) ≡ false
later a e d h = ground arith

not_less : (e d : ℕ) → ltb e d ≡ false → d ≤ e
not_less e d h = ground arith

less : (e d : ℕ) → ltb e d ≡ true → e < d
less e d h = ground arith

-- The new timer takes the time `e` from the next one.
before :
    (m : ℕ → Timer) (t x acc e d : ℕ) (zs : List ℕ)
    → ltb (acc + e) (acc + d) ≡ true
    → e < d
    → (m t).expires ≡ e
    → (m x).expires ≡ d
    → t ≢ x
    → NotIn x zs
    → dues (put m x (d - e)) acc (t ∷ x ∷ zs)
      ≡ insert_due t (acc + e) ((x, acc + d) ∷ dues m (acc + d) zs)
before m t x acc e d zs s l me md n nx =
    let te = ap (λ v. v.expires) (put-other m x (d - e) t n) ∙ me in
    let total : acc + e + (d - e) ≡ acc + d = omega arith in
    rw (s, te, put-expires m x (d - e), total, dues-put m x (d - e) (acc + d) zs nx) refl

-- The new timer is behind `x`.
behind :
    (m m' : ℕ → Timer) (t x acc e d : ℕ) (zs xs : List ℕ)
    → ltb (acc + e) (acc + d) ≡ false
    → d ≤ e
    → (m' x).expires ≡ d
    → NotIn t zs
    → dues m' (acc + d) xs ≡ insert_due t (acc + d + (e - d)) (dues (put m t (e - d)) (acc + d) zs)
    → dues m' acc (x ∷ xs) ≡ insert_due t (acc + e) ((x, acc + d) ∷ dues m (acc + d) zs)
behind m m' t x acc e d zs xs s l mx nt h =
    let total : acc + d + (e - d) ≡ acc + e = omega arith in
    rw (s, mx, h, total, dues-put m t (e - d) (acc + d) zs nt) refl

add_loop-Placed :
    (fuel t le acc e a : ℕ) (l : Links) (m : ℕ → Timer) (zs : List ℕ)
    → length zs < fuel
    → (m t).expires ≡ e
    → NotIn t zs
    → t ≢ timer_list
    → NotIn timer_list zs
    → Distinct zs
    → Linked l a zs timer_list
    → le ≡ first zs timer_list
    → Placed fuel t le acc l m e zs
unfolding add_loop
add_loop-Placed zero t le acc e a l m zs f me n th z ds k s = absurd (omega arith)
add_loop-Placed (suc fuel) t le acc e a l m [] f me n th z ds k s =
    ([], [], m, rw s refl, refl, rw me refl, λ x h g. refl)
add_loop-Placed (suc fuel) t le acc e a l m (x ∷ zs) f me n th z ds k s =
    elim (Bool-cases (ltb e (m x).expires)) [
      | inl u ↦ (
        [],
        x ∷ zs,
        put m x ((m x).expires - e),
        rw (s, not_head x z.0, me, u) refl,
        refl,
        before m t x acc e (m x).expires zs (sooner acc e (m x).expires u) (less e (m x).expires u)
            me refl (λ q. n.0 q) ds.0,
        λ y h g. put-other m x ((m x).expires - e) y g.0,
      )
      | inr u ↦
          let m1 = put m t (e - (m x).expires) in
          let (ys, ws, m', q, zq, dq, same) =
            add_loop-Placed fuel t (l.next x) (acc + (m x).expires) (e - (m x).expires) x l m1 zs
              (omega arith) (put-expires m t (e - (m x).expires)) n.1 th z.1 ds.1 k.2
              (next-first l x zs timer_list k.2) in
          (
            x ∷ ys,
            ws,
            m',
            rw (s, not_head x z.0, me, u) q,
            ap (◌∷◌ x) zq,
            (let same_x =
                  ap (λ v. v.expires)
                    (same x (λ q. n.0 (sym q)) ds.0
                      ∙ put-other m t (e - (m x).expires) x (λ q. n.0 (sym q))) in
                behind m m' t x acc e (m x).expires zs (ys ++ t ∷ ws) (later acc e (m x).expires u)
                  (not_less e (m x).expires u) same_x n.1 dq),
            λ y h g. same y h g.1 ∙ put-other m t (e - (m x).expires) y h,
          )
    ]

-- The timers of the list and their times.
pub record Queue (l : Links) (m : ℕ → Timer) (ds : List (ℕ × ℕ)) (xs : List ℕ) : Type 0 where
  pub ring : Ring l timer_list xs
  pub times : dues m 0 xs ≡ ds

-- If the list of timers has the times `ds`, and the timer `t`, with a process and `expires` above
-- 0, is on no list, then `add_timer`, with fuel above the length of the list, ends without a
-- failed assertion, and the list has the times of `ds` with `t` at its time, behind the timers
-- that expire no later. No other timer's time changes.
pub add_timer-Queue :
    {R : Type 0} (fuel t e : ℕ) (s : Sched R) (xs : List ℕ) (ds : List (ℕ × ℕ))
    → Queue s.links s.timer ds xs
    → length xs < fuel
    → (s.timer t).expires ≡ e
    → 0 < e
    → is_some (s.timer t).proc ≡ true
    → list_empty t s.links ≡ true
    → t ≢ timer_list
    → NotIn t xs
    → (s' : Sched R) × (xs' : List ℕ) × (add_timer fuel t s ≡ ok s')
      × Queue s'.links s'.timer (insert_due t e ds) xs'
unfolding add_timer
add_timer-Queue fuel t e s xs ds q f te pos ps em th nt =
    let (ys, ws, m', r, z, dq, same) =
      add_loop-Placed fuel t (s.links.next timer_list) 0 e timer_list s.links s.timer xs f te nt th
        q.ring.distinct.0 q.ring.distinct.1 q.ring.linked
        (next-first s.links timer_list xs timer_list q.ring.linked) in
    let s' = record s { timer = m'; links = list_add_before (first ws timer_list) t s.links } in
    (
      s',
      ys ++ t ∷ ws,
      rw (te, ltb_pos e pos, ps, em, r) refl,
      record {
        ring =
            list_add_before-Ring s.links timer_list t ys ws
              (subst (Ring s.links timer_list) z q.ring) th (subst (NotIn t) z nt);
        times = dq ∙ rw q.times (ap (λ n. insert_due t n ds) (omega arith));
      },
    )
