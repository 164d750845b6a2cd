-- ===== src/Timer/Del.antt =====
-- del_timer of lab8/kern/schedule/sched.c.
use nku_os_ucore.Common.{
  ℕ, ◌+◌, ◌<◌, ◌^◌, ◌≡◌, ◌≢◌, refl, sym, ap, ◌∙◌, subst, Bool, true, false, Bool-cases, List, [],
  ◌∷◌, ◌++◌, arith, ◌==◌, ◌||◌, if◌then◌else◌, inl, inr, u32, All,
}
use nku_os_ucore.Common.Distinct.{
  NotIn, Distinct, first, Distinct-middle, NotIn-append, NotIn-append_right, Distinct-append_right,
}
use nku_os_ucore.DList.{Links, set_next, list_del, list_init, list_del_init, list_empty}
use nku_os_ucore.DList.Ring.{
  Ring, next-first, Linked-split, list_del-Ring, Linked-set_next, Linked-set_prev,
}
use nku_os_ucore.Timer.{Timer, Sched, put, timer_list, pass_on, del_timer}
use nku_os_ucore.Timer.Due.{dues, dues-put}
use nku_os_ucore.Timer.Add.{Queue, put-other, put-expires}

-- The times without those of the timer `t`.
abbrev pub remove_due : ℕ → List (ℕ × ℕ) → List (ℕ × ℕ)
remove_due t [] = []
remove_due t (d ∷ ds) = if d.0 == t then ds else d ∷ remove_due t ds

-- `list_init` of an entry outside of a list leaves the list alone.
list_init-Ring_other :
    (l : Links) (h t : ℕ) (xs : List ℕ)
    → Ring l h xs
    → t ≢ h
    → NotIn t xs
    → Ring (list_init t l) h xs
unfolding list_init
list_init-Ring_other l h t xs r n k = record {
  linked =
      Linked-set_prev (set_next t t l) t t h xs h n k (Linked-set_next l t t h xs h n k r.linked);
  distinct = r.distinct;
}

equal : (c : ℕ) → (c == c) ≡ true
equal c = ground arith

differ : (x y : ℕ) → x ≢ y → (x == y) ≡ false
differ x y h = ground arith

-- The times of the others, with what the timer leaves to the one behind it.
remaining :
    (m m' : ℕ → Timer) (t acc : ℕ) (ys ws : List ℕ)
    → Distinct (ys ++ t ∷ ws)
    → ((x : ℕ) → NotIn x ws → m' x ≡ m x)
    → ((acc : ℕ) → dues m' acc ws ≡ dues m (acc + (m t).expires) ws)
    → dues m' acc (ys ++ ws) ≡ remove_due t (dues m acc (ys ++ t ∷ ws))
remaining m m' t acc [] ws d s h = rw (equal t) (h acc)
remaining m m' t acc (y ∷ ys) ws d s h =
    let n = NotIn-append_right y ys (t ∷ ws) d.0 in
    rw (s y n.1, differ y t n.0)
      (ap (λ ds. (y, acc + (m y).expires) ∷ ds)
        (remaining m m' t (acc + (m y).expires) ys ws d.1 s h))

-- What `pass_on` writes: the timer behind waits as long as before.
record Passed (m m' : ℕ → Timer) (t : ℕ) (ws : List ℕ) : Type 0 where
  others : (x : ℕ) → NotIn x ws → m' x ≡ m x
  behind : (acc : ℕ) → dues m' acc ws ≡ dues m (acc + (m t).expires) ws

dues_zero : (m : ℕ → Timer) (a b : ℕ) (ws : List ℕ) → a ≡ b → dues m a ws ≡ dues m b ws
dues_zero m a b ws e = ap (λ n. dues m n ws) e

or_true : (b : Bool) → (b || true) ≡ true
or_true true = refl
or_true false = refl

zero_more : (acc e : ℕ) → (e == 0) ≡ true → acc ≡ acc + e
zero_more acc e h = ground arith

u32_small : (n : ℕ) → n < 2 ^ 32 → u32 n ≡ n
u32_small n h = omega arith

put_behind :
    (m : ℕ → Timer) (w e acc : ℕ) (ws : List ℕ)
    → NotIn w ws
    → (m w).expires + e < 2 ^ 32
    → dues (put m w (u32 ((m w).expires + e))) acc (w ∷ ws) ≡ dues m (acc + e) (w ∷ ws)
put_behind m w e acc ws n b =
    let total : acc + ((m w).expires + e) ≡ acc + e + (m w).expires = omega arith in
    rw
      (
        put-expires m w (u32 ((m w).expires + e)),
        u32_small ((m w).expires + e) b,
        total,
        dues-put m w (u32 ((m w).expires + e)) (acc + e + (m w).expires) ws n,
      )
      refl

-- The timer behind `t` can take its time without a wrap.
abbrev Room : (ℕ → Timer) → ℕ → List ℕ → Type 0
Room m t [] = Unit {0}
Room m t (w ∷ ws) = (m w).expires + (m t).expires < 2 ^ 32

Room-dues :
    (m : ℕ → Timer) (t acc : ℕ) (ys ws : List ℕ)
    → All (λ d. d.1 < 2 ^ 32) (dues m acc (ys ++ t ∷ ws))
    → Room m t ws
Room-dues m t acc [] [] a = tt
Room-dues m t acc [] (w ∷ ws) a = omega (arith, a.1.0)
Room-dues m t acc (y ∷ ys) ws a = Room-dues m t (acc + (m y).expires) ys ws a.1

first_apart : (t : ℕ) (ws : List ℕ) → timer_list ≢ t → NotIn t ws → first ws timer_list ≢ t
first_apart t [] h n = h
first_apart t (w ∷ ws) h n = λ e. n.0 (sym e)

pass_on-Passed :
    {R : Type 0} (t : ℕ) (s : Sched R) (ws : List ℕ)
    → Distinct ws
    → NotIn timer_list ws
    → s.links.next t ≡ first ws timer_list
    → Room s.timer t ws
    → (m' : ℕ → Timer) × (pass_on t s ≡ record s { timer = m' }) × Passed s.timer m' t ws
unfolding pass_on
pass_on-Passed t s [] d z n b = (
  s.timer,
  rw (n, or_true ((s.timer t).expires == 0)) refl,
  record { others = λ x h. refl; behind = λ acc. refl },
)
pass_on-Passed t s (w ∷ ws) d z n b = elim (Bool-cases ((s.timer t).expires == 0)) [
  | inl e ↦ (
    s.timer,
    rw e refl,
    record {
      others = λ x h. refl;
      behind = λ acc.
          dues_zero s.timer acc (acc + (s.timer t).expires) (w ∷ ws)
            (zero_more acc (s.timer t).expires e);
    },
  )
  | inr e ↦
      let m' = put s.timer w (u32 ((s.timer w).expires + (s.timer t).expires)) in
      (
        m',
        rw (n, e, differ w timer_list (λ q. z.0 (sym q))) refl,
        record {
          others =
              λ x h. put-other s.timer w (u32 ((s.timer w).expires + (s.timer t).expires)) x h.0;
          behind = λ acc. put_behind s.timer w (s.timer t).expires acc ws d.0 b;
        },
      )
]

-- If the list of timers has the times `ds`, all below 2^32, `del_timer` takes the timer `t` of the
-- list off it, and all other timers keep their times and their order.
pub del_timer-Queue :
    {R : Type 0} (t : ℕ) (s : Sched R) (ys ws : List ℕ) (ds : List (ℕ × ℕ))
    → Queue s.links s.timer ds (ys ++ t ∷ ws)
    → All (λ d. d.1 < 2 ^ 32) ds
    → Queue (del_timer t s).links (del_timer t s).timer (remove_due t ds) (ys ++ ws)
unfolding del_timer list_del_init list_empty
del_timer-Queue t s ys ws ds q b =
    let r = q.ring in
    let head = NotIn-append_right timer_list ys (t ∷ ws) r.distinct.0 in
    let mid = Distinct-middle ys t ws r.distinct.1 in
    let n =
      next-first s.links t ws timer_list
        (Linked-split s.links timer_list ys t ws timer_list r.linked).1 in
    let full = differ (s.links.next t) t (λ e. first_apart t ws head.0 mid.1 (sym n ∙ e)) in
    let room = Room-dues s.timer t 0 ys ws (subst (All (λ d. d.1 < 2 ^ 32)) (sym q.times) b) in
    let (m', e, p) =
      pass_on-Passed t s ws (Distinct-append_right ys (t ∷ ws) r.distinct.1).1 head.1 n room in
    let kept : Queue (list_del_init t s.links) m' (remove_due t ds) (ys ++ ws) = record {
      ring =
          list_init-Ring_other (list_del t s.links) timer_list t (ys ++ ws)
            (list_del-Ring s.links timer_list t ys ws r) (λ z. head.0 (sym z))
            (NotIn-append t ys ws mid.0 mid.1);
      times =
          remaining s.timer m' t 0 ys ws r.distinct.1 p.others p.behind ∙ ap (remove_due t) q.times;
    } in
    rw (list_empty, full, e) kept
