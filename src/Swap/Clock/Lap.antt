-- ===== src/Swap/Clock/Lap.antt =====
-- The laps of the clock hand in lab3/kern/mm/swap_clock.c.
use nku_os_ucore.Common.{
  ℕ, zero, suc, ◌<◌, ◌≡◌, ◌≢◌, refl, sym, subst, ap, ◌∙◌, Bool, true, false, Bool-cases, inl, inr,
  ◌⊎◌, some, List, [], ◌∷◌, ◌++◌, arith, Outcome, ok, append-nil, length, All, length-append,
}
use nku_os_ucore.Common.Distinct.{
  NotIn, NotIn-append_left, NotIn-append_right, NotIn-append, Distinct, Distinct-append_left,
  Distinct-insert, last,
}
use nku_os_ucore.DList.{Links, list_del}
use nku_os_ucore.DList.Ring.{Ring, Linked, next-last_end}
use nku_os_ucore.Swap.{pra_list_head}
use nku_os_ucore.Swap.Clock.{Clock, mark, advance, clock_loop, clock_swap_out_victim}

-- From `a` the hand comes to the pages `ys`, one after the other.
abbrev pub Hand : Links → ℕ → List ℕ → Type 0
Hand l a [] = Unit {0}
Hand l a (y ∷ ys) = (advance l a ≡ y) × Hand l y ys

-- The flags after the hand has passed `us`.
abbrev pub cleared : (ℕ → Bool) → List ℕ → ℕ → Bool
cleared f [] x = f x
cleared f (u ∷ us) x = cleared (mark f u false) us x

abbrev pub Visited : (ℕ → Bool) → List ℕ → Type 0
Visited f us = All (λ u. f u ≡ true) us

Visited-mark :
    (f : ℕ → Bool) (u : ℕ) (us : List ℕ) → NotIn u us → Visited f us → Visited (mark f u false) us
Visited-mark f u [] h v = tt
Visited-mark f u (x ∷ us) h v =
    (let e = v.0 in let n = h.0 in ground arith, Visited-mark f u us h.1 v.1)

-- The hand passes visited pages and stops at the first page that is not visited by then.
clock_loop_lem :
    (fuel : ℕ) (s : Clock) (us : List ℕ) (p : ℕ)
    → length us < fuel
    → Hand s.links s.curr_ptr (us ++ p ∷ [])
    → Distinct us
    → Visited s.visited us
    → cleared s.visited us p ≡ false
    → clock_loop fuel s
      ≡ ok
          (p, record s { curr_ptr = p; links = list_del p s.links; visited = cleared s.visited us })
unfolding clock_loop
clock_loop_lem zero s us p f h d v c = absurd (omega arith)
clock_loop_lem (suc f) s [] p fu h d v c = rw (h.0, c)
clock_loop_lem (suc f) s (u ∷ us) p fu h d v c =
    rw (h.0, v.0)
      (clock_loop_lem f (record s { curr_ptr = u; visited = mark s.visited u false }) us p
        (omega arith) h.1 d.1 (Visited-mark s.visited u us d.0 v.1) c)

-- Along a segment of the ring the hand follows `next`.
Linked-Hand :
    (l : Links) (a : ℕ) (xs : List ℕ) (b : ℕ)
    → Linked l a xs b
    → NotIn pra_list_head xs
    → Hand l a xs
Linked-Hand l a [] b s n = tt
Linked-Hand l a (x ∷ xs) b s n =
    (let e = s.0 in let z = n.0 in ground arith, Linked-Hand l x xs b s.2 n.1)

Hand-append :
    (l : Links) (a : ℕ) (xs ys : List ℕ) → Hand l a xs → Hand l (last a xs) ys → Hand l a (xs ++ ys)
Hand-append l a [] ys h k = k
Hand-append l a (x ∷ xs) ys h k = (h.0, Hand-append l x xs ys h.1 k)

-- Round the head.
wrap :
    (l : Links) (a x : ℕ)
    → l.next a ≡ pra_list_head
    → l.next pra_list_head ≡ x
    → x ≢ pra_list_head
    → advance l a ≡ x
wrap l a x e f n = ground arith

Hand-split :
    (l : Links) (a : ℕ) (xs ys : List ℕ) → Hand l a (xs ++ ys) → Hand l a xs × Hand l (last a xs) ys
Hand-split l a [] ys h = (tt, h)
Hand-split l a (x ∷ xs) ys h = let r = Hand-split l x xs ys h.1 in ((h.0, r.0), r.1)

last-append : (a : ℕ) (xs ys : List ℕ) → last a (xs ++ ys) ≡ last (last a xs) ys
last-append a [] ys = refl
last-append a (x ∷ xs) ys = last-append x xs ys

-- Behind the last page comes the first.
Hand-round :
    (l : Links) (a x : ℕ) (xs : List ℕ)
    → Ring l pra_list_head (x ∷ xs)
    → a ≡ last pra_list_head (x ∷ xs)
    → advance l a ≡ x
Hand-round l a x xs r e =
    wrap l a x (ap l.next e ∙ next-last_end l pra_list_head (x ∷ xs) pra_list_head r.linked)
      r.linked.0 (λ q. r.distinct.0.0 (sym q))

-- The pages in the order in which the hand comes to them, with the hand behind `pre`.
lap-Hand :
    (l : Links) (pre post : List ℕ)
    → Ring l pra_list_head (pre ++ post)
    → Hand l (last pra_list_head pre) (post ++ pre)
lap-Hand l [] post r =
    subst (Hand l pra_list_head) (sym (append-nil post))
      (Linked-Hand l pra_list_head post pra_list_head r.linked r.distinct.0)
lap-Hand l (x ∷ pre) post r =
    let h = Linked-Hand l pra_list_head (x ∷ pre ++ post) pra_list_head r.linked r.distinct.0 in
    let c = Hand-split l pra_list_head (x ∷ pre) post h in
    Hand-append l (last x pre) post (x ∷ pre) c.1 (
      Hand-round l (last (last x pre) post) x (pre ++ post) r (sym (last-append x pre post)),
      c.0.1,
    )

-- After a whole lap the hand is at the first page again.
lap_again :
    (l : Links) (pre post : List ℕ) (p : ℕ) (vs : List ℕ)
    → Ring l pra_list_head (pre ++ post)
    → post ++ pre ≡ p ∷ vs
    → advance l (last (last pra_list_head pre) (post ++ pre)) ≡ p
lap_again l [] [] p vs r e = cc
lap_again l [] (y ∷ post) p vs r e =
    let q : y ≡ p = cc in Hand-round l _ y post r (ap (last y) (append-nil post)) ∙ q
lap_again l (x ∷ pre) [] p vs r e =
    let q : x ≡ p = cc in
    Hand-round l _ x pre (subst (λ z. Ring l pra_list_head (x ∷ z)) (append-nil pre) r) refl ∙ q
lap_again l (x ∷ pre) (y ∷ post) p vs r e =
    let q : y ≡ p = cc in
    let h = Linked-Hand l pra_list_head (x ∷ pre ++ y ∷ post) pra_list_head r.linked r.distinct.0 in
    let c = Hand-split l pra_list_head (x ∷ pre) (y ∷ post) h in
    ap (advance l) (last-append y post (x ∷ pre)) ∙ c.1.0 ∙ q

-- Only the successor of the hand matters: it may stand on an entry that was taken out.
Hand-same : (l : Links) (a b : ℕ) (ys : List ℕ) → l.next a ≡ l.next b → Hand l a ys → Hand l b ys
Hand-same l a b [] e h = tt
Hand-same l a b (y ∷ ys) e h = (rw (← e) h.0, h.1)

-- Which page goes: the first in the order of the hand that is not visited, or else the first.
pub data Evicted (s : Clock) (order : List ℕ) : Outcome (ℕ × Clock) → Type 0 where
  unvisited :
      (us : List ℕ) (p : ℕ) (vs : List ℕ)
      → order ≡ us ++ p ∷ vs
      → Visited s.visited us
      → s.visited p ≡ false
      → Evicted s order (
          ok (
            p,
            record s { curr_ptr = p; links = list_del p s.links; visited = cleared s.visited us },
          ))
  second_chance :
      (p : ℕ) (vs : List ℕ)
      → order ≡ p ∷ vs
      → Visited s.visited order
      → Evicted s order (
          ok (
            p,
            record s {
              curr_ptr = p;
              links = list_del p s.links;
              visited = cleared s.visited order;
            },
          ))

-- The first page that is not visited, if there is one.
abbrev Unvisited : (ℕ → Bool) → List ℕ → Type 0
Unvisited f order =
    Visited f order
    ⊎ ((us : List ℕ) × (p : ℕ) × (vs : List ℕ) × (order ≡ us ++ p ∷ vs)
        × Visited f us
        × (f p ≡ false))

find-Unvisited : (f : ℕ → Bool) (order : List ℕ) → Unvisited f order
find-Unvisited f [] = inl tt
find-Unvisited f (x ∷ xs) = elim (Bool-cases (f x)) [
  | inr e ↦ inr ([], x, xs, refl, tt, e)
  | inl e ↦ elim (find-Unvisited f xs) [
    | inl v ↦ inl (e, v)
    | inr (us, p, vs, q, v, n) ↦ inr (x ∷ us, p, vs, ap (◌∷◌ x) q, (e, v), n)
  ]
]

cleared_other : (f : ℕ → Bool) (us : List ℕ) (p : ℕ) → f p ≡ false → cleared f us p ≡ false
cleared_other f [] p e = e
cleared_other f (u ∷ us) p e = cleared_other (mark f u false) us p (ground arith)

-- The pages of a ring are distinct in any rotation.
Distinct-rotate : (pre post : List ℕ) → Distinct (pre ++ post) → Distinct (post ++ pre)
Distinct-rotate [] post d = subst Distinct (sym (append-nil post)) d
Distinct-rotate (x ∷ pre) post d =
    Distinct-insert post x pre
      (NotIn-append x post pre (NotIn-append_right x pre post d.0)
        (NotIn-append_left x pre post d.0))
      (Distinct-rotate pre post d.1)

victim-Evicted :
    (fuel : ℕ) (s : Clock) (pre post : List ℕ) (p : ℕ) (vs : List ℕ)
    → Ring s.links pra_list_head (pre ++ post)
    → s.links.next s.curr_ptr ≡ s.links.next (last pra_list_head pre)
    → post ++ pre ≡ p ∷ vs
    → length (post ++ pre) < fuel
    → Unvisited s.visited (post ++ pre)
    → Evicted s (post ++ pre) (clock_loop fuel s)
victim-Evicted fuel s pre post p vs r e q f (inl v) =
    let order = post ++ pre in
    let hand : Hand s.links s.curr_ptr (order ++ p ∷ []) =
      Hand-same s.links (last pra_list_head pre) s.curr_ptr (order ++ p ∷ []) (sym e) (
        Hand-append s.links (last pra_list_head pre) order (p ∷ []) (lap-Hand s.links pre post r)
          (lap_again s.links pre post p vs r q, tt)) in
    let gone : cleared s.visited order p ≡ false =
      subst (λ z. cleared s.visited z p ≡ false) (sym q)
        (cleared_other (mark s.visited p false) vs p (ground arith)) in
    rw (clock_loop_lem fuel s order p f hand (Distinct-rotate pre post r.distinct.1) v gone)
      (second_chance p vs q v)
victim-Evicted fuel s pre post p vs r e q f (inr (us, u, ws, g, v, n)) =
    let h = subst (Hand s.links (last pra_list_head pre)) g (lap-Hand s.links pre post r) in
    let c = Hand-split s.links (last pra_list_head pre) us (u ∷ ws) h in
    let hand : Hand s.links s.curr_ptr (us ++ u ∷ []) =
      Hand-same s.links (last pra_list_head pre) s.curr_ptr (us ++ u ∷ []) (sym e)
        (Hand-append s.links (last pra_list_head pre) us (u ∷ []) c.0 (c.1.0, tt)) in
    let d =
      Distinct-append_left us (u ∷ ws) (subst Distinct g (Distinct-rotate pre post r.distinct.1)) in
    let short : length us < fuel = omega (arith, ap length g, length-append us (u ∷ ws)) in
    rw (clock_loop_lem fuel s us u short hand d v (cleared_other s.visited us u n))
      (unvisited us u ws g v n)

-- Let the clock's list hold the pages `pre ++ post`, not all empty, with the hand behind `pre`
-- (or on an entry with the same successor), and let the fuel exceed their number. Then
-- `clock_swap_out_victim` returns the first page in the order `post ++ pre` whose `visited` flag
-- is clear, and clears the flags of those before it; if all are visited, it returns the first
-- page and clears all their flags. The victim is taken out and the hand stays on it.
pub clock_swap_out_victim-Evicted :
    (fuel : ℕ) (s : Clock) (pre post : List ℕ) (p : ℕ) (vs : List ℕ)
    → Ring s.links pra_list_head (pre ++ post)
    → s.links.next s.curr_ptr ≡ s.links.next (last pra_list_head pre)
    → s.sm_priv ≡ some pra_list_head
    → post ++ pre ≡ p ∷ vs
    → length (post ++ pre) < fuel
    → Evicted s (post ++ pre) (clock_swap_out_victim fuel 0 s)
unfolding clock_swap_out_victim
clock_swap_out_victim-Evicted fuel s pre post p vs r e m q f =
    simp m (victim-Evicted fuel s pre post p vs r e q f (find-Unvisited s.visited (post ++ pre)))
