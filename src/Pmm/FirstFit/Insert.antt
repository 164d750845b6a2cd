-- ===== src/Pmm/FirstFit/Insert.antt =====
-- Where lab2/kern/mm/default_pmm.c puts a block, if some free block lies above it or none is free.
use nku_os_ucore.Common.{
  ℕ, zero, suc, ◌+◌, ◌^◌, ◌≤◌, ◌<◌, ◌≡◌, List, [], ◌∷◌, ◌++◌, true, false, ◌==◌, arith, length, ok,
  All, ◌||◌, u32, Bool,
}
use nku_os_ucore.Common.Distinct.{NotIn, NotIn-append_left, NotIn-append_right}
use nku_os_ucore.DList.{Links, list_add, list_add_before, list_empty}
use nku_os_ucore.DList.Ring.{Ring, Linked, list_add-Ring, list_add_before-Ring}
use nku_os_ucore.Pmm.{Page, FreeArea, store, free_list}
use nku_os_ucore.Pmm.Blocks.{
  Sorted, Clear, total, Inv, reach, Touching, is_free, in_range, total-append, Sorted-split,
  Sorted-store, is_free-append, is_free-store, total-store, reach-store, Touching-store,
}
use nku_os_ucore.Pmm.FirstFit.{insert_loop, insert_block, add_block}
use nku_os_ucore.Pmm.FirstFit.Absorb.{Placed}

-- Below some block, the loop inserts before the first block above `base`.
pub insert_loop_lem :
    (fuel base a : ℕ) (l : Links) (pre : List ℕ) (y : ℕ) (post : List ℕ)
    → length pre + 1 < fuel + 1
    → Linked l a (pre ++ y ∷ post) free_list
    → NotIn free_list (pre ++ y ∷ post)
    → All (λ x. x ≤ base) pre
    → base < y
    → insert_loop fuel base a l ≡ ok (list_add_before y base l)
unfolding insert_loop
insert_loop_lem zero base a l pre y post f k n b h = absurd (omega arith)
insert_loop_lem (suc f) base a l [] y post fu k n b h = ground (arith, n.0)
insert_loop_lem (suc f) base a l (x ∷ []) y post fu k n b h =
    let ih = insert_loop_lem f base x l [] y post (omega arith) k.2 n.1 tt h in
    ground (arith, n.0, n.1.0)
insert_loop_lem (suc f) base a l (x ∷ z ∷ pre) y post fu k n b h =
    let ih = insert_loop_lem f base x l (z ∷ pre) y post (omega arith) k.2 n.1 b.1 h in
    ground (arith, n.0, n.1.0)

-- The place of `base` in the list: the list is empty, or some block lies above.
pub data Place (base : ℕ) : List ℕ → List ℕ → Type 0 where
  alone : Place base [] []
  under :
      (pre : List ℕ) (y : ℕ) (post : List ℕ)
      → All (λ x. x ≤ base) pre
      → base < y
      → Place base pre (y ∷ post)

pub reach-le :
    (m : ℕ → Page) (base n lo : ℕ) (xs : List ℕ)
    → lo ≤ base
    → 0 < n
    → All (λ x. x ≤ base) xs
    → Clear m base n xs
    → reach m lo xs ≤ base
reach-le m base n lo [] h k a c = h
reach-le m base n lo (x ∷ xs) h k a c =
    reach-le m base n (x + (m x).property) xs (omega (arith, a.0, c.0)) k a.1 c.1

pub Clear-NotIn :
    (m : ℕ → Page) (base n lo : ℕ) (xs : List ℕ)
    → 0 < n
    → Sorted m lo xs
    → Clear m base n xs
    → NotIn base xs
Clear-NotIn m base n lo [] h s c = tt
Clear-NotIn m base n lo (x ∷ xs) h s c =
    (omega (arith, c.0, s.1), Clear-NotIn m base n (x + (m x).property) xs h s.3 c.1)

pub Clear-append_left :
    (m : ℕ → Page) (p n : ℕ) (xs ys : List ℕ) → Clear m p n (xs ++ ys) → Clear m p n xs
Clear-append_left m p n [] ys c = tt
Clear-append_left m p n (x ∷ xs) ys c = (c.0, Clear-append_left m p n xs ys c.1)

pub Clear-append_right :
    (m : ℕ → Page) (p n : ℕ) (xs ys : List ℕ) → Clear m p n (xs ++ ys) → Clear m p n ys
Clear-append_right m p n [] ys c = c
Clear-append_right m p n (x ∷ xs) ys c = Clear-append_right m p n xs ys c.1

pub not_empty :
    (l : Links) (pre : List ℕ) (y : ℕ) (ys : List ℕ)
    → Linked l free_list (pre ++ y ∷ ys) free_list
    → NotIn free_list (pre ++ y ∷ ys)
    → (l.next free_list == free_list) ≡ false
not_empty l [] y ys k n = let e = k.0 in let m = n.0 in ground arith
not_empty l (x ∷ pre) y ys k n = let e = k.0 in let m = n.0 in ground arith

pub insert_block-Ring :
    (fuel base : ℕ) (l : Links) (pre post : List ℕ)
    → Place base pre post
    → Ring l free_list (pre ++ post)
    → 0 < base
    → NotIn base (pre ++ post)
    → length pre < fuel
    → (l' : Links) × (insert_block fuel base l ≡ ok l') × Ring l' free_list (pre ++ base ∷ post)
unfolding insert_block list_empty
insert_block-Ring fuel base l [] [] alone r h k f =
    (list_add free_list base l, rw r.linked.0, list_add-Ring l free_list base [] r (omega arith) k)
insert_block-Ring fuel base l pre post (under _ y ys a b) r h k f = (
  list_add_before y base l,
  rw (not_empty l pre y ys r.linked r.distinct.0)
      (insert_loop_lem fuel base free_list l pre y ys (omega arith) r.linked r.distinct.0 a b),
  list_add_before-Ring l free_list base pre (y ∷ ys) r (omega arith) k,
)

pub rotate : (a b c : Bool) → (a || (b || c)) ≡ ((a || c) || b)
rotate a b c = ground arith

-- What putting a block into the list gives.
pub record Added (s : FreeArea) (base n : ℕ) (pre post : List ℕ) (t : FreeArea) : Type 0 where
  pub placed : Placed t pre base post
  pub count : t.nr_free ≡ s.nr_free + n
  pub covers :
      (q : ℕ)
      → is_free t.page (pre ++ base ∷ post) q
        ≡ (is_free s.page (pre ++ post) q || in_range base n q)

pub Place-Touching :
    (m : ℕ → Page) (base n lo : ℕ) (pre post : List ℕ)
    → Place base pre post
    → 0 < n
    → Sorted m lo post
    → Clear m base n post
    → Touching m (base + n) post
Place-Touching m base n lo [] [] alone h s c = tt
Place-Touching m base n lo pre post (under _ y ys a b) h s c =
    (omega (arith, c.0, s.1, b), s.1, s.2, s.3)

pub Place-left : (base : ℕ) (pre post : List ℕ) → Place base pre post → All (λ x. x ≤ base) pre
Place-left base [] [] alone = tt
Place-left base pre post (under _ y ys a b) = a

module _ (fuel base n : ℕ) (s : FreeArea) (pre post : List ℕ) (place : Place base pre post)
    (v : Inv s (pre ++ post)) (clear : Clear s.page base n (pre ++ post)) (pb : 0 < base)
    (pn : 0 < n) (room : s.nr_free + n < 2 ^ 32) (f : length pre < fuel) where
  abbrev block : Page
  block = record (s.page base) { head = true; property = u32 n }

  abbrev grown : ℕ → Page
  grown = store s.page base block

  fresh : NotIn base (pre ++ post)
  fresh = Clear-NotIn s.page base n 0 (pre ++ post) pn v.sorted clear

  fresh_pre : NotIn base pre
  fresh_pre = NotIn-append_left base pre post fresh

  fresh_post : NotIn base post
  fresh_post = NotIn-append_right base pre post fresh

  halves : Sorted s.page 0 pre × Sorted s.page (reach s.page 0 pre) post
  halves = Sorted-split s.page 0 pre post v.sorted

  size : (grown base).property ≡ n
  size = ground arith

  counted : u32 (s.nr_free + n) ≡ s.nr_free + n
  counted = omega arith

  sum : total grown (pre ++ base ∷ post) ≡ s.nr_free + n
  sum = omega (
    arith,
    size,
    v.counted,
    total-append grown pre (base ∷ post),
    total-append s.page pre post,
    total-store s.page base block pre fresh_pre,
    total-store s.page base block post fresh_post,
  )

  added :
      (l : Links)
      → Ring l free_list (pre ++ base ∷ post)
      → Added s base n pre post (record { page = grown; links = l; nr_free = u32 (s.nr_free + n) })
  added l r = record {
    placed = record {
      ring = r;
      left = Sorted-store s.page base block 0 pre fresh_pre halves.0;
      near = rw (reach-store s.page base block 0 pre fresh_pre) (
          reach-le s.page base n 0 pre (omega arith) pn (Place-left base pre post place)
            (Clear-append_left s.page base n pre post clear));
      filled = omega (arith, size);
      marked = ground arith;
      right = rw size (
          Touching-store s.page base block (base + n) post fresh_post (
            Place-Touching s.page base n (reach s.page 0 pre) pre post place pn halves.1
              (Clear-append_right s.page base n pre post clear)));
      counted = omega (arith, sum, counted);
      small = omega (arith, sum);
    };
    count = counted;
    covers = λ q.
        rw
          (
            is_free-append grown pre (base ∷ post) q,
            is_free-append s.page pre post q,
            is_free-store s.page base block pre q fresh_pre,
            is_free-store s.page base block post q fresh_post,
            size,
          )
          (rotate (is_free s.page pre q) (in_range base n q) (is_free s.page post q));
  }

  pub add_block-Added :
      (t : FreeArea) × (add_block fuel base n s ≡ ok t) × Added s base n pre post t
  unfolding add_block
  add_block-Added =
      let (l, e, r) = insert_block-Ring fuel base s.links pre post place v.ring pb fresh f in
      (record { page = grown; links = l; nr_free = u32 (s.nr_free + n) }, rw e, added l r)
