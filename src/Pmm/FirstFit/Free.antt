-- ===== src/Pmm/FirstFit/Free.antt =====
-- What default_free_pages of lab2/kern/mm/default_pmm.c does to a sorted free area.
use nku_os_ucore.Common.{
  ℕ, ◌+◌, ◌^◌, ◌<◌, ◌≡◌, refl, sym, ap, ◌∙◌, List, ◌++◌, length, ok, ◌||◌, ltb_pos,
}
use nku_os_ucore.Pmm.{FreeArea}
use nku_os_ucore.Pmm.Blocks.{Clear, Inv, is_free, in_range}
use nku_os_ucore.Pmm.FirstFit.Clear.{
  Loose, clear_pages_lem, ClearedTo-Agree, Agree-Sorted, Agree-total, Agree-is_free, Agree-Clear,
}
use nku_os_ucore.Pmm.FirstFit.Insert.{Place, Added, add_block-Added}
use nku_os_ucore.Pmm.FirstFit.{default_free_pages, merge_prev, merge_next}
use nku_os_ucore.Pmm.FirstFit.Merge.{merge_prev-Settled, merge_next-Inv}

-- The free area after a release of the pages `base` to `base + n`.
pub record Released (s : FreeArea) (base n : ℕ) (xs : List ℕ) (t : FreeArea) : Type 0 where
  pub ys : List ℕ
  pub inv : Inv t ys
  pub count : t.nr_free ≡ s.nr_free + n
  pub covers : (q : ℕ) → is_free t.page ys q ≡ (is_free s.page xs q || in_range base n q)

merged-Released :
    (fuel base n : ℕ) (s s1 : FreeArea) (pre post : List ℕ)
    → 0 < base
    → ((q : ℕ) → is_free s1.page (pre ++ post) q ≡ is_free s.page (pre ++ post) q)
    → s1.nr_free ≡ s.nr_free
    → (t : FreeArea) → Added s1 base n pre post t
    → Released s base n (pre ++ post) (merge_next (merge_prev base t).0 (merge_prev base t).1)
merged-Released fuel base n s s1 pre post pb same cnt t a =
    let r = merge_prev-Settled t pre base post pb a.placed in
    let (ys, i, m) =
      merge_next-Inv (merge_prev base t).1 r.us (merge_prev base t).0 post r.placed r.apart in
    record {
      ys = ys;
      inv = i;
      count = m.count ∙ r.merged.count ∙ a.count ∙ ap (λ (k : ℕ). k + n) cnt;
      covers =
          λ q. m.same q ∙ r.merged.same q ∙ a.covers q ∙ ap (λ b. b || in_range base n q) (same q);
    }

-- Let a well-formed free area hold the blocks `pre ++ post`, and let `n > 0` pages from `base`
-- lie outside all of them, none reserved and none marked as a head. If the list is empty or
-- `post` begins with a block above `base` (with those of `pre` not above it), `nr_free + n` fits
-- 32 bits and the fuel covers `pre`, then `default_free_pages` returns a well-formed area (no
-- two blocks touch), with `nr_free` more by `n`, in which exactly the old free pages and the
-- released ones are free.
pub default_free_pages-Released :
    (fuel base n : ℕ) (s : FreeArea) (pre post : List ℕ)
    → Inv s (pre ++ post)
    → Place base pre post
    → Loose s.page base n
    → Clear s.page base n (pre ++ post)
    → 0 < base
    → 0 < n
    → s.nr_free + n < 2 ^ 32
    → length pre < fuel
    → (t : FreeArea) × (default_free_pages fuel base n s ≡ ok t) × Released s base n (pre ++ post) t
unfolding default_free_pages
default_free_pages-Released fuel base n s pre post v place loose clear pb pn room f =
    let (m, e, c) = clear_pages_lem n base s.page loose in
    let a = ClearedTo-Agree s.page m base n 0 (pre ++ post) c v.sorted clear in
    let s1 : FreeArea = record s { page = m } in
    let v1 : Inv s1 (pre ++ post) = record {
      ring = v.ring;
      sorted = Agree-Sorted s.page m 0 (pre ++ post) a v.sorted;
      counted = v.counted ∙ sym (Agree-total s.page m (pre ++ post) a);
      small = rw (Agree-total s.page m (pre ++ post) a) v.small;
    } in
    let (t, e2, ad) =
      add_block-Added fuel base n s1 pre post place v1
        (Agree-Clear s.page m base n (pre ++ post) a clear) pb pn room f in
    (
      merge_next (merge_prev base t).0 (merge_prev base t).1,
      rw (ltb_pos n pn, e, e2),
      merged-Released fuel base n s s1 pre post pb (λ q. Agree-is_free s.page m (pre ++ post) q a)
          refl t ad,
    )
