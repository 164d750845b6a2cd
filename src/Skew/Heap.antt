-- ===== src/Skew/Heap.antt =====
-- The priority queue that lab8/libs/skew_heap.h keeps.
use nku_os_ucore.Common.{
  ℕ, ◌+◌, ◌≤◌, ◌<◌, ◌≡◌, ◌≢◌, refl, sym, ap, ◌∙◌, ◌==◌, if◌then◌else◌, arith, ok, ℤ,
}
use nku_os_ucore.Skew.{Entry, skew_heap_init, skew_heap_insert, skew_heap_remove}
use nku_os_ucore.Skew.Tree.{
  Tree, leaf, node, root, size, count, Out, Each, Each-merge, Single, Single-merge, Apart,
  Apart-sym, count-merge, merge, remove,
}
use nku_os_ucore.Skew.Shape.{
  Lies, Under, Under-Same, Lies-Same, Same-put, node-Lies, put_self, put_same,
}
use nku_os_ucore.Skew.Order.{Ordered, Reads, Ordered-merge}
use nku_os_ucore.Skew.Merge.{less, skew_heap_merge-Merged, Under-Merged}
use nku_os_ucore.Skew.Detach.{Inside}
use nku_os_ucore.Skew.Remove.{skew_heap_remove-Removed}
use nku_os_ucore.Skew.Bag.{Each-remove, Ordered-remove, count-remove, Single-remove}

-- The tree `t` at `a`, with no entry twice, whose entries have the property `P` and come in the
-- order of their keys.
pub record Heap (key : ℕ → ℕ) (P : ℕ → Type 0) (m : ℕ → Entry) (a : ℕ) (t : Tree) : Type 0 where
  pub lies : Lies m a t
  pub under : Under m 0 t
  pub single : Single t
  pub ordered : Ordered key t
  pub each : Each P t

abbrev pub single_tree : ℕ → Tree
single_tree b = node leaf b leaf

Apart-single_tree : (b : ℕ) (t : Tree) → Out b t → Apart t (single_tree b)
Apart-single_tree b t o = Apart-sym (single_tree b) t (o, tt, tt)

-- The tree `t'` with the heap at `a'` is `t` with `b`.
pub record Inserted (key : ℕ → ℕ) (P : ℕ → Type 0) (m m' : ℕ → Entry) (b a' : ℕ) (t t' : Tree)
    : Type 0 where
  pub heap : Heap key P m' a' t'
  pub counts : (z : ℕ) → count z t' ≡ count z t + (if z == b then 1 else 0)
  pub same : (z : ℕ) → z ≢ b → Out z t → m' z ≡ m z

-- Let the comparison read keys on entries with a property `P`, and let a heap lie at `a` with a
-- tree of such entries, none twice, in the order of their keys, with its parent fields in place.
-- Then `skew_heap_insert` of another entry with `P`, with fuel for all entries, returns the root
-- of such a heap of the old entries and the new one, each as often as it should be, and changes no
-- entry outside of both.
pub skew_heap_insert-Inserted :
    (comp : ℕ → ℕ → ℤ) (key : ℕ → ℕ) (P : ℕ → Type 0) (fuel a b : ℕ) (m : ℕ → Entry) (t : Tree)
    → Reads (less comp) key P
    → Heap key P m a t
    → size t + 1 < fuel
    → b ≢ 0
    → Out b t
    → P b
    → (m' : ℕ → Entry) × (skew_heap_insert comp fuel a b m
        ≡ ok (root (merge (less comp) t (single_tree b)), m'))
      × Inserted key P m m' b
          (root (merge (less comp) t (single_tree b)))
          t
          (merge (less comp) t (single_tree b))
unfolding skew_heap_insert skew_heap_init
skew_heap_insert-Inserted comp key P fuel a b m t reads h lt nz o pb =
    let e : Entry = record { parent = 0; left = 0; right = 0 } in
    let m0 = skew_heap_init b m in
    let one = single_tree b in
    let apart = Apart-single_tree b t o in
    let st = Same-put m b e t o in
    let alone = node-Lies m e leaf b leaf nz tt tt tt tt refl refl in
    let (m', g) =
      skew_heap_merge-Merged comp fuel a b m0 t one (omega arith) (Lies-Same m m0 a t st h.lies)
        alone h.single (tt, tt, tt, tt, tt) apart in
    (
      m',
      g.done,
      record {
        heap = record {
          lies = g.lies;
          under =
              Under-Merged (less comp) m0 m' 0 t one (skew_heap_insert comp fuel a b m) g
                (Under-Same m m0 0 t st h.under) (ap (λ v. v.parent) (put_self m b e));
          single = Single-merge (less comp) t one h.single (tt, tt, tt, tt, tt) apart;
          ordered =
              Ordered-merge (less comp) key P reads t one h.each (pb, tt, tt) h.ordered
                (tt, tt, tt, tt);
          each = Each-merge (less comp) P t one h.each (pb, tt, tt);
        };
        counts = λ z. omega (arith, count-merge (less comp) z t one);
        same = λ z n q. g.same z q (n, tt, tt) ∙ put_same m b e z (λ s. n (sym s));
      },
    )

-- The tree `t'` with the heap at `a'` is `t` without `b`.
pub record Without (key : ℕ → ℕ) (P : ℕ → Type 0) (m m' : ℕ → Entry) (b a' : ℕ) (t t' : Tree)
    : Type 0 where
  pub heap : Heap key P m' a' t'
  pub counts : (z : ℕ) → count z t' + (if z == b then 1 else 0) ≡ count z t
  pub same : (z : ℕ) → Out z t → m' z ≡ m z

-- In such a heap, `skew_heap_remove` of an entry, wherever it stands, with fuel for all entries,
-- returns the root of such a heap without this entry and with all the others, and changes no entry
-- outside of the old heap.
pub skew_heap_remove-Without :
    (comp : ℕ → ℕ → ℤ) (key : ℕ → ℕ) (P : ℕ → Type 0) (fuel a b : ℕ) (m : ℕ → Entry) (t : Tree)
    → Reads (less comp) key P
    → Heap key P m a t
    → size t ≤ fuel
    → Inside b t
    → (m' : ℕ → Entry) × (skew_heap_remove comp fuel a b m ≡ ok (root (remove (less comp) b t), m'))
      × Without key P m m' b (root (remove (less comp) b t)) t (remove (less comp) b t)
skew_heap_remove-Without comp key P fuel a b m t reads h lt i =
    let (m', d, r) = skew_heap_remove-Removed comp fuel a b m t lt h.lies h.single h.under i in
    (
      m',
      d,
      record {
        heap = record {
          lies = r.lies;
          under = r.under;
          single = Single-remove (less comp) b t h.single;
          ordered = Ordered-remove (less comp) key P reads b t h.each h.ordered;
          each = Each-remove (less comp) P b t h.each;
        };
        counts = λ z. count-remove (less comp) z b t h.single i;
        same = r.same;
      },
    )
