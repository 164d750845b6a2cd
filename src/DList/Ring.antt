-- ===== src/DList/Ring.antt =====
-- What the operations of libs/list.h do to the sequence of entries that a list head stands for.
use nku_os_ucore.Common.{
  subst, append-nil, true, refl, ◌↔◌, ℕ, ◌≡◌, sym, ◌≢◌, List, [], ◌∷◌, ◌++◌, arith,
}
use nku_os_ucore.Common.Distinct.{
  NotIn, Distinct, last, first, NotIn-last, NotIn-append, NotIn-append_left, NotIn-append_right,
  Distinct-append_left, Distinct-middle, Distinct-insert, Distinct-remove, NotIn-last_of_Distinct,
}
use nku_os_ucore.DList.{
  Links, set_next, set_prev, raw_list_add, raw_list_del, list_add, list_add_after, list_add_before,
  list_del, list_init, list_empty,
}

-- From entry `a` the `next` fields lead through `xs` to `b`, and the `prev` fields lead back.
abbrev pub Linked : Links → ℕ → List ℕ → ℕ → Type 0
Linked l a [] b = (l.next a ≡ b) × (l.prev b ≡ a)
Linked l a (x ∷ xs) b = (l.next a ≡ x) × (l.prev x ≡ a) × Linked l x xs b

-- A write outside a segment leaves it alone.
pub Linked-set_next :
    (l : Links) (v w a : ℕ) (xs : List ℕ) (b : ℕ)
    → v ≢ a
    → NotIn v xs
    → Linked l a xs b
    → Linked (set_next v w l) a xs b
unfolding set_next
Linked-set_next l v w a [] b h k s = ground arith
Linked-set_next l v w a (x ∷ xs) b h k s = ground (arith, Linked-set_next l v w x xs b k.0 k.1 s.2)

pub Linked-set_prev :
    (l : Links) (v w a : ℕ) (xs : List ℕ) (b : ℕ)
    → v ≢ b
    → NotIn v xs
    → Linked l a xs b
    → Linked (set_prev v w l) a xs b
unfolding set_prev
Linked-set_prev l v w a [] b h k s = ground arith
Linked-set_prev l v w a (x ∷ xs) b h k s = ground (arith, Linked-set_prev l v w x xs b h k.1 s.2)

pub prev-last : (l : Links) (a : ℕ) (xs : List ℕ) (b : ℕ) → Linked l a xs b → l.prev b ≡ last a xs
prev-last l a [] b s = s.1
prev-last l a (x ∷ xs) b s = prev-last l x xs b s.2

pub next-first : (l : Links) (a : ℕ) (xs : List ℕ) (b : ℕ) → Linked l a xs b → l.next a ≡ first xs b
next-first l a [] b s = s.0
next-first l a (x ∷ xs) b s = s.0

pub next-last :
    (l : Links) (a : ℕ) (xs ys : List ℕ) (b : ℕ)
    → Linked l a (xs ++ ys) b
    → l.next (last a xs) ≡ first ys b
next-last l a [] ys b s = next-first l a ys b s
next-last l a (x ∷ xs) ys b s = next-last l x xs ys b s.2

pub next-last_end :
    (l : Links) (a : ℕ) (xs : List ℕ) (b : ℕ) → Linked l a xs b → l.next (last a xs) ≡ b
next-last_end l a [] b s = s.0
next-last_end l a (x ∷ xs) b s = next-last_end l x xs b s.2

-- Segments join and split at an entry.
pub Linked-join :
    (l : Links) (a : ℕ) (xs : List ℕ) (x : ℕ) (ys : List ℕ) (b : ℕ)
    → Linked l a xs x
    → Linked l x ys b
    → Linked l a (xs ++ x ∷ ys) b
Linked-join l a [] x ys b s t = (s.0, s.1, t)
Linked-join l a (z ∷ xs) x ys b s t = (s.0, s.1, Linked-join l z xs x ys b s.2 t)

pub Linked-split :
    (l : Links) (a : ℕ) (xs : List ℕ) (x : ℕ) (ys : List ℕ) (b : ℕ)
    → Linked l a (xs ++ x ∷ ys) b
    → Linked l a xs x × Linked l x ys b
Linked-split l a [] x ys b s = ((s.0, s.1), s.2)
Linked-split l a (z ∷ xs) x ys b s =
    let r = Linked-split l z xs x ys b s.2 in ((s.0, s.1, r.0), r.1)

-- Two writes move the end of a segment from `b` to `d`.
pub Linked-retarget :
    (l : Links) (a : ℕ) (xs : List ℕ) (b d : ℕ)
    → Distinct (a ∷ xs)
    → NotIn d xs
    → Linked l a xs b
    → Linked (set_next (last a xs) d (set_prev d (last a xs) l)) a xs d
unfolding set_next set_prev
Linked-retarget l a [] b d h k s = ground arith
Linked-retarget l a (x ∷ xs) b d h k s =
    ground (arith, Linked-retarget l x xs b d h.1 k.1 s.2, NotIn-last a x xs h.0.0 h.0.1)

-- The segment before a new entry `e` ends at `e`, which is joined to `n`.
raw_list_add_left :
    (e n a : ℕ) (xs : List ℕ) (l : Links)
    → Distinct (a ∷ xs)
    → NotIn e (a ∷ xs)
    → NotIn n xs
    → e ≢ n
    → Linked l a xs n
    → let l' = raw_list_add e (last a xs) n l in
      Linked l' a xs e × (l'.next e ≡ n) × (l'.prev n ≡ e)
unfolding raw_list_add set_next set_prev
raw_list_add_left e n a [] l d k m ne s = ground arith
raw_list_add_left e n a (x ∷ xs) l d k m ne s =
    ground (arith, raw_list_add_left e n x xs l d.1 k.1 m.1 ne s.2, NotIn-last a x xs d.0.0 d.0.1)

-- The segment after it stays.
raw_list_add_right :
    (e p n : ℕ) (ys : List ℕ) (b : ℕ) (l : Links)
    → NotIn e (n ∷ ys)
    → e ≢ b
    → NotIn p (n ∷ ys)
    → NotIn n ys
    → n ≢ b
    → Linked l n ys b
    → Linked (raw_list_add e p n l) n ys b
unfolding raw_list_add
raw_list_add_right e p n ys b l k eb m d nb s = Linked-set_prev _ e p n ys b eb k.1 (
    Linked-set_next _ e n n ys b k.0 k.1
      (Linked-set_next _ p e n ys b m.0 m.1 (Linked-set_prev l n e n ys b nb d s)))

-- A list head `h` stands for the sequence `xs` of distinct entries.
pub record Ring (l : Links) (h : ℕ) (xs : List ℕ) : Type 0 where
  pub linked : Linked l h xs h
  pub distinct : Distinct (h ∷ xs)

raw_list_add-Ring :
    (l : Links) (h e : ℕ) (xs ys : List ℕ)
    → Ring l h (xs ++ ys)
    → e ≢ h
    → NotIn e (xs ++ ys)
    → Ring (raw_list_add e (last h xs) (first ys h) l) h (xs ++ e ∷ ys)
raw_list_add-Ring l h e xs [] r eh k =
    let eq = append-nil xs in
    let d : Distinct (h ∷ xs) = subst (λ z. Distinct (h ∷ z)) eq r.distinct in
    let k' : NotIn e xs = subst (NotIn e) eq k in
    let s : Linked l h xs h = subst (λ z. Linked l h z h) eq r.linked in
    let t = raw_list_add_left e h h xs l d (eh, k') d.0 eh s in
    record {
      linked = Linked-join _ h xs e [] h t.0 (t.1, t.2);
      distinct = (
        NotIn-append h xs (e ∷ []) d.0 ((λ q. eh (sym q)), tt),
        Distinct-insert xs e [] k r.distinct.1,
      );
    }
raw_list_add-Ring l h e xs (c ∷ ys) r eh k =
    let d = r.distinct in
    let d' : Distinct (h ∷ xs) = Distinct-append_left (h ∷ xs) (c ∷ ys) d in
    let m = Distinct-middle xs c ys d.1 in
    let hc = NotIn-append_right h xs (c ∷ ys) d.0 in
    let ke = NotIn-append_right e xs (c ∷ ys) k in
    let s = Linked-split l h xs c ys h r.linked in
    let t = raw_list_add_left e c h xs l d' (eh, NotIn-append_left e xs (c ∷ ys) k) m.0 ke.0 s.0 in
    let u =
      raw_list_add_right e (last h xs) c ys h l ke eh (NotIn-last_of_Distinct h xs (c ∷ ys) d) m.1
        (λ q. hc.0 (sym q)) s.1 in
    record {
      linked = Linked-join _ h xs e (c ∷ ys) h t.0 (t.1, t.2, u);
      distinct = (
        NotIn-append h xs (e ∷ c ∷ ys) d'.0 ((λ q. eh (sym q)), hc),
        Distinct-insert xs e (c ∷ ys) k d.1,
      );
    }

-- `list_add(h, e)` puts a new entry first.
pub list_add-Ring :
    (l : Links) (h e : ℕ) (xs : List ℕ)
    → Ring l h xs
    → e ≢ h
    → NotIn e xs
    → Ring (list_add h e l) h (e ∷ xs)
unfolding list_add list_add_after
list_add-Ring l h e xs r eh k =
    rw (next-first l h xs h r.linked) (raw_list_add-Ring l h e [] xs r eh k)

-- If the list head `h` stands for the distinct entries `xs ++ ys`, then `list_add_before` of an
-- entry `e` that is none of them, at the first entry of `ys` (or the head, if `ys` is empty),
-- makes it stand for `xs ++ e ∷ ys`.
pub list_add_before-Ring :
    (l : Links) (h e : ℕ) (xs ys : List ℕ)
    → Ring l h (xs ++ ys)
    → e ≢ h
    → NotIn e (xs ++ ys)
    → Ring (list_add_before (first ys h) e l) h (xs ++ e ∷ ys)
unfolding list_add_before
list_add_before-Ring l h e xs [] r eh k =
    rw (prev-last l h xs h (subst (λ z. Linked l h z h) (append-nil xs) r.linked))
      (raw_list_add-Ring l h e xs [] r eh k)
list_add_before-Ring l h e xs (c ∷ ys) r eh k =
    rw (prev-last l h xs c (Linked-split l h xs c ys h r.linked).0)
      (raw_list_add-Ring l h e xs (c ∷ ys) r eh k)

-- If the list head `h` stands for the distinct entries `xs ++ ys`, then `list_add` of an entry
-- `e` that is none of them, at the last entry of `xs` (or the head, if `xs` is empty), makes it
-- stand for `xs ++ e ∷ ys`.
pub list_add_at-Ring :
    (l : Links) (h e : ℕ) (xs ys : List ℕ)
    → Ring l h (xs ++ ys)
    → e ≢ h
    → NotIn e (xs ++ ys)
    → Ring (list_add (last h xs) e l) h (xs ++ e ∷ ys)
unfolding list_add list_add_after
list_add_at-Ring l h e xs ys r eh k =
    rw (next-last l h xs ys h r.linked) (raw_list_add-Ring l h e xs ys r eh k)

pub list_add_after-Ring :
    (l : Links) (h e : ℕ) (xs ys : List ℕ)
    → Ring l h (xs ++ ys)
    → e ≢ h
    → NotIn e (xs ++ ys)
    → Ring (list_add_after (last h xs) e l) h (xs ++ e ∷ ys)
unfolding list_add_after
list_add_after-Ring l h e xs ys r eh k =
    rw (next-last l h xs ys h r.linked) (raw_list_add-Ring l h e xs ys r eh k)

-- `list_del(c)` takes the entry `c` out.
raw_list_del_left :
    (n a : ℕ) (xs : List ℕ) (c : ℕ) (l : Links)
    → Distinct (a ∷ xs)
    → NotIn n xs
    → Linked l a xs c
    → Linked (raw_list_del (last a xs) n l) a xs n
unfolding raw_list_del set_next set_prev
raw_list_del_left n a [] c l d m s = ground arith
raw_list_del_left n a (x ∷ xs) c l d m s =
    ground (arith, raw_list_del_left n x xs c l d.1 m.1 s.2, NotIn-last a x xs d.0.0 d.0.1)

raw_list_del_right :
    (p n : ℕ) (ys : List ℕ) (b : ℕ) (l : Links)
    → NotIn p (n ∷ ys)
    → NotIn n ys
    → n ≢ b
    → Linked l n ys b
    → Linked (raw_list_del p n l) n ys b
unfolding raw_list_del
raw_list_del_right p n ys b l m d nb s =
    Linked-set_prev _ n p n ys b nb d (Linked-set_next l p n n ys b m.0 m.1 s)

-- If the list head `h` stands for the distinct entries `xs ++ c ∷ ys`, then after `list_del` of
-- `c` it stands for `xs ++ ys`.
pub list_del-Ring :
    (l : Links) (h c : ℕ) (xs ys : List ℕ)
    → Ring l h (xs ++ c ∷ ys)
    → Ring (list_del c l) h (xs ++ ys)
unfolding list_del
list_del-Ring l h c xs [] r =
    let s = Linked-split l h xs c [] h r.linked in
    let d = r.distinct in
    let d' : Distinct (h ∷ xs) = Distinct-append_left (h ∷ xs) (c ∷ []) d in
    rw (append-nil, s.1.0, prev-last l h xs c s.0)
      (record { linked = raw_list_del_left h h xs c l d' d'.0 s.0; distinct = d' })
list_del-Ring l h c xs (y ∷ ys) r =
    let s = Linked-split l h xs c (y ∷ ys) h r.linked in
    let d = r.distinct in
    let d' : Distinct (h ∷ xs) = Distinct-append_left (h ∷ xs) (c ∷ y ∷ ys) d in
    let e = Distinct-remove xs c (y ∷ ys) d.1 in
    let hy = (NotIn-append_right h xs (c ∷ y ∷ ys) d.0).1 in
    let m = Distinct-middle xs y ys e in
    let p = (NotIn-last_of_Distinct h xs (c ∷ y ∷ ys) d).1 in
    rw (s.1.0, prev-last l h xs c s.0)
      (record {
        linked =
            Linked-join _ h xs y ys h (raw_list_del_left y h xs c l d' m.0 s.0)
              (raw_list_del_right (last h xs) y ys h l p m.1 (λ q. hy.0 (sym q)) s.1.2);
        distinct = (NotIn-append h xs (y ∷ ys) d'.0 hy, e);
      })

-- `list_init` makes an empty list, and `list_empty` tells it from every other.
pub list_init-Ring : (l : Links) (h : ℕ) → Ring (list_init h l) h []
unfolding list_init set_next set_prev
list_init-Ring l h = record { linked = ground arith; distinct = (tt, tt) }

pub list_empty-Ring :
    (l : Links) (h : ℕ) (xs : List ℕ) → Ring l h xs → (list_empty h l ≡ true) ↔ (xs ≡ [])
unfolding list_empty
list_empty-Ring l h [] r = ((λ q. refl), (λ q. let e = r.linked.0 in ground arith))
list_empty-Ring l h (x ∷ xs) r =
    ((λ q. absurd (let e = r.linked.0 in let n = r.distinct.0.0 in ground arith)), (λ q. cc))
