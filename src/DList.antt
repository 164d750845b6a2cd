-- ===== src/DList.antt =====
-- libs/list.h: circular doubly linked lists threaded through structures by their addresses.
pub mod Ring
mod Tests
use nku_os_ucore.Common.{ℕ, Bool, ◌==◌, if◌then◌else◌}

-- The `prev` and `next` fields of every `list_entry_t`, by the address of the entry.
pub record Links : Type 0 where
  pub prev : ℕ → ℕ
  pub next : ℕ → ℕ

abbrev pub update : (ℕ → ℕ) → ℕ → ℕ → ℕ → ℕ
update f a v x = if x == a then v else f x

-- `p->next = v` and `p->prev = v`
unfoldable pub set_next : ℕ → ℕ → Links → Links
set_next p v l = record l { next = update l.next p v }

unfoldable pub set_prev : ℕ → ℕ → Links → Links
set_prev p v l = record l { prev = update l.prev p v }

unfoldable pub list_init : ℕ → Links → Links
list_init elm l = set_prev elm elm (set_next elm elm l)

-- `__list_add` and `__list_del`
unfoldable pub raw_list_add : ℕ → ℕ → ℕ → Links → Links
raw_list_add elm prev next l =
    set_prev elm prev (set_next elm next (set_next prev elm (set_prev next elm l)))

unfoldable pub raw_list_del : ℕ → ℕ → Links → Links
raw_list_del prev next l = set_prev next prev (set_next prev next l)

unfoldable pub list_add_after : ℕ → ℕ → Links → Links
list_add_after listelm elm l = raw_list_add elm listelm (l.next listelm) l

unfoldable pub list_add_before : ℕ → ℕ → Links → Links
list_add_before listelm elm l = raw_list_add elm (l.prev listelm) listelm l

unfoldable pub list_add : ℕ → ℕ → Links → Links
list_add listelm elm l = list_add_after listelm elm l

unfoldable pub list_del : ℕ → Links → Links
list_del listelm l = raw_list_del (l.prev listelm) (l.next listelm) l

unfoldable pub list_del_init : ℕ → Links → Links
list_del_init listelm l = list_init listelm (list_del listelm l)

unfoldable pub list_empty : ℕ → Links → Bool
list_empty list l = l.next list == list

abbrev pub list_next : ℕ → Links → ℕ
list_next listelm l = l.next listelm

abbrev pub list_prev : ℕ → Links → ℕ
list_prev listelm l = l.prev listelm
