-- ===== src/LinkedList.antt =====
-- cdinit/dinit/src/includes/dinit-ll.h: the intrusive singly-linked list `slist`.
--
-- A pointer to an element is a number and the null pointer is `none`. The nodes embedded in the
-- elements are a store `next : ℕ → Option ℕ`, which survives the element's leaving the list.
pub mod Queue
pub mod Refine
pub mod Double
mod Tests
use cdinit.Base.{
  ℕ, ◌==◌, if◌then◌else◌, Bool, true, false, ◌||◌, Option, none, some, is_some, update,
}

-- `slist<T, E>`: `first`, and the `lls_node<T>::next` of every element.
pub record SList : Type 0 where
  pub first : Option ℕ
  pub next : ℕ → Option ℕ

abbrev pub points_to : Option ℕ → ℕ → Bool
points_to none e = false
points_to (some x) e = x == e

pub init : (ℕ → Option ℕ) → SList
init next = record { first = none; next = next }

pub is_queued : SList → ℕ → Bool
is_queued l e = is_some (l.next e) || points_to l.first e

pub insert : SList → ℕ → SList
insert l e = record l { first = some e; next = update l.next e l.first }

pub is_empty : SList → Bool
is_empty l = elim l.first [ none ↦ true | some x ↦ false ]

-- Dereferences `first`; the callers test `is_empty` before. On the empty list the C++ code reads
-- through a null pointer, here `none`.
pub pop_front : SList → Option (ℕ × SList)
pop_front l = elim l.first [
  | none ↦ none
  | some r ↦ some (r, record l { first = l.next r; next = update l.next r none })
]
