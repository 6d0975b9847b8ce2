-- ===== src/LinkedList/Double.antt =====
-- cdinit/dinit/src/includes/dinit-ll.h: the intrusive doubly-linked list `dlist`, a circle.
--
-- Pointers are as in `slist`. A read through a null pointer gives `none`, and a write through it has no
-- effect; the code never does either where the pointers spell a list.
pub mod Circle
pub mod Refine
pub mod Without
pub mod Unlink
pub mod Run
use cdinit.Base.{
  ℕ, ◌==◌, if◌then◌else◌, not, Bool, true, false, Option, none, some, is_some, update,
}
use cdinit.LinkedList.{points_to}

-- `dlist<T, E>`: `first`, and the `lld_node<T>` of every element.
pub record DList : Type 0 where
  pub first : Option ℕ
  pub next : ℕ → Option ℕ
  pub prev : ℕ → Option ℕ

abbrev pub at : (ℕ → Option ℕ) → Option ℕ → Option ℕ
at f none = none
at f (some k) = f k

abbrev pub write : (ℕ → Option ℕ) → Option ℕ → Option ℕ → ℕ → Option ℕ
write f none v = f
write f (some k) v = update f k v

unfoldable pub is_queued : DList → ℕ → Bool
is_queued l e = is_some (l.next e)

unfoldable pub is_empty : DList → Bool
is_empty l = not (is_some l.first)

unfoldable pub append_to : DList → ℕ → Option ℕ → DList
append_to l e none = record {
  first = some e;
  next = update l.next e (some e);
  prev = update l.prev e (some e);
}
append_to l e (some f) =
    let next1 = update l.next e (some f) in
    let prev1 = update l.prev e (l.prev f) in
    record l { next = write next1 (prev1 f) (some e); prev = update prev1 f (some e) }

unfoldable pub append : DList → ℕ → DList
unfolding append_to
append l e = append_to l e l.first

unfoldable pub tail : DList → Option ℕ
tail l = at l.prev l.first

abbrev unlink_only : DList → ℕ → DList
unlink_only l r = record { first = none; next = update l.next r none; prev = update l.prev r none }

abbrev unlink_first : DList → ℕ → DList
unlink_first l r =
    let second = l.next r in
    let prev1 = write l.prev second (l.prev r) in
    let next1 = write l.next (at prev1 second) second in
    record { first = second; next = update next1 r none; prev = update prev1 r none }

-- Dereferences `first`; the callers test `is_empty` before.
unfoldable pub pop_first : DList → Option ℕ → Option (ℕ × DList)
pop_first l none = none
pop_first l (some r) =
    some (r, if points_to (l.next r) r then unlink_only l r else unlink_first l r)

unfoldable pub pop_front : DList → Option (ℕ × DList)
unfolding pop_first
pop_front l = pop_first l l.first

-- `first` after the removal of `e`, whose successor is `n`.
abbrev first_without : Option ℕ → Option ℕ → ℕ → Option ℕ
first_without f n e = if points_to f e then (if points_to n e then none else n) else f

unfoldable pub unlink : DList → ℕ → DList
unlink l e =
    let prev1 = write l.prev (l.next e) (l.prev e) in
    let next1 = write l.next (prev1 e) (l.next e) in
    record {
      first = first_without l.first (l.next e) e;
      next = update next1 e none;
      prev = update prev1 e none;
    }
