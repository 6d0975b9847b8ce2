-- ===== src/LinkedList/Queue.antt =====
-- What `slist` of cdinit/dinit/src/includes/dinit-ll.h is, seen as a list of elements.
use cdinit.Base.{
  ℕ, ◌==◌, if◌then◌else◌, Bool, false, ◌||◌, Option, none, some, is_some, List, [], ◌∷◌,
}

-- The element behind the first occurrence of `e` that is not the last of the list.
abbrev pub successor : List ℕ → ℕ → Option ℕ
successor [] e = none
successor (x ∷ []) e = none
successor (x ∷ y ∷ r) e = if e == x then some y else successor (y ∷ r) e

-- `is_queued` as the pointers decide it: at the head, or with a successor.
unfoldable pub is_queued : List ℕ → ℕ → Bool
is_queued [] e = false
is_queued (x ∷ r) e = is_some (successor (x ∷ r) e) || x == e

-- The guarded insertion of `service_set::add_prop_queue` and `add_transition_queue`.
unfoldable pub add : List ℕ → ℕ → List ℕ
add xs e = if is_queued xs e then xs else e ∷ xs
