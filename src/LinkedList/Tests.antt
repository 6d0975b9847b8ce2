-- ===== src/LinkedList/Tests.antt =====
-- The theorems on `slist` and `dlist` of cdinit/dinit/src/includes/dinit-ll.h at small lists.
use cdinit.Base.{
  true, false, none, some, List, [], ◌∷◌, ◌++◌, ◌≡◌, refl, arith, contains, ◌==◌, if◌then◌else◌,
}
use cdinit.LinkedList.{SList, init, is_queued}
use cdinit.LinkedList.Double.{is_empty, is_queued as is_linked, tail}
use cdinit.LinkedList.Double.Run
use cdinit.LinkedList.Refine.{Repr, Op, add, pop, run, run_list, run_refines, is_queued-tail}

-- 5, then 6, then 7.
abbrev three : SList
three = record {
  first = some 5;
  next = λ e. if e == 5 then some 6 else (if e == 6 then some 7 else none);
}

three-Repr : Repr three ((5 ∷ 6 ∷ []) ++ (7 ∷ []))
three-Repr = record { at_head = refl; linked = λ e. ground arith }

empty-Repr : Repr (init (λ e. none)) []
unfolding init
empty-Repr = record { at_head = refl; linked = λ e. refl }

abbrev ops : List Op
ops = add 5 ∷ add 6 ∷ add 5 ∷ pop ∷ pop ∷ pop ∷ []

run_refines_example : run (init (λ e. none)) ops ≡ run_list [] ops
run_refines_example = run_refines ops (init (λ e. none)) [] empty-Repr tt

is_queued-tail_example : is_queued three 7 ≡ contains (5 ∷ 6 ∷ []) 7
is_queued-tail_example = is_queued-tail three 5 (6 ∷ []) 7 7 three-Repr

abbrev through : List Run.Op
through =
    Run.appends 5 ∷ Run.appends 6 ∷ Run.appends 7 ∷ Run.unlinks 6 ∷ Run.pops ∷ Run.appends 6 ∷ []

through-AreFit : Run.AreFit through ([], [])
through-AreFit = (refl, (refl, (refl, (refl, (refl, (refl, tt))))))

dlist_refines_example :
    let (outs, l) = Run.run through ([], Run.empty) in
    (outs ≡ 5 ∷ []) × (is_empty l ≡ false) × (tail l ≡ some 6) × (is_linked l 7 ≡ true)
dlist_refines_example = Run.dlist_refines through 7 through-AreFit
