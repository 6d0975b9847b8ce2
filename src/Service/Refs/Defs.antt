-- ===== src/Service/Refs/Defs.antt =====
-- The invariant: `required_by` counts the explicit activation and the links that hold the service.
pub use cdinit.Base.{IsDistinct}
use cdinit.Base.{
  ℕ, suc, ◌+◌, ◌==◌, if◌then◌else◌, Bool, true, false, ◌≡◌, List, [], ◌∷◌, contains, arith, update,
  refl,
}
use cdinit.Service.Types.{pos, Service, Graph, World}

abbrev pub count : ℕ → List ℕ → ℕ
count a [] = 0
count a (x ∷ xs) = (if x == a then 1 else 0) + count a xs

-- How many links of a list are held.
abbrev pub held : (ℕ → Bool) → List ℕ → ℕ
held h [] = 0
held h (l ∷ ls) = (if h l then 1 else 0) + held h ls

abbrev pub explicit : Service → ℕ
explicit x = if x.start_explicit then 1 else 0

-- The two adjacency lists agree with the links.
pub record IsGraph (g : Graph) : Type 0 where
  pub own : (s l : ℕ) → contains (g.dependents s) l ≡ true → (g.link l).to ≡ s
  pub once : (s : ℕ) → IsDistinct (g.dependents s)
  pub once_on : (s : ℕ) → IsDistinct (g.depends_on s)
  pub listed :
      (s l : ℕ)
      → contains (g.depends_on s) l ≡ true
      → contains (g.dependents (g.link l).to) l ≡ true

-- The services of `p` have one reference more for each place that they have in `p`: it is taken and
-- not yet recorded, or no longer recorded and not yet released.
pub record Owes (g : Graph) (p : List ℕ) (w : World) : Type 0 where
  pub same_graph : w.graph ≡ g
  pub counted :
      (s : ℕ)
      → (w.svc s).required_by
        ≡ pos (explicit (w.svc s) + held w.holding_acq (g.dependents s) + count s p)

-- More may be owed than is known, never less.
abbrev pub Covered : Graph → World → Type 0
Covered g w = (q : List ℕ) × Owes g q w

-- Nothing is owed.
abbrev pub Balanced : Graph → World → Type 0
Balanced g w = Owes g [] w

pub held-update_absent :
    (h : ℕ → Bool) (l : ℕ) (b : Bool) (ls : List ℕ)
    → contains ls l ≡ false
    → held (update h l b) ls ≡ held h ls
held-update_absent h l b [] e = refl
held-update_absent h l b (k ∷ ls) e = ground (arith, held-update_absent h l b ls)

pub held-release :
    (h : ℕ → Bool) (l : ℕ) (ls : List ℕ)
    → contains ls l ≡ true
    → IsDistinct ls
    → h l ≡ true
    → held h ls ≡ suc (held (update h l false) ls)
held-release h l [] e d hl = absurd (ground arith)
held-release h l (k ∷ ls) e d hl =
    ground (arith, held-release h l ls, held-update_absent h l false ls)

pub held-acquire :
    (h : ℕ → Bool) (l : ℕ) (ls : List ℕ)
    → contains ls l ≡ true
    → IsDistinct ls
    → h l ≡ false
    → held (update h l true) ls ≡ suc (held h ls)
held-acquire h l [] e d hl = absurd (ground arith)
held-acquire h l (k ∷ ls) e d hl =
    ground (arith, held-acquire h l ls, held-update_absent h l true ls)

pub held-update_same :
    (h : ℕ → Bool) (l : ℕ) (ls : List ℕ) → h l ≡ true → held (update h l true) ls ≡ held h ls
held-update_same h l [] e = refl
held-update_same h l (k ∷ ls) e = ground (arith, held-update_same h l ls)
