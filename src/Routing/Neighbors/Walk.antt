-- ===== src/Routing/Neighbors/Walk.antt =====
-- The traverser visits every contact once.
use mathlib.Core.List.{reverse, reverse_aux, Perm, perm_middle, append_assoc, append-nil}
use mathlib.Core.List.Perm
use mathlib.Core.Option
use auth_kademlia.Prelude.{
  ℕ, zero, suc, ◌+◌, ◌<◌, ◌≡◌, refl, sym, ap, ◌∙◌, Bool, true, false, Option, some, List, [], ◌∷◌,
  ◌++◌, length, arith,
}
use auth_kademlia.Prelude.Members.{length-perm}
use auth_kademlia.Node.{Node}
use auth_kademlia.Routing.Bucket.{KBucket}
use auth_kademlia.Routing.Neighbors.{TableTraverser, Step, yields, refills, ends, step, walk}

-- All contacts of some buckets.
unfoldable pub contacts : List KBucket → List Node
contacts [] = []
contacts (b ∷ bs) = b.nodes ++ contacts bs

-- The steps that `contacts` of some buckets take.
unfoldable pub load : List KBucket → ℕ
load [] = 0
load (b ∷ bs) = suc (length b.nodes + load bs)

abbrev pub ahead : TableTraverser → List Node
ahead t = t.current_nodes ++ (contacts t.left_buckets ++ contacts t.right_buckets)

abbrev pub weight : TableTraverser → ℕ
weight t = length t.current_nodes + load t.left_buckets + load t.right_buckets

-- The nodes of some buckets, most recently seen first in each.
unfoldable pub blocks : List KBucket → List Node
blocks [] = []
blocks (b ∷ bs) = reverse b.nodes ++ blocks bs

-- A bucket of the left and one of the right in turns, then what one side has left.
unfoldable pub in_turns : List KBucket → List KBucket → List Node
unfolding blocks
in_turns [] right = blocks right
in_turns (x ∷ left) [] = blocks (x ∷ left)
in_turns (x ∷ left) (y ∷ right) = reverse x.nodes ++ (reverse y.nodes ++ in_turns left right)

-- The turns, from the side that is next.
unfoldable pub turns : Bool → List KBucket → List KBucket → List Node
unfolding in_turns
turns true left right = in_turns left right
turns false left [] = blocks left
turns false left (y ∷ right) = reverse y.nodes ++ in_turns left right

abbrev pub planned : TableTraverser → List Node
planned t = t.current_nodes ++ turns t.take_left t.left_buckets t.right_buckets

reverse_aux-perm {ℓ} : {A : Type ℓ} (xs ys : List A) → Perm (reverse_aux xs ys) (xs ++ ys)
reverse_aux-perm [] ys = Perm.refl ys
reverse_aux-perm (x ∷ xs) ys = Perm.trans (reverse_aux-perm xs (x ∷ ys)) (perm_middle {a = x} xs ys)

pub reverse-perm {ℓ} : {A : Type ℓ} (xs : List A) → Perm xs (reverse xs)
reverse-perm xs = Perm.symm (rw append-nil at (reverse_aux-perm xs []))

pub swap_blocks {ℓ} : {A : Type ℓ} (xs ys zs : List A) → Perm (xs ++ (ys ++ zs)) (ys ++ (xs ++ zs))
swap_blocks xs [] zs = Perm.refl _
swap_blocks xs (y ∷ ys) zs =
    Perm.trans (perm_middle {a = y} xs (ys ++ zs)) (Perm.cons y (swap_blocks xs ys zs))

-- What one step owes to the nodes ahead.
abbrev Advances : TableTraverser → Step → Type 0
Advances t (yields n t') =
    Perm (ahead t) (n ∷ ahead t') × (weight t ≡ suc (weight t')) × (planned t ≡ n ∷ planned t')
Advances t (refills t') =
    Perm (ahead t) (ahead t') × (weight t ≡ suc (weight t')) × (planned t ≡ planned t')
Advances t ends = (ahead t ≡ []) × (planned t ≡ [])

module _ (b : KBucket) where
  turned : Perm b.nodes (reverse b.nodes)
  turned = reverse-perm b.nodes

  front_left :
      (bs cs : List KBucket)
      → Perm (contacts (b ∷ bs) ++ contacts cs) (reverse b.nodes ++ (contacts bs ++ contacts cs))
  unfolding contacts
  front_left bs cs =
      rw (append_assoc b.nodes (contacts bs) (contacts cs))
        (Perm.append_right (contacts bs ++ contacts cs) turned)

  front_right :
      (bs cs : List KBucket)
      → Perm (contacts bs ++ contacts (b ∷ cs)) (reverse b.nodes ++ (contacts bs ++ contacts cs))
  unfolding contacts
  front_right bs cs =
      Perm.trans (swap_blocks (contacts bs) b.nodes (contacts cs))
        (Perm.append_right (contacts bs ++ contacts cs) turned)

step_from :
    (current : List Node) (left right : List KBucket) (side : Bool)
    → let t : TableTraverser = record {
      current_nodes = current;
      left_buckets = left;
      right_buckets = right;
      take_left = side;
    } in
      Advances t (step t)
unfolding step load contacts turns in_turns blocks
step_from (n ∷ ns) left right side = (Perm.refl _, omega arith, refl)
step_from [] [] [] true = (refl, refl)
step_from [] [] [] false = (refl, refl)
step_from [] [] (y ∷ right) true =
    (front_right y [] right, omega (arith, length-perm (turned y)), refl)
step_from [] [] (y ∷ right) false =
    (front_right y [] right, omega (arith, length-perm (turned y)), refl)
step_from [] (x ∷ left) [] true =
    (front_left x left [], omega (arith, length-perm (turned x)), refl)
step_from [] (x ∷ left) (y ∷ right) true =
    (front_left x left (y ∷ right), omega (arith, length-perm (turned x)), refl)
step_from [] (x ∷ left) [] false =
    (front_left x left [], omega (arith, length-perm (turned x)), refl)
step_from [] (x ∷ left) (y ∷ right) false =
    (front_right y (x ∷ left) right, omega (arith, length-perm (turned y)), refl)

-- A walk with more fuel than steps ahead ends, and has visited every node ahead once, as planned.
abbrev pub Visits : TableTraverser → Option (List Node) → Type 0
Visits t o = (ns : List Node) × (o ≡ some ns) × Perm (ahead t) ns × (ns ≡ planned t)

module _ (fuel : ℕ) (t : TableTraverser)
    (below : (t' : TableTraverser) → weight t' < fuel → Visits t' (walk fuel t')) where
  visit :
      (s : Step)
      → Advances t s
      → weight t < suc fuel
      → Visits t (elim s [
        | yields n t' ↦ Option.map (◌∷◌ n) (walk fuel t')
        | refills t' ↦ walk fuel t'
        | ends ↦ some []
      ])
  visit (yields n t') (moved, less, plan) h =
      let (ns, e, seen, order) = below t' (omega arith) in
      (
        n ∷ ns,
        ap (Option.map (◌∷◌ n)) e,
        Perm.trans moved (Perm.cons n seen),
        ap (◌∷◌ n) order ∙ sym plan,
      )
  visit (refills t') (moved, less, plan) h =
      let (ns, e, seen, order) = below t' (omega arith) in
      (ns, e, Perm.trans moved seen, order ∙ sym plan)
  visit ends (none_left, plan) h = ([], refl, rw none_left (Perm.refl []), sym plan)

pub walk-Visits : (fuel : ℕ) (t : TableTraverser) → weight t < fuel → Visits t (walk fuel t)
unfolding walk
walk-Visits zero t h = absurd (omega arith)
walk-Visits (suc fuel) t h =
    visit fuel t (walk-Visits fuel) (step t)
      (step_from t.current_nodes t.left_buckets t.right_buckets t.take_left) h
