-- ===== src/Protocol/Chain.antt =====
-- Calls of the routing table in a row, and that such a chain returns.
use auth_kademlia.Prelude.{ℕ, ◌≡◌, refl, ◌∙◌, ap, Bool, true, false, Option, List, if◌then◌else◌}
use auth_kademlia.Node.{Node}
use auth_kademlia.Routing.Table.{RoutingTable, Outcome, done, panic, out_of_fuel}
use auth_kademlia.Routing.Neighbors.{find_neighbors}
use auth_kademlia.Routing.Neighbors.Walk.{load}

unfoldable pub and_then : {A B : Type 0} → Outcome A → (A → Outcome B) → Outcome B
and_then (done a) f = f a
and_then panic f = panic
and_then out_of_fuel f = out_of_fuel

-- `find_neighbors` with the fuel that it needs.
unfoldable pub neighbors_of :
    ℕ → RoutingTable → Node → Option Node → Outcome (RoutingTable × List Node)
neighbors_of now t target exclude = find_neighbors (load t.buckets) now t target exclude

-- A call that returns, with a result for which `P` holds.
pub record Returns {A : Type 0} (P : A → Type 0) (o : Outcome A) : Type 0 where
  pub value : A
  pub result : o ≡ done value
  pub holds : P value

pub Returns-done : {A : Type 0} (P : A → Type 0) (a : A) → P a → Returns P (done a)
Returns-done P a p = record { value = a; result = refl; holds = p }

pub Returns-and_then :
    {A B : Type 0} (P : A → Type 0) (Q : B → Type 0) (o : Outcome A) (f : A → Outcome B)
    → Returns P o
    → ((a : A) → P a → Returns Q (f a))
    → Returns Q (and_then o f)
unfolding and_then
Returns-and_then P Q o f r go =
    let next = go r.value r.holds in
    record {
      value = next.value;
      result = ap (λ x. and_then x f) r.result ∙ next.result;
      holds = next.holds;
    }

pub Returns-map :
    {A : Type 0} (P Q : A → Type 0) (o : Outcome A)
    → ((a : A) → P a → Q a)
    → Returns P o
    → Returns Q o
Returns-map P Q o f r = record { value = r.value; result = r.result; holds = f r.value r.holds }

-- A call under a test.
pub Returns-if :
    {A : Type 0} (P : A → Type 0) (b : Bool) (o o' : Outcome A)
    → (b ≡ true → Returns P o)
    → (b ≡ false → Returns P o')
    → Returns P (if b then o else o')
Returns-if P true o o' f g = f refl
Returns-if P false o o' f g = g refl
