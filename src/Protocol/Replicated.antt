-- ===== src/Protocol/Replicated.antt =====
-- Whom `welcome_if_new` takes into the router, and which records it shares with the new node.
use auth_kademlia.Prelude.{
  ℕ, ◌<◌, ◌≡◌, refl, inl, inr, true, false, Option, none, some, List, [], ◌∷◌, length, ◌==◌, arith,
  Bool-cases,
}
use auth_kademlia.Prelude.Bytes.{Bytes}
use auth_kademlia.Node.{Node, id_len, from_id, distance_to}
use auth_kademlia.Routing.Table.{
  RoutingTable, Outcome, done, panic, out_of_fuel, is_new_node, add_contact,
}
use auth_kademlia.Routing.Known.{Whenever, Whenever-done}
use auth_kademlia.Storage.{iter_all}
use auth_kademlia.Protocol.{KademliaProtocol}
use auth_kademlia.Protocol.Chain.{and_then, neighbors_of, Returns}
use auth_kademlia.Protocol.Welcome.{
  Welcome, welcome, welcome_if_new, keys_to_replicate, is_replicated, nearer_than, first_node,
  last_node,
}
use auth_kademlia.Protocol.Welcomed.{CanWelcome, Welcomed, welcome_if_new-Welcomed}

-- Strictly nearer to the key than the other node, if there is one.
abbrev Nearer : Node → Node → Option Node → Type 0
Nearer node key none = Unit
Nearer node key (some other) = distance_to node key < distance_to other key

-- The new node is nearer to the key than the farthest neighbour, and the local one than the nearest.
abbrev IsDue : Node → Node → Node → List Node → Type 0
IsDue self node key ns = Nearer node key (last_node ns) × Nearer self key (first_node ns)

-- The records that are shared, out of some records in their order, by searches one after the other.
pub data Shares (now : ℕ) (self node : Node)
    : RoutingTable → List (Bytes × Bytes) → RoutingTable → List (Bytes × Bytes) → Type 0 where
  over : (t : RoutingTable) → Shares now self node t [] t []
  passed :
      (t t' : RoutingTable) (key value : Bytes) (es out : List (Bytes × Bytes))
      → (length key ≡ id_len → ⊥)
      → Shares now self node t es t' out
      → Shares now self node t ((key, value) ∷ es) t' out
  shared :
      (t next t' : RoutingTable) (ns : List Node) (key value : Bytes)
      (es out : List (Bytes × Bytes))
      → neighbors_of now t (from_id key) none ≡ done (next, ns)
      → IsDue self node (from_id key) ns
      → Shares now self node next es t' out
      → Shares now self node t ((key, value) ∷ es) t' ((key, value) ∷ out)
  kept :
      (t next t' : RoutingTable) (ns : List Node) (key value : Bytes)
      (es out : List (Bytes × Bytes))
      → neighbors_of now t (from_id key) none ≡ done (next, ns)
      → (IsDue self node (from_id key) ns → ⊥)
      → Shares now self node next es t' out
      → Shares now self node t ((key, value) ∷ es) t' out

nearer_than-Nearer :
    (node key : Node) (o : Option Node)
    → (nearer_than node key o ≡ true → Nearer node key o)
      × (Nearer node key o → nearer_than node key o ≡ true)
unfolding nearer_than
nearer_than-Nearer node key none = ((λ h. tt), (λ h. refl))
nearer_than-Nearer node key (some other) = ((λ h. ground arith), (λ h. ground arith))

is_replicated-IsDue :
    (self node key : Node) (ns : List Node)
    → is_replicated self node key ns ≡ true
    → IsDue self node key ns
unfolding is_replicated
is_replicated-IsDue self node key ns h = (
  (nearer_than-Nearer node key (last_node ns)).0 (ground arith),
  (nearer_than-Nearer self key (first_node ns)).0 (ground arith),
)

is_replicated-not :
    (self node key : Node) (ns : List Node)
    → is_replicated self node key ns ≡ false
    → IsDue self node key ns
    → ⊥
unfolding is_replicated
is_replicated-not self node key ns h due =
    let far = (nearer_than-Nearer node key (last_node ns)).1 due.0 in
    let near = (nearer_than-Nearer self key (first_node ns)).1 due.1 in ground arith

Whenever-and_then :
    {A B : Type 0} (Q : B → Type 0) (o : Outcome A) (f : A → Outcome B)
    → ((a : A) → o ≡ done a → Whenever Q (f a))
    → Whenever Q (and_then o f)
unfolding and_then
Whenever-and_then Q (done a) f go = go a refl
Whenever-and_then Q panic f go = tt
Whenever-and_then Q out_of_fuel f go = tt

module _ (now : ℕ) (self node : Node) where
  keys_to_replicate-Shares :
      (t : RoutingTable) (es : List (Bytes × Bytes))
      → Whenever
          (λ (r : RoutingTable × List (Bytes × Bytes)). Shares now self node t es r.0 r.1)
          (keys_to_replicate now self node t es)
  unfolding keys_to_replicate
  keys_to_replicate-Shares t [] = over t
  keys_to_replicate-Shares t ((key, value) ∷ es) = elim (Bool-cases (length key == id_len)) [
    | inr short ↦
        rw (short, keys_to_replicate)
          (further t es (keys_to_replicate now self node t es) (keys_to_replicate-Shares t es)
            (λ r s. passed t r.0 key value es r.1 (λ e. ground arith) s))
    | inl sized ↦
        rw (sized, keys_to_replicate)
          (Whenever-and_then _ (neighbors_of now t (from_id key) none) _ (λ found e.
            Whenever-and_then _ (keys_to_replicate now self node found.0 es) _ (λ rest r.
              let s = Whenever-done _ _ _ r (keys_to_replicate-Shares found.0 es) in
              elim (Bool-cases (is_replicated self node (from_id key) found.1)) [
                | inl due ↦ rw due (
                    shared t found.0 rest.0 found.1 key value es rest.1 e
                      (is_replicated-IsDue self node (from_id key) found.1 due) s)
                | inr not_due ↦ rw not_due (
                    kept t found.0 rest.0 found.1 key value es rest.1 e
                      (is_replicated-not self node (from_id key) found.1 not_due) s)
              ])))
  ]
    where
      further :
          {A : Type 0} {P Q : A → Type 0} (t : RoutingTable) (es : List (Bytes × Bytes))
          (o : Outcome A)
          → Whenever P o
          → ((a : A) → P a → Q a)
          → Whenever Q o
      further t es (done a) w f = f a w
      further t es panic w f = tt
      further t es out_of_fuel w f = tt

module _ {Cache : Type 0} (p : KademliaProtocol Cache) (now : ℕ) (node : Node) where
  -- What a new node gets, and what becomes of one that the router knows.
  pub record Replicated (w : Welcome Cache) : Type 0 where
    pub welcomed : Welcomed p now w
    pub known :
        is_new_node p.router node ≡ done false → w ≡ record { after = p; pings = none; stores = [] }
    pub new :
        is_new_node p.router node ≡ done true
        → (t : RoutingTable) × Shares now p.source_node node p.router
            (iter_all p.storage now)
            t
            w.stores
          × (add_contact 129 now t node ≡ done (w.after.router, w.pings))

  welcome-new :
      Whenever
        (λ w.
          (t : RoutingTable) × Shares now p.source_node node p.router
            (iter_all p.storage now)
            t
            w.stores
          × (add_contact 129 now t node ≡ done (w.after.router, w.pings)))
        (welcome p now node)
  unfolding welcome
  welcome-new = Whenever-and_then _ _ _ (λ keys e. Whenever-and_then _ _ _ (λ added a. (
    keys.0,
    Whenever-done _ _ _ e
        (keys_to_replicate-Shares now p.source_node node p.router (iter_all p.storage now)),
    a,
  )))

  -- For a peer with a router in order, a node with a 128-bit `long_id` and fewer twins in the
  -- router than a bucket has room for, and stored keys that are bytes, `welcome_if_new` returns. It
  -- leaves the state as it is, and shares nothing, if the node is among the contacts. Otherwise it
  -- shares, of the live records in their order, exactly those under a key of 20 bytes to which the
  -- new node is nearer than the last of the key's neighbours in the router, and the local node
  -- nearer than the first; it adds the node, and pings the contact that this names. Only the router
  -- changes, which stays in order.
  pub welcome_if_new-Replicated : CanWelcome p node → Returns Replicated (welcome_if_new p now node)
  unfolding welcome_if_new and_then
  welcome_if_new-Replicated v =
      let r = welcome_if_new-Welcomed p now node v in
      record {
        value = r.value;
        result = r.result;
        holds = record {
          welcomed = r.holds;
          known = λ e. Whenever-done _ _ _ r.result (if_known e);
          new = λ e. Whenever-done _ _ _ r.result (if_new e);
        };
      }
    where
      if_known :
          is_new_node p.router node ≡ done false
          → Whenever
              (λ w. w ≡ record { after = p; pings = none; stores = [] })
              (welcome_if_new p now node)
      if_known e = rw (e, welcome_if_new) refl

      if_new :
          is_new_node p.router node ≡ done true
          → Whenever
              (λ w.
                (t : RoutingTable) × Shares now p.source_node node p.router
                  (iter_all p.storage now)
                  t
                  w.stores
                × (add_contact 129 now t node ≡ done (w.after.router, w.pings)))
              (welcome_if_new p now node)
      if_new e = rw (e, welcome_if_new) welcome-new
