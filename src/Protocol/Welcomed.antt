-- ===== src/Protocol/Welcomed.antt =====
-- What `welcome_if_new` does to the state, and what it sends to the new node.
use mathlib.Core.List.{Sublist, nil-sublist}
use mathlib.Core.List.Sublist
use auth_kademlia.Prelude.{
  ℕ, ◌^◌, ◌<◌, ◌≡◌, refl, ◌∙◌, inl, inr, Bool, true, false, not, Option, none, List, [], ◌∷◌, map,
  length, ◌==◌, All, arith, Bool-cases, All-retain, if◌then◌else◌,
}
use auth_kademlia.Prelude.Bytes.{Bytes, IsByte}
use auth_kademlia.Node.{Node, id_len, from_id, new}
use auth_kademlia.Node.Fold.{id_to_u128-lt}
use auth_kademlia.Routing.Table.{RoutingTable, Outcome, is_new_node}
use auth_kademlia.Routing.Table.Place.{IsTable, located}
use auth_kademlia.Routing.Table.OnePass.{located_get}
use auth_kademlia.Routing.Table.Twins.{twins}
use auth_kademlia.Routing.Table.Operations.{Keeps, add_contact-AddedTo}
use auth_kademlia.Routing.Bucket
use auth_kademlia.Routing.Neighbors.Search.{find_neighbors-Found}
use auth_kademlia.Storage.{Entry, key_value, iter_all}
use auth_kademlia.Protocol.{KademliaProtocol}
use auth_kademlia.Protocol.Chain.{
  neighbors_of, Returns, Returns-done, Returns-and_then, Returns-map,
}
use auth_kademlia.Protocol.Welcome.{
  Welcome, welcome, welcome_if_new, keys_to_replicate, is_replicated,
}

-- A table in order with the local node, the bucket size and the twins of another.
pub record SameTable (t t' : RoutingTable) : Type 0 where
  pub table_ok : IsTable t'
  pub same_node : t'.node ≡ t.node
  pub same_size : t'.ksize ≡ t.ksize
  pub same_twins : (node : Node) → twins node t'.buckets ≡ twins node t.buckets

pub SameTable-refl : (t : RoutingTable) → IsTable t → SameTable t t
SameTable-refl t v = record {
  table_ok = v;
  same_node = refl;
  same_size = refl;
  same_twins = λ n. refl;
}

pub SameTable-trans : {a b c : RoutingTable} → SameTable a b → SameTable b c → SameTable a c
SameTable-trans f g = record {
  table_ok = g.table_ok;
  same_node = g.same_node ∙ f.same_node;
  same_size = g.same_size ∙ f.same_size;
  same_twins = λ n. g.same_twins n ∙ f.same_twins n;
}

-- A search returns and keeps the table.
pub neighbors_of-SameTable :
    (now : ℕ) (t : RoutingTable) (target : Node) (exclude : Option Node)
    → IsTable t
    → 0 < t.ksize
    → target.long_id < 2 ^ 128
    → Returns (λ r. SameTable t r.0) (neighbors_of now t target exclude)
unfolding neighbors_of
neighbors_of-SameTable now t target exclude v size fits =
    let f = find_neighbors-Found _ now t target exclude v size fits (omega arith) in
    record {
      value = (f.after, f.neighbors);
      result = f.result;
      holds = record {
        table_ok = f.table_ok;
        same_node = f.same_node;
        same_size = f.same_size;
        same_twins = f.same_twins;
      };
    }

pub key_fits :
    (key : Bytes) → length key ≡ id_len → All IsByte key → (from_id key).long_id < 2 ^ 128
unfolding from_id new
key_fits key sized bytes = id_to_u128-lt key (record { sized = sized; bytes = bytes })

-- The entries for the new node: stored ones, under keys of the right length.
record Chosen (t : RoutingTable) (entries : List (Bytes × Bytes))
    (r : RoutingTable × List (Bytes × Bytes)) : Type 0 where
  kept : SameTable t r.0
  stored : Sublist r.1 entries
  sized : All (λ (e : Bytes × Bytes). length e.0 ≡ id_len) r.1

choose :
    (t found : RoutingTable) (key value : Bytes) (entries : List (Bytes × Bytes))
    (rest : RoutingTable × List (Bytes × Bytes)) (b : Bool)
    → length key ≡ id_len
    → SameTable t found
    → Chosen found entries rest
    → Chosen t ((key, value) ∷ entries) (rest.0, if b then (key, value) ∷ rest.1 else rest.1)
choose t found key value entries rest true sized same c = record {
  kept = SameTable-trans same c.kept;
  stored = Sublist.cons-cons (key, value) c.stored;
  sized = (sized, c.sized);
}
choose t found key value entries rest false sized same c = record {
  kept = SameTable-trans same c.kept;
  stored = Sublist.cons (key, value) c.stored;
  sized = c.sized;
}

module _ (now : ℕ) (self_node node : Node) where
  keys_to_replicate-Chosen :
      (t : RoutingTable) (entries : List (Bytes × Bytes))
      → IsTable t
      → 0 < t.ksize
      → All (λ (e : Bytes × Bytes). All IsByte e.0) entries
      → Returns (Chosen t entries) (keys_to_replicate now self_node node t entries)
  unfolding keys_to_replicate
  keys_to_replicate-Chosen t [] v size bytes =
      Returns-done _ _ (record { kept = SameTable-refl t v; stored = nil-sublist []; sized = tt })
  keys_to_replicate-Chosen t ((key, value) ∷ entries) v size bytes =
      elim (Bool-cases (length key == id_len)) [
        | inr short ↦
            rw (short, keys_to_replicate)
              (Returns-map _ _ _
                (λ r c. record {
                  kept = c.kept;
                  stored = Sublist.cons (key, value) c.stored;
                  sized = c.sized;
                })
                (keys_to_replicate-Chosen t entries v size bytes.1))
        | inl sized ↦
            rw (sized, keys_to_replicate)
              (Returns-and_then _ _ _ _
                (neighbors_of-SameTable now t (from_id key) none v size
                  (key_fits key (ground arith) bytes.0))
                (λ found same.
                  Returns-and_then _ _ _ _
                    (keys_to_replicate-Chosen found.0 entries same.table_ok
                      (omega (arith, same.same_size)) bytes.1)
                    (λ rest c. Returns-done _ _ (
                      choose t found.0 key value entries rest
                        (is_replicated self_node node (from_id key) found.1) (ground arith) same
                        c))))
      ]

abbrev pub KeepsTable : RoutingTable → RoutingTable → Type 0
KeepsTable t t' = IsTable t' × (t'.node ≡ t.node) × (t'.ksize ≡ t.ksize)

pub Keeps-Returns :
    {A : Type 0} {t : RoutingTable} {o : Outcome A} {table : A → RoutingTable}
    → Keeps t o table
    → Returns (λ a. KeepsTable t (table a)) o
Keeps-Returns k = record {
  value = k.value;
  result = k.result;
  holds = (k.table_ok, k.same_node, k.same_size);
}

pub is_new_node-Returns :
    (t : RoutingTable) (node : Node)
    → IsTable t
    → node.long_id < 2 ^ 128
    → Returns (λ _. Unit) (is_new_node t node)
unfolding is_new_node
is_new_node-Returns t node v fits =
    let p = located t node.long_id v fits in
    record {
      value = not (Bucket.contains p.bucket node);
      result = rw (located_get t node.long_id p, is_new_node) refl;
      holds = tt;
    }

entry_bytes :
    (entries : List (Bytes × Entry))
    → All (λ (e : Bytes × Entry). All IsByte e.0) entries
    → All (λ (e : Bytes × Bytes). All IsByte e.0) (map key_value entries)
entry_bytes [] h = tt
entry_bytes (e ∷ es) h = (h.0, entry_bytes es h.1)

-- A node that a peer with a router in order may welcome: its `long_id` has 128 bits, and there are
-- fewer contacts of that `long_id` under other identifiers than a bucket holds. The keys are bytes.
pub record CanWelcome {Cache : Type 0} (p : KademliaProtocol Cache) (node : Node) : Type 0 where
  pub router_ok : IsTable p.router
  pub capacity : 0 < p.router.ksize
  pub fits : node.long_id < 2 ^ 128
  pub few : twins node p.router.buckets < p.router.ksize
  pub keys : All (λ (e : Bytes × Entry). All IsByte e.0) p.storage.store

-- The state changes in its router only, which is in order for the same local node and bucket size.
-- The new node is sent live records, in the order of the store, under keys of the right length.
pub record Welcomed {Cache : Type 0} (p : KademliaProtocol Cache) (now : ℕ) (w : Welcome Cache)
    : Type 0 where
  pub only_router : w.after ≡ record p { router = w.after.router }
  pub router_ok : IsTable w.after.router
  pub same_node : w.after.router.node ≡ p.router.node
  pub same_size : w.after.router.ksize ≡ p.router.ksize
  pub stored : Sublist w.stores (iter_all p.storage now)
  pub sized : All (λ (e : Bytes × Bytes). length e.0 ≡ id_len) w.stores

module _ {Cache : Type 0} (p : KademliaProtocol Cache) (now : ℕ) (node : Node)
    (v : CanWelcome p node) where
  welcome-Welcomed : Returns (Welcomed p now) (welcome p now node)
  unfolding welcome iter_all
  welcome-Welcomed =
      Returns-and_then _ _ _ _
        (keys_to_replicate-Chosen now p.source_node node p.router (iter_all p.storage now)
          v.router_ok v.capacity (entry_bytes _ (All-retain _ _ p.storage.store v.keys)))
        (λ keys c.
          let k =
            (add_contact-AddedTo now keys.0 node c.kept.table_ok v.fits
              (omega (arith, v.few, c.kept.same_twins node, c.kept.same_size))).keeps in
          Returns-and_then _ _ _ _ (Keeps-Returns k) (λ added (table_ok, same_node, same_size).
            Returns-done _ _ (record {
              only_router = refl;
              router_ok = table_ok;
              same_node = same_node ∙ c.kept.same_node;
              same_size = same_size ∙ c.kept.same_size;
              stored = c.stored;
              sized = c.sized;
            })))

  -- For a node that can be welcomed, `welcome_if_new` returns. It changes the router only, which
  -- stays in order, and sends the new node live records of the store, under keys of 20 bytes.
  pub welcome_if_new-Welcomed : Returns (Welcomed p now) (welcome_if_new p now node)
  unfolding welcome_if_new
  welcome_if_new-Welcomed =
      Returns-and_then _ _ _ _ (is_new_node-Returns p.router node v.router_ok v.fits) (λ is_new _.
        elim (Bool-cases is_new) [
          | inl new_node ↦ rw new_node welcome-Welcomed
          | inr known ↦ rw known (
              Returns-done _ _ (record {
                only_router = refl;
                router_ok = v.router_ok;
                same_node = refl;
                same_size = refl;
                stored = nil-sublist _;
                sized = tt;
              }))
        ])
