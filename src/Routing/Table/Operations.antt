-- ===== src/Routing/Table/Operations.antt =====
-- `RoutingTable::new`, `add_contact` and `remove_contact` on tables in order.
use auth_kademlia.Prelude.{
  ℕ, ◌-◌, ◌^◌, ◌<◌, ◌≡◌, refl, ap, true, false, Option, none, [], ◌∷◌, arith,
}
use auth_kademlia.Prelude.Bytes.{Bytes, bytes_eq}
use auth_kademlia.Node.{Node, same_id}
use auth_kademlia.Routing.Bucket
use auth_kademlia.Routing.Bucket.{KBucket, remove_node, remove_primary, without_found}
use auth_kademlia.Routing.Bucket.Invariant.{new-IsBucket, remove_node-IsBucket}
use auth_kademlia.Routing.Table.{RoutingTable, Outcome, done, new, add_contact, remove_contact}
use auth_kademlia.Routing.Table.Place.{IsTable, located}
use auth_kademlia.Routing.Table.Split.{SameFrame}
use auth_kademlia.Routing.Table.Insert.{put_in, located_ok, replaced-IsTable}
use auth_kademlia.Routing.Table.Twins.{twins}
use auth_kademlia.Routing.Table.Total.{Answered, insert-Inserted}
use auth_kademlia.Routing.Table.OnePass.{located_get, located_set}

same_id_refl : (a b : Bytes) → a ≡ b → same_id a b ≡ true
same_id_refl a b e = ground (arith, e)

same_id_differs : (a b : Bytes) → (a ≡ b → ⊥) → same_id a b ≡ false
same_id_differs a b d = elim (bytes_eq a b) [
  | yes same ↦ absurd (d same)
  | no differs ↦ ground (arith, differs)
]

-- A fresh table is one bucket over the whole key space, in order.
pub new-IsTable : (now : ℕ) (node : Node) (ksize : ℕ) → IsTable (new now node ksize)
unfolding new Bucket.new
new-IsTable now node ksize = record {
  spans = (refl, omega arith, refl);
  buckets_ok = ((new-IsBucket now 0 (2 ^ 128 - 1) ksize, refl), tt);
}

-- A call that returns, with a table in order for the same local node and bucket size.
pub record Keeps {A : Type 0} (t : RoutingTable) (o : Outcome A) (table : A → RoutingTable)
    : Type 0 where
  pub value : A
  pub result : o ≡ done value
  pub table_ok : IsTable (table value)
  pub same_node : (table value).node ≡ t.node
  pub same_size : (table value).ksize ≡ t.ksize

-- What `add_contact` answers: the local node is never added, another node is inserted.
pub record Added (t : RoutingTable) (node : Node) (r : RoutingTable × Option Node) : Type 0 where
  pub self_kept : node.id ≡ t.node.id → (r.0 ≡ t) × (r.1 ≡ none)
  pub other_answered : (node.id ≡ t.node.id → ⊥) → Answered r.0 node r.1

pub record AddedTo (t : RoutingTable) (node : Node) (o : Outcome (RoutingTable × Option Node))
    : Type 0 where
  pub keeps : Keeps t o (λ r. r.0)
  pub added : Added t node keeps.value

-- For a table in order, and a node with fewer than `ksize` twins in it and a 128-bit `long_id`,
-- `add_contact` returns with the table in order. It leaves the table as it is for the local node,
-- and answers none; any other node is then among the contacts, and the answer is none, or it is not,
-- and the answer is the node at the front of the full bucket that covers it.
pub add_contact-AddedTo :
    (now : ℕ) (t : RoutingTable) (node : Node)
    → IsTable t
    → node.long_id < 2 ^ 128
    → twins node t.buckets < t.ksize
    → AddedTo t node (add_contact 129 now t node)
unfolding add_contact
add_contact-AddedTo now t node v fits few = elim (bytes_eq node.id t.node.id) [
  | yes self ↦ record {
    keeps = record {
      value = (t, none);
      result = rw (same_id_refl node.id t.node.id self, add_contact) refl;
      table_ok = v;
      same_node = refl;
      same_size = refl;
    };
    added = record {
      self_kept = λ _. (refl, refl);
      other_answered = λ differs. absurd (differs self);
    };
  }
  | no differs ↦
      let i = insert-Inserted now t node v fits few in
      record {
        keeps = record {
          value = (i.after, i.lru);
          result = rw (same_id_differs node.id t.node.id differs, add_contact) i.result;
          table_ok = i.table_ok;
          same_node = i.same_node;
          same_size = i.same_size;
        };
        added = record {
          self_kept = λ self. absurd (differs self);
          other_answered = λ _. i.answer;
        };
      }
]

remove_node-SameFrame : (b : KBucket) (node : Node) → SameFrame b (remove_node b node)
unfolding remove_node remove_primary without_found
remove_node-SameFrame b node = ground arith

-- `remove_contact` returns with a table in order, for a table in order and a node with a 128-bit
-- `long_id`: some bucket covers it.
pub remove_contact-Keeps :
    (t : RoutingTable) (node : Node)
    → IsTable t
    → node.long_id < 2 ^ 128
    → Keeps t (remove_contact t node) (λ r. r)
unfolding remove_contact
remove_contact-Keeps t node v fits =
    let p = located t node.long_id v fits in
    record {
      value = put_in t p (remove_node p.bucket node ∷ []);
      result =
          rw (remove_contact, located_get t node.long_id p)
            (ap (λ bs. done (record t { buckets = bs }))
              (located_set t node.long_id p (remove_node p.bucket node)));
      table_ok =
          replaced-IsTable t node.long_id p v (remove_node p.bucket node)
            (remove_node-IsBucket p.bucket node (located_ok t node.long_id p v).0)
            (remove_node-SameFrame p.bucket node);
      same_node = refl;
      same_size = refl;
    }
