-- ===== src/Network/Settled.antt =====
-- What the calls of the router during a lookup leave of it.
use auth_kademlia.Prelude.{
  ℕ, ◌^◌, ◌<◌, ◌≡◌, sym, subst, none, List, [], ◌∷◌, All, arith, All-retain, All-take,
}
use auth_kademlia.Prelude.Bytes.{Bytes}
use auth_kademlia.Prelude.Members.{All-perm}
use mathlib.Core.List.Perm
use auth_kademlia.Node.{Node}
use auth_kademlia.Routing.Table.{RoutingTable, done, remove_contact}
use auth_kademlia.Routing.Table.Place.{IsTable}
use auth_kademlia.Routing.Table.Twins.{twins}
use auth_kademlia.Routing.Table.Operations.{remove_contact-Keeps, add_contact-AddedTo}
use auth_kademlia.Routing.Neighbors.Search.{find_neighbors-Found}
use auth_kademlia.Routing.Known.{
  AllOf, Whenever-done, remove_contact-AllOf, add_contact-AllOf, find_neighbors-AllOf, contacts-All,
}
use auth_kademlia.Crawling.Contacts.{IsPeer, IsPeer-IsProp}
use auth_kademlia.Protocol.Chain.{and_then, neighbors_of, Returns, Returns-done, Returns-and_then}
use auth_kademlia.Network.{RouterCall, removes, searches, adds, route, route_all}

-- A router in order whose nodes, primary and replacement, are among the known peers.
pub record IsReady (us : List Bytes) (t : RoutingTable) : Type 0 where
  pub table_ok : IsTable t
  pub capacity : 0 < t.ksize
  pub known : AllOf (IsPeer us) t

-- What a call of the router needs: a 128-bit `long_id`, and of a node that is added that it is known
-- and that the table holds fewer twins of it than a bucket has room for.
abbrev pub Fits : List Bytes → RoutingTable → RouterCall → Type 0
Fits us t (removes peer) = peer.long_id < 2 ^ 128
Fits us t (searches now target) = target.long_id < 2 ^ 128
Fits us t (adds now node) = IsPeer us node × (twins node t.buckets < t.ksize)

abbrev pub AllFit : List Bytes → RoutingTable → List RouterCall → Type 0
AllFit us t [] = Unit
AllFit us t (c ∷ cs) = Fits us t c × ((t' : RoutingTable) → route t c ≡ done t' → AllFit us t' cs)

module _ (us : List Bytes) where
  -- A search lists known peers, and the router stays ready.
  pub neighbors_of-IsReady :
      (now : ℕ) (t : RoutingTable) (target : Node)
      → IsReady us t
      → target.long_id < 2 ^ 128
      → Returns
          (λ (r : RoutingTable × List Node). IsReady us r.0 × All (IsPeer us) r.1)
          (neighbors_of now t target none)
  unfolding neighbors_of
  neighbors_of-IsReady now t target v fits =
      let f = find_neighbors-Found _ now t target none v.table_ok v.capacity fits (omega arith) in
      let prop = IsPeer-IsProp us in
      let seen = All-perm (IsPeer us) prop f.once (contacts-All (IsPeer us) t.buckets v.known) in
      record {
        value = (f.after, f.neighbors);
        result = f.result;
        holds = (
          record {
            table_ok = f.table_ok;
            capacity = omega (arith, v.capacity, f.same_size);
            known =
                Whenever-done (λ (r : RoutingTable × List Node). AllOf (IsPeer us) r.0) _ _ f.result
                  (find_neighbors-AllOf (IsPeer us) _ now t target none v.known);
          },
          All-perm (IsPeer us) prop (Perm.symm f.first)
              (All-take (IsPeer us) t.ksize _ (All-retain (IsPeer us) _ f.visited seen)),
        );
      }

  pub remove_contact-IsReady :
      (t : RoutingTable) (peer : Node)
      → IsReady us t
      → peer.long_id < 2 ^ 128
      → Returns (IsReady us) (remove_contact t peer)
  remove_contact-IsReady t peer v fits =
      let k = remove_contact-Keeps t peer v.table_ok fits in
      record {
        value = k.value;
        result = k.result;
        holds = record {
          table_ok = k.table_ok;
          capacity = omega (arith, v.capacity, k.same_size);
          known =
              Whenever-done (AllOf (IsPeer us)) _ _ k.result
                (remove_contact-AllOf (IsPeer us) t peer v.known);
        };
      }

  route-IsReady :
      (t : RoutingTable) (c : RouterCall)
      → IsReady us t
      → Fits us t c
      → Returns (IsReady us) (route t c)
  unfolding route
  route-IsReady t (removes peer) v fits = remove_contact-IsReady t peer v fits
  route-IsReady t (searches now target) v fits =
      Returns-and_then _ _ _ _ (neighbors_of-IsReady now t target v fits)
        (λ r (ready, _). Returns-done _ _ ready)
  route-IsReady t (adds now node) v (known, few) =
      let k = (add_contact-AddedTo now t node v.table_ok known.1 few).keeps in
      let ready : IsReady us k.value.0 = record {
        table_ok = k.table_ok;
        capacity = omega (arith, v.capacity, k.same_size);
        known =
            Whenever-done (λ r. AllOf (IsPeer us) r.0) _ _ k.result
              (add_contact-AllOf (IsPeer us) now 129 t node known v.known);
      } in
      Returns-and_then (λ r. IsReady us r.0) _ _ _
        (record { value = k.value; result = k.result; holds = ready }) (λ r ok. Returns-done _ _ ok)

  pub route_all-IsReady :
      (t : RoutingTable) (cs : List RouterCall)
      → IsReady us t
      → AllFit us t cs
      → Returns (IsReady us) (route_all t cs)
  unfolding route_all and_then
  route_all-IsReady t [] v fit = Returns-done _ _ v
  route_all-IsReady t (c ∷ cs) v fit =
      let one = route-IsReady t c v fit.0 in
      let rest = route_all-IsReady one.value cs one.holds (fit.1 one.value one.result) in
      subst (λ o. Returns (IsReady us) (and_then o (λ t'. route_all t' cs))) (sym one.result) rest
