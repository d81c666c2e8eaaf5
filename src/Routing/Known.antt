-- ===== src/Routing/Known.antt =====
-- A property of all nodes of a table, primary or replacement: the operations keep it.
use auth_kademlia.Prelude.{
  ℕ, zero, suc, ◌%◌, ◌≡◌, subst, inl, inr, not, ◌||◌, Option, none, some, List, [], ◌∷◌, length,
  position, get_elem?, set, retain, All, All-append, All-remove_at, All-retain, Bool-cases,
  Option-cases, arith, ltb, leb, ◌==◌,
}
use auth_kademlia.Node.{Node, same_id}
use auth_kademlia.Routing.Bucket.Ids.{pop_front_while-All}
use auth_kademlia.Routing.Bucket.{
  KBucket, new, add_node, add_replacement, remove_found, pop_back, pop_back_step, without_found,
  remove_primary, remove_node, split, split_loop, touch_last_updated, has_id, depth, covers,
}
use auth_kademlia.Routing.Neighbors.{find_neighbors, answer_of}
use auth_kademlia.Routing.Neighbors.Walk.{contacts}
use auth_kademlia.Routing.Table.{
  RoutingTable, Outcome, done, panic, out_of_fuel, bucket_index_for, insert_at, split_bucket,
  insert_pass, insert, add_contact, remove_contact,
}

-- What holds of the result of a call that returns.
abbrev pub Whenever : {A : Type 0} → (A → Type 0) → Outcome A → Type 0
Whenever P (done a) = P a
Whenever P panic = Unit
Whenever P out_of_fuel = Unit

module _ (P : Node → Type 0) where
  abbrev pub AllIn : KBucket → Type 0
  AllIn b = All P b.nodes × All P b.replacement_nodes

  abbrev pub AllOf : RoutingTable → Type 0
  AllOf t = All AllIn t.buckets

  remove_found-All : (ns : List Node) (o : Option ℕ) → All P ns → All P (remove_found ns o)
  unfolding remove_found
  remove_found-All ns none v = v
  remove_found-All ns (some i) v = All-remove_at P ns i v

  add_node-AllIn : (b : KBucket) (n : Node) → P n → AllIn b → AllIn (add_node b n).0
  unfolding add_node add_replacement
  add_node-AllIn b n p v = elim (Option-cases (position (has_id n) b.nodes)) [
    | inr (i, at) ↦
        rw (at, add_node) (All-append P _ (n ∷ []) (All-remove_at P b.nodes i v.0) (p, tt), v.1)
    | inl absent ↦
        rw (absent, add_node)
          (elim (Bool-cases (ltb (length b.nodes) b.ksize)) [
            | inl room ↦ rw room (All-append P b.nodes (n ∷ []) v.0 (p, tt), v.1)
            | inr crowded ↦ rw crowded (
              v.0,
              pop_front_while-All P b.max_replacement_nodes _
                  (All-append P _ (n ∷ []) (remove_found-All b.replacement_nodes _ v.1) (p, tt)),
            )
          ])
  ]

  split_loop-AllIn :
      (mid : ℕ) (low high : KBucket) (ns : List Node)
      → AllIn low
      → AllIn high
      → All P ns
      → AllIn (split_loop mid (low, high) ns).0 × AllIn (split_loop mid (low, high) ns).1
  unfolding split_loop
  split_loop-AllIn mid low high [] l h v = (l, h)
  split_loop-AllIn mid low high (n ∷ ns) l h v = elim (Bool-cases (leb n.long_id mid)) [
    | inl small ↦
        rw (small, split_loop)
          (split_loop-AllIn mid (add_node low n).0 high ns (add_node-AllIn low n v.0 l) h v.1)
    | inr large ↦
        rw (large, split_loop)
          (split_loop-AllIn mid low (add_node high n).0 ns l (add_node-AllIn high n v.0 h) v.1)
  ]

  split-AllIn : (now : ℕ) (b : KBucket) → AllIn b → AllIn (split now b).0 × AllIn (split now b).1
  unfolding split new
  split-AllIn now b v =
      split_loop-AllIn _ _ _ _ (tt, tt) (tt, tt) (All-append P b.nodes b.replacement_nodes v.0 v.1)

  pop_back-All : (ns : List Node) → All P ns → (elim (pop_back ns) as (λ _. Type 0) [
    | none ↦ Unit
    | some (front, last) ↦ All P front × P last
  ])
  unfolding pop_back pop_back_step
  pop_back-All [] v = tt
  pop_back-All (n ∷ ns) v = elim (Option-cases (pop_back ns)) [
    | inl e ↦ rw e (tt, v.0)
    | inr ((front, last), e) ↦ let r = rw e at (pop_back-All ns v.1) in rw e ((v.0, r.0), r.1)
  ]

  remove_node-AllIn : (b : KBucket) (n : Node) → AllIn b → AllIn (remove_node b n)
  unfolding remove_node remove_primary without_found
  remove_node-AllIn b n v =
      let spare = retain (λ m. not (has_id n m)) b.replacement_nodes in
      let kept = All-retain P (λ m. not (has_id n m)) b.replacement_nodes v.1 in
      elim (Option-cases (position (has_id n) b.nodes)) [
        | inl e ↦ rw (e, remove_primary) (v.0, kept)
        | inr (i, e) ↦ elim (Option-cases (pop_back spare)) [
          | inl empty ↦ rw (e, remove_primary, empty) (All-remove_at P b.nodes i v.0, kept)
          | inr ((front, last), f) ↦
              let r = rw f at (pop_back-All spare kept) in
              rw (e, remove_primary, f)
                (All-append P _ (last ∷ []) (All-remove_at P b.nodes i v.0) (r.1, tt), r.0)
        ]
      ]

module _ (Q : KBucket → Type 0) where
  All-get : (bs : List KBucket) (i : ℕ) (b : KBucket) → get_elem? bs i ≡ some b → All Q bs → Q b
  All-get [] i b e v = absurd (ground arith)
  All-get (c ∷ bs) zero b e v =
      subst (λ o. elim o as (λ _. Type 0) [ none ↦ Unit | some x ↦ Q x ]) e v.0
  All-get (c ∷ bs) (suc i) b e v = All-get bs i b e v.1

  All-set : (bs : List KBucket) (i : ℕ) (b : KBucket) → Q b → All Q bs → All Q (set bs i b)
  All-set [] i b q v = tt
  All-set (c ∷ bs) zero b q v = (q, v.1)
  All-set (c ∷ bs) (suc i) b q v = (v.0, All-set bs i b q v.1)

  All-insert_at :
      (bs : List KBucket) (i : ℕ) (b : KBucket) → Q b → All Q bs → All Q (insert_at bs i b)
  unfolding insert_at
  All-insert_at bs zero b q v = (q, v)
  All-insert_at [] (suc i) b q v = (q, tt)
  All-insert_at (c ∷ bs) (suc i) b q v = (v.0, All-insert_at bs i b q v.1)

module _ (P : Node → Type 0) (now : ℕ) where
  split_bucket-AllOf : (t : RoutingTable) (i : ℕ) → AllOf P t → AllOf P (split_bucket now t i)
  unfolding split_bucket
  split_bucket-AllOf t i v = elim (Option-cases (get_elem? t.buckets i)) [
    | inl e ↦ rw (e, split_bucket) v
    | inr (b, e) ↦
        let (low, high) = split-AllIn P now b (All-get (AllIn P) t.buckets i b e v) in
        let rest = All-remove_at (AllIn P) t.buckets i v in
        rw (e, split_bucket)
          (All-insert_at (AllIn P) _ i _ low (All-insert_at (AllIn P) _ i _ high rest))
  ]

  pub insert-AllOf :
      (fuel : ℕ) (t : RoutingTable) (n : Node)
      → P n
      → AllOf P t
      → Whenever (λ r. AllOf P r.0) (insert fuel now t n)
  unfolding insert insert_pass
  insert-AllOf zero t n p v = tt
  insert-AllOf (suc fuel) t n p v =
      let i = bucket_index_for t n.long_id in
      elim (Option-cases (get_elem? t.buckets i)) [
        | inl e ↦ rw (e, insert) tt
        | inr (b, e) ↦
            let added = add_node b n in
            let t' : RoutingTable = record t { buckets = set t.buckets i added.0 } in
            let v' =
              All-set (AllIn P) t.buckets i added.0
                (add_node-AllIn P b n p (All-get (AllIn P) t.buckets i b e v)) v in
            elim (Bool-cases added.1) [
              | inl took ↦ rw (e, insert, took) v'
              | inr full ↦
                  elim (Bool-cases
                    (covers added.0 t.node.long_id || not (depth added.0 % 5 == 0))) [
                      | inl cuts ↦
                          rw (e, insert, full, cuts)
                            (insert-AllOf fuel (split_bucket now t' i) n p
                              (split_bucket-AllOf t' i v'))
                      | inr keeps ↦ rw (e, insert, full, keeps) v'
                    ]
            ]
      ]

  pub add_contact-AllOf :
      (fuel : ℕ) (t : RoutingTable) (n : Node)
      → P n
      → AllOf P t
      → Whenever (λ r. AllOf P r.0) (add_contact fuel now t n)
  unfolding add_contact
  add_contact-AllOf fuel t n p v = elim (Bool-cases (same_id n.id t.node.id)) [
    | inl self ↦ rw self v
    | inr other ↦ rw other (insert-AllOf fuel t n p v)
  ]

pub remove_contact-AllOf :
    (P : Node → Type 0) (t : RoutingTable) (n : Node)
    → AllOf P t
    → Whenever (AllOf P) (remove_contact t n)
unfolding remove_contact
remove_contact-AllOf P t n v =
    let i = bucket_index_for t n.long_id in
    elim (Option-cases (get_elem? t.buckets i)) [
      | inl e ↦ rw (e, remove_contact) tt
      | inr (b, e) ↦
          rw (e, remove_contact)
            (All-set (AllIn P) t.buckets i (remove_node b n)
              (remove_node-AllIn P b n (All-get (AllIn P) t.buckets i b e v)) v)
    ]

module _ (P : Node → Type 0) (t : RoutingTable) (target : Node) (exclude : Option Node) where
  answer_of-AllOf :
      (o : Option (List Node))
      → AllOf P t
      → Whenever (λ (r : RoutingTable × List Node). AllOf P r.0) (answer_of t target exclude o)
  unfolding answer_of
  answer_of-AllOf none v = tt
  answer_of-AllOf (some visited) v = v

pub find_neighbors-AllOf :
    (P : Node → Type 0) (fuel now : ℕ) (t : RoutingTable) (target : Node) (exclude : Option Node)
    → AllOf P t
    → Whenever
        (λ (r : RoutingTable × List Node). AllOf P r.0)
        (find_neighbors fuel now t target exclude)
unfolding find_neighbors touch_last_updated
find_neighbors-AllOf P fuel now t target exclude v =
    let i = bucket_index_for t target.long_id in
    elim (Option-cases (get_elem? t.buckets i)) [
      | inl e ↦ rw (e, find_neighbors) tt
      | inr (b, e) ↦
          rw (e, find_neighbors)
            (answer_of-AllOf P (record t { buckets = set t.buckets i (touch_last_updated now b) })
              target exclude _
              (All-set (AllIn P) t.buckets i (touch_last_updated now b)
                (All-get (AllIn P) t.buckets i b e v) v))
    ]

pub contacts-All : (P : Node → Type 0) (bs : List KBucket) → All (AllIn P) bs → All P (contacts bs)
unfolding contacts
contacts-All P [] v = tt
contacts-All P (b ∷ bs) v = All-append P b.nodes (contacts bs) v.0.0 (contacts-All P bs v.1)

-- A call that returned, and what holds of it.
pub Whenever-done :
    {A : Type 0} (P : A → Type 0) (o : Outcome A) (a : A) → o ≡ done a → Whenever P o → P a
Whenever-done P o a e w = subst (Whenever P) e w
