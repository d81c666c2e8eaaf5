-- ===== src/Crawling/Contacts.antt =====
-- What the operations of a lookup do to the contacted identifiers, and to a set of identifiers that
-- holds all those of the heap.
use native.Mathlib.Bridge.{le_prop}
use auth_kademlia.Prelude.{
  ℕ, ◌^◌, ◌≤◌, ◌<◌, ◌≡◌, refl, ◌∙◌, ◌⊎◌, inl, inr, Bool, true, false, not, List, [], ◌∷◌, map,
  length, All, any, retain, arith, leb, Bool-cases, All-take, All-retain, length-retain-le,
}
use auth_kademlia.Prelude.Bytes.{Bytes, bytes_eq}
use auth_kademlia.Prelude.Sort.{sort_by_key-All}
use auth_kademlia.Node.{Node, same_id}
use auth_kademlia.NodeHeap.{
  NodeHeap, HeapEntry, is_contacted, push, push_loop, push_new, enforce_maxsize, remove,
  mark_contacted, iter, contains, get_uncontacted, have_contacted_all,
}
use auth_kademlia.Crawling.{mark_all}

-- What adding and removing nodes leave alone.
pub record IsFramed (h h' : NodeHeap) : Type 0 where
  pub pivot : h'.node ≡ h.node
  pub size : h'.maxsize ≡ h.maxsize
  pub contacts : h'.contacted ≡ h.contacted

pub IsFramed-trans : {a b c : NodeHeap} → IsFramed a b → IsFramed b c → IsFramed a c
IsFramed-trans f g = record {
  pivot = g.pivot ∙ f.pivot;
  size = g.size ∙ f.size;
  contacts = g.contacts ∙ f.contacts;
}

pub IsFramed-refl : (h : NodeHeap) → IsFramed h h
IsFramed-refl h = record { pivot = refl; size = refl; contacts = refl }

push_new-IsFramed : (h : NodeHeap) (n : Node) → IsFramed h (push_new h n)
unfolding push_new
push_new-IsFramed h n = ground arith

push_loop-IsFramed : (h : NodeHeap) (ns : List Node) → IsFramed h (push_loop h ns)
unfolding push_loop
push_loop-IsFramed h [] = IsFramed-refl h
push_loop-IsFramed h (n ∷ ns) =
    IsFramed-trans (push_new-IsFramed h n) (push_loop-IsFramed (push_new h n) ns)

enforce_maxsize-IsFramed : (h : NodeHeap) → IsFramed h (enforce_maxsize h)
unfolding enforce_maxsize
enforce_maxsize-IsFramed h = ground arith

pub push-IsFramed : (h : NodeHeap) (ns : List Node) → IsFramed h (push h ns)
unfolding push
push-IsFramed h ns =
    IsFramed-trans (push_loop-IsFramed h ns) (enforce_maxsize-IsFramed (push_loop h ns))

pub remove-IsFramed : (h : NodeHeap) (ids : List Bytes) → IsFramed h (remove h ids)
unfolding remove
remove-IsFramed h [] = IsFramed-refl h
remove-IsFramed h (i ∷ ids) = record { pivot = refl; size = refl; contacts = refl }

-- How many of the identifiers `us` are not among `ids`.
unfoldable pub left_of : List Bytes → List Bytes → ℕ
left_of us ids = length (retain (λ u. not (any (λ id. same_id id u) ids)) us)

abbrev pub IsKnown : List Bytes → Bytes → Type 0
IsKnown us id = any (λ u. same_id u id) us ≡ true

-- A node with a known identifier and a 128-bit `long_id`.
abbrev pub IsPeer : List Bytes → Node → Type 0
IsPeer us n = IsKnown us n.id × (n.long_id < 2 ^ 128)

pub IsPeer-IsProp : (us : List Bytes) (n : Node) → IsProp (IsPeer us n)
IsPeer-IsProp us n = hlevel (le_prop)

pub left_of-le : (us ids : List Bytes) → left_of us ids ≤ length us
unfolding left_of
left_of-le us ids = length-retain-le {0} (λ u. not (any (λ id. same_id id u) ids)) us

left_of-cons-le : (us ids : List Bytes) (i : Bytes) → left_of us (i ∷ ids) ≤ left_of us ids
unfolding left_of retain any
left_of-cons-le [] ids i = omega arith
left_of-cons-le (u ∷ us) ids i = ground (arith, left_of-cons-le us ids i)

left_of-cons-lt :
    (us ids : List Bytes) (i : Bytes)
    → IsKnown us i
    → any (λ id. same_id id i) ids ≡ false
    → left_of us (i ∷ ids) < left_of us ids
unfolding left_of retain any
left_of-cons-lt [] ids i known fresh = absurd (ground arith)
left_of-cons-lt (u ∷ us) ids i known fresh = elim (bytes_eq u i) [
  | yes same ↦
      let unseen : any (λ id. same_id id u) ids ≡ false = rw same fresh in
      let twice : same_id i u ≡ true = ground (arith, same) in
      ground (arith, left_of-cons-le us ids i, unseen, twice)
  | no differs ↦
      let later : IsKnown us i = ground arith in
      ground (arith, left_of-cons-lt us ids i later fresh)
]

module _ (us : List Bytes) where
  mark_contacted-le :
      (h : NodeHeap) (n : Node) → left_of us (mark_contacted h n).contacted ≤ left_of us h.contacted
  unfolding mark_contacted
  mark_contacted-le h n = ground (arith, left_of-cons-le us h.contacted n.id)

  pub mark_all-le :
      (h : NodeHeap) (ns : List Node)
      → left_of us (mark_all h ns).contacted ≤ left_of us h.contacted
  unfolding mark_all
  mark_all-le h [] = omega arith
  mark_all-le h (n ∷ ns) = omega (arith, mark_all-le (mark_contacted h n) ns, mark_contacted-le h n)

  mark_contacted-lt :
      (h : NodeHeap) (n : Node)
      → IsKnown us n.id
      → is_contacted h n ≡ false
      → left_of us (mark_contacted h n).contacted < left_of us h.contacted
  unfolding mark_contacted
  mark_contacted-lt h n known fresh = rw fresh (left_of-cons-lt us h.contacted n.id known fresh)

  -- Marking some nodes, the first of which is new, leaves fewer.
  pub mark_all-lt :
      (h : NodeHeap) (n : Node) (ns : List Node)
      → IsKnown us n.id
      → is_contacted h n ≡ false
      → left_of us (mark_all h (n ∷ ns)).contacted < left_of us h.contacted
  unfolding mark_all
  mark_all-lt h n ns known fresh =
      omega (arith, mark_all-le (mark_contacted h n) ns, mark_contacted-lt h n known fresh)

-- A predicate on nodes, over the entries of a heap.
module _ {κ} (P : Node → Type κ) where
  abbrev pub AllNodes : NodeHeap → Type κ
  AllNodes h = All (λ e. P e.node) h.heap

  push_new-AllNodes : (h : NodeHeap) (n : Node) → P n → AllNodes h → AllNodes (push_new h n)
  unfolding push_new
  push_new-AllNodes h n p v = elim (Bool-cases (contains h n)) [
    | inl old ↦ rw old v
    | inr fresh ↦ rw fresh (p, v)
  ]

  push_loop-AllNodes :
      (h : NodeHeap) (ns : List Node) → All P ns → AllNodes h → AllNodes (push_loop h ns)
  unfolding push_loop
  push_loop-AllNodes h [] ps v = v
  push_loop-AllNodes h (n ∷ ns) ps v =
      push_loop-AllNodes (push_new h n) ns ps.1 (push_new-AllNodes h n ps.0 v)

  enforce_maxsize-AllNodes : (h : NodeHeap) → AllNodes h → AllNodes (enforce_maxsize h)
  unfolding enforce_maxsize
  enforce_maxsize-AllNodes h v = elim (Bool-cases (leb (length h.heap) h.maxsize)) [
    | inl fits ↦ rw fits v
    | inr over ↦ rw over (All-take _ h.maxsize _ (sort_by_key-All _ _ h.heap v))
  ]

  pub push-AllNodes : (h : NodeHeap) (ns : List Node) → All P ns → AllNodes h → AllNodes (push h ns)
  unfolding push
  push-AllNodes h ns ps v = enforce_maxsize-AllNodes (push_loop h ns) (push_loop-AllNodes h ns ps v)

  pub remove-AllNodes : (h : NodeHeap) (ids : List Bytes) → AllNodes h → AllNodes (remove h ids)
  unfolding remove
  remove-AllNodes h [] v = v
  remove-AllNodes h (i ∷ ids) v = All-retain _ _ h.heap v

  nodes_of : (es : List HeapEntry) → All (λ e. P e.node) es → All P (map (λ e. e.node) es)
  nodes_of [] v = tt
  nodes_of (e ∷ es) v = (v.0, nodes_of es v.1)

  pub iter-All : (h : NodeHeap) → AllNodes h → All P (iter h)
  unfolding iter
  iter-All h v = nodes_of _ (All-take _ h.maxsize _ (sort_by_key-All _ _ h.heap v))

  pub get_uncontacted-All : (h : NodeHeap) → AllNodes h → All P (get_uncontacted h)
  unfolding get_uncontacted
  get_uncontacted-All h v = All-retain P _ (iter h) (iter-All h v)

-- Marking changes the contacted identifiers only.
pub record IsMarked (h h' : NodeHeap) : Type 0 where
  pub pivot : h'.node ≡ h.node
  pub size : h'.maxsize ≡ h.maxsize
  pub entries : h'.heap ≡ h.heap

mark_contacted-IsMarked : (h : NodeHeap) (n : Node) → IsMarked h (mark_contacted h n)
unfolding mark_contacted
mark_contacted-IsMarked h n = ground arith

pub mark_all-IsMarked : (h : NodeHeap) (ns : List Node) → IsMarked h (mark_all h ns)
unfolding mark_all
mark_all-IsMarked h [] = record { pivot = refl; size = refl; entries = refl }
mark_all-IsMarked h (n ∷ ns) =
    let m = mark_all-IsMarked (mark_contacted h n) ns in
    let k = mark_contacted-IsMarked h n in
    record { pivot = m.pivot ∙ k.pivot; size = m.size ∙ k.size; entries = m.entries ∙ k.entries }

retain-holds {ℓ} : {A : Type ℓ} (p : A → Bool) (xs : List A) → All (λ x. p x ≡ true) (retain p xs)
unfolding retain
retain-holds p [] = tt
retain-holds p (x ∷ xs) = ground (arith, retain-holds p xs)

pub get_uncontacted-fresh :
    (h : NodeHeap) → All (λ n. not (is_contacted h n) ≡ true) (get_uncontacted h)
unfolding get_uncontacted
get_uncontacted-fresh h = retain-holds (λ n. not (is_contacted h n)) (iter h)

retain-none {ℓ} :
    {A : Type ℓ} (p : A → Bool) (xs : List A)
    → retain (λ x. not (p x)) xs ≡ []
    → All (λ x. p x ≡ true) xs
unfolding retain
retain-none p [] h = tt
retain-none p (x ∷ xs) h = elim (Bool-cases (p x)) [
  | inl e ↦ (e, retain-none p xs (ground arith))
  | inr e ↦ absurd (ground arith)
]

get_uncontacted-none :
    (h : NodeHeap) → get_uncontacted h ≡ [] → All (λ n. is_contacted h n ≡ true) (iter h)
unfolding get_uncontacted
get_uncontacted-none h e = retain-none (is_contacted h) (iter h) e

uncontacted_cases :
    (h : NodeHeap)
    → ((have_contacted_all h ≡ true) × (get_uncontacted h ≡ []))
      ⊎ ((n : Node) × (ns : List Node) × (get_uncontacted h ≡ n ∷ ns))
unfolding have_contacted_all
uncontacted_cases h = go (get_uncontacted h) refl
  where
    go :
        (us : List Node)
        → get_uncontacted h ≡ us
        → ((have_contacted_all h ≡ true) × (get_uncontacted h ≡ []))
          ⊎ ((n : Node) × (ns : List Node) × (get_uncontacted h ≡ n ∷ ns))
    go [] e = inl (rw (e, have_contacted_all) refl, e)
    go (n ∷ ns) e = inr (n, ns, e)

-- The lookup may end once every listed node was contacted, and else there is one to contact.
pub have_contacted_all-cases :
    (h : NodeHeap)
    → ((have_contacted_all h ≡ true) × All (λ n. is_contacted h n ≡ true) (iter h))
      ⊎ ((have_contacted_all h ≡ false)
          × ((n : Node) × (ns : List Node) × (get_uncontacted h ≡ n ∷ ns)))
unfolding have_contacted_all
have_contacted_all-cases h = elim (uncontacted_cases h) [
  | inl (done, none_left) ↦ inl (done, get_uncontacted-none h none_left)
  | inr (n, ns, e) ↦ inr (rw (e, have_contacted_all) refl, (n, ns, e))
]
