-- ===== src/Storage/Refinement.antt =====
-- An abstract store beside `ForgetfulStorage`: a partial function from keys to timed values, the
-- calls of both, and what they answer.
use mathlib.Core.Logic.{ite}
use auth_kademlia.Prelude.{
  ℕ, ◌-◌, ◌≡◌, refl, sym, ap, ◌∙◌, Bool, true, false, Option, none, some, List, [], ◌∷◌,
  if◌then◌else◌,
}
use auth_kademlia.Prelude.Assoc
use auth_kademlia.Prelude.Bytes.{Bytes, bytes_eq}
use auth_kademlia.Storage.{
  ℤ, Entry, ForgetfulStorage, is_expired, expired_after, set, insert_if_absent, insert_entry, get,
  get_default, live_value, delete,
}

-- The abstract store.
abbrev TimedMap : Type 0
TimedMap = Bytes → Option Entry

unfoldable pub entries : ForgetfulStorage → TimedMap
entries s q = Assoc.find bytes_eq q s.store

-- The value of an entry that has not expired.
unfoldable pub live : ℤ → ℕ → Option Entry → Option Bytes
live ttl now none = none
live ttl now (some (value, at)) = if expired_after ttl (now - at) then none else some value

unfoldable pub put_at : TimedMap → Bytes → Option Entry → TimedMap
put_at m key o q = ite (bytes_eq q key) o (m q)

-- A call, and what it answers.
pub data Call : Type 0 where
  sets : ℕ → Bytes → Bytes → Call
  inserts : ℕ → Bytes → Bytes → Call
  gets : ℕ → Bytes → Call
  deletes : Bytes → Call

pub data Answer : Type 0 where
  nothing : Answer
  inserted : Bool → Answer
  read : Option Bytes → Answer

unfoldable pub step : ForgetfulStorage → Call → ForgetfulStorage × Answer
step s (sets now key value) = (set s now key value, nothing)
step s (inserts now key value) = let r = insert_if_absent s now key value in (r.0, inserted r.1)
step s (gets now key) = (s, read (get s now key))
step s (deletes key) = (delete s key, nothing)

unfoldable pub spec_insert : TimedMap → ℕ → Bytes → Bytes → Option Bytes → TimedMap × Answer
spec_insert m now key value none = (put_at m key (some (value, now)), inserted true)
spec_insert m now key value (some old) = (m, inserted false)

unfoldable pub spec_step : ℤ → TimedMap → Call → TimedMap × Answer
unfolding spec_insert
spec_step ttl m (sets now key value) = (put_at m key (some (value, now)), nothing)
spec_step ttl m (inserts now key value) = spec_insert m now key value (live ttl now (m key))
spec_step ttl m (gets now key) = (m, read (live ttl now (m key)))
spec_step ttl m (deletes key) = (put_at m key none, nothing)

unfoldable pub run : ForgetfulStorage → List Call → List Answer
run s [] = []
run s (c ∷ cs) = (step s c).1 ∷ run (step s c).0 cs

unfoldable pub spec_run : ℤ → TimedMap → List Call → List Answer
spec_run ttl m [] = []
spec_run ttl m (c ∷ cs) = (spec_step ttl m c).1 ∷ spec_run ttl (spec_step ttl m c).0 cs

-- One call goes as the abstract one, from the map that the store stands for to that of the next.
record Matches (s : ForgetfulStorage) (c : Call) : Type 0 where
  same_ttl : (step s c).0.ttl ≡ s.ttl
  matched : spec_step s.ttl (entries s) c ≡ (entries (step s c).0, (step s c).1)

entries-set :
    (s : ForgetfulStorage) (now : ℕ) (key value : Bytes)
    → put_at (entries s) key (some (value, now)) ≡ entries (set s now key value)
unfolding entries put_at set
entries-set s now key value i q =
    (elim (bytes_eq q key)
        as (λ d.
          ite d (some (value, now)) (Assoc.find bytes_eq q s.store)
          ≡ Assoc.find bytes_eq q (Assoc.put bytes_eq key (value, now) s.store)) [
            | yes same ↦
                sym (Assoc.find-put_self bytes_eq key (value, now) s.store)
                ∙ ap (λ k. Assoc.find bytes_eq k (Assoc.put bytes_eq key (value, now) s.store))
                    (sym same)
            | no differs ↦ sym (Assoc.find-put_ne bytes_eq key q (value, now) s.store differs)
          ])
      i

entries-delete :
    (s : ForgetfulStorage) (key : Bytes) → put_at (entries s) key none ≡ entries (delete s key)
unfolding entries put_at delete
entries-delete s key i q =
    (elim (bytes_eq q key)
        as (λ d.
          ite d none (Assoc.find bytes_eq q s.store)
          ≡ Assoc.find bytes_eq q (Assoc.erase bytes_eq key s.store)) [
            | yes same ↦
                sym (Assoc.find-erase_self bytes_eq key s.store)
                ∙ ap (λ k. Assoc.find bytes_eq k (Assoc.erase bytes_eq key s.store)) (sym same)
            | no differs ↦ sym (Assoc.find-erase_ne bytes_eq key q s.store differs)
          ])
      i

-- What an insertion leaves, when the entry that it found has expired and when it has not.
abbrev insert_over : ForgetfulStorage → ℕ → Bytes → Bytes → Bool → ForgetfulStorage × Bool
insert_over s now key value expired = if expired then (set s now key value, true) else (s, false)

insertion :
    (s : ForgetfulStorage) (now : ℕ) (key value old : Bytes) (expired : Bool)
    → spec_insert (entries s) now key value (if expired then none else some old) ≡ (
      entries (insert_over s now key value expired).0,
      inserted (insert_over s now key value expired).1,
    )
unfolding spec_insert
insertion s now key value old true = ap (λ m. (m, inserted true)) (entries-set s now key value)
insertion s now key value old false = refl

insertion_at :
    (s : ForgetfulStorage) (now : ℕ) (key value : Bytes) (o : Option Entry)
    → spec_insert (entries s) now key value (live s.ttl now o)
      ≡ (entries (insert_entry s now key value o).0, inserted (insert_entry s now key value o).1)
unfolding spec_insert live insert_entry is_expired
insertion_at s now key value none = ap (λ m. (m, inserted true)) (entries-set s now key value)
insertion_at s now key value (some (old, at)) =
    insertion s now key value old (expired_after s.ttl (now - at))

insert_entry-ttl :
    (s : ForgetfulStorage) (now : ℕ) (key value : Bytes) (o : Option Entry)
    → (insert_entry s now key value o).0.ttl ≡ s.ttl
unfolding insert_entry set
insert_entry-ttl s now key value none = refl
insert_entry-ttl s now key value (some (old, at)) =
    elim (is_expired s now at) as (λ b. (insert_over s now key value b).0.ttl ≡ s.ttl) [
      | true ↦ refl
      | false ↦ refl
    ]

live-live_value :
    (s : ForgetfulStorage) (now : ℕ) (o : Option Entry) → live s.ttl now o ≡ live_value s now none o
unfolding live live_value is_expired
live-live_value s now none = refl
live-live_value s now (some (value, at)) = refl

step-Matches : (s : ForgetfulStorage) (c : Call) → Matches s c
unfolding step spec_step set insert_if_absent entries get get_default delete
step-Matches s (sets now key value) = record {
  same_ttl = refl;
  matched = ap (λ m. (m, nothing)) (entries-set s now key value);
}
step-Matches s (inserts now key value) = record {
  same_ttl = insert_entry-ttl s now key value (Assoc.find bytes_eq key s.store);
  matched = insertion_at s now key value (Assoc.find bytes_eq key s.store);
}
step-Matches s (gets now key) = record {
  same_ttl = refl;
  matched = ap (λ v. (entries s, read v)) (live-live_value s now (Assoc.find bytes_eq key s.store));
}
step-Matches s (deletes key) = record {
  same_ttl = refl;
  matched = ap (λ m. (m, nothing)) (entries-delete s key);
}

-- Whatever calls of `set`, `insert_if_absent`, `get` and `delete` a store receives, and at whatever
-- times, it answers what a partial function from keys to timed values answers: `get` reads the value
-- of its key, and `insert_if_absent` keeps it, unless it is absent or has expired by the `ttl`.
pub run-spec_run :
    (s : ForgetfulStorage) (cs : List Call) → run s cs ≡ spec_run s.ttl (entries s) cs
unfolding run spec_run
run-spec_run s [] = refl
run-spec_run s (c ∷ cs) =
    let m = step-Matches s c in
    ap (λ a. a ∷ run (step s c).0 cs) (sym (ap (λ r. r.1) m.matched))
    ∙ ap (λ rest. (spec_step s.ttl (entries s) c).1 ∷ rest)
        (run-spec_run (step s c).0 cs
          ∙ ap (λ ttl. spec_run ttl (entries (step s c).0) cs) m.same_ttl
          ∙ ap (λ e. spec_run s.ttl e cs) (sym (ap (λ r. r.0) m.matched)))
