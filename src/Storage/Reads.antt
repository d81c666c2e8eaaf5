-- ===== src/Storage/Reads.antt =====
-- What a read gives after a write, an insertion and a removal.
use auth_kademlia.Prelude.{
  ℕ, zero, suc, ◌-◌, ◌≡◌, ◌≢◌, refl, ap, subst, ◌∙◌, inl, inr, Bool, true, false, Option, none,
  some, Bool-cases, arith, if◌then◌else◌,
}
use auth_kademlia.Prelude.Assoc
use auth_kademlia.Prelude.Bytes.{Bytes, bytes_eq}
use auth_kademlia.Storage.{
  ℤ, pos, negsuc, ForgetfulStorage, Entry, expired_after, is_expired, set, insert_entry,
  insert_if_absent, live_value, get_default, get, delete,
}

get-found :
    (s : ForgetfulStorage) (now : ℕ) (key : Bytes) (default : Option Bytes) (o : Option Entry)
    → Assoc.find bytes_eq key s.store ≡ o
    → get_default s now key default ≡ live_value s now default o
unfolding get_default
get-found s now key default o h = ap (live_value s now default) h

get-other :
    (s : ForgetfulStorage) (past now : ℕ) (key value other : Bytes) (default : Option Bytes)
    → other ≢ key
    → get_default (set s past key value) now other default ≡ get_default s now other default
unfolding get_default live_value is_expired set
get-other s past now key value other default differs =
    ap (live_value s now default)
      (Assoc.find-put_ne bytes_eq key other (value, past) s.store differs)

-- A value that was set is what a read of its key gives until it expires, and the default from then
-- on; another key reads as before.
pub get_default-set :
    (s : ForgetfulStorage) (past now : ℕ) (key value other : Bytes) (default : Option Bytes)
    → other ≢ key
    → (get_default (set s past key value) now key default
        ≡ (if expired_after s.ttl (now - past) then default else some value))
      × (get_default (set s past key value) now other default ≡ get_default s now other default)
unfolding set get_default live_value is_expired
get_default-set s past now key value other default differs = (
  get-found (set s past key value) now key default (some (value, past))
      (Assoc.find-put_self bytes_eq key (value, past) s.store),
  get-other s past now key value other default differs,
)

-- Nothing expires in the moment of its insertion.
expired_after-zero : (t : ℤ) → expired_after t 0 ≡ false
unfolding expired_after
expired_after-zero (pos s) = ground arith
expired_after-zero (negsuc zero) = refl
expired_after-zero (negsuc (suc n)) = ground arith

get-set_now :
    (s : ForgetfulStorage) (now : ℕ) (key value : Bytes)
    → get (set s now key value) now key ≡ some value
unfolding get set get_default live_value is_expired
get-set_now s now key value =
    let e : expired_after s.ttl (now - now) ≡ false =
      subst (λ d. expired_after s.ttl d ≡ false) (omega arith) (expired_after-zero s.ttl) in
    get-found (set s now key value) now key none (some (value, now))
      (Assoc.find-put_self bytes_eq key (value, now) s.store)
    ∙ ap (λ b. if b then none else some value) e

get-set_other :
    (s : ForgetfulStorage) (now : ℕ) (key value other : Bytes)
    → other ≢ key
    → get (set s now key value) now other ≡ get s now other
unfolding get
get-set_other s now key value other differs = get-other s now now key value other none differs

get-live :
    (s : ForgetfulStorage) (now : ℕ) (key old : Bytes) (inserted_at : ℕ)
    → Assoc.find bytes_eq key s.store ≡ some (old, inserted_at)
    → is_expired s now inserted_at ≡ false
    → get s now key ≡ some old
unfolding get live_value
get-live s now key old inserted_at h live =
    get-found s now key none (some (old, inserted_at)) h
    ∙ ap (λ b. if b then none else some old) live

-- What an insertion at the entry `o` promises.
abbrev Inserts :
    ForgetfulStorage → ℕ → Bytes → Bytes → Bytes → Option Bytes → ForgetfulStorage × Bool → Type 0
Inserts s now key value other before r =
    (r.1 ≡ (elim before [ none ↦ true | some _ ↦ false ]))
    × (get r.0 now key ≡ some (elim before [ none ↦ value | some old ↦ old ]))
    × (get r.0 now other ≡ get s now other)

insert_entry-Inserts :
    (s : ForgetfulStorage) (now : ℕ) (key value other : Bytes) (o : Option Entry)
    → other ≢ key
    → Assoc.find bytes_eq key s.store ≡ o
    → Inserts s now key value other (live_value s now none o) (insert_entry s now key value o)
unfolding insert_entry live_value
insert_entry-Inserts s now key value other none differs h =
    (refl, get-set_now s now key value, get-set_other s now key value other differs)
insert_entry-Inserts s now key value other (some (old, inserted_at)) differs h =
    elim (Bool-cases (is_expired s now inserted_at)) [
      | inl gone ↦
          rw gone (refl, get-set_now s now key value, get-set_other s now key value other differs)
      | inr live ↦ rw live (refl, get-live s now key old inserted_at h live, refl)
    ]

-- `insert_if_absent` inserts exactly where a read gives nothing, be it absent or expired, and says
-- so; after it a read gives the value that was there, or else the new one. Another key reads as
-- before.
pub insert_if_absent-get :
    (s : ForgetfulStorage) (now : ℕ) (key value other : Bytes)
    → other ≢ key
    → ((insert_if_absent s now key value).1
        ≡ (elim (get s now key) [ none ↦ true | some _ ↦ false ]))
      × (get (insert_if_absent s now key value).0 now key
          ≡ some (elim (get s now key) [ none ↦ value | some old ↦ old ]))
      × (get (insert_if_absent s now key value).0 now other ≡ get s now other)
unfolding insert_if_absent get get_default
insert_if_absent-get s now key value other differs =
    unfold get get_default in
    insert_entry-Inserts s now key value other (Assoc.find bytes_eq key s.store) differs refl

-- A key that was deleted reads as absent, and another key as before.
pub get_default-delete :
    (s : ForgetfulStorage) (now : ℕ) (key other : Bytes) (default : Option Bytes)
    → other ≢ key
    → (get_default (delete s key) now key default ≡ default)
      × (get_default (delete s key) now other default ≡ get_default s now other default)
unfolding delete get_default live_value is_expired
get_default-delete s now key other default differs = (
  get-found (delete s key) now key default none (Assoc.find-erase_self bytes_eq key s.store),
  ap (live_value s now default) (Assoc.find-erase_ne bytes_eq key other s.store differs),
)
