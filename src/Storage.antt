-- ===== src/Storage.antt =====
-- src/storage.rs: `ForgetfulStorage`, the key-value store whose entries expire when they are read.
-- The `DashMap` is an association list, each call is one atomic step at the time `now`, and an
-- `Instant` counts nanoseconds.
pub mod Reads
pub mod Refinement
mod Tests
use auth_kademlia.Prelude.{
  ℕ, zero, suc, ◌*◌, ◌-◌, ◌^◌, Bool, true, false, ◌&&◌, not, Option, none, some, List, [], ◌∷◌, map,
  retain, ltb, leb, if◌then◌else◌,
}
use mathlib.Core.Option
use auth_kademlia.Prelude.Assoc
use auth_kademlia.Prelude.Bytes.{Bytes, bytes_eq}

-- An `i64`: `pos n` is n, `negsuc n` is -1 - n.
pub data ℤ : Type 0 where
  pos : ℕ → ℤ
  negsuc : ℕ → ℤ

-- A stored value and the time of its insertion.
abbrev pub Entry : Type 0
Entry = Bytes × ℕ

pub record ForgetfulStorage : Type 0 where
  pub store : List (Bytes × Entry)
  pub ttl : ℤ

abbrev pub default_ttl : ℤ
default_ttl = pos 604800

unfoldable pub new : ℤ → ForgetfulStorage
new ttl = record { store = []; ttl = ttl }

abbrev pub from_secs : ℕ → ℕ
from_secs s = s * 10 ^ 9

-- `inserted_at.elapsed() > Duration::from_secs(self.ttl as u64)`, unless the `ttl` is -1. The cast
-- takes a negative number to its complement by 2 ^ 64.
unfoldable pub expired_after : ℤ → ℕ → Bool
expired_after (pos s) elapsed = ltb (from_secs s) elapsed
expired_after (negsuc zero) elapsed = false
expired_after (negsuc (suc n)) elapsed = ltb (from_secs (2 ^ 64 - 1 - suc n)) elapsed

unfoldable pub is_expired : ForgetfulStorage → ℕ → ℕ → Bool
is_expired s now inserted_at = expired_after s.ttl (now - inserted_at)

unfoldable pub set : ForgetfulStorage → ℕ → Bytes → Bytes → ForgetfulStorage
set s now key value = record s { store = Assoc.put bytes_eq key (value, now) s.store }

-- `insert_if_absent`, at the entry that it finds.
unfoldable pub insert_entry :
    ForgetfulStorage → ℕ → Bytes → Bytes → Option Entry → ForgetfulStorage × Bool
insert_entry s now key value none = (set s now key value, true)
insert_entry s now key value (some (old, inserted_at)) =
    if is_expired s now inserted_at then (set s now key value, true) else (s, false)

unfoldable pub insert_if_absent : ForgetfulStorage → ℕ → Bytes → Bytes → ForgetfulStorage × Bool
insert_if_absent s now key value = insert_entry s now key value (Assoc.find bytes_eq key s.store)

-- `get_default`, at the entry that it finds.
unfoldable pub live_value : ForgetfulStorage → ℕ → Option Bytes → Option Entry → Option Bytes
live_value s now default none = default
live_value s now default (some (value, inserted_at)) =
    if is_expired s now inserted_at then default else some value

unfoldable pub get_default : ForgetfulStorage → ℕ → Bytes → Option Bytes → Option Bytes
get_default s now key default = live_value s now default (Assoc.find bytes_eq key s.store)

unfoldable pub get : ForgetfulStorage → ℕ → Bytes → Option Bytes
get s now key = get_default s now key none

unfoldable pub delete : ForgetfulStorage → Bytes → ForgetfulStorage
delete s key = record s { store = Assoc.erase bytes_eq key s.store }

abbrev pub key_value : Bytes × Entry → Bytes × Bytes
key_value e = (e.0, e.1.0)

unfoldable pub iter_older_than : ForgetfulStorage → ℕ → ℕ → List (Bytes × Bytes)
iter_older_than s now seconds_old = map key_value (
    retain (λ e. leb (from_secs seconds_old) (now - e.1.1) && not (is_expired s now e.1.1)) s.store)

unfoldable pub iter_all : ForgetfulStorage → ℕ → List (Bytes × Bytes)
iter_all s now = map key_value (retain (λ e. not (is_expired s now e.1.1)) s.store)
