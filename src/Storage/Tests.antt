-- ===== src/Storage/Tests.antt =====
-- Reads and writes on a store with a time to live of one second.
use auth_kademlia.Prelude.{◌≡◌, ◌≢◌, true, false, none, some, List, [], ◌∷◌, arith}
use auth_kademlia.Prelude.Bytes.{Bytes}
use auth_kademlia.Storage.{ForgetfulStorage, pos, new, set, insert_if_absent, get}
use auth_kademlia.Storage.Refinement.{
  Call, inserts, gets, deletes, run, spec_run, entries, run-spec_run,
}
use auth_kademlia.Storage.Reads.{insert_if_absent-get}

abbrev one_key : ForgetfulStorage
one_key = set (new (pos 1)) 100 (1 ∷ []) (10 ∷ [])

other_key : ◌≢◌ {A = Bytes} (2 ∷ []) (1 ∷ [])
other_key e = ground arith

insert_if_absent-get_example :
    ((insert_if_absent one_key 200 (1 ∷ []) (20 ∷ [])).1
      ≡ (elim (get one_key 200 (1 ∷ [])) [ none ↦ true | some _ ↦ false ]))
    × (get (insert_if_absent one_key 200 (1 ∷ []) (20 ∷ [])).0 200 (1 ∷ [])
        ≡ some (elim (get one_key 200 (1 ∷ [])) [ none ↦ 20 ∷ [] | some old ↦ old ]))
    × (get (insert_if_absent one_key 200 (1 ∷ []) (20 ∷ [])).0 200 (2 ∷ [])
        ≡ get one_key 200 (2 ∷ []))
insert_if_absent-get_example =
    insert_if_absent-get one_key 200 (1 ∷ []) (20 ∷ []) (2 ∷ []) other_key

-- The entry expires between the two reads; an insertion then takes, and the next does not.
abbrev calls : List Call
calls =
    gets 200 (1 ∷ [])
    ∷ gets 2000000000 (1 ∷ [])
    ∷ inserts 2000000000 (1 ∷ []) (20 ∷ [])
    ∷ inserts 2000000001 (1 ∷ []) (30 ∷ [])
    ∷ gets 2000000001 (1 ∷ [])
    ∷ deletes (1 ∷ [])
    ∷ gets 2000000001 (1 ∷ [])
    ∷ []

run-spec_run_example : run one_key calls ≡ spec_run one_key.ttl (entries one_key) calls
run-spec_run_example = run-spec_run one_key calls
