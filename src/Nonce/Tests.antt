-- ===== src/Nonce/Tests.antt =====
-- The nonce manager over keys in memory: runs, and the theorems at concrete inputs.
use vaultkey.Prelude.{◌≡◌, refl, none, some, true, List, [], ◌∷◌, Bytes, codes, bytes_eq, arith}
use vaultkey.Nonce.Redis.{in_memory, Keys}
use vaultkey.Nonce.Sequence.{Event, calls_next, waits, run, results_for}
use vaultkey.Nonce.Callers.{run-sync, next-ensure_nonce, next-expired}
use vaultkey.Nonce.{ok, next, sync_from_chain, ensure_nonce}

abbrev no_keys : Keys
no_keys k = none

abbrev polygon : Bytes
polygon = codes "137"

abbrev base_chain : Bytes
base_chain = codes "8453"

abbrev relayer_address : Bytes
relayer_address = codes "0xab"

abbrev calls : List Event
calls =
    calls_next (polygon, relayer_address)
    ∷ waits 3600
    ∷ calls_next (base_chain, relayer_address)
    ∷ calls_next (polygon, relayer_address)
    ∷ []

run-sync_example :
    results_for
      (polygon, relayer_address)
      (run in_memory calls (sync_from_chain in_memory true polygon relayer_address 10 no_keys).1)
    ≡ ok 11 ∷ ok 12 ∷ []
unfolding bytes_eq
run-sync_example =
    run-sync in_memory polygon relayer_address 10 calls no_keys (omega arith)
      (omega arith, (tt, (omega arith, (omega arith, tt)))) (omega arith) (omega arith)

next-expired_example :
    let s =
      in_memory.pass 90000 (sync_from_chain in_memory true polygon relayer_address 10 no_keys).1 in
    ((next in_memory true polygon relayer_address s).0 ≡ ok 0)
    × ((next in_memory true polygon relayer_address
          (ensure_nonce in_memory true (some 12) polygon relayer_address s).1).0
        ≡ ok 13)
next-expired_example =
    next-expired in_memory polygon relayer_address 10 90000 12 no_keys (omega arith) (omega arith)

next-ensure_nonce_example :
    let (r, s) = ensure_nonce in_memory true (some 0) polygon relayer_address no_keys in
    (r ≡ ok tt) × ((next in_memory true polygon relayer_address s).0 ≡ ok 1)
next-ensure_nonce_example =
    next-ensure_nonce in_memory polygon relayer_address 0 no_keys refl (omega arith)
