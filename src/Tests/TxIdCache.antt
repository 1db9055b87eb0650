-- ===== src/Tests/TxIdCache.antt =====
-- db/txidcache.go at concrete inputs.
use blkchain.Prelude.{
  ℕ, ◌≡◌, refl, Option, none, some, [], ◌∷◌, ◌++◌, length, replicate, bytes_eq, bytes_eq_refl,
  arith,
}
use blkchain.Io.{Bytes}
use blkchain.KeyMap
use blkchain.KeyMap.{KeyMap}
use blkchain.TxIdCache.{
  new_tx_id_cache, look_recent, next_slot, take_slot, add_ring, check_size, add_big, add, check,
}
use blkchain.TxIdCache.Hits.{check_times, check_times-add, check-add_wrapped}
use blkchain.TxIdCache.Bounded.{IsValid, add_call, check_call, Chooses, step, run, run-IsValid}
use blkchain.Tests.Data.{hash_of}

program : Unit {0}
unfolding KeyMap.get KeyMap.put KeyMap.delete new_tx_id_cache look_recent next_slot take_slot
    add_ring check_size add_big add check check_times step run bytes_eq
program = tt

abbrev first_key : KeyMap ℕ → Option Bytes
first_key [] = none
first_key ((k, v) ∷ m) = some k

first_key-Chooses : Chooses first_key
unfolding KeyMap.get
first_key-Chooses [] h = absurd (omega arith)
first_key-Chooses ((k, v) ∷ m) h = (k, v, refl, rw (bytes_eq_refl k) refl)

-- Two outputs are spent, and a third one is not found.
two_hits :
    (check_times 3 (add first_key (new_tx_id_cache 5) (hash_of 1) 7 2).0 (hash_of 1)).1
    ≡ some 7 ∷ some 7 ∷ none ∷ []
unfolding program
two_hits = refl

-- A second add of a recent hash answers with the first id.
dupe : (add first_key (add first_key (new_tx_id_cache 5) (hash_of 1) 7 2).0 (hash_of 1) 9 2).1 ≡ 7
unfolding program
dupe = refl

-- At its size, the cache lets an entry go.
evicted :
    length
      (run first_key
        (new_tx_id_cache 1)
        (add_call (hash_of 1) 7 2 ∷ add_call (hash_of 2) 8 1 ∷ [])).m
    ≡ 1
unfolding program
evicted = refl

check_times-add_example :
    (check_times 3 (add first_key (new_tx_id_cache 5) (hash_of 1) 7 2).0 (hash_of 1)).1
    ≡ replicate 2 (some 7) ++ none ∷ []
unfolding new_tx_id_cache KeyMap.get
check_times-add_example =
    check_times-add first_key (new_tx_id_cache 5) (hash_of 1) 7 2 (omega arith) (omega arith) refl
      refl

check-add_wrapped_example :
    (check (add first_key (new_tx_id_cache 5) (hash_of 1) 7 65_536).0 (hash_of 1)).1 ≡ some 6
unfolding new_tx_id_cache KeyMap.get
check-add_wrapped_example =
    check-add_wrapped first_key (new_tx_id_cache 5) (hash_of 1) 7 65_536 (omega arith) (omega arith)
      refl refl refl

run-IsValid_example :
    IsValid
      (run first_key (new_tx_id_cache 1) (add_call (hash_of 1) 7 2 ∷ check_call (hash_of 1) ∷ []))
run-IsValid_example =
    run-IsValid first_key first_key-Chooses 1
      (add_call (hash_of 1) 7 2 ∷ check_call (hash_of 1) ∷ [])
