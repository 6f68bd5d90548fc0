-- ===== src/Bloom/Tests.antt =====
-- A filter of 64 bits, with the length of an item as its hash.
use inoxset.Prelude.{ℕ, Bytes, bytes, true, ◌≡◌, length, arith}
use inoxset.Error.{ok}
use inoxset.Bloom.{BloomFilter, zeros, with_capacity, insert, test}
use inoxset.Bloom.Present.{IsSized, insert-test}

abbrev hashes : Bytes → ℕ × ℕ
hashes item = (length item, 7)

with_capacity-IsSized : IsSized (with_capacity 64 3)
unfolding with_capacity zeros
with_capacity-IsSized = record { some_bits = omega arith; enough = omega arith }

insert-test_example :
    (g : BloomFilter) × (insert hashes (with_capacity 64 3) (bytes "hello") ≡ ok g)
    × IsSized g
    × (test hashes g (bytes "hello") ≡ ok true)
    × ((other : Bytes)
        → test hashes (with_capacity 64 3) other ≡ ok true
        → test hashes g other ≡ ok true)
insert-test_example = insert-test hashes (with_capacity 64 3) (bytes "hello") with_capacity-IsSized
