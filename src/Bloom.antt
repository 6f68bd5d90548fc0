-- ===== src/Bloom.antt =====
-- src/bloom.rs: the Bloom filter. The two hashes come from the standard library's `DefaultHasher`:
-- a parameter. `optimal_params` computes on floats, so the sizes it returns are arguments.
pub mod Present
mod Tests
use inoxset.Prelude.{
  ℕ, zero, suc, ◌+◌, ◌*◌, ◌/◌, ◌%◌, ◌^◌, Bytes, Bool, true, false, List, [], ◌∷◌, ◌==◌,
  if◌then◌else◌,
}
use inoxset.Error.{Result, ok, panic, ◌>>=◌}

pub record BloomFilter : Type 0 where
  pub bits : List ℕ
  pub num_bits : ℕ
  pub num_hashes : ℕ

-- `w | 1 << k`
unfoldable pub set_bit : ℕ → ℕ → ℕ
set_bit w zero = w / 2 * 2 + 1
set_bit w (suc k) = set_bit (w / 2) k * 2 + w % 2

-- `w & (1 << k) != 0`
unfoldable pub has_bit : ℕ → ℕ → Bool
has_bit w zero = w % 2 == 1
has_bit w (suc k) = has_bit (w / 2) k

-- `bits[i] |= 1 << k`, which panics when `i` is out of range, and the test of the bit.
unfoldable pub set_at : List ℕ → ℕ → ℕ → Result (List ℕ)
unfolding set_bit
set_at [] i k = panic
set_at (w ∷ ws) zero k = ok (set_bit w k ∷ ws)
set_at (w ∷ ws) (suc i) k = do rest ← set_at ws i k; ok (w ∷ rest)

unfoldable pub bit_at : List ℕ → ℕ → ℕ → Result Bool
unfolding has_bit
bit_at [] i k = panic
bit_at (w ∷ ws) zero k = ok (has_bit w k)
bit_at (w ∷ ws) (suc i) k = bit_at ws i k

-- `num_words` zeros
unfoldable pub zeros : ℕ → List ℕ
zeros zero = []
zeros (suc n) = 0 ∷ zeros n

unfoldable pub with_capacity : ℕ → ℕ → BloomFilter
unfolding zeros
with_capacity num_bits num_hashes = record {
  bits = zeros ((num_bits + 63) / 64);
  num_bits = num_bits;
  num_hashes = num_hashes;
}

-- `h1.wrapping_add(h2.wrapping_mul(i)) as usize % m`; the remainder by 0 panics.
unfoldable pub kirsch_mitzenmacher : ℕ → ℕ → ℕ → ℕ → Result ℕ
kirsch_mitzenmacher h1 h2 i m = if m == 0 then panic else ok ((h1 + h2 * i % 2 ^ 64) % 2 ^ 64 % m)

-- The loop over the hash functions from `i` on, `n` of them.
unfoldable pub insert_from : ℕ → ℕ → ℕ → ℕ → ℕ → List ℕ → Result (List ℕ)
unfolding kirsch_mitzenmacher set_at
insert_from h1 h2 m i zero bits = ok bits
insert_from h1 h2 m i (suc n) bits = do
  bit ← kirsch_mitzenmacher h1 h2 i m
  after ← set_at bits (bit / 64) (bit % 64)
  insert_from h1 h2 m (i + 1) n after

unfoldable pub test_from : ℕ → ℕ → ℕ → ℕ → ℕ → List ℕ → Result Bool
unfolding kirsch_mitzenmacher bit_at
test_from h1 h2 m i zero bits = ok true
test_from h1 h2 m i (suc n) bits =
    let rest = test_from h1 h2 m (i + 1) n bits in
    do
      bit ← kirsch_mitzenmacher h1 h2 i m
      found ← bit_at bits (bit / 64) (bit % 64)
      if found then rest else ok false

module _ (base_hashes : Bytes → ℕ × ℕ) where
  unfoldable pub insert : BloomFilter → Bytes → Result BloomFilter
  unfolding insert_from
  insert f item = do
    bits ← insert_from (base_hashes item).0 (base_hashes item).1 f.num_bits 0 f.num_hashes f.bits
    ok (record f { bits = bits })

  unfoldable pub test : BloomFilter → Bytes → Result Bool
  unfolding test_from
  test f item = test_from (base_hashes item).0 (base_hashes item).1 f.num_bits 0 f.num_hashes f.bits

  unfoldable pub insert_all : BloomFilter → List Bytes → Result BloomFilter
  unfolding insert
  insert_all f [] = ok f
  insert_all f (item ∷ items) = do filter ← insert f item; insert_all filter items

  unfoldable pub from_iter : ℕ → ℕ → List Bytes → Result BloomFilter
  unfolding with_capacity insert_all
  from_iter num_bits num_hashes items = insert_all (with_capacity num_bits num_hashes) items
