-- ===== src/Bloom/Present.antt =====
-- What the Bloom filter of src/bloom.rs answers after an insertion.
use inoxset.Prelude.{
  ℕ, zero, suc, ◌+◌, ◌*◌, ◌/◌, ◌%◌, ◌^◌, ◌<◌, ◌≤◌, Bytes, Bool, true, false, List, [], ◌∷◌, length,
  ◌==◌, ==_iff, ◌≡◌, refl, ap, ◌∙◌, if◌then◌else◌, arith,
}
use inoxset.Error.{Result, ok, err, panic, ◌>>=◌}
use inoxset.Bloom.{
  BloomFilter, set_bit, has_bit, set_at, bit_at, kirsch_mitzenmacher, insert_from, test_from,
  insert, test,
}

has_bit-set_bit : (w k : ℕ) → has_bit (set_bit w k) k ≡ true
unfolding has_bit set_bit
has_bit-set_bit w zero = ground (arith, ==_iff ((w / 2 * 2 + 1) % 2) 1)
has_bit-set_bit w (suc k) = ap (λ v. has_bit v k) (omega arith) ∙ has_bit-set_bit (w / 2) k

has_bit-kept : (w k j : ℕ) → has_bit w j ≡ true → has_bit (set_bit w k) j ≡ true
unfolding has_bit set_bit
has_bit-kept w zero zero h = ground (arith, ==_iff ((w / 2 * 2 + 1) % 2) 1)
has_bit-kept w zero (suc j) h = ap (λ v. has_bit v j) (omega arith) ∙ h
has_bit-kept w (suc k) zero h = ap (λ v. v == 1) (omega arith) ∙ h
has_bit-kept w (suc k) (suc j) h = ap (λ v. has_bit v j) (omega arith) ∙ has_bit-kept (w / 2) k j h

-- Every bit of the one is a bit of the other.
unfoldable pub Keeps : List ℕ → List ℕ → Type 0
Keeps before after = (i k : ℕ) → bit_at before i k ≡ ok true → bit_at after i k ≡ ok true

ok_true : (b : Bool) → ok b ≡ ok true → b ≡ true
ok_true b e = cc

Keeps-cons : (w : ℕ) (ws after : List ℕ) → Keeps ws after → Keeps (w ∷ ws) (w ∷ after)
unfolding Keeps bit_at
Keeps-cons w ws after h zero k b = b
Keeps-cons w ws after h (suc i) k b = h i k b

set_at-Keeps :
    (ws : List ℕ) (i k : ℕ)
    → i < length ws
    → (after : List ℕ) × (set_at ws i k ≡ ok after)
      × (length after ≡ length ws)
      × (bit_at after i k ≡ ok true)
      × Keeps ws after
unfolding set_at bit_at Keeps
set_at-Keeps [] i k h = absurd (omega arith)
set_at-Keeps (w ∷ ws) zero k h = (set_bit w k ∷ ws, refl, refl, ap ok (has_bit-set_bit w k), kept)
  where
    kept : Keeps (w ∷ ws) (set_bit w k ∷ ws)
    kept zero l b = ap ok (has_bit-kept w k l (ok_true (has_bit w l) b))
    kept (suc j) l b = b
set_at-Keeps (w ∷ ws) (suc i) k h =
    let (after, e, same, there, keeps) = set_at-Keeps ws i k (omega arith) in
    (w ∷ after, rw e refl, ap suc same, there, Keeps-cons w ws after keeps)

answer :
    (r rest : Result Bool)
    → (r >>= λ found. if found then rest else ok false) ≡ ok true
    → (r ≡ ok true) × (rest ≡ ok true)
answer (ok true) rest e = (refl, e)
answer (ok false) rest e = cc
answer (err x) rest e = cc
answer panic rest e = cc

module _ (h1 h2 m : ℕ) where
  abbrev index : ℕ → ℕ
  index i = (h1 + h2 * i % 2 ^ 64) % 2 ^ 64 % m

  hash_ok : (i : ℕ) → 0 < m → kirsch_mitzenmacher h1 h2 i m ≡ ok (index i)
  unfolding kirsch_mitzenmacher
  hash_ok i h = ground (arith, ==_iff m 0)

  index_bound : (i : ℕ) → 0 < m → index i < m
  index_bound i h = omega arith

  -- The test of one hash and the rest, where both hold.
  test_step :
      (i n : ℕ) (bits : List ℕ)
      → 0 < m
      → bit_at bits (index i / 64) (index i % 64) ≡ ok true
      → test_from h1 h2 m (i + 1) n bits ≡ ok true
      → test_from h1 h2 m i (suc n) bits ≡ ok true
  unfolding test_from
  test_step i n bits h b r = rw (hash_ok i h, b) r

  -- What an answer of true says of the bits, over the hashes.
  unfoldable pub AllSet : ℕ → ℕ → List ℕ → Type 0
  AllSet i zero bits = Unit
  AllSet i (suc n) bits =
      (bit_at bits (index i / 64) (index i % 64) ≡ ok true) × AllSet (i + 1) n bits

  AllSet-test_from :
      (i n : ℕ) (bits : List ℕ) → 0 < m → AllSet i n bits → test_from h1 h2 m i n bits ≡ ok true
  unfolding AllSet
  AllSet-test_from i zero bits h a = unfold test_from in refl
  AllSet-test_from i (suc n) bits h (b, r) =
      test_step i n bits h b (AllSet-test_from (i + 1) n bits h r)

  AllSet-Keeps :
      (i n : ℕ) (bits after : List ℕ) → Keeps bits after → AllSet i n bits → AllSet i n after
  unfolding AllSet Keeps
  AllSet-Keeps i zero bits after k a = tt
  AllSet-Keeps i (suc n) bits after k (b, r) =
      (k (index i / 64) (index i % 64) b, AllSet-Keeps (i + 1) n bits after k r)

  test_from-AllSet :
      (i n : ℕ) (bits : List ℕ) → 0 < m → test_from h1 h2 m i n bits ≡ ok true → AllSet i n bits
  unfolding AllSet test_from
  test_from-AllSet i zero bits h t = tt
  test_from-AllSet i (suc n) bits h t =
      let (b, r) =
        answer (bit_at bits (index i / 64) (index i % 64)) (test_from h1 h2 m (i + 1) n bits)
          (rw (hash_ok i h) at t) in
      (b, test_from-AllSet (i + 1) n bits h r)

  insert_from-AllSet :
      (i n : ℕ) (bits : List ℕ)
      → 0 < m
      → m ≤ 64 * length bits
      → (after : List ℕ) × (insert_from h1 h2 m i n bits ≡ ok after)
        × (length after ≡ length bits)
        × AllSet i n after
        × Keeps bits after
  unfolding insert_from AllSet Keeps
  insert_from-AllSet i zero bits h s = (bits, refl, refl, tt, λ i k b. b)
  insert_from-AllSet i (suc n) bits h s =
      let (one, e, same, there, kept) =
        set_at-Keeps bits (index i / 64) (index i % 64) (omega (arith, index_bound i h)) in
      let (after, f, size, all, rest) = insert_from-AllSet (i + 1) n one h (omega (arith, same)) in
      (
        after,
        rw (hash_ok i h, e) f,
        size ∙ same,
        (rest (index i / 64) (index i % 64) there, all),
        λ j k b. rest j k (kept j k b),
      )

-- The words hold all the bits, and there is one.
pub record IsSized (f : BloomFilter) : Type 0 where
  pub some_bits : 0 < f.num_bits
  pub enough : f.num_bits ≤ 64 * length f.bits

-- On a sized filter an insertion succeeds and leaves a sized filter, which answers true for the
-- item, and for every item for which the filter before answered true: no answer of false is wrong.
pub insert-test :
    (base_hashes : Bytes → ℕ × ℕ) (f : BloomFilter) (item : Bytes)
    → IsSized f
    → (g : BloomFilter) × (insert base_hashes f item ≡ ok g)
      × IsSized g
      × (test base_hashes g item ≡ ok true)
      × ((other : Bytes) → test base_hashes f other ≡ ok true → test base_hashes g other ≡ ok true)
unfolding insert test
insert-test base_hashes f item s =
    let (after, e, same, all, keeps) =
      insert_from-AllSet (base_hashes item).0 (base_hashes item).1 f.num_bits 0 f.num_hashes f.bits
        s.some_bits s.enough in
    (
      record f { bits = after },
      rw e refl,
      record { some_bits = s.some_bits; enough = omega (arith, same, s.enough) },
      AllSet-test_from (base_hashes item).0 (base_hashes item).1 f.num_bits 0 f.num_hashes after
          s.some_bits all,
      λ other t.
          AllSet-test_from (base_hashes other).0 (base_hashes other).1 f.num_bits 0 f.num_hashes
            after s.some_bits
            (AllSet-Keeps (base_hashes other).0 (base_hashes other).1 f.num_bits 0 f.num_hashes
              f.bits after keeps
              (test_from-AllSet (base_hashes other).0 (base_hashes other).1 f.num_bits 0
                f.num_hashes f.bits s.some_bits t)),
    )
