-- ===== src/Inverted/Found.antt =====
-- A lookup in an index that `build` of src/inverted.rs made.
use mathlib.Core.List.{Permᴰ}
use inoxset.Prelude.{
  ◌^◌, ℕ, zero, suc, ◌+◌, ◌/◌, ◌≤◌, ◌<◌, Bytes, Bool, true, ◌&&◌, List, [], ◌∷◌, ◌≡◌, refl, ap, sym,
  subst, ◌∙◌, ==_iff, length, Option, none, some, get_elem?, ◌==◌, arith, inl, inr,
}
use inoxset.Prelude.Eq.{text_beq_iff}
use inoxset.Error.{ok}
use inoxset.Roaring.{Roaring}
use inoxset.Bloom.{with_capacity, zeros}
use inoxset.Bloom.Present.{IsSized}
use inoxset.PartStore.Search.{probe_of, search}
use inoxset.PartStore.Search.Sorted.{Decides, search-Decides}
use inoxset.Inverted.{
  Hashing, Row, IndexEntry, InvertedMeta, InvertedIndex, InvertedIndexBuilder, distinct_hashes,
  at_least_one, new_index, build, decode, decode_entry, entry_at, entry_probe, hash_of,
  maybe_contains, lookup,
}
use inoxset.Inverted.Rows.{
  packs, has_hash, has_ext, packs-Perm, has_hash-Perm, has_ext-Perm, length-Perm,
}
use inoxset.Inverted.Group.{ascending, Finds, group-Groups}

length-zeros : (n : ℕ) → length (zeros n) ≡ n
unfolding zeros
length-zeros zero = refl
length-zeros (suc n) = ap suc (length-zeros n)

with_capacity-IsSized : (m n : ℕ) → 0 < m → IsSized (with_capacity m n)
unfolding with_capacity
with_capacity-IsSized m n h = record {
  some_bits = h;
  enough = omega (arith, length-zeros ((m + 63) / 64));
}

-- The hash of an entry, and what the entries' order says of the places.
hash_or_zero : Option IndexEntry → ℕ
hash_or_zero none = 0
hash_or_zero (some e) = e.id_hash

hash_at : List IndexEntry → ℕ → ℕ
unfolding hash_or_zero
hash_at entries i = hash_or_zero (get_elem? entries i)

hash_at-le :
    (lo : ℕ) (entries : List IndexEntry) (j : ℕ)
    → ascending lo entries ≡ true
    → j < length entries
    → lo ≤ hash_at entries j
unfolding ascending hash_at
hash_at-le lo [] j s h = absurd (omega arith)
hash_at-le lo (e ∷ entries) zero s h = ground arith
hash_at-le lo (e ∷ entries) (suc j) s h = ground (arith, hash_at-le (e.id_hash + 1) entries j)

hash_at-lt :
    (lo : ℕ) (entries : List IndexEntry) (i j : ℕ)
    → ascending lo entries ≡ true
    → i < j
    → j < length entries
    → hash_at entries i < hash_at entries j
unfolding ascending hash_at
hash_at-lt lo [] i j s h k = absurd (omega arith)
hash_at-lt lo (e ∷ entries) i zero s h k = absurd (omega arith)
hash_at-lt lo (e ∷ entries) zero (suc j) s h k =
    ground (arith, hash_at-le (e.id_hash + 1) entries j)
hash_at-lt lo (e ∷ entries) (suc i) (suc j) s h k =
    ground (arith, hash_at-lt (e.id_hash + 1) entries i j)

get_elem?-some :
    (entries : List IndexEntry) (i : ℕ)
    → i < length entries
    → (e : IndexEntry) × (get_elem? entries i ≡ some e)
get_elem?-some [] i h = absurd (omega arith)
get_elem?-some (e ∷ entries) zero h = (e, refl)
get_elem?-some (e ∷ entries) (suc i) h = get_elem?-some entries i (omega arith)

get_elem?-below :
    (entries : List IndexEntry) (i : ℕ) (e : IndexEntry)
    → get_elem? entries i ≡ some e
    → i < length entries
get_elem?-below [] i e h = cc
get_elem?-below (f ∷ entries) zero e h = omega arith
get_elem?-below (f ∷ entries) (suc i) e h = omega (arith, get_elem?-below entries i e h)

hash_at-inj :
    (entries : List IndexEntry) (i j : ℕ)
    → ascending 0 entries ≡ true
    → i < length entries
    → j < length entries
    → hash_at entries i ≡ hash_at entries j
    → j ≡ i
hash_at-inj entries i j s a b same =
    ground (arith, hash_at-lt 0 entries i j s, hash_at-lt 0 entries j i s)

-- The binary search comes to the entry of the hash.
search-entry :
    (entries : List IndexEntry) (k i : ℕ) (e : IndexEntry)
    → ascending 0 entries ≡ true
    → get_elem? entries i ≡ some e
    → e.id_hash ≡ k
    → search (length entries) (entry_probe entries k) 0 (length entries) ≡ ok (some i)
unfolding hash_at
search-entry entries k i e s at same = answer (
    search-Decides k (hash_at entries) (entry_probe entries k) (length entries) probes
      (λ a b. hash_at-lt 0 entries a b s) (length entries) 0 (length entries) (omega arith)
      (omega arith))
  where
    below : i < length entries
    below = get_elem?-below entries i e at

    here : hash_at entries i ≡ k
    here = rw at same

    probes :
        (j : ℕ) → j < length entries → entry_probe entries k j ≡ ok (probe_of (hash_at entries j) k)
    probes j h =
        let (f, there) = get_elem?-some entries j h in
        unfold entry_probe hash_of hash_or_zero in rw there refl

    answer :
        Decides k
          (hash_at entries)
          (entry_probe entries k)
          (length entries)
          probes
          (λ a b. hash_at-lt 0 entries a b s)
          0
          (length entries)
          (search (length entries) (entry_probe entries k) 0 (length entries))
        → search (length entries) (entry_probe entries k) 0 (length entries) ≡ ok (some i)
    answer (inl (j, a, b, equal, found)) =
        rw found
          (ap (λ (n : ℕ). ok (some n)) (hash_at-inj entries i j s below b (here ∙ sym equal)))
    answer (inr (found, missing)) = absurd (missing i (omega arith) below here)

-- The hash of each row is that of its text, as `add` stages it.
unfoldable pub staged : Hashing → List Row → Bool
staged h [] = true
staged h (r ∷ rows) = r.h64 == h.fx_hash64 r.ext_bytes && staged h rows

has_hash-has_ext :
    (h : Hashing) (ext : Bytes) (rows : List Row)
    → staged h rows ≡ true
    → has_ext ext rows ≡ true
    → has_hash (h.fx_hash64 ext) rows ≡ true
unfolding staged has_ext has_hash
has_hash-has_ext h ext [] s listed = cc
has_hash-has_ext h ext (r ∷ rows) s listed = ground (
  arith,
  has_hash-has_ext h ext rows,
  text_beq_iff r.ext_bytes ext,
  ==_iff r.h64 (h.fx_hash64 r.ext_bytes),
  ==_iff r.h64 (h.fx_hash64 ext),
)

module _ (R : Roaring) (h : Hashing) (b : InvertedIndexBuilder) (ext : Bytes)
    (all_staged : staged h b.raw ≡ true) (listed : has_ext ext b.raw ≡ true) where
  open R use {Bitmap}

  lookup-Finds :
      (idx : InvertedIndex Bitmap) (found : List ℕ)
      → maybe_contains R h idx ext ≡ ok true
      → ascending 0 idx.entries ≡ true
      → Finds idx.entries idx.memberships (h.fx_hash64 ext) found
      → lookup R h idx ext ≡ ok (decode idx.meta found)
  unfolding lookup entry_at decode_entry
  lookup-Finds idx found maybe grows (i, e, at, same, part) =
      rw (maybe, search-entry idx.entries (h.fx_hash64 ext) i e grows at same, at, part) refl

  -- An index can be built of fewer than 2 ^ 32 rows that `add` staged, and the lookup of each id that
  -- is among them returns the decoded memberships of the rows with the hash of that id, in some
  -- order: the Bloom filter and the binary search lose none, and add none but those of ids with the
  -- same hash. It is so for every sort that orders the rows by their hashes.
  pub lookup-build :
      length b.raw < 2 ^ 32
      → (idx : InvertedIndex Bitmap) × (found : List ℕ) × (build R h b ≡ ok idx)
        × (lookup R h idx ext ≡ ok (decode b.meta found))
        × Permᴰ found (packs (h.fx_hash64 ext) b.raw)
  unfolding build new_index maybe_contains
  lookup-build small =
      let k = h.fx_hash64 ext in
      let rows = h.sort_unstable_by_key b.raw in
      let moved = h.permutes b.raw in
      let capacity = at_least_one (distinct_hashes none rows) in
      let params = h.optimal_params capacity in
      let empty = new_index R h b.meta capacity in
      let g =
        group-Groups R h (length rows) 0 rows empty (omega arith)
          (omega (arith, small, length-Perm moved)) (h.sorts b.raw)
          (with_capacity-IsSized params.0 params.1 (h.num_bits_positive capacity)) in
      let hashed = has_hash-Perm k moved ∙ has_hash-has_ext h ext b.raw all_staged listed in
      (
        g.frozen,
        packs k rows,
        g.runs,
        lookup-Finds g.frozen (packs k rows) (g.covers ext (has_ext-Perm ext moved ∙ listed))
              (ap (λ (l : List IndexEntry). ascending 0 l) g.adds ∙ g.grows)
              (subst (λ (l : List IndexEntry). Finds l g.frozen.memberships k (packs k rows))
                (sym g.adds) (g.finds k hashed))
            ∙ ap (λ (m : InvertedMeta). ok (decode m (packs k rows))) g.same_meta,
        packs-Perm k moved,
      )
