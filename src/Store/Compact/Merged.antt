-- ===== src/Store/Compact/Merged.antt =====
-- The merge of the parts of a key in `compact_period` of src/lib.rs, where the store holds them.
use inoxset.Prelude.{
  ℕ, Bytes, Bool, true, false, List, [], ◌∷◌, ◌++◌, ltb, ◌≡◌, refl, ap, ◌∙◌, if◌then◌else◌,
}
use inoxset.Prelude.HashMap.{HashMap}
use inoxset.Types.{Part}
use inoxset.Error.{Result, ok}
use inoxset.Roaring.{Roaring}
use inoxset.Merge.{Ordered, tag, insert_by_id, sort_by_id, apply_part, fold_parts, merge_parts}
use inoxset.Merge.Bits.{fold_bits}
use inoxset.Store.{Store, read_catalog}
use inoxset.Store.Index.{mmap_read_part}
use inoxset.Store.Content.{Content, parts_of}
use inoxset.Store.Stored.{ids, AllKept, Stored}
use inoxset.Store.Swap.{all_ids}
use inoxset.Store.Compact.{located, without_ids, ids_of_parts, parts_found, merge_old}

ids_of_parts-append :
    (l m : List (ℕ × Part))
    → ids_of_parts (without_ids (l ++ m))
      ≡ ids_of_parts (without_ids l) ++ ids_of_parts (without_ids m)
unfolding ids_of_parts without_ids
ids_of_parts-append [] m = refl
ids_of_parts-append ((i, part) ∷ l) m = ap (λ t. part.part_id ∷ t) (ids_of_parts-append l m)

module _ (R : Roaring) (optimize : R.Bitmap → Result R.Bitmap)
    (files : HashMap Bytes R.Bitmap) where
  open R use {Bitmap, contains}

  -- The files of the parts of the one list read as the bitmaps of the other.
  data Reads : List (Ordered Bytes) → List (Ordered Bitmap) → Type 0 where
    none_read : Reads [] []
    one_read :
        (id : ℕ) (d : Bool) (path : Bytes) (b : Bitmap) {l : List (Ordered Bytes)}
        {m : List (Ordered Bitmap)}
        → mmap_read_part R files path ≡ ok b
        → Reads l m
        → Reads
            (record { id = id; is_delta = d; path = path } ∷ l)
            (record { id = id; is_delta = d; path = b } ∷ m)

  Reads-append :
      {l l' : List (Ordered Bytes)} {m m' : List (Ordered Bitmap)}
      → Reads l m
      → Reads l' m'
      → Reads (l ++ l') (m ++ m')
  Reads-append none_read g = g
  Reads-append (one_read id d path b e h) g = one_read id d path b e (Reads-append h g)

  Reads-if :
      (c : Bool) {l l' : List (Ordered Bytes)} {m m' : List (Ordered Bitmap)}
      → Reads l m
      → Reads l' m'
      → Reads (if c then l else l') (if c then m else m')
  Reads-if true h g = h
  Reads-if false h g = g

  insert_by_id-Reads :
      (id : ℕ) (d : Bool) (path : Bytes) (b : Bitmap) {l : List (Ordered Bytes)}
      {m : List (Ordered Bitmap)}
      → mmap_read_part R files path ≡ ok b
      → Reads l m
      → Reads
          (insert_by_id (record { id = id; is_delta = d; path = path }) l)
          (insert_by_id (record { id = id; is_delta = d; path = b }) m)
  unfolding insert_by_id
  insert_by_id-Reads id d path b e none_read = one_read id d path b e none_read
  insert_by_id-Reads id d path b e (one_read id' d' path' b' e' h) =
      Reads-if (ltb id' id) (one_read id' d' path' b' e' (insert_by_id-Reads id d path b e h))
        (one_read id d path b e (one_read id' d' path' b' e' h))

  sort_by_id-Reads :
      {l : List (Ordered Bytes)} {m : List (Ordered Bitmap)}
      → Reads l m
      → Reads (sort_by_id l) (sort_by_id m)
  unfolding sort_by_id
  sort_by_id-Reads none_read = none_read
  sort_by_id-Reads (one_read id d path b e h) =
      insert_by_id-Reads id d path b e (sort_by_id-Reads h)

  fold_parts-Reads :
      {l : List (Ordered Bytes)} {m : List (Ordered Bitmap)} (acc : Bitmap)
      → Reads l m
      → fold_parts R (mmap_read_part R files) optimize l acc ≡ ok (fold_bits R (λ p. p.path) m acc)
  unfolding fold_parts fold_bits
  fold_parts-Reads acc none_read = refl
  fold_parts-Reads acc (one_read id d path b e h) = rw e (fold_parts-Reads (apply_part R d acc b) h)

  merge_parts-Reads :
      (l m : List (ℕ × Bytes)) (c : Content Bitmap)
      → Reads (tag false l) (tag false c.data_parts)
      → Reads (tag true m) (tag true c.delta_parts)
      → merge_parts R (mmap_read_part R files) optimize l m
        ≡ optimize (fold_bits R (λ p. p.path) (sort_by_id (parts_of c)) R.new)
  unfolding merge_parts
  merge_parts-Reads l m c h g =
      rw (fold_parts-Reads R.new (sort_by_id-Reads (Reads-append h g))) refl

module _ (R : Roaring) (optimize : R.Bitmap → Result R.Bitmap) (s : Store R.Bitmap) where
  open R use {Bitmap, contains}

  -- The ids of parts that the store holds are all found.
  parts_found-kept :
      (d : Bool) (l : List (ℕ × Bitmap))
      → AllKept R s.catalog s.files (tag d l)
      → (found : List (ℕ × Part)) × (parts_found R optimize (ids l) s ≡ (ok found, s))
        × Reads R optimize s.files (tag d (located found)) (tag d l)
        × (ids_of_parts (without_ids found) ≡ ids l)
  unfolding parts_found AllKept tag ids located without_ids ids_of_parts read_catalog
  parts_found-kept d [] h = ([], refl, none_read, refl)
  parts_found-kept d ((i, b) ∷ l) (k, h) =
      let (found, done, reads, same) = parts_found-kept d l h in
      (
        (i, k.part) ∷ found,
        rw k.found (rw done refl),
        one_read i d k.part.file_path b k.reads reads,
        rw (k.own_id, same) refl,
      )

  AllKept-left :
      (l m : List (Ordered Bitmap))
      → AllKept R s.catalog s.files (l ++ m)
      → AllKept R s.catalog s.files l × AllKept R s.catalog s.files m
  unfolding AllKept
  AllKept-left [] m h = (tt, h)
  AllKept-left (p ∷ l) m (k, h) = let (a, b) = AllKept-left l m h in ((k, a), b)

  pub merge_old-kept :
      (key : Bytes) (c : Content Bitmap) (bound : ℕ) {merged : Bitmap}
      → Stored R s.catalog s.files key c bound
      → optimize (fold_bits R (λ p. p.path) (sort_by_id (parts_of c)) R.new) ≡ ok merged
      → (old : List Part) × (merge_old R optimize (ids c.data_parts) (ids c.delta_parts) s
          ≡ (ok (merged, old), s))
        × (ids_of_parts old ≡ all_ids R c)
  unfolding merge_old
  merge_old-kept key c bound h done =
      let (kept_data, kept_deltas) =
        AllKept-left (tag false c.data_parts) (tag true c.delta_parts) h.kept in
      let (l, found_l, reads_l, same_l) = parts_found-kept false c.data_parts kept_data in
      let (m, found_m, reads_m, same_m) = parts_found-kept true c.delta_parts kept_deltas in
      (
        without_ids (l ++ m),
        rw found_l (
            rw found_m (
              rw
                (
                  merge_parts-Reads R optimize s.files (located l) (located m) c reads_l reads_m,
                  done,
                )
                refl)),
        ids_of_parts-append l m ∙ rw (same_l, same_m) refl,
      )
