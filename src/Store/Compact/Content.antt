-- ===== src/Store/Compact/Content.antt =====
-- Compaction of one key, in `compact_period` of src/lib.rs, and what `get` reads before and after it.
use inoxset.Prelude.{
  ℕ, ◌+◌, ◌<◌, ◌^◌, Bytes, true, some, List, ◌≡◌, refl, ap, ◌∙◌, Bool-cases, inl, inr,
  if◌then◌else◌, arith,
}
use inoxset.Prelude.HashMap
use inoxset.Prelude.HashMap.{HashMap}
use inoxset.Prelude.Eq.{nat_eq, text_eq, text_beq, text_beq_iff}
use inoxset.Types.{Part, PartKind, PeriodState, EventConfig}
use inoxset.Error.{Result, ok}
use inoxset.Roaring.{Roaring}
use inoxset.Codec.Part.RoundTrip.{IsStorable}
use inoxset.PartStore.{extract_part_id_from_filename}
use inoxset.PartStore.Names.{extract_part_id_from_filename-part_file_path}
use inoxset.Catalog.{
  get_period_state, set_period_parts, clear_period_deltas, set_period_state, register_part,
}
use inoxset.Catalog.Txn.{range, or_one, txn_set_period_state}
use inoxset.Catalog.Lookup.{txn_register_part-lookup}
use inoxset.Store.{Settings, Store, write_part, read_catalog, put_catalog, write_txn}
use inoxset.Store.Content.{Content}
use inoxset.Store.Stored.{ids, Stored, Stored-counter, read_disk-fold_bits}
use inoxset.Store.Disk.{read_disk}
use inoxset.Store.Flush.{new_part, save_part}
use inoxset.Store.Step.{Holds, Readable, Readable-set}
use inoxset.Store.Commit.{IsConsistent, txn_alloc_part_ids-range}
use inoxset.Store.Swap.{all_ids, replaced, IsApart, after, swap-Holds, replaced-read_disk}
use inoxset.Store.Replace.{alloc_ids, first_of}
use inoxset.Store.Compact.{ids_of_parts, max_level, next_level, merge_old, commit_merged}
use inoxset.Store.Compact.Merged.{merge_old-kept}

module _ (R : Roaring) (optimize : R.Bitmap → Result R.Bitmap) (c : Settings) (now : ℕ)
    (config : EventConfig) (key : Bytes) (first : Part) (s : Store R.Bitmap)
    (a : Bytes → Content R.Bitmap) (consistent : IsConsistent R s a)
    (room : or_one s.catalog.next_part_id + 1 < 2 ^ 64) (apart : IsApart R a key) where
  open R use {Bitmap, contains}

  abbrev id : ℕ
  id = or_one s.catalog.next_part_id

  abbrev pub merged_part : ℕ → Bitmap → Part
  merged_part level merged =
      new_part R c now config first.event first.period PartKind.additive level id merged

  abbrev moved : Store Bitmap
  moved = record s { catalog = record s.catalog { next_part_id = some (id + 1) } }

  stored : (j : Bytes) → Stored R s.catalog s.files j (a j) id
  stored = unfold IsConsistent Holds in consistent

  moved-Holds : Holds R moved a id
  unfolding Holds
  moved-Holds j = Stored-counter R s.catalog s.files (some (id + 1)) j (a j) id (stored j)

  named :
      (level : ℕ) (merged : Bitmap)
      → extract_part_id_from_filename (merged_part level merged).file_path ≡ some id
  unfolding new_part
  named level merged =
      extract_part_id_from_filename-part_file_path c.parts_root first.event
        config.finest_granularity first.period id PartKind.additive (omega arith)

  module _ (old : List Part) (same_ids : ids_of_parts old ≡ all_ids R (a key)) (merged : Bitmap)
      (writes : c.writable (merged_part (next_level (max_level old)) merged).file_path ≡ true)
      (storable : IsStorable (merged_part (next_level (max_level old)) merged)) where
    abbrev part : Part
    part = merged_part (next_level (max_level old)) merged

    commit_merged-IsConsistent :
        (n : ℕ) × (t : Store Bitmap) × (commit_merged R optimize c now config key first old merged s
          ≡ (ok n, t))
        × IsConsistent R t (replaced R a key id merged)
    unfolding commit_merged write_txn alloc_ids first_of range save_part write_part read_catalog
        put_catalog register_part set_period_parts clear_period_deltas set_period_state
        get_period_state IsConsistent new_part
    commit_merged-IsConsistent =
        let (parts, registered, finds) = txn_register_part-lookup s.catalog.parts part storable in
        let states = txn_set_period_state s.catalog.period_state key PeriodState.compacted in
        let reads : (j : Bytes) → Readable states j = λ j.
          Readable-set s.catalog.period_state key j PeriodState.compacted
            ((stored j).state, (stored j).has_state) in
        let held =
          swap-Holds R part merged key moved a moved-Holds (omega arith)
            (named (next_level (max_level old)) merged) apart parts finds states reads in
        (
          part.size_bytes,
          record moved {
            files = HashMap.insert s.files part.file_path merged;
            catalog =
                after R part merged key moved a moved-Holds (omega arith)
                  (named (next_level (max_level old)) merged) apart parts finds states reads;
          },
          rw (txn_alloc_part_ids-range s.catalog.next_part_id 1 room)
              (rw (writes, registered, same_ids) refl),
          unfold or_one in held,
        )

  same_bitmap : (m n : Bitmap) (r : Result Bitmap) → r ≡ ok m → r ≡ ok n → m ≡ n
  same_bitmap m n r e f = cc

  bit_kept :
      (m merged : Bitmap)
      → read_disk R s.catalog s.files key ≡ ok m
      → ((x : ℕ) → contains merged x ≡ contains m x)
      → (k : Bytes) (before : Bitmap) → read_disk R s.catalog s.files k ≡ ok before
      → (x : ℕ)
      → (if text_beq key k then contains merged x else contains before x) ≡ contains before x
  bit_kept m merged reads same k before was x = elim (Bool-cases (text_beq key k)) [
    | inl e ↦
        let here = ap (read_disk R s.catalog s.files) ((text_beq_iff key k).0 e) in
        rw e (
          same x
          ∙ ap (λ (b : Bitmap). contains b x)
              (same_bitmap m before (read_disk R s.catalog s.files key) reads (here ∙ was)))
    | inr e ↦ rw e refl
  ]

  -- Compaction of a key whose bitmap survives the round trip of its serialization, on a store whose
  -- parts and counter are consistent, with an id left and no part
  -- of the key listed under another key, goes through: the parts of the key are found and merged,
  -- and where the merged part can be stored and its path written, the transaction succeeds. The
  -- parts and the counter are consistent again, with the merged part as the key's only one, and for
  -- every catalog key the fold of the parts that `get` makes gives a bitmap with the bits it had.
  pub commit_merged-read_disk :
      (m merged : Bitmap)
      → read_disk R s.catalog s.files key ≡ ok m
      → optimize m ≡ ok merged
      → ((x : ℕ) → contains merged x ≡ contains m x)
      → ((level : ℕ)
          → (c.writable (merged_part (next_level level) merged).file_path ≡ true)
            × IsStorable (merged_part (next_level level) merged))
      → (old : List Part) × (n : ℕ) × (t : Store Bitmap) × (merge_old R optimize
            (ids (a key).data_parts)
            (ids (a key).delta_parts)
            s
          ≡ (ok (merged, old), s))
        × (commit_merged R optimize c now config key first old merged s ≡ (ok n, t))
        × IsConsistent R t (replaced R a key id merged)
        × ((k : Bytes)
            → (before now : Bitmap) × (read_disk R s.catalog s.files k ≡ ok before)
              × (read_disk R t.catalog t.files k ≡ ok now)
              × ((x : ℕ) → contains now x ≡ contains before x))
  commit_merged-read_disk m merged reads done same ready =
      let folded = read_disk-fold_bits R s.catalog s.files key (a key) id (stored key) in
      let (old, found, same_ids) =
        merge_old-kept R optimize s key (a key) id (stored key)
          (ap optimize (same_bitmap _ m (read_disk R s.catalog s.files key) folded reads) ∙ done) in
      let (writes, storable) = ready (max_level old) in
      let (n, t, committed, held) =
        commit_merged-IsConsistent old same_ids merged writes storable in
      (
        old,
        n,
        t,
        found,
        committed,
        held,
        λ k.
            let (before, after, was, is, bits, now_bits) =
              replaced-read_disk R s t a key id merged id (or_one t.catalog.next_part_id)
                (unfold IsConsistent in consistent) (unfold IsConsistent in held) k in
            (before, after, was, is, λ x. now_bits x ∙ bit_kept m merged reads same k before was x),
      )
