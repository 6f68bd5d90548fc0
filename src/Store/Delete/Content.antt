-- ===== src/Store/Delete/Content.antt =====
-- The removal of a period's parts and files in `delete_period` of src/lib.rs, and what `get` reads
-- before and after it.
use inoxset.Prelude.{
  ℕ, Bytes, Bool, true, false, not, ◌&&◌, some, none, List, [], ◌≡◌, refl, ap, sym, subst, ◌∙◌,
  Bool-cases, inl, inr, if◌then◌else◌,
}
use inoxset.Prelude.HashMap.{HashMap}
use inoxset.Prelude.Eq.{nat_eq, text_eq, text_beq}
use inoxset.Types.{Part}
use inoxset.Error.{ok}
use inoxset.Roaring.{Roaring, is_among}
use inoxset.PartStore.{extract_part_id_from_filename}
use inoxset.Catalog.{Catalog, get_part, get_period_parts, get_period_deltas, get_period_state}
use inoxset.Catalog.Txn.{or_one}
use inoxset.Catalog.Delete.{delete_period_returning_parts}
use inoxset.Catalog.Removal.{
  is_listed, no_twice, AllFound, delete_period_returning_parts-lookup,
  delete_period_returning_parts-counter,
}
use inoxset.Merge.{tag}
use inoxset.Merge.Newest.{distinct, survives}
use inoxset.Store.{Store, read_catalog, delete_files}
use inoxset.Store.Index.{mmap_read_part}
use inoxset.Store.Content.{Content, parts_of, below, shows}
use inoxset.Store.Stored.{ids, AllKept, Stored, read_disk-shows}
use inoxset.Store.Disk.{read_disk}
use inoxset.Store.Step.{Holds}
use inoxset.Store.Commit.{IsConsistent}
use inoxset.Store.Swap.{all_ids, IsApart}
use inoxset.Store.Compact.{paths_of_parts}
use inoxset.Store.Delete.{remove_parts}
use inoxset.Store.Delete.Files.{
  is_listed-among, Named, part_ids, part_ids-append, part_ids-tag, part_ids-distinct, records,
  delete_files-Named, AllKept-apart,
}

module _ (R : Roaring) where
  open R use {Bitmap, contains}

  abbrev pub no_parts : Content Bitmap
  no_parts = record { data_parts = []; delta_parts = [] }

  -- No part at the key, and the parts of every other key.
  unfoldable pub dropped : (Bytes → Content Bitmap) → Bytes → Bytes → Content Bitmap
  dropped a key j = if text_beq key j then no_parts else a j

  dropped-shows :
      (a : Bytes → Content Bitmap) (key j : Bytes) (x : ℕ)
      → shows R x (dropped a key j) ≡ (not (text_beq key j) && shows R x (a j))
  unfolding dropped shows survives tag
  dropped-shows a key j x = elim (Bool-cases (text_beq key j)) [
    | inl e ↦ rw e refl
    | inr e ↦ rw e refl
  ]

  module _ (key : Bytes) (s : Store Bitmap) (a : Bytes → Content Bitmap)
      (consistent : IsConsistent R s a) (apart : IsApart R a key) where
    abbrev bound : ℕ
    bound = or_one s.catalog.next_part_id

    stored : (j : Bytes) → Stored R s.catalog s.files j (a j) bound
    stored = unfold IsConsistent Holds in consistent

    ids_of_key : part_ids (parts_of (a key)) ≡ all_ids R (a key)
    ids_of_key =
        part_ids-append (tag false (a key).data_parts) (tag true (a key).delta_parts)
        ∙ rw (part_ids-tag false (a key).data_parts, part_ids-tag true (a key).delta_parts) refl

    module _ (after : Catalog) (files : HashMap Bytes Bitmap)
        (finds : (i : ℕ)
          → get_part after i
            ≡ (if is_listed i (all_ids R (a key)) then ok none else get_part s.catalog i))
        (lists : (j : Bytes)
          → (get_period_parts after j
              ≡ (if text_beq key j then ok [] else get_period_parts s.catalog j))
            × (get_period_deltas after j
                ≡ (if text_beq key j then ok [] else get_period_deltas s.catalog j))
            × (get_period_state after j
                ≡ (if text_beq key j then ok none else get_period_state s.catalog j)))
        (reads : (i : ℕ) (path : Bytes)
          → extract_part_id_from_filename path ≡ some i
          → is_among i (all_ids R (a key)) ≡ false
          → mmap_read_part R files path ≡ mmap_read_part R s.files path) where
      dropped-Stored : (j : Bytes) → text_beq key j ≡ true → Stored R after files j no_parts bound
      unfolding ids tag AllKept distinct below
      dropped-Stored j e = record {
        data_ids = (lists j).0 ∙ rw e refl;
        delta_ids = (lists j).1 ∙ rw e refl;
        kept = tt;
        unique = refl;
        old = refl;
        state = none;
        has_state = (lists j).2 ∙ rw e refl;
      }

      kept-Stored : (j : Bytes) → text_beq key j ≡ false → Stored R after files j (a j) bound
      kept-Stored j e = record {
        data_ids = (lists j).0 ∙ rw e (stored j).data_ids;
        delta_ids = (lists j).1 ∙ rw e (stored j).delta_ids;
        kept =
            AllKept-apart R s.catalog after s.files files (all_ids R (a key)) (parts_of (a j))
              (λ i h. finds i ∙ rw (is_listed-among i (all_ids R (a key)), h) refl) reads
              (apart j e) (stored j).kept;
        unique = (stored j).unique;
        old = (stored j).old;
        state = (stored j).state;
        has_state = (lists j).2 ∙ rw e (stored j).has_state;
      }

      dropped-Holds : (j : Bytes) → Stored R after files j (dropped a key j) bound
      unfolding dropped
      dropped-Holds j = elim (Bool-cases (text_beq key j)) [
        | inl e ↦ rw e (dropped-Stored j e)
        | inr e ↦ rw e (kept-Stored j e)
      ]

    -- Removing the parts of a key from a store whose parts and counter are consistent, with no part
    -- of the key listed under another key, succeeds, and so does the removal of their files. The
    -- store is then consistent again, without parts at the key, and for every catalog key the fold
    -- of the parts that `get` makes gives a bitmap before and after it: at the key it is then empty,
    -- and at every other key it has the bits it had, as no file of another part was removed.
    pub remove_parts-read_disk :
        (parts : List Part) × (t u : Store Bitmap) × (remove_parts
            (λ cat. delete_period_returning_parts cat key)
            s
          ≡ (ok parts, t))
        × (delete_files (paths_of_parts parts) t ≡ (ok tt, u))
        × IsConsistent R u (dropped a key)
        × ((k : Bytes)
            → (m n : Bitmap) × (read_disk R s.catalog s.files k ≡ ok m)
              × (read_disk R u.catalog u.files k ≡ ok n)
              × ((x : ℕ) → contains n x ≡ (not (text_beq key k) && contains m x)))
    unfolding remove_parts read_catalog IsConsistent Holds
    remove_parts-read_disk =
        let (parts, found, named) =
          records R s.catalog s.files (parts_of (a key)) (stored key).kept in
        let different : no_twice (all_ids R (a key)) ≡ true =
          rw (sym ids_of_key, sym (part_ids-distinct (parts_of (a key)))) (stored key).unique in
        let found_ids = subst (λ l. AllFound s.catalog.parts l parts) ids_of_key found in
        let named_ids = subst (λ l. Named l (paths_of_parts parts)) ids_of_key named in
        let (after, done, finds, lists) =
          delete_period_returning_parts-lookup s.catalog key (ids (a key).data_parts)
            (ids (a key).delta_parts) parts (stored key).data_ids (stored key).delta_ids different
            found_ids in
        let counter =
          delete_period_returning_parts-counter s.catalog key (ids (a key).data_parts)
            (ids (a key).delta_parts) parts (stored key).data_ids (stored key).delta_ids different
            found_ids done in
        let (files, gone, reads) = delete_files-Named R (record s { catalog = after }) named_ids in
        let holds = dropped-Holds after files finds lists reads in
        (
          parts,
          record s { catalog = after },
          record s { catalog = after; files = files },
          rw done refl,
          gone,
          subst (λ n. (j : Bytes) → Stored R after files j (dropped a key j) (or_one n))
              (sym counter) holds,
          λ k.
              let (m, before, bits) =
                read_disk-shows R s.catalog s.files k (a k) bound (stored k) in
              let (n, now, new_bits) =
                read_disk-shows R after files k (dropped a key k) bound (holds k) in
              (
                m,
                n,
                before,
                now,
                λ x.
                    new_bits x
                    ∙ dropped-shows a key k x
                    ∙ ap (λ (v : Bool). not (text_beq key k) && v) (sym (bits x)),
              ),
        )
