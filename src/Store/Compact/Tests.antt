-- ===== src/Store/Compact/Tests.antt =====
-- Compaction of a period with a data part and a newer delta part, on bitmaps that are lists.
use inoxset.Prelude.{ℕ, Bytes, bytes, true, List, [], ◌∷◌, ◌≡◌, refl, ap, ◌∙◌, arith}
use inoxset.Prelude.Eq.{text_eq, text_beq_iff}
use inoxset.Types.{Granularity, Period, Part, PartKind, new_config}
use inoxset.Error.{ok}
use inoxset.Codec.Utf8.{is_utf8}
use inoxset.Codec.Part.RoundTrip.{Fits, IsStorable}
use inoxset.PartStore.{part_file_path}
use inoxset.Roaring.Instance.{list_roaring, member, count, without}
use inoxset.Catalog.Txn.{or_one}
use inoxset.Merge.{tag, sort_by_id, insert_by_id, apply_part}
use inoxset.Merge.Bits.{fold_bits}
use inoxset.Store.{Store}
use inoxset.Store.Content.{parts_of}
use inoxset.Store.Stored.{ids, read_disk-fold_bits}
use inoxset.Store.Disk.{read_disk}
use inoxset.Store.Flush.{new_part}
use inoxset.Store.Step.{Holds, add_data, add_delta}
use inoxset.Store.Commit.{IsConsistent}
use inoxset.Store.Swap.{replaced}
use inoxset.Store.Compact.{next_level, merge_old, commit_merged}
use inoxset.Store.Compact.Content.{commit_merged-read_disk}
use inoxset.Store.Sample.{settings, config, logins-Fits}
use inoxset.Store.Sample.Flushed.{
  key, parts, flushed, two_parts, next_three, two_parts-IsConsistent, two_parts-IsApart,
}

parts-key : fold_bits list_roaring (λ p. p.path) (sort_by_id (parts_of (parts key))) [] ≡ 1 ∷ []
unfolding add_data add_delta ids tag sort_by_id insert_by_id fold_bits apply_part without
parts-key = rw ((text_beq_iff key key).1 refl) refl

two_parts-read_disk : read_disk list_roaring two_parts.catalog two_parts.files key ≡ ok (1 ∷ [])
unfolding Holds
two_parts-read_disk =
    read_disk-fold_bits list_roaring two_parts.catalog two_parts.files key (parts key) 3
      (flushed.1 key)
    ∙ ap ok parts-key

merged_path-Fits : Fits (
    part_file_path
      (bytes "parts")
      (bytes "logins")
      Granularity.day
      (Period.day 2024 1 5)
      3
      PartKind.additive)
unfolding is_utf8 part_file_path
merged_path-Fits = record { short = omega arith; utf8 = refl }

abbrev first : Part
first =
    new_part list_roaring settings 1700000000 config (bytes "logins") (Period.day 2024 1 5)
      PartKind.additive 0 1 (1 ∷ 2 ∷ [])

merged_part-IsReady :
    (level : ℕ)
    → (settings.writable
          (new_part list_roaring settings 1700000000 config first.event first.period
            PartKind.additive
            (next_level level)
            3
            (1 ∷ [])).file_path
        ≡ true)
      × IsStorable (
          new_part list_roaring settings 1700000000 config first.event first.period
            PartKind.additive
            (next_level level)
            3
            (1 ∷ []))
unfolding new_part count new_config
merged_part-IsReady level = (
  refl,
  record {
    part_id = omega arith;
    size_bytes = omega arith;
    cardinality = omega arith;
    created_at = omega arith;
    period = omega arith;
    event = logins-Fits;
    path = merged_path-Fits;
  },
)

commit_merged-read_disk_example :
    (old : List Part) × (n : ℕ) × (t : Store (List ℕ)) × (merge_old list_roaring ok
        (ids (parts key).data_parts)
        (ids (parts key).delta_parts)
        two_parts
      ≡ (ok (1 ∷ [], old), two_parts))
    × (commit_merged list_roaring ok settings 1700000000 config key first old (1 ∷ []) two_parts
        ≡ (ok n, t))
    × IsConsistent list_roaring t
        (replaced list_roaring parts key (or_one two_parts.catalog.next_part_id) (1 ∷ []))
    × ((k : Bytes)
        → (before now : List ℕ) × (read_disk list_roaring two_parts.catalog two_parts.files k
            ≡ ok before)
          × (read_disk list_roaring t.catalog t.files k ≡ ok now)
          × ((x : ℕ) → member now x ≡ member before x))
commit_merged-read_disk_example =
    commit_merged-read_disk list_roaring ok settings 1700000000 config key first two_parts parts
      two_parts-IsConsistent (rw next_three (omega arith)) two_parts-IsApart (1 ∷ []) (1 ∷ [])
      two_parts-read_disk refl (λ x. refl) (rw next_three merged_part-IsReady)
