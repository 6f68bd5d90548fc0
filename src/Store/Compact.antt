-- ===== src/Store/Compact.antt =====
-- `compact_period`, `compact_event` and `compact` of src/lib.rs. A `u8`, `u32` or `u64` sum keeps its
-- wrap-around.
pub mod Merged
pub mod Content
mod Tests
use inoxset.Prelude.{
  ℕ, ◌+◌, ◌-◌, ◌%◌, ◌^◌, Bytes, not, Option, some, List, [], ◌∷◌, ◌++◌, length, ltb, if◌then◌else◌,
}
use inoxset.Prelude.Eq.{nat_eq, text_eq}
use inoxset.Types.{Part, PartKind, PeriodState, EventConfig}
use inoxset.Error.{Result, ok, err, catalog_corrupted}
use inoxset.Roaring.{Roaring}
use inoxset.Merge.{is_eligible, merge_parts}
use inoxset.Catalog.{
  get_period_parts, get_period_deltas, get_part, set_period_parts, clear_period_deltas,
  set_period_state, list_events, period_keys_for_event, write_compaction_log,
}
use inoxset.Store.{
  Settings, Store, check_writable, write_txn, read_catalog, delete_files, ensure_event,
}
use inoxset.Store.Monad.{Action, pure, lift, gets, modify, ◌>>=◌, ◌>>◌}
use inoxset.Store.Index.{mmap_read_part, rebuild_read_index}
use inoxset.Store.Flush.{new_part, save_part}
use inoxset.Store.Replace.{delete_parts, first_of, alloc_ids}

pub record CompactStats : Type 0 where
  pub periods_compacted : ℕ
  pub parts_merged : ℕ
  pub deltas_applied : ℕ
  pub bytes_reclaimed : ℕ

abbrev pub no_stats : CompactStats
no_stats = record {
  periods_compacted = 0;
  parts_merged = 0;
  deltas_applied = 0;
  bytes_reclaimed = 0;
}

add_part : ℕ → Option Part → List (ℕ × Part) → List (ℕ × Part)
add_part pid Option.none parts = parts
add_part pid (some part) parts = (pid, part) ∷ parts

-- `(pid, part.file_path.clone())` for each part that was found
unfoldable pub located : List (ℕ × Part) → List (ℕ × Bytes)
located [] = []
located ((pid, part) ∷ parts) = (pid, part.file_path) ∷ located parts

-- `old_parts.push(part)`
unfoldable pub without_ids : List (ℕ × Part) → List Part
without_ids [] = []
without_ids ((pid, part) ∷ parts) = part ∷ without_ids parts

unfoldable pub ids_of_parts : List Part → List ℕ
ids_of_parts [] = []
ids_of_parts (part ∷ parts) = part.part_id ∷ ids_of_parts parts

unfoldable pub paths_of_parts : List Part → List Bytes
paths_of_parts [] = []
paths_of_parts (part ∷ parts) = part.file_path ∷ paths_of_parts parts

-- `iter().map(|p| p.level).max().unwrap_or(0)`
unfoldable pub max_level : List Part → ℕ
max_level [] = 0
max_level (part ∷ parts) =
    let rest = max_level parts in if ltb rest part.level then part.level else rest

unfoldable pub total_bytes : List Part → ℕ
total_bytes [] = 0
total_bytes (part ∷ parts) = (part.size_bytes + total_bytes parts) % 2 ^ 64

-- `max_level.saturating_add(1)` on `u8`
unfoldable pub next_level : ℕ → ℕ
next_level level = if ltb level 255 then level + 1 else 255

unfoldable pub representative : List Part → Result Part
representative [] = err catalog_corrupted
representative (part ∷ parts) = ok part

unfoldable pub add_stats : CompactStats → List ℕ → List ℕ → List Part → ℕ → CompactStats
unfolding total_bytes
add_stats stats data_ids delta_ids old_parts new_part_size = record {
  periods_compacted = (stats.periods_compacted + 1) % 2 ^ 32;
  parts_merged = (stats.parts_merged + length data_ids % 2 ^ 32) % 2 ^ 32;
  deltas_applied = (stats.deltas_applied + length delta_ids % 2 ^ 32) % 2 ^ 32;
  bytes_reclaimed = (stats.bytes_reclaimed + (total_bytes old_parts - new_part_size)) % 2 ^ 64;
}

module _ (R : Roaring) (optimize : R.Bitmap → Result R.Bitmap) where
  open R use {Bitmap}

  -- The records of the ids that have one.
  unfoldable pub parts_found : List ℕ → Action (Store Bitmap) (List (ℕ × Part))
  unfolding add_part
  parts_found [] = pure []
  parts_found (pid ∷ ids) = do
    part ← read_catalog (λ cat. get_part cat pid)
    parts ← parts_found ids
    pure (add_part pid part parts)

  -- The write transaction: the merged part, one level up, takes the place of the old parts.
  unfoldable pub commit_merged :
      Settings → ℕ → EventConfig → Bytes → Part → List Part → Bitmap → Action (Store Bitmap) ℕ
  unfolding first_of alloc_ids max_level next_level ids_of_parts delete_parts
  commit_merged c now config cat_key first old_parts merged = write_txn (do
    ids ← alloc_ids 1
    (id, rest) ← lift (first_of ids)
    let part =
        new_part R c now config first.event first.period PartKind.additive
          (next_level (max_level old_parts)) id merged
    save_part R c part merged
    modify (λ s. record s {
      catalog =
          set_period_state
            (clear_period_deltas (set_period_parts s.catalog cat_key (id ∷ [])) cat_key) cat_key
            PeriodState.compacted;
    })
    modify (λ s. record s {
      catalog = record s.catalog { parts = delete_parts (ids_of_parts old_parts) s.catalog.parts };
    })
    pure part.size_bytes)

  -- The merge of the parts that were found, and their records.
  unfoldable pub merge_old : List ℕ → List ℕ → Action (Store Bitmap) (Bitmap × List Part)
  unfolding parts_found located without_ids
  merge_old data_ids delta_ids = do
    data_parts ← parts_found data_ids
    delta_parts ← parts_found delta_ids
    files ← gets (λ s. s.files)
    merged ←
        lift (
          merge_parts R (mmap_read_part R files) optimize (located data_parts)
            (located delta_parts))
    pure (merged, without_ids (data_parts ++ delta_parts))

  unfoldable pub compact_parts :
      Settings → ℕ → Bytes → List ℕ → List ℕ → CompactStats → Action (Store Bitmap) CompactStats
  unfolding merge_old representative commit_merged paths_of_parts add_stats
  compact_parts c now cat_key data_ids delta_ids stats = do
    (merged, old_parts) ← merge_old data_ids delta_ids
    first ← lift (representative old_parts)
    config ← ensure_event c first.event
    new_part_size ← commit_merged c now config cat_key first old_parts merged
    rebuild_read_index R c
    delete_files (paths_of_parts old_parts)
    pure (add_stats stats data_ids delta_ids old_parts new_part_size)

  unfoldable pub compact_period :
      Settings → ℕ → Bytes → CompactStats → Action (Store Bitmap) CompactStats
  unfolding compact_parts
  compact_period c now cat_key stats = do
    data_ids ← read_catalog (λ cat. get_period_parts cat cat_key)
    delta_ids ← read_catalog (λ cat. get_period_deltas cat cat_key)
    if not (is_eligible (length data_ids) (length delta_ids))
        then pure stats
        else compact_parts c now cat_key data_ids delta_ids stats

  unfoldable pub compact_keys :
      Settings → ℕ → List Bytes → CompactStats → Action (Store Bitmap) CompactStats
  unfolding compact_period
  compact_keys c now [] stats = pure stats
  compact_keys c now (key ∷ keys) stats = do
    after ← compact_period c now key stats
    compact_keys c now keys after

  unfoldable pub compact_events :
      Settings → ℕ → List EventConfig → CompactStats → Action (Store Bitmap) CompactStats
  unfolding compact_keys
  compact_events c now [] stats = pure stats
  compact_events c now (ev ∷ events) stats = do
    keys ← gets (λ s. period_keys_for_event s.catalog ev.name)
    after ← compact_keys c now keys stats
    compact_events c now events after

  unfoldable pub compact_event : Settings → ℕ → Bytes → Action (Store Bitmap) CompactStats
  unfolding compact_keys
  compact_event c now event = do
    check_writable c
    keys ← gets (λ s. period_keys_for_event s.catalog event)
    compact_keys c now keys no_stats

  unfoldable pub compact : Settings → ℕ → Action (Store Bitmap) CompactStats
  unfolding compact_events
  compact c now = do
    check_writable c
    events ← read_catalog list_events
    stats ← compact_events c now events no_stats
    modify (λ s. record s {
      catalog =
          write_compaction_log s.catalog now stats.periods_compacted stats.parts_merged
            stats.deltas_applied stats.bytes_reclaimed;
    })
    pure stats
