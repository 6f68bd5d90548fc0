-- ===== src/Store/Tests.antt =====
-- A flush of an empty store, on bitmaps that are lists.
use inoxset.Prelude.{
  ℕ, Bytes, bytes, false, not, ◌&&◌, ◌||◌, none, List, [], ◌∷◌, ◌≡◌, ◌≢◌, refl, arith,
}
use inoxset.Prelude.HashMap
use inoxset.Prelude.HashMap.{HashMap}
use inoxset.Prelude.Eq.{text_eq, text_beq}
use inoxset.Types.{Granularity, Period, PartKind, new_config, SetExpr, ref, and}
use inoxset.Error.{
  Result, InoxSetError, ok, err, bitmap_io, ◌>>=◌, is_name_byte, is_ascii_alphanumeric,
}
use inoxset.Error.Names.{IsName}
use inoxset.Period.Calendar.{days_in_month}
use inoxset.Codec.Utf8.{is_utf8}
use inoxset.Codec.Part.RoundTrip.{Fits}
use inoxset.PartStore.{part_file_path}
use inoxset.Roaring.Instance.{list_roaring, member, count}
use inoxset.MemPart.{Key, MemPartSnapshot, take_snapshot, get_bitmap, get_delta}
use inoxset.Catalog.{get_period_parts, get_period_deltas}
use inoxset.Catalog.Txn.{txn_alloc_part_ids, or_one, ids_of, txn_get_ids}
use inoxset.Merge.{sort_by_id}
use inoxset.Store.{Settings, Store, write_txn, read_catalog, write_part}
use inoxset.Store.Loop.{AllReady}
use inoxset.Read.{or_some, minus_some, query}
use inoxset.Store.Disk.{tag_ids, fold_ids, read_disk, get_from, get}
use inoxset.Store.Query.{query_cardinality}
use inoxset.Store.Cardinality.{query_cardinality-query}
use inoxset.Store.Flush.{new_part, commit_snapshot}
use inoxset.Store.Commit.{
  IsReady, IsConsistent, written, after_snapshot, commit_snapshot-IsConsistent,
  commit_snapshot-read_disk,
}
use inoxset.Store.Failure.{commit_snapshot-fails}
use inoxset.Store.Preserve.{IsProper, AllProper, absent, commit_snapshot-get}
use inoxset.Store.Sample.{
  data-IsReady, settings, no_catalog, logins, logins_year, buffered, store, configs, nothing,
  consistent, logins-Fits, config,
}

delta_path-Fits : Fits (
    part_file_path
      (bytes "parts")
      (bytes "logins")
      Granularity.day
      (Period.year 2024)
      2
      PartKind.delta)
unfolding is_utf8 part_file_path
delta_path-Fits = record { short = omega arith; utf8 = refl }

delta-IsReady :
    IsReady list_roaring settings 1700000000 PartKind.delta config logins_year 2 (3 ∷ [])
unfolding new_part count new_config
delta-IsReady = record {
  can_write = refl;
  can_store = record {
    part_id = omega arith;
    size_bytes = omega arith;
    cardinality = omega arith;
    created_at = omega arith;
    period = omega arith;
    event = logins-Fits;
    path = delta_path-Fits;
  };
}

data-AllReady :
    AllReady list_roaring
      (IsReady list_roaring settings 1700000000 PartKind.additive)
      configs
      buffered.bitmaps
      1
unfolding AllReady HashMap.get text_beq
data-AllReady = ((config, refl, data-IsReady), tt)

delta-AllReady :
    AllReady list_roaring
      (IsReady list_roaring settings 1700000000 PartKind.delta)
      configs
      buffered.deltas
      2
unfolding AllReady HashMap.get text_beq
delta-AllReady = ((config, refl, delta-IsReady), tt)

logins-IsName : IsName (bytes "logins")
unfolding is_name_byte is_ascii_alphanumeric
logins-IsName = ground arith

logins-IsProper : IsProper logins
unfolding days_in_month
logins-IsProper = record { name = logins-IsName; valid = ground arith; year = omega arith }

logins_year-IsProper : IsProper logins_year
logins_year-IsProper = record { name = logins-IsName; valid = tt; year = omega arith }

proper_bitmaps : AllProper buffered.bitmaps
unfolding AllProper absent
proper_bitmaps = (logins-IsProper, refl, tt)

proper_deltas : AllProper buffered.deltas
unfolding AllProper absent
proper_deltas = (logins_year-IsProper, refl, tt)

abbrev snapshot : MemPartSnapshot (List ℕ)
snapshot = record { bitmaps = buffered.bitmaps; deltas = buffered.deltas; size_bytes = 28 }

commit_snapshot-IsConsistent_example :
    (t : Store (List ℕ)) × (commit_snapshot list_roaring settings 1700000000 configs snapshot store
      ≡ (ok tt, t))
    × IsConsistent list_roaring t (after_snapshot list_roaring nothing snapshot (or_one none))
    × (t.writer ≡ store.writer)
unfolding or_one
commit_snapshot-IsConsistent_example =
    commit_snapshot-IsConsistent list_roaring settings 1700000000 configs snapshot store nothing
      consistent (omega arith) data-AllReady delta-AllReady

commit_snapshot-read_disk_example :
    (t : Store (List ℕ)) × (commit_snapshot list_roaring settings 1700000000 configs snapshot store
      ≡ (ok tt, t))
    × (t.writer ≡ store.writer)
    × ((key : Bytes)
        → (m n : List ℕ) × (read_disk list_roaring no_catalog [] key ≡ ok m)
          × (read_disk list_roaring t.catalog t.files key ≡ ok n)
          × ((x : ℕ)
              → member n x ≡ (
                  (member m x || written list_roaring x buffered.bitmaps key)
                  && not (written list_roaring x buffered.deltas key))))
unfolding or_one
commit_snapshot-read_disk_example =
    commit_snapshot-read_disk list_roaring settings 1700000000 configs snapshot store nothing
      consistent (omega arith) data-AllReady delta-AllReady

commit_snapshot-get_example :
    (t : Store (List ℕ)) × (commit_snapshot list_roaring settings 1700000000 configs
        (take_snapshot list_roaring buffered).1
        (record store { writer = (take_snapshot list_roaring buffered).0 })
      ≡ (ok tt, t))
    × ((k : Key)
        → IsProper k
        → (m n : List ℕ) × (get_from list_roaring none store k.0 k.1 ≡ ok m)
          × (get_from list_roaring none t k.0 k.1 ≡ ok n)
          × ((x : ℕ) → member n x ≡ member m x))
unfolding or_one
commit_snapshot-get_example =
    commit_snapshot-get list_roaring settings 1700000000 configs store nothing consistent
      proper_bitmaps proper_deltas (omega arith) data-AllReady delta-AllReady

total :
    (event : Bytes) (period : Period) → (b : List ℕ) × (get list_roaring store event period ≡ ok b)
unfolding get get_from read_disk HashMap.get get_period_parts get_period_deltas txn_get_ids ids_of
    tag_ids sort_by_id fold_ids
total event period = (
  minus_some list_roaring (or_some list_roaring [] (get_bitmap list_roaring buffered event period))
      (get_delta list_roaring buffered event period),
  refl,
)

abbrev both : SetExpr
both = and (ref (bytes "logins") (Period.day 2024 1 5)) (ref (bytes "logins") (Period.year 2024))

query_cardinality-query_example :
    query_cardinality list_roaring store both
    ≡ (query list_roaring (get list_roaring store) both >>= λ bm. ok (count bm))
query_cardinality-query_example = query_cardinality-query list_roaring store total both

-- No file can be written.
abbrev full_disk : Settings
full_disk = record settings { writable = λ path. false }

abbrev failed : Result (Unit {0}) × Store (List ℕ)
failed = commit_snapshot list_roaring full_disk 1700000000 configs snapshot store

failed-err : (e : InoxSetError) × (failed.0 ≡ err e)
unfolding commit_snapshot HashMap.get text_beq new_part write_txn read_catalog txn_alloc_part_ids
    write_part new_config
failed-err = (
  bitmap_io (
      part_file_path (bytes "parts") (bytes "logins") Granularity.day (Period.day 2024 1 5) 1
        PartKind.additive),
  refl,
)

not_ok : (r : Result (Unit {0})) (e : InoxSetError) → r ≡ err e → r ≢ ok tt
not_ok r e h k = cc

commit_snapshot-fails_example :
    (failed.1.catalog ≡ no_catalog)
    × (failed.1.writer ≡ buffered)
    × IsConsistent list_roaring failed.1 nothing
    × ((key : Bytes)
        → read_disk list_roaring failed.1.catalog failed.1.files key
          ≡ read_disk list_roaring no_catalog [] key)
commit_snapshot-fails_example =
    commit_snapshot-fails list_roaring full_disk 1700000000 configs snapshot store nothing
      consistent (not_ok failed.0 failed-err.0 failed-err.1)
