-- ===== src/Store/Index.antt =====
-- src/read_index.rs: the read index built from the catalog and the part files, and
-- `rebuild_read_index` of src/lib.rs.
use inoxset.Prelude.{ℕ, Bytes, true, false, Option, some, List, [], ◌∷◌, ◌++◌, ◌==◌, if◌then◌else◌}
use inoxset.Prelude.HashMap
use inoxset.Prelude.HashMap.{HashMap}
use inoxset.Prelude.Eq.{text_eq, pair_eq}
use inoxset.Types.{Period, Part, EventConfig}
use inoxset.Types.Order.{period_eq}
use inoxset.Error.{Result, ok, err, panic, bitmap_io, ◌>>=◌}
use inoxset.Period.Parse.{parse_period_key}
use inoxset.Roaring.{Roaring}
use inoxset.MemPart.{Key}
use inoxset.Catalog.{
  Catalog, list_events, period_keys_for_event, get_period_parts, get_period_deltas, get_part,
}
use inoxset.Merge.{tag, sort_by_id, fold_parts}
use inoxset.Store.{Settings, Store}
use inoxset.Store.Monad.{Action, next}
use inoxset.Store.Freeze.{rebuild_inverted_index}

-- `PeriodEntry`: the id and the path of each part
pub record PeriodEntry : Type 0 where
  pub data_parts : List (ℕ × Bytes)
  pub delta_parts : List (ℕ × Bytes)

after_slash : Bytes → Option Bytes
after_slash [] = Option.none
after_slash (b ∷ s) = if b == b'/' then some s else after_slash s

second_slash : Option Bytes → Option Bytes
second_slash Option.none = Option.none
second_slash (some s) = after_slash s

parse_key : Option Bytes → Option Period
parse_key Option.none = Option.none
parse_key (some s) = parse_period_key s

-- `splitn(3, '/').nth(2)`, and the period that it names
unfoldable pub period_of_key : Bytes → Option Period
unfolding after_slash second_slash parse_key
period_of_key cat_key = parse_key (second_slash (after_slash cat_key))

add_loc : ℕ → Option Part → List (ℕ × Bytes) → List (ℕ × Bytes)
add_loc pid Option.none locs = locs
add_loc pid (some part) locs = (pid, part.file_path) ∷ locs

unfoldable pub part_locs : Catalog → List ℕ → Result (List (ℕ × Bytes))
unfolding add_loc
part_locs cat [] = ok []
part_locs cat (pid ∷ ids) = do
  part ← get_part cat pid
  locs ← part_locs cat ids
  ok (add_loc pid part locs)

unfoldable pub period_entry : Catalog → Bytes → Result PeriodEntry
unfolding part_locs
period_entry cat cat_key = do
  data_ids ← get_period_parts cat cat_key
  data_parts ← part_locs cat data_ids
  delta_ids ← get_period_deltas cat cat_key
  delta_parts ← part_locs cat delta_ids
  ok (record { data_parts = data_parts; delta_parts = delta_parts })

-- The body of the loop over `keys`, for the period that the key names.
add_period :
    Catalog
    → Bytes
    → Bytes
    → Option Period
    → HashMap Key PeriodEntry
    → Result (HashMap Key PeriodEntry)
unfolding period_entry
add_period cat event cat_key Option.none periods = ok periods
add_period cat event cat_key (some period) periods = do
  entry ← period_entry cat cat_key
  ok (HashMap.insert periods (event, period) entry)

unfoldable pub add_periods :
    Catalog → Bytes → List Bytes → HashMap Key PeriodEntry → Result (HashMap Key PeriodEntry)
unfolding add_period period_of_key
add_periods cat event [] periods = ok periods
add_periods cat event (cat_key ∷ keys) periods = do
  added ← add_period cat event cat_key (period_of_key cat_key) periods
  add_periods cat event keys added

unfoldable pub add_events :
    Catalog → List EventConfig → HashMap Key PeriodEntry → Result (HashMap Key PeriodEntry)
unfolding add_periods
add_events cat [] periods = ok periods
add_events cat (ev ∷ events) periods = do
  added ← add_periods cat ev.name (period_keys_for_event cat ev.name) periods
  add_events cat events added

unfoldable pub names_of : List EventConfig → List Bytes
names_of [] = []
names_of (ev ∷ events) = ev.name ∷ names_of events

module _ (R : Roaring) where
  open R use {Bitmap}

  found_file : Bytes → Option Bitmap → Result Bitmap
  found_file path Option.none = err (bitmap_io path)
  found_file path (some bitmap) = ok bitmap

  -- `mmap_read_part`, on the files that hold what was serialized into them
  unfoldable pub mmap_read_part : HashMap Bytes Bitmap → Bytes → Result Bitmap
  unfolding found_file
  mmap_read_part files path = found_file path (HashMap.get files path)

  unfoldable pub merge_entry : HashMap Bytes Bitmap → PeriodEntry → Result Bitmap
  unfolding mmap_read_part
  merge_entry files entry =
      fold_parts R (mmap_read_part files) ok
        (sort_by_id (tag false entry.data_parts ++ tag true entry.delta_parts)) R.new

  unfoldable pub cache_of :
      HashMap Bytes Bitmap → HashMap Key PeriodEntry → Result (HashMap Key Bitmap)
  unfolding merge_entry
  cache_of files [] = ok []
  cache_of files ((key, entry) ∷ periods) = do
    merged ← merge_entry files entry
    cache ← cache_of files periods
    ok ((key, merged) ∷ cache)

  -- `ReadIndex::build`: the names of the events and the cache of bitmaps
  unfoldable pub build : Catalog → HashMap Bytes Bitmap → Result (List Bytes × HashMap Key Bitmap)
  unfolding add_events cache_of names_of
  build cat files = do
    events ← list_events cat
    periods ← add_events cat events []
    cache ← cache_of files periods
    ok (names_of events, cache)

  swap_index :
      Store Bitmap → Result (List Bytes × HashMap Key Bitmap) → Result (Unit {0}) × Store Bitmap
  swap_index s (ok (names, cache)) = (ok tt, record s { event_names = names; bitmap_cache = cache })
  swap_index s (err e) = (err e, s)
  swap_index s panic = (panic, s)

  -- The read index from the catalog and the files, and then the inverted index from both.
  unfoldable pub rebuild_read_index : Settings → Action (Store Bitmap) (Unit {0})
  unfolding build swap_index rebuild_inverted_index
  rebuild_read_index c s =
      let (r, t) = swap_index s (build s.catalog s.files) in
      next (λ _. rebuild_inverted_index R c) r t
