-- ===== src/Builder.antt =====
-- src/builder.rs: the settings of a store and its opening. The file system is what it holds under
-- the path; LMDB opens the catalog that is there, which a new one finds empty.
pub mod Recovery
mod Tests
use inoxset.Prelude.{
  ℕ, ◌*◌, Bytes, bytes, Bool, true, false, Option, none, some, List, [], ◌∷◌, ◌++◌, if◌then◌else◌,
}
use inoxset.Prelude.HashMap
use inoxset.Prelude.HashMap.{HashMap}
use inoxset.Prelude.Eq.{text_eq}
use inoxset.Types.{Granularity, Rollup, day}
use inoxset.Error.{Result, ok, err, panic, configuration, bitmap_io}
use inoxset.Roaring.{Roaring}
use inoxset.MemPart
use inoxset.MemPart.{Key}
use inoxset.Dict.{Dict}
use inoxset.Inverted.{Hashing, InvertedIndex}
use inoxset.Inverted
use inoxset.PartStore.Orphans.{scan_orphans}
use inoxset.Catalog.{Catalog, keys, all_part_ids}
use inoxset.Store.{Settings, Store}
use inoxset.Store.Monad.{Action, pure, lift, gets, modify, raise, ◌>>=◌, ◌>>◌}
use inoxset.Store.Freeze.{rebuild_inverted_index}
use inoxset.Store.Index.{build}

pub data IndexFreshness : Type 0 where
  disabled on_flush on_compact immediate : IndexFreshness

-- The metrics, the clock and the size of the memory map are left out.
pub record InoxSetBuilder : Type 0 where
  pub path : Option Bytes
  pub default_granularity : Granularity
  pub default_rollup : Rollup
  pub flush_threshold : ℕ
  pub max_events : ℕ
  pub is_read_only : Bool
  pub index_freshness : IndexFreshness

unfoldable pub new : InoxSetBuilder
new = record {
  path = none;
  default_granularity = day;
  default_rollup = Rollup.none;
  flush_threshold = 16 * 1024 * 1024;
  max_events = 0;
  is_read_only = false;
  index_freshness = IndexFreshness.disabled;
}

unfoldable pub with_path : InoxSetBuilder → Bytes → InoxSetBuilder
with_path b p = record b { path = some p }

unfoldable pub with_granularity : InoxSetBuilder → Granularity → InoxSetBuilder
with_granularity b g = record b { default_granularity = g }

unfoldable pub with_rollup : InoxSetBuilder → Rollup → InoxSetBuilder
with_rollup b r = record b { default_rollup = r }

unfoldable pub mempart_flush_threshold : InoxSetBuilder → ℕ → InoxSetBuilder
mempart_flush_threshold b size = record b { flush_threshold = size }

unfoldable pub with_max_events : InoxSetBuilder → ℕ → InoxSetBuilder
with_max_events b max = record b { max_events = max }

unfoldable pub read_only : InoxSetBuilder → Bool → InoxSetBuilder
read_only b ro = record b { is_read_only = ro }

unfoldable pub with_freshness : InoxSetBuilder → IndexFreshness → InoxSetBuilder
with_freshness b freshness = record b { index_freshness = freshness }

-- What is stored under the path.
pub record Disk (B : Type 0) : Type 0 where
  pub catalog : Catalog
  pub dict : Dict
  pub files : HashMap Bytes B

-- The surroundings of the program: where a file can be written or removed, and the hashes.
pub record Platform : Type 0 where
  pub writable : Bytes → Bool
  pub hashing : Hashing

unfoldable pub settings_of : Platform → InoxSetBuilder → Bytes → Settings
settings_of e b parts_root = record {
  parts_root = parts_root;
  default_granularity = b.default_granularity;
  default_rollup = b.default_rollup;
  flush_threshold = b.flush_threshold;
  max_events = b.max_events;
  is_read_only = b.is_read_only;
  writable = e.writable;
  hashing = e.hashing;
}

module _ {B : Type 0} where
  -- `delete_part`
  unfoldable pub delete_part : Platform → Bytes → Action (Disk B) (Unit {0})
  delete_part e path d =
      if e.writable path
      then (ok tt, record d { files = HashMap.remove d.files path })
      else (err (bitmap_io path), d)

  unfoldable pub delete_orphans : Platform → List Bytes → Action (Disk B) (Unit {0})
  unfolding delete_part
  delete_orphans e [] = pure tt
  delete_orphans e (path ∷ orphans) = do delete_part e path; delete_orphans e orphans

  -- Step 5, unless the store is read-only.
  unfoldable pub clean : Platform → Bool → Action (Disk B) (Unit {0})
  unfolding delete_orphans
  clean e ro d =
      if ro
      then (ok tt, d)
      else delete_orphans e (scan_orphans (all_part_ids d.catalog) (keys d.files)) d

module _ (R : Roaring) where
  open R use {Bitmap}

  -- Step 8
  frozen : Platform → IndexFreshness → Result (Option (InvertedIndex Bitmap))
  frozen e IndexFreshness.disabled = ok none
  frozen e IndexFreshness.on_flush = ok (some (Inverted.empty R e.hashing))
  frozen e IndexFreshness.on_compact = ok (some (Inverted.empty R e.hashing))
  frozen e IndexFreshness.immediate = err configuration

  unfoldable pub new_store :
      Disk Bitmap → List Bytes × HashMap Key Bitmap → Option (InvertedIndex Bitmap) → Store Bitmap
  new_store d (event_names, bitmap_cache) inverted = record {
    catalog = d.catalog;
    dict = d.dict;
    files = d.files;
    writer = MemPart.new R;
    event_names = event_names;
    bitmap_cache = bitmap_cache;
    inverted = inverted;
    is_closed = false;
  }

  opened_with : Settings → Result (Unit {0}) × Store Bitmap → Result (Settings × Store Bitmap)
  opened_with c (ok u, s) = ok (c, s)
  opened_with c (err e, s) = err e
  opened_with c (panic, s) = panic

  -- Step 8 follows step 7 only if the read index could be built.
  from_parts :
      Settings
      → Disk Bitmap
      → Result (List Bytes × HashMap Key Bitmap)
      → Result (Option (InvertedIndex Bitmap))
      → Result (Settings × Store Bitmap)
  unfolding new_store opened_with
  from_parts c d (ok ridx) (ok inverted) =
      opened_with c (rebuild_inverted_index R c (new_store d ridx inverted))
  from_parts c d (ok ridx) (err e) = err e
  from_parts c d (ok ridx) panic = panic
  from_parts c d (err e) inverted = err e
  from_parts c d panic inverted = panic

  -- Steps 7 to 9
  unfoldable pub assemble :
      Platform → InoxSetBuilder → Bytes → Disk Bitmap → Result (Settings × Store Bitmap)
  unfolding from_parts frozen settings_of
  assemble e b parts_root d =
      from_parts (settings_of e b parts_root) d (build R d.catalog d.files)
        (frozen e b.index_freshness)

  unfoldable pub open_at :
      Platform → InoxSetBuilder → Bytes → Action (Disk Bitmap) (Settings × Store Bitmap)
  unfolding clean assemble
  open_at e b path = do
    let parts_root = path ++ bytes "/parts"
    if e.writable parts_root then pure tt else raise (bitmap_io parts_root)
    clean e b.is_read_only
    (λ d. (assemble e b parts_root d, d))

  open_path :
      Platform → InoxSetBuilder → Option Bytes → Action (Disk Bitmap) (Settings × Store Bitmap)
  unfolding open_at
  open_path e b none = raise configuration
  open_path e b (some path) = open_at e b path

  -- `open` is a reserved word here.
  unfoldable pub open_store :
      Platform → InoxSetBuilder → Action (Disk Bitmap) (Settings × Store Bitmap)
  unfolding open_path
  open_store e b = open_path e b b.path
