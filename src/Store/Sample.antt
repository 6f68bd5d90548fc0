-- ===== src/Store/Sample.antt =====
-- An empty store with an entry and a pending remove in its buffer, on bitmaps that are lists.
pub mod Flushed
use inoxset.Prelude.{ℕ, Bytes, bytes, true, false, none, List, [], ◌∷◌, refl, arith, length}
use inoxset.Prelude.HashMap
use inoxset.Prelude.HashMap.{HashMap}
use inoxset.Prelude.Eq.{text_eq}
use inoxset.Types.{Granularity, Rollup, Period, PartKind, EventConfig, new_config}
use inoxset.Codec.Utf8.{is_utf8}
use inoxset.Codec.Part.RoundTrip.{Fits}
use inoxset.PartStore.{part_file_path}
use inoxset.Roaring.Instance.{list_roaring, count}
use inoxset.MemPart.{Key, MemPart}
use inoxset.Catalog.{Catalog, get_period_parts, get_period_deltas, get_period_state}
use inoxset.Catalog.Txn.{or_one, ids_of, txn_get_ids, txn_get_period_state, state_of}
use inoxset.Merge.{tag}
use inoxset.Merge.Newest.{distinct}
use inoxset.Dict.{Dict}
use inoxset.Inverted.Instance.{length_hashing}
use inoxset.Inverted.{Hashing}
use inoxset.Store.{Settings, Store}
use inoxset.Store.Content.{Content, below}
use inoxset.Store.Stored.{ids, AllKept, Stored}
use inoxset.Store.Step.{Holds}
use inoxset.Store.Flush.{new_part}
use inoxset.Store.Commit.{IsReady, IsConsistent}

abbrev pub no_ids : Dict
no_ids = record { dict_fwd = []; dict_rev = []; dict_next_id = none }

abbrev pub settings : Settings
settings = record {
  parts_root = bytes "parts";
  default_granularity = Granularity.day;
  default_rollup = Rollup.auto;
  flush_threshold = 1000;
  max_events = 0;
  is_read_only = false;
  writable = λ path. true;
  hashing = length_hashing;
}

abbrev pub no_catalog : Catalog
no_catalog = record {
  events = [];
  parts = [];
  period_parts = [];
  period_deltas = [];
  period_state = [];
  compaction_log = [];
  next_part_id = none;
}

abbrev pub logins : Key
logins = (bytes "logins", Period.day 2024 1 5)

abbrev pub logins_year : Key
logins_year = (bytes "logins", Period.year 2024)

abbrev pub buffered : MemPart (List ℕ)
buffered = record {
  bitmaps = (logins, 1 ∷ 2 ∷ []) ∷ [];
  deltas = (logins_year, 3 ∷ []) ∷ [];
  size_bytes = 28;
}

abbrev pub store : Store (List ℕ)
store = record {
  catalog = no_catalog;
  dict = no_ids;
  files = [];
  writer = buffered;
  event_names = [];
  bitmap_cache = [];
  inverted = none;
  is_closed = false;
}

abbrev pub configs : HashMap Bytes EventConfig
configs = (bytes "logins", new_config (bytes "logins") Granularity.day Rollup.auto) ∷ []

abbrev pub nothing : Bytes → Content (List ℕ)
nothing key = record { data_parts = []; delta_parts = [] }

pub nothing-Stored : (key : Bytes) → Stored list_roaring no_catalog [] key (nothing key) 1
unfolding get_period_parts get_period_deltas get_period_state txn_get_ids ids_of
    txn_get_period_state state_of HashMap.get ids AllKept tag distinct below
nothing-Stored key = record {
  data_ids = refl;
  delta_ids = refl;
  kept = tt;
  unique = refl;
  old = refl;
  state = none;
  has_state = refl;
}

pub consistent : IsConsistent list_roaring store nothing
unfolding IsConsistent Holds or_one
consistent = nothing-Stored

pub logins-Fits : Fits (bytes "logins")
unfolding is_utf8
logins-Fits = record { short = omega arith; utf8 = refl }

abbrev pub config : EventConfig
config = new_config (bytes "logins") Granularity.day Rollup.auto

data_path-Fits : Fits (
    part_file_path
      (bytes "parts")
      (bytes "logins")
      Granularity.day
      (Period.day 2024 1 5)
      1
      PartKind.additive)
unfolding is_utf8 part_file_path
data_path-Fits = record { short = omega arith; utf8 = refl }

pub data-IsReady :
    IsReady list_roaring settings 1700000000 PartKind.additive config logins 1 (1 ∷ 2 ∷ [])
unfolding new_part count new_config
data-IsReady = record {
  can_write = refl;
  can_store = record {
    part_id = omega arith;
    size_bytes = omega arith;
    cardinality = omega arith;
    created_at = omega arith;
    period = omega arith;
    event = logins-Fits;
    path = data_path-Fits;
  };
}
