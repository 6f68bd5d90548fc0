-- ===== src/Store/Ids/Tests.antt =====
-- Two ids in a store that is not flushed.
use inoxset.Prelude.{
  ℕ, Bytes, bytes, Bool, true, false, ◌&&◌, Option, none, some, List, [], ◌∷◌, ◌≡◌, refl,
}
use inoxset.Prelude.HashMap
use inoxset.Prelude.Eq.{text_eq, pair_eq, text_beq}
use inoxset.Codec.{deserialize_event_config, serialize_event_config}
use inoxset.Types.{new_config, Granularity, Rollup, Period, period_beq, components}
use inoxset.Types.Order.{period_eq}
use inoxset.Error.{ok}
use inoxset.Roaring.Instance.{list_roaring, member}
use inoxset.Inverted.Instance.{length_hashing}
use inoxset.Inverted.{InvertedIndex, any_pair}
use inoxset.Dict.{Dict}
use inoxset.Dict
use inoxset.Read.{contains_bit}
use inoxset.Error.{validate_event_name, is_name_byte, is_ascii_alphanumeric}
use inoxset.Period.{validate}
use inoxset.Period.Calendar.{days_in_month}
use inoxset.MemPart.{get_delta}
use inoxset.Read.{some_contains}
use inoxset.Dict.{batch_lookup}
use inoxset.Catalog.{get_event, register_event}
use inoxset.Store.Write.{remove_bits}
use inoxset.Store.{Settings, Store, check_writable, ensure_event, read_catalog}
use inoxset.Store.Ids.{find_memberships, contains_id}
use inoxset.Store.Ids.Write.{delete_entity}
use inoxset.Store.Ids.Found.{distinct, named, find_memberships-contains_id}
use inoxset.Store.Ids.Erase.{delete_entity-erases}

abbrev settings : Settings
settings = record {
  parts_root = bytes "parts";
  default_granularity = Granularity.day;
  default_rollup = Rollup.auto;
  flush_threshold = 1000;
  max_events = 0;
  is_read_only = false;
  writable = λ path. true;
  hashing = length_hashing;
}

abbrev ids : Dict
ids = record {
  dict_fwd = (bytes "alice", 0) ∷ (bytes "bob", 1) ∷ [];
  dict_rev = (0, bytes "alice") ∷ (1, bytes "bob") ∷ [];
  dict_next_id = some 2;
}

abbrev day : Period
day = Period.day 2026 4 1

abbrev store_with : Option (InvertedIndex (List ℕ)) → Store (List ℕ)
store_with inverted = record {
  catalog = record {
    events = [];
    parts = [];
    period_parts = [];
    period_deltas = [];
    period_state = [];
    compaction_log = [];
    next_part_id = none;
  };
  dict = ids;
  files = [];
  writer = record {
    bitmaps = ((bytes "clicks", day), 0 ∷ 1 ∷ []) ∷ [];
    deltas = [];
    size_bytes = 16;
  };
  event_names = bytes "clicks" ∷ [];
  bitmap_cache = ((bytes "clicks", Period.day 2026 3 31), 0 ∷ []) ∷ [];
  inverted = inverted;
  is_closed = false;
}

find_memberships-contains_id_example :
    (l : List (Bytes × Period)) × (find_memberships list_roaring settings
        (store_with none)
        (bytes "alice")
      ≡ ok l)
    × ((ev : Bytes) (p : Period)
        → (b : Bool) × (contains_id list_roaring settings (store_with none) ev p (bytes "alice")
            ≡ ok b)
          × (any_pair l ev p ≡ (named ev (bytes "clicks" ∷ []) && b)))
unfolding distinct HashMap.get
find_memberships-contains_id_example =
    find_memberships-contains_id list_roaring (store_with none) (bytes "alice") refl refl settings
      refl refl

abbrev erased : Store (List ℕ)
erased = (delete_entity list_roaring settings (bytes "alice") (store_with none)).1

delete_entity-erases_example :
    (Dict.lookup erased.dict (bytes "alice") ≡ none)
    × ((ev : Bytes) (p : Period)
        → named ev (bytes "clicks" ∷ []) ≡ true
        → contains_bit list_roaring (HashMap.get erased.bitmap_cache (ev, p)) erased.writer ev p 0
          ≡ false)
unfolding distinct HashMap.get Dict.lookup delete_entity text_beq check_writable find_memberships
    member some_contains get_delta any_pair period_beq components batch_lookup remove_bits validate
    days_in_month ensure_event validate_event_name is_name_byte is_ascii_alphanumeric read_catalog
    get_event register_event HashMap.insert new_config deserialize_event_config
    serialize_event_config
delete_entity-erases_example =
    delete_entity-erases list_roaring settings (store_with none) (bytes "alice") 0 refl refl refl
      refl refl refl
