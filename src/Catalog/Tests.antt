-- ===== src/Catalog/Tests.antt =====
-- A catalog with one event, a data part and a delta part.
use inoxset.Prelude.{
  ℕ, ◌≡◌, refl, Bytes, bytes, true, none, some, [], ◌∷◌, ◌++◌, to_le, if◌then◌else◌, arith,
}
use inoxset.Prelude.HashMap
use inoxset.Prelude.HashMap.{HashMap}
use inoxset.Prelude.Eq.{nat_eq, text_eq, text_beq}
use inoxset.Types.{Granularity, Rollup, Period, Part, PartKind, new_config}
use inoxset.Error.{ok}
use inoxset.Codec.{
  serialize_event_config, serialize_u64_vec, serialize_period, deserialize_period, index, slice,
}
use inoxset.Codec.RoundTrip.{deserialize_u64_vec-serialize}
use inoxset.Codec.Utf8.{is_utf8}
use inoxset.Codec.Part.{
  read_u64, read_u8, read_tail, read_text, deserialize_part, kind_from_u8, kind_as_u8, part_bytes,
}
use inoxset.Catalog.{
  Catalog, starts_with, keys_with_prefix, get_event, get_part, get_period_parts, get_period_deltas,
  get_period_state,
}
use inoxset.Catalog.Txn.{txn_get_part, part_of, ids_of}
use inoxset.Catalog.Delete.{collect_ids, delete_event_returning_parts}
use inoxset.Catalog.Removal.{is_listed, no_twice, AllFound}
use inoxset.Catalog.Event.{delete_event_returning_parts-lookup}

abbrev data_part : Part
data_part = record {
  part_id = 1;
  kind = PartKind.additive;
  event = bytes "a";
  period = Period.static;
  file_path = bytes "p/1";
  size_bytes = 16;
  cardinality = 2;
  created_at = 1700000000;
  level = 0;
}

abbrev delta_part : Part
delta_part = record data_part { part_id = 2; kind = PartKind.delta; file_path = bytes "p/2" }

abbrev static_key : Bytes
static_key = bytes "a/none/_static"

abbrev catalog : Catalog
catalog = record {
  events =
      (bytes "a", serialize_event_config (new_config (bytes "a") Granularity.none Rollup.none))
      ∷ [];
  parts =
      (1, part_bytes data_part (to_le 2 1 ++ bytes "a" ++ to_le 2 3 ++ bytes "p/1"))
      ∷ (2, part_bytes delta_part (to_le 2 1 ++ bytes "a" ++ to_le 2 3 ++ bytes "p/2"))
      ∷ [];
  period_parts = (static_key, serialize_u64_vec (1 ∷ [])) ∷ [];
  period_deltas = (static_key, serialize_u64_vec (2 ∷ [])) ∷ [];
  period_state = (static_key, 0 ∷ []) ∷ [];
  compaction_log = [];
  next_part_id = some 3;
}

found : AllFound catalog.parts (1 ∷ 2 ∷ []) (data_part ∷ delta_part ∷ [])
unfolding AllFound txn_get_part part_of HashMap.get deserialize_part part_bytes to_le
    serialize_period index read_u64 slice read_u8 kind_from_u8 kind_as_u8 read_tail
    deserialize_period read_text is_utf8
found = (refl, (refl, tt))

collected :
    (left : HashMap Bytes Bytes) × (collect_ids
        (keys_with_prefix catalog.period_parts (bytes "a/"))
        catalog.period_parts
      ≡ ok (1 ∷ [], left))
unfolding collect_ids keys_with_prefix starts_with HashMap.get HashMap.remove text_beq ids_of
    serialize_u64_vec
collected = ([], rw (deserialize_u64_vec-serialize (1 ∷ []) (omega arith, tt)) refl)

different_data : no_twice (1 ∷ []) ≡ true
unfolding no_twice is_listed
different_data = refl

found_data : AllFound catalog.parts (1 ∷ []) (data_part ∷ [])
unfolding AllFound
found_data = (found.0, tt)

delete_event_returning_parts-lookup_example :
    (after : Catalog) × (delete_event_returning_parts catalog (bytes "a")
      ≡ ok (data_part ∷ [], after))
    × (get_event after (bytes "a") ≡ ok none)
    × ((i : ℕ) → get_part after i ≡ (if is_listed i (1 ∷ []) then ok none else get_part catalog i))
    × ((j : Bytes)
        → (get_period_parts after j
            ≡ (if starts_with j (bytes "a/") then ok [] else get_period_parts catalog j))
          × (get_period_deltas after j
              ≡ (if starts_with j (bytes "a/") then ok [] else get_period_deltas catalog j))
          × (get_period_state after j
              ≡ (if starts_with j (bytes "a/") then ok none else get_period_state catalog j)))
delete_event_returning_parts-lookup_example =
    delete_event_returning_parts-lookup catalog (bytes "a") (1 ∷ []) collected.0 (data_part ∷ [])
      collected.1 different_data found_data
