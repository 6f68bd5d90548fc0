-- ===== src/Catalog.antt =====
-- src/catalog.rs: the operations on the LMDB databases. A database is the map of its entries, whose
-- bytes are those of Codec; a write transaction that ends in an error leaves the catalog as it was.
-- Errors of LMDB itself are left out.
pub mod Txn
pub mod Delete
pub mod Lookup
pub mod Removal
pub mod Event
mod Tests
use inoxset.Prelude.{ℕ, Bytes, Bool, Option, some, List, [], ◌∷◌, ◌++◌, ◌==◌, to_le, if◌then◌else◌}
use inoxset.Prelude.HashMap
use inoxset.Prelude.HashMap.{HashMap}
use inoxset.Prelude.Eq.{Eq, nat_eq, text_eq}
use inoxset.Types.{EventConfig, Part, PeriodState}
use inoxset.Error.{Result, ok, ◌>>=◌}
use inoxset.Codec.{corrupted, serialize_event_config, deserialize_event_config}
use inoxset.Catalog.Txn.{
  txn_alloc_part_ids, txn_register_part, txn_append_ids, txn_set_period_parts,
  txn_clear_period_deltas, txn_get_period_state, txn_set_period_state, txn_get_ids, txn_get_part,
}

pub record Catalog : Type 0 where
  pub events : HashMap Bytes Bytes
  pub parts : HashMap ℕ Bytes
  pub period_parts : HashMap Bytes Bytes
  pub period_deltas : HashMap Bytes Bytes
  pub period_state : HashMap Bytes Bytes
  pub compaction_log : HashMap ℕ Bytes
  -- The entry of the key "_".
  pub next_part_id : Option ℕ

unfoldable pub register_event : Catalog → EventConfig → Catalog
register_event cat config = record cat {
  events = HashMap.insert cat.events config.name (serialize_event_config config);
}

unfoldable pub event_of : Bytes → Option Bytes → Result (Option EventConfig)
event_of name Option.none = ok Option.none
event_of name (some stored) = do ec ← deserialize_event_config name stored; ok (some ec)

unfoldable pub get_event : Catalog → Bytes → Result (Option EventConfig)
unfolding event_of
get_event cat name = event_of name (HashMap.get cat.events name)

unfoldable pub list_configs : HashMap Bytes Bytes → Result (List EventConfig)
list_configs [] = ok []
list_configs ((key, value) ∷ entries) = do
  ec ← deserialize_event_config key value
  out ← list_configs entries
  ok (ec ∷ out)

unfoldable pub list_events : Catalog → Result (List EventConfig)
unfolding list_configs
list_events cat = list_configs cat.events

first_id : Catalog → List ℕ × Option ℕ → Result (ℕ × Catalog)
first_id cat ([], next) = corrupted
first_id cat (id ∷ ids, next) = ok (id, record cat { next_part_id = next })

unfoldable pub next_part_id : Catalog → Result (ℕ × Catalog)
unfolding first_id
next_part_id cat = do ids ← txn_alloc_part_ids cat.next_part_id 1; first_id cat ids

unfoldable pub register_part : Catalog → Part → Result Catalog
register_part cat part = do
  parts ← txn_register_part cat.parts part
  ok (record cat { parts = parts })

unfoldable pub get_part : Catalog → ℕ → Result (Option Part)
get_part cat part_id = txn_get_part cat.parts part_id

-- The keys of a database, in the order in which it is iterated.
unfoldable pub keys {ℓ κ} : {K : Type ℓ} {V : Type κ} → HashMap K V → List K
keys [] = []
keys ((key, value) ∷ entries) = key ∷ keys entries

unfoldable pub all_part_ids : Catalog → List ℕ
unfolding keys
all_part_ids cat = keys cat.parts

unfoldable pub get_period_parts : Catalog → Bytes → Result (List ℕ)
get_period_parts cat key = txn_get_ids cat.period_parts key

unfoldable pub append_period_parts : Catalog → Bytes → List ℕ → Result Catalog
append_period_parts cat key ids = do
  db ← txn_append_ids cat.period_parts key ids
  ok (record cat { period_parts = db })

unfoldable pub set_period_parts : Catalog → Bytes → List ℕ → Catalog
set_period_parts cat key ids = record cat {
  period_parts = txn_set_period_parts cat.period_parts key ids;
}

unfoldable pub get_period_deltas : Catalog → Bytes → Result (List ℕ)
get_period_deltas cat key = txn_get_ids cat.period_deltas key

unfoldable pub append_period_deltas : Catalog → Bytes → List ℕ → Result Catalog
append_period_deltas cat key ids = do
  db ← txn_append_ids cat.period_deltas key ids
  ok (record cat { period_deltas = db })

unfoldable pub clear_period_deltas : Catalog → Bytes → Catalog
clear_period_deltas cat key = record cat {
  period_deltas = txn_clear_period_deltas cat.period_deltas key;
}

unfoldable pub get_period_state : Catalog → Bytes → Result (Option PeriodState)
get_period_state cat key = txn_get_period_state cat.period_state key

unfoldable pub set_period_state : Catalog → Bytes → PeriodState → Catalog
set_period_state cat key state = record cat {
  period_state = txn_set_period_state cat.period_state key state;
}

unfoldable pub write_compaction_log : Catalog → ℕ → ℕ → ℕ → ℕ → ℕ → Catalog
write_compaction_log cat timestamp periods_compacted parts_merged deltas_applied bytes_reclaimed =
    let buf =
      1
      ∷ (to_le 8 timestamp
          ++ (to_le 4 periods_compacted
              ++ (to_le 4 parts_merged ++ (to_le 4 deltas_applied ++ to_le 8 bytes_reclaimed)))) in
    record cat { compaction_log = HashMap.insert cat.compaction_log timestamp buf }

-- `k.starts_with(prefix)`
unfoldable pub starts_with : Bytes → Bytes → Bool
starts_with k [] = Bool.true
starts_with [] (b ∷ prefix) = Bool.false
starts_with (c ∷ k) (b ∷ prefix) =
    let rest = starts_with k prefix in if c == b then rest else Bool.false

-- The keys of an event, "event/…".
unfoldable pub keys_with_prefix {κ} : {V : Type κ} → HashMap Bytes V → Bytes → List Bytes
unfolding starts_with
keys_with_prefix [] prefix = []
keys_with_prefix ((k, value) ∷ entries) prefix =
    let rest = keys_with_prefix entries prefix in if starts_with k prefix then k ∷ rest else rest

-- `HashSet::insert`, on the list of the set's elements
unfoldable pub add_key : Bytes → List Bytes → List Bytes
add_key k [] = k ∷ []
add_key k (j ∷ seen) =
    let rest = add_key k seen in if Eq.beq text_eq j k then j ∷ seen else j ∷ rest

unfoldable pub add_keys : List Bytes → List Bytes → List Bytes
unfolding add_key
add_keys [] seen = seen
add_keys (k ∷ l) seen = add_keys l (add_key k seen)

unfoldable pub period_keys_for_event : Catalog → Bytes → List Bytes
unfolding keys_with_prefix add_keys
period_keys_for_event cat event =
    let prefix = event ++ b'/' ∷ [] in
    add_keys (keys_with_prefix cat.period_deltas prefix)
      (add_keys (keys_with_prefix cat.period_parts prefix) [])
