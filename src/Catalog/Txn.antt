-- ===== src/Catalog/Txn.antt =====
-- The transaction helpers of src/catalog.rs, each on the database that it is given.
use inoxset.Prelude.{
  ℕ, zero, suc, ◌+◌, ◌^◌, Bytes, Option, some, List, [], ◌∷◌, ◌++◌, leb, if◌then◌else◌,
}
use inoxset.Prelude.HashMap
use inoxset.Prelude.HashMap.{HashMap}
use inoxset.Prelude.Eq.{nat_eq, text_eq}
use inoxset.Types.{Part, PeriodState, state_as_u8, state_from_u8}
use inoxset.Error.{Result, ok, ◌>>=◌}
use inoxset.Codec.{corrupted, ok_or_corrupted, serialize_u64_vec, deserialize_u64_vec}
use inoxset.Codec.Part.{serialize_part, deserialize_part}

-- `(start..start + count).collect()`
unfoldable pub range : ℕ → ℕ → List ℕ
range start zero = []
range start (suc count) = start ∷ range (start + 1) count

-- `unwrap_or(1u64)`
unfoldable pub or_one : Option ℕ → ℕ
or_one Option.none = 1
or_one (some v) = v

-- The ids, and the counter's entry after them.
unfoldable pub txn_alloc_part_ids : Option ℕ → ℕ → Result (List ℕ × Option ℕ)
unfolding range or_one
txn_alloc_part_ids db count =
    let start = or_one db in
    if leb (2 ^ 64) (start + count) then corrupted else ok (range start count, some (start + count))

unfoldable pub txn_register_part : HashMap ℕ Bytes → Part → Result (HashMap ℕ Bytes)
txn_register_part db part = do
  bytes ← serialize_part part
  ok (HashMap.insert db part.part_id bytes)

unfoldable pub ids_of : Option Bytes → Result (List ℕ)
ids_of Option.none = ok []
ids_of (some stored) = deserialize_u64_vec stored

-- `txn_get_period_parts` and `txn_get_period_deltas`
unfoldable pub txn_get_ids : HashMap Bytes Bytes → Bytes → Result (List ℕ)
unfolding ids_of
txn_get_ids db key = ids_of (HashMap.get db key)

-- `txn_append_period_parts` and `txn_append_period_deltas`
unfoldable pub txn_append_ids : HashMap Bytes Bytes → Bytes → List ℕ → Result (HashMap Bytes Bytes)
unfolding ids_of
txn_append_ids db key ids = do
  existing ← ids_of (HashMap.get db key)
  ok (HashMap.insert db key (serialize_u64_vec (existing ++ ids)))

unfoldable pub txn_set_period_parts : HashMap Bytes Bytes → Bytes → List ℕ → HashMap Bytes Bytes
txn_set_period_parts db key ids = HashMap.insert db key (serialize_u64_vec ids)

unfoldable pub txn_clear_period_deltas : HashMap Bytes Bytes → Bytes → HashMap Bytes Bytes
txn_clear_period_deltas db key = HashMap.remove db key

unfoldable pub state_of : Option Bytes → Result (Option PeriodState)
state_of Option.none = ok Option.none
state_of (some []) = corrupted
state_of (some (byte ∷ rest)) = do state ← ok_or_corrupted (state_from_u8 byte); ok (some state)

unfoldable pub txn_get_period_state : HashMap Bytes Bytes → Bytes → Result (Option PeriodState)
unfolding state_of
txn_get_period_state db key = state_of (HashMap.get db key)

unfoldable pub txn_set_period_state :
    HashMap Bytes Bytes → Bytes → PeriodState → HashMap Bytes Bytes
txn_set_period_state db key state = HashMap.insert db key (state_as_u8 state ∷ [])

unfoldable pub part_of : Option Bytes → Result (Option Part)
part_of Option.none = ok Option.none
part_of (some stored) = do part ← deserialize_part stored; ok (some part)

unfoldable pub txn_get_part : HashMap ℕ Bytes → ℕ → Result (Option Part)
unfolding part_of
txn_get_part db pid = part_of (HashMap.get db pid)
