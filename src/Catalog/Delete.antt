-- ===== src/Catalog/Delete.antt =====
-- `delete_event_returning_parts` and `delete_period_returning_parts` of src/catalog.rs.
use inoxset.Prelude.{ℕ, Bytes, Option, some, List, [], ◌∷◌, ◌++◌}
use inoxset.Prelude.HashMap
use inoxset.Prelude.HashMap.{HashMap}
use inoxset.Prelude.Eq.{nat_eq, text_eq}
use inoxset.Types.{Part}
use inoxset.Error.{Result, ok, ◌>>=◌}
use inoxset.Catalog.Txn.{ids_of, part_of}
use inoxset.Catalog.{Catalog, keys_with_prefix}

-- `part_ids` of the keys, and the database without them.
unfoldable pub collect_ids :
    List Bytes → HashMap Bytes Bytes → Result (List ℕ × HashMap Bytes Bytes)
unfolding ids_of
collect_ids [] db = ok ([], db)
collect_ids (key ∷ l) db = do
  ids ← ids_of (HashMap.get db key)
  (part_ids, rest) ← collect_ids l (HashMap.remove db key)
  ok (ids ++ part_ids, rest)

unfoldable pub delete_keys : List Bytes → HashMap Bytes Bytes → HashMap Bytes Bytes
delete_keys [] db = db
delete_keys (key ∷ l) db = delete_keys l (HashMap.remove db key)

unfoldable pub push_some : Option Part → List Part → List Part
push_some Option.none parts = parts
push_some (some part) parts = part ∷ parts

-- "Read then remove each Part entry".
unfoldable pub take_parts : List ℕ → HashMap ℕ Bytes → Result (List Part × HashMap ℕ Bytes)
unfolding part_of push_some
take_parts [] db = ok ([], db)
take_parts (pid ∷ part_ids) db = do
  part ← part_of (HashMap.get db pid)
  (parts, rest) ← take_parts part_ids (HashMap.remove db pid)
  ok (push_some part parts, rest)

unfoldable pub delete_event_returning_parts : Catalog → Bytes → Result (List Part × Catalog)
unfolding collect_ids delete_keys take_parts
delete_event_returning_parts cat name = do
  (part_ids, period_parts) ←
      collect_ids (keys_with_prefix cat.period_parts (name ++ b'/' ∷ [])) cat.period_parts
  (parts, left) ← take_parts part_ids cat.parts
  ok (
    parts,
    record cat {
      events = HashMap.remove cat.events name;
      period_parts = period_parts;
      period_deltas =
          delete_keys (keys_with_prefix cat.period_deltas (name ++ b'/' ∷ [])) cat.period_deltas;
      period_state =
          delete_keys (keys_with_prefix cat.period_state (name ++ b'/' ∷ [])) cat.period_state;
      parts = left;
    },
  )

part_ids : List Part → List ℕ
part_ids [] = []
part_ids (part ∷ parts) = part.part_id ∷ part_ids parts

unfoldable pub delete_event : Catalog → Bytes → Result (List ℕ × Catalog)
unfolding part_ids
delete_event cat name = do
  (parts, after) ← delete_event_returning_parts cat name
  ok (part_ids parts, after)

unfoldable pub delete_period_returning_parts : Catalog → Bytes → Result (List Part × Catalog)
unfolding take_parts
delete_period_returning_parts cat cat_key = do
  data_ids ← ids_of (HashMap.get cat.period_parts cat_key)
  delta_ids ← ids_of (HashMap.get cat.period_deltas cat_key)
  (parts, left) ← take_parts (data_ids ++ delta_ids) cat.parts
  ok (
    parts,
    record cat {
      period_parts = HashMap.remove cat.period_parts cat_key;
      period_deltas = HashMap.remove cat.period_deltas cat_key;
      period_state = HashMap.remove cat.period_state cat_key;
      parts = left;
    },
  )
