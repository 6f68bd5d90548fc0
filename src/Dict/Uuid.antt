-- ===== src/Dict/Uuid.antt =====
-- The UUID operations of src/dict.rs and src/dictionary.rs. A UUID is kept as its text. The `uuid`
-- crate is a third-party library: a parameter, with the round trip of its texts.
use inoxset.Prelude.{ℕ, Bytes, ◌≡◌, Option, none, some, List, [], ◌∷◌}
use inoxset.Error.{Result}
use inoxset.Dict.{Dict, assign_or_get, lookup, reverse_lookup, delete, batch_reverse_lookup}
use inoxset.Dict.Batch.{batch_assign_or_get}

pub record Uuids : Type 1 where
  pub Uuid : Type 0
  pub to_string : Uuid → Bytes
  -- `parse::<Uuid>().ok()`
  pub parse : Bytes → Option Uuid
  pub parse-to_string : (id : Uuid) → parse (to_string id) ≡ some id

module _ (U : Uuids) where
  open U use {Uuid, to_string, parse}

  -- `ids.iter().map(|u| u.to_string())`
  unfoldable pub to_strings : List Uuid → List Bytes
  to_strings [] = []
  to_strings (id ∷ ids) = to_string id ∷ to_strings ids

  unfoldable pub assign_or_get_uuid : Dict → Dict → Uuid → Result (ℕ × Dict)
  assign_or_get_uuid seen cat id = assign_or_get seen cat (to_string id)

  unfoldable pub lookup_uuid : Dict → Uuid → Option ℕ
  lookup_uuid cat id = lookup cat (to_string id)

  unfoldable pub parse_some : Option Bytes → Option Uuid
  parse_some none = none
  parse_some (some s) = parse s

  unfoldable pub reverse_lookup_uuid : Dict → ℕ → Option Uuid
  unfolding parse_some
  reverse_lookup_uuid cat internal_id = parse_some (reverse_lookup cat internal_id)

  unfoldable pub delete_uuid : Dict → Uuid → Option ℕ × Dict
  delete_uuid cat id = delete cat (to_string id)

  unfoldable pub batch_assign_or_get_uuids : Dict → Dict → List Uuid → Result (List ℕ × Dict)
  unfolding to_strings
  batch_assign_or_get_uuids seen cat ids = batch_assign_or_get seen cat (to_strings ids)

  parse_all : List (Option Bytes) → List (Option Uuid)
  unfolding parse_some
  parse_all [] = []
  parse_all (s ∷ strings) = parse_some s ∷ parse_all strings

  unfoldable pub batch_reverse_lookup_uuids : Dict → List ℕ → List (Option Uuid)
  unfolding parse_all
  batch_reverse_lookup_uuids cat internal_ids = parse_all (batch_reverse_lookup cat internal_ids)

  -- The methods of `Dictionary`, on its own handle.
  unfoldable pub get_or_assign_uuid : Dict → Uuid → Result (ℕ × Dict)
  unfolding assign_or_get_uuid
  get_or_assign_uuid dict id = assign_or_get_uuid dict dict id

  unfoldable pub resolve_uuid : Dict → ℕ → Option Uuid
  unfolding reverse_lookup_uuid
  resolve_uuid dict internal_id = reverse_lookup_uuid dict internal_id

  unfoldable pub get_or_assign_uuid_batch : Dict → List Uuid → Result (List ℕ × Dict)
  unfolding batch_assign_or_get_uuids
  get_or_assign_uuid_batch dict ids = batch_assign_or_get_uuids dict dict ids

  unfoldable pub resolve_uuid_batch : Dict → List ℕ → List (Option Uuid)
  unfolding batch_reverse_lookup_uuids
  resolve_uuid_batch dict internal_ids = batch_reverse_lookup_uuids dict internal_ids
