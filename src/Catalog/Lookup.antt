-- ===== src/Catalog/Lookup.antt =====
-- What the lookups of src/catalog.rs find after its updates.
use inoxset.Prelude.{
  ℕ, ◌≡◌, refl, ap, ◌∙◌, Bytes, Bool, true, false, Option, some, List, [], ◌∷◌, ◌++◌, ◌==◌,
  if◌then◌else◌,
}
use inoxset.Prelude.HashMap
use inoxset.Prelude.HashMap.{HashMap, get-insert, get-remove}
use inoxset.Prelude.Eq.{nat_eq, text_eq, text_beq}
use inoxset.Types.{Part, PeriodState, state_as_u8}
use inoxset.Types.Codes.{state_from_u8-state_as_u8}
use inoxset.Error.{ok}
use inoxset.Codec.{serialize_u64_vec}
use inoxset.Codec.RoundTrip.{AllU64, deserialize_u64_vec-serialize}
use inoxset.Codec.Part.RoundTrip.{IsStorable, deserialize_part-serialize}
use inoxset.Catalog.Txn.{
  txn_register_part, txn_get_part, part_of, ids_of, txn_get_ids, txn_append_ids,
  txn_get_period_state, txn_set_period_state, state_of,
}

-- A function of a lookup, after a branch.
lookup_if :
    {A B : Type 0} (f : Option A → B) (c : Bool) (v : A) (o : Option A)
    → f (if c then some v else o) ≡ (if c then f (some v) else f o)
lookup_if f true v o = refl
lookup_if f false v o = refl

if_same : {B : Type 0} (c : Bool) (a b d : B) → a ≡ b → (if c then a else d) ≡ (if c then b else d)
if_same c a b d e = ap (λ t. if c then t else d) e

-- Registering a storable part succeeds, and afterwards its id finds it; every other id finds what
-- it found before.
pub txn_register_part-lookup :
    (db : HashMap ℕ Bytes) (part : Part)
    → IsStorable part
    → (after : HashMap ℕ Bytes) × (txn_register_part db part ≡ ok after)
      × ((j : ℕ)
          → txn_get_part after j
            ≡ (if part.part_id == j then ok (some part) else txn_get_part db j))
unfolding txn_register_part txn_get_part
txn_register_part-lookup db part v =
    let (stored, e, d) = deserialize_part-serialize part v in
    (
      HashMap.insert db part.part_id stored,
      rw e refl,
      λ j.
          ap part_of (get-insert db part.part_id j stored)
          ∙ lookup_if part_of (part.part_id == j) stored (HashMap.get db j)
          ∙ if_same (part.part_id == j) (part_of (some stored)) (ok (some part))
              (part_of (HashMap.get db j)) (unfold part_of in rw d refl),
    )

-- Appending ids to the list of a key succeeds where the list can be read, and afterwards the key
-- has the longer list and every other key what it had.
pub txn_append_ids-lookup :
    (db : HashMap Bytes Bytes) (key : Bytes) (before added : List ℕ)
    → txn_get_ids db key ≡ ok before
    → AllU64 (before ++ added)
    → (after : HashMap Bytes Bytes) × (txn_append_ids db key added ≡ ok after)
      × ((j : Bytes)
          → txn_get_ids after j
            ≡ (if text_beq key j then ok (before ++ added) else txn_get_ids db j))
unfolding txn_append_ids txn_get_ids
txn_append_ids-lookup db key before added h u =
    let stored = serialize_u64_vec (before ++ added) in
    (
      HashMap.insert db key stored,
      rw h refl,
      λ j.
          ap ids_of (get-insert db key j stored)
          ∙ lookup_if ids_of (text_beq key j) stored (HashMap.get db j)
          ∙ if_same (text_beq key j) (ids_of (some stored)) (ok (before ++ added))
              (ids_of (HashMap.get db j))
              (unfold ids_of in deserialize_u64_vec-serialize (before ++ added) u),
    )

pub txn_set_period_state-lookup :
    (db : HashMap Bytes Bytes) (key j : Bytes) (state : PeriodState)
    → txn_get_period_state (txn_set_period_state db key state) j
      ≡ (if text_beq key j then ok (some state) else txn_get_period_state db j)
unfolding txn_get_period_state txn_set_period_state
txn_set_period_state-lookup db key j state =
    let stored = state_as_u8 state ∷ [] in
    ap state_of (get-insert db key j stored)
    ∙ lookup_if state_of (text_beq key j) stored (HashMap.get db j)
    ∙ if_same (text_beq key j) (state_of (some stored)) (ok (some state))
        (state_of (HashMap.get db j))
        (unfold state_of in rw ((state_from_u8-state_as_u8 (state_as_u8 state) state).1 refl) refl)
