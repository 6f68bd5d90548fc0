-- ===== src/Catalog/Removal.antt =====
-- What is left after a period is deleted from the catalog of src/catalog.rs.
use inoxset.Prelude.{
  ℕ, ◌≡◌, refl, ap, ◌∙◌, Bytes, Bool, true, false, not, ◌&&◌, ◌||◌, Option, none, some, List, [],
  ◌∷◌, ◌++◌, ◌==◌, if◌then◌else◌, arith,
}
use inoxset.Prelude.HashMap
use inoxset.Prelude.HashMap.{HashMap, get-remove}
use inoxset.Prelude.Eq.{nat_eq, text_eq, text_beq}
use inoxset.Types.{Part}
use inoxset.Error.{Result, ok}
use inoxset.Catalog.Txn.{txn_get_part, part_of, ids_of, txn_get_ids, txn_get_period_state, state_of}
use inoxset.Catalog.{Catalog, get_part, get_period_parts, get_period_deltas, get_period_state}
use inoxset.Catalog.Delete.{push_some, take_parts, delete_period_returning_parts}

unfoldable pub is_listed : ℕ → List ℕ → Bool
is_listed i [] = false
is_listed i (j ∷ l) = i == j || is_listed i l

-- No id is listed twice.
unfoldable pub no_twice : List ℕ → Bool
unfolding is_listed
no_twice [] = true
no_twice (i ∷ l) = not (is_listed i l) && no_twice l

-- The parts are the records of the ids, in their order.
unfoldable pub AllFound : HashMap ℕ Bytes → List ℕ → List Part → Type 0
AllFound db [] [] = Unit
AllFound db [] (p ∷ parts) = ⊥
AllFound db (i ∷ l) [] = ⊥
AllFound db (i ∷ l) (p ∷ parts) = (txn_get_part db i ≡ ok (some p)) × AllFound db l parts

lookup_unless :
    {A B : Type 0} (f : Option A → B) (c : Bool) (o : Option A)
    → f (if c then none else o) ≡ (if c then f none else f o)
lookup_unless f true o = refl
lookup_unless f false o = refl

txn_get_part-remove :
    (db : HashMap ℕ Bytes) (i j : ℕ)
    → txn_get_part (HashMap.remove db i) j ≡ (if i == j then ok none else txn_get_part db j)
unfolding txn_get_part part_of
txn_get_part-remove db i j =
    ap part_of (get-remove db i j) ∙ lookup_unless part_of (i == j) (HashMap.get db j)

AllFound-remove :
    (db : HashMap ℕ Bytes) (i : ℕ) (l : List ℕ) (parts : List Part)
    → is_listed i l ≡ false
    → AllFound db l parts
    → AllFound (HashMap.remove db i) l parts
unfolding AllFound is_listed
AllFound-remove db i [] [] h f = tt
AllFound-remove db i [] (p ∷ parts) h f = elim f [ ]
AllFound-remove db i (j ∷ l) [] h f = elim f [ ]
AllFound-remove db i (j ∷ l) (p ∷ parts) h (f, r) =
    (txn_get_part-remove db i j ∙ ground (arith, f), AllFound-remove db i l parts (ground arith) r)

found_first :
    (i : ℕ) (l : List ℕ) (p : Part) (parts : List Part) (db left : HashMap ℕ Bytes)
    → txn_get_part db i ≡ ok (some p)
    → take_parts l (HashMap.remove db i) ≡ ok (parts, left)
    → take_parts (i ∷ l) db ≡ ok (p ∷ parts, left)
unfolding take_parts push_some txn_get_part
found_first i l p parts db left f e = rw (f, e) refl

-- `take_parts` returns the records of the ids and leaves none of them; the other records stay.
pub take_parts-lookup :
    (l : List ℕ) (db : HashMap ℕ Bytes) (parts : List Part)
    → no_twice l ≡ true
    → AllFound db l parts
    → (left : HashMap ℕ Bytes) × (take_parts l db ≡ ok (parts, left))
      × ((j : ℕ) → txn_get_part left j ≡ (if is_listed j l then ok none else txn_get_part db j))
unfolding take_parts push_some no_twice AllFound is_listed
take_parts-lookup [] db [] d f = (db, refl, λ j. refl)
take_parts-lookup [] db (p ∷ parts) d f = elim f [ ]
take_parts-lookup (i ∷ l) db [] d f = elim f [ ]
take_parts-lookup (i ∷ l) db (p ∷ parts) d (f, r) =
    let (left, e, lookup) =
      take_parts-lookup l (HashMap.remove db i) parts (ground arith)
        (AllFound-remove db i l parts (ground arith) r) in
    (
      left,
      found_first i l p parts db left f e,
      λ j. ground (arith, lookup j, txn_get_part-remove db i j),
    )

ids-remove :
    (db : HashMap Bytes Bytes) (key j : Bytes)
    → txn_get_ids (HashMap.remove db key) j ≡ (if text_beq key j then ok [] else txn_get_ids db j)
unfolding txn_get_ids ids_of
ids-remove db key j =
    ap ids_of (get-remove db key j) ∙ lookup_unless ids_of (text_beq key j) (HashMap.get db j)

state-remove :
    (db : HashMap Bytes Bytes) (key j : Bytes)
    → txn_get_period_state (HashMap.remove db key) j
      ≡ (if text_beq key j then ok none else txn_get_period_state db j)
unfolding txn_get_period_state state_of
state-remove db key j =
    ap state_of (get-remove db key j) ∙ lookup_unless state_of (text_beq key j) (HashMap.get db j)

module _ (cat : Catalog) (key : Bytes) (data_ids delta_ids : List ℕ) (parts : List Part)
    (h : get_period_parts cat key ≡ ok data_ids) (k : get_period_deltas cat key ≡ ok delta_ids)
    (d : no_twice (data_ids ++ delta_ids) ≡ true)
    (f : AllFound cat.parts (data_ids ++ delta_ids) parts) where
  -- The catalog after the deletion, but for the records.
  abbrev without_period : HashMap ℕ Bytes → Catalog
  without_period left = record cat {
    period_parts = HashMap.remove cat.period_parts key;
    period_deltas = HashMap.remove cat.period_deltas key;
    period_state = HashMap.remove cat.period_state key;
    parts = left;
  }

  deleted :
      (left : HashMap ℕ Bytes) × (delete_period_returning_parts cat key
        ≡ ok (parts, without_period left))
      × ((j : ℕ)
          → txn_get_part left j
            ≡ (if is_listed j (data_ids ++ delta_ids) then ok none else txn_get_part cat.parts j))
  unfolding delete_period_returning_parts get_period_parts get_period_deltas
  deleted =
      let (left, e, lookup) = take_parts-lookup (data_ids ++ delta_ids) cat.parts parts d f in
      (left, (unfold txn_get_ids in rw (h, k, e) refl), lookup)

  same_counter :
      {c c' : Catalog} {l l' : List Part} (r : Result (List Part × Catalog))
      → r ≡ ok (l, c)
      → r ≡ ok (l', c')
      → c.next_part_id ≡ c'.next_part_id
  same_counter r e g = cc

  -- Deleting a period does not move the counter of part ids.
  pub delete_period_returning_parts-counter :
      {after : Catalog}
      → delete_period_returning_parts cat key ≡ ok (parts, after)
      → after.next_part_id ≡ cat.next_part_id
  delete_period_returning_parts-counter done =
      same_counter (delete_period_returning_parts cat key) done deleted.1

-- Deleting a period whose ids are different and have records returns the records of its data and
-- delta parts, in the order of the lists. After it the period has no lists and no state, and those
-- ids have no records; every other period and every other id has what it had.
pub delete_period_returning_parts-lookup :
    (cat : Catalog) (key : Bytes) (data_ids delta_ids : List ℕ) (parts : List Part)
    → get_period_parts cat key ≡ ok data_ids
    → get_period_deltas cat key ≡ ok delta_ids
    → no_twice (data_ids ++ delta_ids) ≡ true
    → AllFound cat.parts (data_ids ++ delta_ids) parts
    → (after : Catalog) × (delete_period_returning_parts cat key ≡ ok (parts, after))
      × ((i : ℕ)
          → get_part after i
            ≡ (if is_listed i (data_ids ++ delta_ids) then ok none else get_part cat i))
      × ((j : Bytes)
          → (get_period_parts after j ≡ (if text_beq key j then ok [] else get_period_parts cat j))
            × (get_period_deltas after j
                ≡ (if text_beq key j then ok [] else get_period_deltas cat j))
            × (get_period_state after j
                ≡ (if text_beq key j then ok none else get_period_state cat j)))
unfolding get_part get_period_parts get_period_deltas get_period_state
delete_period_returning_parts-lookup cat key data_ids delta_ids parts h k d f =
    let (left, done, lookup) = deleted cat key data_ids delta_ids parts h k d f in
    (
      without_period cat key data_ids delta_ids parts h k d f left,
      done,
      lookup,
      λ j. (
        ids-remove cat.period_parts key j,
        ids-remove cat.period_deltas key j,
        state-remove cat.period_state key j,
      ),
    )
