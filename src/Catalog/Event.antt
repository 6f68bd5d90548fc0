-- ===== src/Catalog/Event.antt =====
-- What is left after an event is deleted from the catalog of src/catalog.rs.
use inoxset.Prelude.{
  ℕ, ◌≡◌, refl, ap, ◌∙◌, Bytes, Bool, true, false, ◌&&◌, ◌||◌, Option, none, List, [], ◌∷◌, ◌++◌,
  if◌then◌else◌, arith,
}
use inoxset.Prelude.HashMap
use inoxset.Prelude.HashMap.{HashMap, get-remove}
use inoxset.Prelude.Eq.{nat_eq, text_eq, text_beq, text_beq_iff}
use inoxset.Types.{Part}
use inoxset.Error.{Result, ok, ◌>>=◌}
use inoxset.Catalog.Txn.{ids_of, txn_get_ids, txn_get_period_state, state_of}
use inoxset.Catalog.{
  Catalog, starts_with, keys_with_prefix, event_of, get_event, get_part, get_period_parts,
  get_period_deltas, get_period_state,
}
use inoxset.Catalog.Delete.{collect_ids, delete_keys, delete_event_returning_parts}
use inoxset.Catalog.Removal.{is_listed, no_twice, AllFound, take_parts-lookup}

unfoldable pub has_key : Bytes → List Bytes → Bool
has_key j [] = false
has_key j (k ∷ l) = text_beq k j || has_key j l

get-delete_keys :
    (l : List Bytes) (db : HashMap Bytes Bytes) (j : Bytes)
    → HashMap.get (delete_keys l db) j ≡ (if has_key j l then none else HashMap.get db j)
unfolding delete_keys has_key
get-delete_keys [] db j = refl
get-delete_keys (k ∷ l) db j =
    ground (arith, get-delete_keys l (HashMap.remove db k) j, get-remove db k j)

has_key_if :
    (c : Bool) (j k : Bytes) (l : List Bytes)
    → has_key j (if c then k ∷ l else l) ≡ (c && text_beq k j || has_key j l)
unfolding has_key
has_key_if true j k l = refl
has_key_if false j k l = refl

has_key-cons :
    (k v : Bytes) (db : HashMap Bytes Bytes) (prefix j : Bytes)
    → has_key j (keys_with_prefix ((k, v) ∷ db) prefix)
      ≡ (starts_with k prefix && text_beq k j || has_key j (keys_with_prefix db prefix))
unfolding keys_with_prefix
has_key-cons k v db prefix j = has_key_if (starts_with k prefix) j k (keys_with_prefix db prefix)

same_start :
    (k j prefix : Bytes) → text_beq k j ≡ true → starts_with k prefix ≡ starts_with j prefix
same_start k j prefix e = ap (λ t. starts_with t prefix) ((text_beq_iff k j).0 e)

-- The keys with a prefix are the keys of the database that start with it.
keyed_prefix :
    (db : HashMap Bytes Bytes) (prefix j : Bytes)
    → has_key j (keys_with_prefix db prefix) ≡ true
    → starts_with j prefix ≡ true
keyed_prefix [] prefix j h = (unfold has_key keys_with_prefix in cc)
keyed_prefix ((k, v) ∷ db) prefix j h =
    ground (arith, has_key-cons k v db prefix j, keyed_prefix db prefix j, same_start k j prefix)

missing_prefix :
    (db : HashMap Bytes Bytes) (prefix j : Bytes)
    → starts_with j prefix ≡ true
    → has_key j (keys_with_prefix db prefix) ≡ false
    → HashMap.get db j ≡ none
unfolding HashMap.get
missing_prefix [] prefix j s h = refl
missing_prefix ((k, v) ∷ db) prefix j s h =
    ground (arith, has_key-cons k v db prefix j, missing_prefix db prefix j, same_start k j prefix)

pub get-without :
    (db : HashMap Bytes Bytes) (prefix j : Bytes)
    → HashMap.get (delete_keys (keys_with_prefix db prefix) db) j
      ≡ (if starts_with j prefix then none else HashMap.get db j)
get-without db prefix j =
    get-delete_keys (keys_with_prefix db prefix) db j
    ∙ ground (arith, keyed_prefix db prefix j, missing_prefix db prefix j)

bind_ok :
    {A B : Type 0} (r : Result A) (f : A → Result B) (b : B)
    → (r >>= f) ≡ ok b
    → (a : A) × (r ≡ ok a) × (f a ≡ ok b)
bind_ok (ok a) f b e = (a, refl, e)
bind_ok (Result.err e') f b e = cc
bind_ok Result.panic f b e = cc

second_same :
    {A : Type 0} (x y : List ℕ) (a b : A)
    → ◌≡◌ {A = Result (List ℕ × A)} (ok (x, a)) (ok (y, b))
    → a ≡ b
second_same x y a b e = cc

-- The database that `collect_ids` leaves.
collect_ids-delete_keys :
    (l : List Bytes) (db left : HashMap Bytes Bytes) (ids : List ℕ)
    → collect_ids l db ≡ ok (ids, left)
    → left ≡ delete_keys l db
unfolding collect_ids delete_keys
collect_ids-delete_keys [] db left ids e = cc
collect_ids-delete_keys (k ∷ l) db left ids e =
    let (found, h, f) =
      bind_ok (ids_of (HashMap.get db k))
        (λ found. collect_ids l (HashMap.remove db k) >>= λ r. ok (found ++ r.0, r.1)) (ids, left)
        e in
    let (r, g, same) =
      bind_ok (collect_ids l (HashMap.remove db k)) (λ r. ok (found ++ r.0, r.1)) (ids, left) f in
    collect_ids-delete_keys l (HashMap.remove db k) left r.0
      (g ∙ ap (λ m. ok (r.0, m)) (second_same (found ++ r.0) ids r.1 left same))

-- What a lookup in a database finds after the keys with a prefix are gone.
gone :
    {A : Type 0} (f : Option Bytes → A) (db : HashMap Bytes Bytes) (prefix j : Bytes)
    → f (HashMap.get (delete_keys (keys_with_prefix db prefix) db) j)
      ≡ (if starts_with j prefix then f none else f (HashMap.get db j))
gone f db prefix j = ap f (get-without db prefix j) ∙ unless (starts_with j prefix)
  where
    unless :
        (c : Bool)
        → f (if c then none else HashMap.get db j) ≡ (if c then f none else f (HashMap.get db j))
    unless true = refl
    unless false = refl

-- Deleting an event whose data lists can be read, with different ids that have records, returns
-- those records. After it the event is not registered, and no key that starts with its name and a
-- slash has a data list, a delta list or a state; other keys have what they had. Only the ids of
-- the data lists lose their records: a record whose id stands in a delta list of the event stays.
pub delete_event_returning_parts-lookup :
    (cat : Catalog) (name : Bytes) (ids : List ℕ) (rest : HashMap Bytes Bytes) (parts : List Part)
    → collect_ids (keys_with_prefix cat.period_parts (name ++ b'/' ∷ [])) cat.period_parts
      ≡ ok (ids, rest)
    → no_twice ids ≡ true
    → AllFound cat.parts ids parts
    → (after : Catalog) × (delete_event_returning_parts cat name ≡ ok (parts, after))
      × (get_event after name ≡ ok none)
      × ((i : ℕ) → get_part after i ≡ (if is_listed i ids then ok none else get_part cat i))
      × ((j : Bytes)
          → (get_period_parts after j
              ≡ (if starts_with j (name ++ b'/' ∷ []) then ok [] else get_period_parts cat j))
            × (get_period_deltas after j
                ≡ (if starts_with j (name ++ b'/' ∷ []) then ok [] else get_period_deltas cat j))
            × (get_period_state after j
                ≡ (if starts_with j (name ++ b'/' ∷ []) then ok none else get_period_state cat j)))
unfolding delete_event_returning_parts get_event event_of get_part get_period_parts
    get_period_deltas get_period_state txn_get_ids ids_of txn_get_period_state state_of
delete_event_returning_parts-lookup cat name ids rest parts c d f =
    let (left, e, lookup) = take_parts-lookup ids cat.parts parts d f in
    let prefix = name ++ b'/' ∷ [] in
    (
      record cat {
        events = HashMap.remove cat.events name;
        period_parts = rest;
        period_deltas = delete_keys (keys_with_prefix cat.period_deltas prefix) cat.period_deltas;
        period_state = delete_keys (keys_with_prefix cat.period_state prefix) cat.period_state;
        parts = left;
      },
      rw (c, e) refl,
      rw (get-remove cat.events name name, (text_beq_iff name name).1 refl) refl,
      lookup,
      λ j. (
        ap (λ db. ids_of (HashMap.get db j))
              (collect_ids-delete_keys (keys_with_prefix cat.period_parts prefix) cat.period_parts
                rest ids c)
            ∙ gone ids_of cat.period_parts prefix j,
        gone ids_of cat.period_deltas prefix j,
        gone state_of cat.period_state prefix j,
      ),
    )
