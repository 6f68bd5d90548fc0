-- ===== src/Store/Replace.antt =====
-- `replace_bitmap` and `bulk_replace` of src/lib.rs.
pub mod Content
mod Tests
use inoxset.Prelude.{ℕ, Bytes, Option, some, List, [], ◌∷◌, ◌++◌, length}
use inoxset.Prelude.HashMap
use inoxset.Prelude.HashMap.{HashMap}
use inoxset.Prelude.Eq.{nat_eq, text_eq, pair_eq}
use inoxset.Types.{Period, Part, PartKind, EventConfig}
use inoxset.Types.Order.{period_eq}
use inoxset.Error.{Result, ok, err, panic}
use inoxset.Period.{granularity, validate, catalog_key}
use inoxset.Roaring.{Roaring}
use inoxset.MemPart.{Key}
use inoxset.Catalog.{
  get_period_parts, get_period_deltas, get_part, set_period_parts, clear_period_deltas,
}
use inoxset.Catalog.Txn.{txn_alloc_part_ids}
use inoxset.Store.{
  Settings, Store, check_writable, write_txn, read_catalog, delete_files, ensure_event,
}
use inoxset.Store.Monad.{Action, pure, lift, modify, ◌>>=◌, ◌>>◌}
use inoxset.Store.Index.{rebuild_read_index}
use inoxset.Store.Flush.{new_part, save_part, ensure_open}

-- `(cat_key, old_data_ids, old_delta_ids)`
pub record OldParts : Type 0 where
  pub cat_key : Bytes
  pub data_ids : List ℕ
  pub delta_ids : List ℕ

unfoldable pub delete_parts : List ℕ → HashMap ℕ Bytes → HashMap ℕ Bytes
delete_parts [] db = db
delete_parts (pid ∷ ids) db = delete_parts ids (HashMap.remove db pid)

-- `ids[i]`, for the indices of the entries in order
unfoldable pub first_of : List ℕ → Result (ℕ × List ℕ)
first_of [] = panic
first_of (id ∷ ids) = ok (id, ids)

add_path : Option Part → List Bytes → List Bytes
add_path Option.none paths = paths
add_path (some part) paths = part.file_path ∷ paths

and_rest : Result (Unit {0}) → Result (Unit {0}) → Result (Unit {0})
and_rest (ok u) rest = rest
and_rest (err e) rest = err e
and_rest panic rest = panic

unfoldable pub validate_all : {B : Type 0} → List (Period × B) → Result (Unit {0})
unfolding and_rest
validate_all [] = ok tt
validate_all ((period, bitmap) ∷ entries) = and_rest (validate period) (validate_all entries)

module _ {B : Type 0} where
  -- The entries of the key leave the buffer, whose size is not changed.
  unfoldable pub forget_key : Key → Action (Store B) (Unit {0})
  forget_key k = modify (λ s. record s {
    writer = record s.writer {
      bitmaps = HashMap.remove s.writer.bitmaps k;
      deltas = HashMap.remove s.writer.deltas k;
    };
  })

  -- The paths of the parts that have a record.
  unfoldable pub paths_of : List ℕ → Action (Store B) (List Bytes)
  unfolding add_path
  paths_of [] = pure []
  paths_of (pid ∷ ids) = do
    part ← read_catalog (λ cat. get_part cat pid)
    paths ← paths_of ids
    pure (add_path part paths)

  unfoldable pub old_parts : Bytes → Action (Store B) (OldParts × List Bytes)
  unfolding paths_of
  old_parts cat_key = do
    data_ids ← read_catalog (λ cat. get_period_parts cat cat_key)
    delta_ids ← read_catalog (λ cat. get_period_deltas cat cat_key)
    paths ← paths_of (data_ids ++ delta_ids)
    pure (record { cat_key = cat_key; data_ids = data_ids; delta_ids = delta_ids }, paths)

  unfoldable pub alloc_ids : ℕ → Action (Store B) (List ℕ)
  alloc_ids count = do
    (ids, counter) ← read_catalog (λ cat. txn_alloc_part_ids cat.next_part_id count)
    modify (λ s. record s { catalog = record s.catalog { next_part_id = counter } })
    pure ids

module _ (R : Roaring) where
  open R use {Bitmap}

  -- The new part takes the place of the old ones.
  unfoldable pub replace_parts :
      Settings
      → ℕ
      → EventConfig
      → Bytes
      → Period
      → ℕ
      → Bitmap
      → OldParts
      → Action (Store Bitmap) (Unit {0})
  unfolding delete_parts
  replace_parts c now config event period id bitmap old = do
    save_part R c (new_part R c now config event period PartKind.additive 0 id bitmap) bitmap
    modify (λ s. record s {
      catalog = clear_period_deltas (set_period_parts s.catalog old.cat_key (id ∷ [])) old.cat_key;
    })
    ensure_open R old.cat_key
    modify (λ s. record s {
      catalog = record s.catalog {
        parts = delete_parts (old.data_ids ++ old.delta_ids) s.catalog.parts;
      };
    })

  -- The write transaction.
  unfoldable pub replace_old :
      Settings
      → ℕ
      → EventConfig
      → Bytes
      → Period
      → Bitmap
      → OldParts
      → Action (Store Bitmap) (Unit {0})
  unfolding first_of replace_parts alloc_ids
  replace_old c now config event period bitmap old = write_txn (do
    ids ← alloc_ids 1
    (id, rest) ← lift (first_of ids)
    replace_parts c now config event period id bitmap old)

  unfoldable pub replace_bitmap :
      Settings → ℕ → Bytes → Period → Bitmap → Action (Store Bitmap) (Unit {0})
  unfolding forget_key old_parts replace_old
  replace_bitmap c now event period bitmap = do
    check_writable c
    lift (validate period)
    config ← ensure_event c event
    forget_key (event, period)
    (old, paths) ← old_parts (catalog_key event (granularity period) period)
    replace_old c now config event period bitmap old
    rebuild_read_index R c
    delete_files paths

  unfoldable pub forget_keys : Bytes → List (Period × Bitmap) → Action (Store Bitmap) (Unit {0})
  unfolding forget_key
  forget_keys event [] = pure tt
  forget_keys event ((period, bitmap) ∷ entries) = do
    forget_key (event, period)
    forget_keys event entries

  unfoldable pub all_old_parts :
      Bytes → List (Period × Bitmap) → Action (Store Bitmap) (List OldParts × List Bytes)
  unfolding old_parts
  all_old_parts event [] = pure ([], [])
  all_old_parts event ((period, bitmap) ∷ entries) = do
    (old, paths) ← old_parts (catalog_key event (granularity period) period)
    (olds, more) ← all_old_parts event entries
    pure (old ∷ olds, paths ++ more)

  -- The loop of the transaction; `olds` has one element for each entry.
  unfoldable pub replace_all :
      Settings
      → ℕ
      → EventConfig
      → Bytes
      → List (Period × Bitmap)
      → List ℕ
      → List OldParts
      → Action (Store Bitmap) (Unit {0})
  unfolding replace_parts first_of
  replace_all c now config event [] ids olds = pure tt
  replace_all c now config event (entry ∷ entries) ids [] = lift panic
  replace_all c now config event ((period, bitmap) ∷ entries) ids (old ∷ olds) = do
    (id, rest) ← lift (first_of ids)
    replace_parts c now config event period id bitmap old
    replace_all c now config event entries rest olds

  unfoldable pub bulk_replace :
      Settings → ℕ → Bytes → List (Period × Bitmap) → Action (Store Bitmap) (Unit {0})
  unfolding validate_all forget_keys all_old_parts replace_all alloc_ids
  bulk_replace c now event entries = do
    check_writable c
    lift (validate_all entries)
    config ← ensure_event c event
    forget_keys event entries
    (olds, paths) ← all_old_parts event entries
    write_txn (do ids ← alloc_ids (length entries); replace_all c now config event entries ids olds)
    rebuild_read_index R c
    delete_files paths
