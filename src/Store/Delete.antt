-- ===== src/Store/Delete.antt =====
-- `list_periods`, `drop_event`, `delete_period` and `retain_periods` of src/lib.rs.
pub mod Files
pub mod Content
mod Tests
use inoxset.Prelude.{ℕ, ◌+◌, Bytes, Bool, not, Option, some, List, [], ◌∷◌, if◌then◌else◌}
use inoxset.Prelude.HashMap
use inoxset.Prelude.Eq.{Eq, text_eq, pair_eq}
use inoxset.Types.{Period, Part, EventConfig, period_ltb, period_beq}
use inoxset.Types.Order.{period_eq}
use inoxset.Error.{Result, validate_event_name}
use inoxset.Period.{granularity, catalog_key}
use inoxset.Roaring.{Roaring}
use inoxset.Catalog.{Catalog, get_event, period_keys_for_event}
use inoxset.Catalog.Delete.{delete_event_returning_parts, delete_period_returning_parts}
use inoxset.Store.{Settings, Store, check_closed, check_writable, read_catalog, delete_files}
use inoxset.Store.Monad.{Action, pure, lift, gets, modify, ◌>>=◌, ◌>>◌}
use inoxset.Store.Index.{period_of_key, rebuild_read_index}
use inoxset.Store.Replace.{forget_key}
use inoxset.Store.Compact.{paths_of_parts}

-- `periods.sort()`: equal periods are the same value, so every sort gives this list.
unfoldable pub insert_period : Period → List Period → List Period
unfolding period_ltb
insert_period p [] = p ∷ []
insert_period p (q ∷ l) =
    let rest = insert_period p l in if period_ltb q p then q ∷ rest else p ∷ q ∷ l

unfoldable pub sort_periods : List Period → List Period
unfolding insert_period
sort_periods [] = []
sort_periods (p ∷ l) = insert_period p (sort_periods l)

-- `periods.dedup()`
unfoldable pub dedup : List Period → List Period
unfolding period_beq
dedup [] = []
dedup (p ∷ []) = p ∷ []
dedup (p ∷ q ∷ l) = let rest = dedup (q ∷ l) in if period_beq p q then rest else p ∷ rest

add_period : Option Period → List Period → List Period
add_period Option.none periods = periods
add_period (some p) periods = p ∷ periods

unfoldable pub periods_of_keys : List Bytes → List Period
unfolding add_period period_of_key
periods_of_keys [] = []
periods_of_keys (key ∷ keys) = add_period (period_of_key key) (periods_of_keys keys)

module _ {B : Type 0} where
  unfoldable pub list_periods : Bytes → Action (Store B) (List Period)
  unfolding sort_periods dedup periods_of_keys
  list_periods event = do
    check_closed
    lift (validate_event_name event)
    keys ← gets (λ s. period_keys_for_event s.catalog event)
    pure (dedup (sort_periods (periods_of_keys keys)))

  -- The entries of the event leave the buffer, whose size is not changed.
  unfoldable pub forget_event : Bytes → Action (Store B) (Unit {0})
  forget_event name = modify (λ s. record s {
    writer = record s.writer {
      bitmaps = HashMap.retain (λ k. not (Eq.beq text_eq k.0 name)) s.writer.bitmaps;
      deltas = HashMap.retain (λ k. not (Eq.beq text_eq k.0 name)) s.writer.deltas;
    };
  })

  -- A change of the catalog that returns the parts it removed.
  unfoldable pub remove_parts :
      (Catalog → Result (List Part × Catalog)) → Action (Store B) (List Part)
  remove_parts f = do
    (parts, after) ← read_catalog f
    modify (λ s. record s { catalog = after })
    pure parts

module _ (R : Roaring) where
  open R use {Bitmap}

  unfoldable pub drop_event : Settings → Bytes → Action (Store Bitmap) (Unit {0})
  unfolding forget_event remove_parts
  drop_event c name = do
    check_writable c
    lift (validate_event_name name)
    forget_event name
    parts ← remove_parts (λ cat. delete_event_returning_parts cat name)
    rebuild_read_index R c
    delete_files (paths_of_parts parts)

  delete_registered : Settings → Option EventConfig → Bytes → Action (Store Bitmap) (Unit {0})
  unfolding remove_parts
  delete_registered c Option.none cat_key = pure tt
  delete_registered c (some config) cat_key = do
    parts ← remove_parts (λ cat. delete_period_returning_parts cat cat_key)
    rebuild_read_index R c
    delete_files (paths_of_parts parts)

  unfoldable pub delete_period : Settings → Bytes → Period → Action (Store Bitmap) (Unit {0})
  unfolding forget_key delete_registered
  delete_period c event period = do
    check_writable c
    lift (validate_event_name event)
    forget_key (event, period)
    found ← read_catalog (λ cat. get_event cat event)
    delete_registered c found (catalog_key event (granularity period) period)

  unfoldable pub delete_unless :
      Settings → Bytes → (Period → Bool) → List Period → ℕ → Action (Store Bitmap) ℕ
  unfolding delete_period
  delete_unless c event keep [] deleted = pure deleted
  delete_unless c event keep (period ∷ periods) deleted =
      if keep period
      then delete_unless c event keep periods deleted
      else do delete_period c event period; delete_unless c event keep periods (deleted + 1)

  unfoldable pub retain_periods : Settings → Bytes → (Period → Bool) → Action (Store Bitmap) ℕ
  unfolding delete_unless list_periods
  retain_periods c event keep = do
    check_writable c
    periods ← list_periods event
    delete_unless c event keep periods 0
