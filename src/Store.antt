-- ===== src/Store.antt =====
-- src/lib.rs: the state of `InoxSet` and the steps that its operations share. The locks are held
-- for the whole of a step, so a step is one function of the store.
pub mod Monad
pub mod Index
pub mod Freeze
pub mod Disk
pub mod Flush
pub mod Content
pub mod Stored
pub mod Frame
pub mod Grow
pub mod Step
pub mod Swap
pub mod Loop
pub mod Commit
pub mod Preserve
pub mod Spared
pub mod Failure
pub mod Write
pub mod Replace
pub mod Compact
pub mod Delete
pub mod Query
pub mod Cardinality
pub mod Health
pub mod Ids
mod Sample
mod Tests
use inoxset.Prelude.{
  ℕ, Bytes, Bool, true, false, Option, some, List, [], ◌∷◌, length, ltb, leb, if◌then◌else◌,
}
use inoxset.Prelude.HashMap
use inoxset.Prelude.HashMap.{HashMap}
use inoxset.Prelude.Eq.{text_eq}
use inoxset.Types.{Granularity, Rollup, Period, EventConfig, new_config}
use inoxset.Types.Order.{period_eq}
use inoxset.Error.{
  Result, ok, err, panic, InoxSetError, event_already_registered, read_only, closed, configuration,
  bitmap_io, validate_event_name,
}
use inoxset.Roaring.{Roaring}
use inoxset.MemPart.{Key, MemPart}
use inoxset.Catalog.{Catalog, get_event, list_events, register_event}
use inoxset.Dict.{Dict}
use inoxset.Inverted.{Hashing, InvertedIndex}
use inoxset.Store.Monad.{Action, pure, lift, gets, modify, raise, next, ◌>>=◌, ◌>>◌, when}

-- What `InoxSetBuilder` sets once. `writable` says for which paths the file system accepts a write.
pub record Settings : Type 0 where
  pub parts_root : Bytes
  pub default_granularity : Granularity
  pub default_rollup : Rollup
  pub flush_threshold : ℕ
  pub max_events : ℕ
  pub is_read_only : Bool
  pub writable : Bytes → Bool
  pub hashing : Hashing

-- `files` holds the part files under the parts directory, each as the bitmap that was serialized
-- into it. `event_names` and `bitmap_cache` are what is read of the read index; its `periods` has the
-- keys of `bitmap_cache`. `dict` is the catalog's dictionary, and `inverted` is none where the index is
-- disabled.
pub record Store (B : Type 0) : Type 0 where
  pub catalog : Catalog
  pub dict : Dict
  pub files : HashMap Bytes B
  pub writer : MemPart B
  pub event_names : List Bytes
  pub bitmap_cache : HashMap Key B
  pub inverted : Option (InvertedIndex B)
  pub is_closed : Bool

module _ {B : Type 0} where
  unfoldable pub check_closed : Action (Store B) (Unit {0})
  check_closed s = if s.is_closed then raise closed s else pure tt s

  unfoldable pub check_writable : Settings → Action (Store B) (Unit {0})
  unfolding check_closed
  check_writable c = do check_closed; if c.is_read_only then raise read_only else pure tt

  -- What a transaction leaves: after an error the catalog is what it was, the files are not.
  close_txn : {A : Type 0} → Store B → Result A × Store B → Result A × Store B
  close_txn s (ok a, t) = (ok a, t)
  close_txn s (err e, t) = (err e, record t { catalog = s.catalog })
  close_txn s (panic, t) = (panic, record t { catalog = s.catalog })

  unfoldable pub write_txn : {A : Type 0} → Action (Store B) A → Action (Store B) A
  unfolding close_txn
  write_txn m s = close_txn s (m s)

  -- A read of the catalog, and a change of it.
  unfoldable pub read_catalog : {A : Type 0} → (Catalog → Result A) → Action (Store B) A
  read_catalog f s = (f s.catalog, s)

  unfoldable pub put_catalog : Catalog → Action (Store B) (Unit {0})
  put_catalog cat = modify (λ s. record s { catalog = cat })

  -- `write_part`, up to the rename into place.
  unfoldable pub write_part : Settings → Bytes → B → Action (Store B) (Unit {0})
  write_part c path bitmap s =
      if c.writable path
      then (ok tt, record s { files = HashMap.insert s.files path bitmap })
      else (err (bitmap_io path), s)

  -- `if path.exists() { let _ = delete_part(path); }`, for each path
  unfoldable pub delete_files : List Bytes → Action (Store B) (Unit {0})
  delete_files [] = pure tt
  delete_files (path ∷ paths) = do
    modify (λ s. record s { files = HashMap.remove s.files path })
    delete_files paths

  -- The limit on automatic registration.
  check_room : Settings → Action (Store B) (Unit {0})
  check_room c = when (ltb 0 c.max_events) (do
    events ← read_catalog list_events
    when (leb c.max_events (length events)) (raise configuration))

  auto_register : Settings → Bytes → Option EventConfig → Action (Store B) EventConfig
  unfolding check_room
  auto_register c name (some config) = pure config
  auto_register c name Option.none = do
    check_room c
    let config = new_config name c.default_granularity c.default_rollup
    modify (λ s. record s { catalog = register_event s.catalog config })
    pure config

  unfoldable pub ensure_event : Settings → Bytes → Action (Store B) EventConfig
  unfolding auto_register
  ensure_event c name = do
    lift (validate_event_name name)
    found ← read_catalog (λ cat. get_event cat name)
    auto_register c name found

  refuse_known : Bytes → Option EventConfig → Action (Store B) (Unit {0})
  refuse_known name Option.none = pure tt
  refuse_known name (some config) = raise (event_already_registered name)

  unfoldable pub register : Settings → Bytes → Granularity → Rollup → Action (Store B) (Unit {0})
  unfolding refuse_known
  register c name granularity rollup = do
    check_writable c
    lift (validate_event_name name)
    found ← read_catalog (λ cat. get_event cat name)
    refuse_known name found
    modify
        (λ s. record s { catalog = register_event s.catalog (new_config name granularity rollup) })
