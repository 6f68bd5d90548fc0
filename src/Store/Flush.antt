-- ===== src/Store/Flush.antt =====
-- `flush` of src/lib.rs.
use inoxset.Prelude.{ℕ, ◌+◌, Bytes, ◌&&◌, Option, some, List, [], ◌∷◌, length, if◌then◌else◌}
use inoxset.Prelude.HashMap
use inoxset.Prelude.HashMap.{HashMap}
use inoxset.Prelude.Eq.{text_eq}
use inoxset.Types.{Period, Part, PartKind, PeriodState, opened, EventConfig}
use inoxset.Error.{Result, ok, panic, catalog_corrupted}
use inoxset.Period.{granularity, catalog_key}
use inoxset.Roaring.{Roaring}
use inoxset.MemPart.{Key, MemPartSnapshot, no_entries, buffer_is_empty, take_snapshot}
use inoxset.PartStore.{part_file_path}
use inoxset.Catalog.{
  register_part, append_period_parts, append_period_deltas, get_period_state, set_period_state,
}
use inoxset.Catalog.Txn.{txn_alloc_part_ids}
use inoxset.Store.{
  Settings, Store, check_writable, write_txn, read_catalog, put_catalog, write_part, ensure_event,
}
use inoxset.Store.Monad.{Action, pure, lift, modify, raise, ◌>>=◌, ◌>>◌}
use inoxset.Store.Index.{rebuild_read_index}

module _ (R : Roaring) where
  open R use {Bitmap}

  -- The file of a new part, and its record in the catalog. The size of the file is the serialized
  -- size of the bitmap.
  unfoldable pub new_part :
      Settings → ℕ → EventConfig → Bytes → Period → PartKind → ℕ → ℕ → Bitmap → Part
  new_part c now config event period kind level id bitmap = record {
    part_id = id;
    kind = kind;
    event = event;
    period = period;
    file_path = part_file_path c.parts_root event config.finest_granularity period id kind;
    size_bytes = R.serialized_size bitmap;
    cardinality = R.len bitmap;
    created_at = now;
    level = level;
  }

  unfoldable pub save_part : Settings → Part → Bitmap → Action (Store Bitmap) (Unit {0})
  save_part c part bitmap = do
    write_part c part.file_path bitmap
    cat ← read_catalog (λ cat. register_part cat part)
    put_catalog cat

  -- "Ensure period state is at least Open."
  unfoldable pub open_state : Bytes → Option PeriodState → Action (Store Bitmap) (Unit {0})
  open_state key (some state) = pure tt
  open_state key Option.none =
      modify (λ s. record s { catalog = set_period_state s.catalog key opened })

  unfoldable pub ensure_open : Bytes → Action (Store Bitmap) (Unit {0})
  unfolding open_state
  ensure_open key = do state ← read_catalog (λ cat. get_period_state cat key); open_state key state

  unfoldable pub flush_data :
      Settings → ℕ → EventConfig → Key → ℕ → Bitmap → Action (Store Bitmap) (Unit {0})
  unfolding new_part save_part ensure_open
  flush_data c now config (event, period) id bitmap = do
    save_part c (new_part c now config event period PartKind.additive 0 id bitmap) bitmap
    cat ←
        read_catalog
          (λ cat. append_period_parts cat (catalog_key event (granularity period) period) (id ∷ []))
    put_catalog cat
    ensure_open (catalog_key event (granularity period) period)

  unfoldable pub flush_delta :
      Settings → ℕ → EventConfig → Key → ℕ → Bitmap → Action (Store Bitmap) (Unit {0})
  unfolding new_part save_part
  flush_delta c now config (event, period) id bitmap = do
    save_part c (new_part c now config event period PartKind.delta 0 id bitmap) bitmap
    cat ←
        read_catalog (λ cat.
          append_period_deltas cat (catalog_key event (granularity period) period) (id ∷ []))
    put_catalog cat

  -- `&event_configs[event]`
  unfoldable pub config_of : Option EventConfig → Result EventConfig
  config_of Option.none = panic
  config_of (some config) = ok config

  -- A loop over the entries of a map, with the iterator of ids.
  unfoldable pub flush_entries :
      (EventConfig → Key → ℕ → Bitmap → Action (Store Bitmap) (Unit {0}))
      → HashMap Bytes EventConfig
      → HashMap Key Bitmap
      → List ℕ
      → Action (Store Bitmap) (List ℕ)
  unfolding config_of
  flush_entries write configs [] ids = pure ids
  flush_entries write configs (entry ∷ entries) [] = raise catalog_corrupted
  flush_entries write configs ((key, bitmap) ∷ entries) (id ∷ ids) = do
    config ← lift (config_of (HashMap.get configs key.0))
    write config key id bitmap
    flush_entries write configs entries ids

  -- The loops that resolve the configurations of the events in advance.
  add_config :
      Settings
      → Bytes
      → Option EventConfig
      → HashMap Bytes EventConfig
      → Action (Store Bitmap) (HashMap Bytes EventConfig)
  add_config c event (some config) configs = pure configs
  add_config c event Option.none configs = do
    config ← ensure_event c event
    pure (HashMap.insert configs event config)

  unfoldable pub resolve_events :
      Settings
      → HashMap Key Bitmap
      → HashMap Bytes EventConfig
      → Action (Store Bitmap) (HashMap Bytes EventConfig)
  unfolding add_config
  resolve_events c [] configs = pure configs
  resolve_events c ((key, bitmap) ∷ entries) configs = do
    added ← add_config c key.0 (HashMap.get configs key.0) configs
    resolve_events c entries added

  -- The write transaction of `flush_snapshot`.
  unfoldable pub commit_snapshot :
      Settings
      → ℕ
      → HashMap Bytes EventConfig
      → MemPartSnapshot Bitmap
      → Action (Store Bitmap) (Unit {0})
  unfolding flush_data flush_delta flush_entries
  commit_snapshot c now configs snapshot = write_txn (do
    (ids, counter) ← read_catalog (λ cat.
        txn_alloc_part_ids cat.next_part_id (length snapshot.bitmaps + length snapshot.deltas))
    modify (λ s. record s { catalog = record s.catalog { next_part_id = counter } })
    rest ← flush_entries (flush_data c now) configs snapshot.bitmaps ids
    left ← flush_entries (flush_delta c now) configs snapshot.deltas rest
    pure tt)

  unfoldable pub flush_snapshot :
      Settings → ℕ → MemPartSnapshot Bitmap → Action (Store Bitmap) (Unit {0})
  unfolding commit_snapshot resolve_events
  flush_snapshot c now snapshot =
      if no_entries snapshot.bitmaps && no_entries snapshot.deltas then pure tt else do
        configs ← resolve_events c snapshot.bitmaps []
        all_configs ← resolve_events c snapshot.deltas configs
        commit_snapshot c now all_configs snapshot
        rebuild_read_index R c

  -- `flush_internal`: the buffer is emptied before the snapshot is written.
  unfoldable pub flush_internal : Settings → ℕ → Action (Store Bitmap) (Unit {0})
  unfolding flush_snapshot
  flush_internal c now s =
      if buffer_is_empty s.writer
      then (ok tt, s)
      else let (fresh, snapshot) = take_snapshot R s.writer in
        flush_snapshot c now snapshot (record s { writer = fresh })

  unfoldable pub flush : Settings → ℕ → Action (Store Bitmap) (Unit {0})
  unfolding flush_internal
  flush c now = do check_writable c; flush_internal c now
