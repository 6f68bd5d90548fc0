-- ===== src/Store/Write.antt =====
-- The buffered writes of src/lib.rs on the whole store: `put_bitmap`, `put_bitmap_range`,
-- `remove_bits` and `remove_bits_range`. `now` is the clock, and an automatic flush is the last step.
use inoxset.Prelude.{ℕ, Bytes, Bool, Option, some, List, [], ◌∷◌, leb, if◌then◌else◌}
use inoxset.Types.{Period, PeriodState, EventConfig, period_beq}
use inoxset.Error.{Result}
use inoxset.Period.{granularity, validate, is_closed, catalog_key}
use inoxset.Range.{validate_granularity, checked_write_range}
use inoxset.Roaring.{Roaring}
use inoxset.Rollup.{put_buffer, remove_buffer, put_range_buffer, remove_range_buffer}
use inoxset.Catalog.{get_period_state, set_period_state}
use inoxset.Store.{Settings, Store, check_writable, write_txn, read_catalog, ensure_event}
use inoxset.Store.Monad.{Action, pure, lift, modify, when, ◌>>=◌, ◌>>◌}
use inoxset.Store.Flush.{flush_internal}

-- `Some(PeriodState::Compacted)`
unfoldable pub is_compacted : Option PeriodState → Bool
is_compacted Option.none = Bool.false
is_compacted (some PeriodState.opened) = Bool.false
is_compacted (some PeriodState.closed) = Bool.false
is_compacted (some PeriodState.compacted) = Bool.true
is_compacted (some PeriodState.dropped) = Bool.false

unfoldable pub is_nil {ℓ} : {A : Type ℓ} → List A → Bool
is_nil [] = Bool.true
is_nil (a ∷ l) = Bool.false

-- "Static periods always pass".
unfoldable pub check_granularity : Bytes → EventConfig → Period → Result (Unit {0})
unfolding validate_granularity period_beq
check_granularity event config period =
    if period_beq period Period.static
    then Result.ok tt
    else validate_granularity event config period

unfoldable pub closed_keys : Bytes → ℕ → List Period → List Bytes
closed_keys event now [] = []
closed_keys event now (p ∷ periods) =
    let keys = closed_keys event now periods in
    if is_closed p now then catalog_key event (granularity p) p ∷ keys else keys

module _ {B : Type 0} where
  -- Compacted to closed, for one key.
  unfoldable pub revert_key : Bytes → Action (Store B) (Unit {0})
  unfolding is_compacted
  revert_key key = do
    state ← read_catalog (λ cat. get_period_state cat key)
    when (is_compacted state)
        (modify (λ s. record s { catalog = set_period_state s.catalog key PeriodState.closed }))

  -- The keys whose state is compacted.
  unfoldable pub compacted_keys : List Bytes → Action (Store B) (List Bytes)
  unfolding is_compacted
  compacted_keys [] = pure []
  compacted_keys (key ∷ keys) = do
    state ← read_catalog (λ cat. get_period_state cat key)
    found ← compacted_keys keys
    pure (if is_compacted state then key ∷ found else found)

  unfoldable pub close_keys : List Bytes → Action (Store B) (Unit {0})
  close_keys [] = pure tt
  close_keys (key ∷ keys) = do
    modify (λ s. record s { catalog = set_period_state s.catalog key PeriodState.closed })
    close_keys keys

  unfoldable pub revert_compacted_periods : Bytes → ℕ → List Period → Action (Store B) (Unit {0})
  unfolding closed_keys compacted_keys close_keys
  revert_compacted_periods event now periods = do
    found ← compacted_keys (closed_keys event now periods)
    write_txn (close_keys found)

module _ (R : Roaring) where
  open R use {Bitmap}

  unfoldable pub flush_if_full : Settings → ℕ → Action (Store Bitmap) (Unit {0})
  flush_if_full c now s =
      when (leb c.flush_threshold s.writer.size_bytes) (flush_internal R c now) s

  unfoldable pub put_bitmap :
      Settings → ℕ → Bytes → Period → Bitmap → Action (Store Bitmap) (Unit {0})
  unfolding check_granularity revert_key flush_if_full
  put_bitmap c now event period bitmap = do
    check_writable c
    lift (validate period)
    config ← ensure_event c event
    lift (check_granularity event config period)
    when (is_closed period now) (revert_key (catalog_key event config.finest_granularity period))
    modify (λ s. record s { writer = put_buffer R s.writer event config period bitmap })
    flush_if_full c now

  unfoldable pub put_bitmap_range :
      Settings → ℕ → Bytes → Period → Period → Bitmap → Action (Store Bitmap) (Unit {0})
  unfolding revert_compacted_periods flush_if_full
  put_bitmap_range c now event first last bitmap = do
    check_writable c
    config ← ensure_event c event
    periods ← lift (checked_write_range event config first last)
    if R.is_empty bitmap then pure tt else do
      revert_compacted_periods event now periods
      modify (λ s. record s { writer = put_range_buffer R s.writer event config periods bitmap })
      flush_if_full c now

  unfoldable pub remove_bits_range :
      Settings → ℕ → Bytes → Period → Period → List ℕ → Action (Store Bitmap) (Unit {0})
  unfolding is_nil flush_if_full
  remove_bits_range c now event first last user_ids = do
    check_writable c
    config ← ensure_event c event
    periods ← lift (checked_write_range event config first last)
    if is_nil user_ids then pure tt else do
      modify
          (λ s. record s { writer = remove_range_buffer R s.writer event config periods user_ids })
      flush_if_full c now

  unfoldable pub remove_bits : Settings → Bytes → Period → List ℕ → Action (Store Bitmap) (Unit {0})
  remove_bits c event period user_ids = do
    check_writable c
    lift (validate period)
    config ← ensure_event c event
    modify (λ s. record s { writer = remove_buffer R s.writer event config period user_ids })
