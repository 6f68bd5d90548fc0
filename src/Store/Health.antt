-- ===== src/Store/Health.antt =====
-- `health` and `close` of src/lib.rs. The sums over the catalog are those of fewer than 2^32 periods
-- and 2^64 bytes, so that no addition overflows.
use inoxset.Prelude.{
  ℕ, ◌+◌, ◌%◌, ◌^◌, Bytes, Bool, Option, none, some, true, List, [], ◌∷◌, ◌++◌, length,
  if◌then◌else◌,
}
use inoxset.Types.{Part, PeriodState, opened, closed, compacted, dropped, EventConfig}
use inoxset.Error.{Result, ok, err, ◌>>=◌}
use inoxset.Error
use inoxset.Roaring.{Roaring}
use inoxset.Merge.{is_eligible}
use inoxset.Catalog.{
  Catalog, list_events, period_keys_for_event, get_period_parts, get_period_deltas, get_part,
  get_period_state,
}
use inoxset.Store.{Settings, Store}
use inoxset.Store.Monad.{Action}
use inoxset.Store.Flush.{flush_internal}

pub record Health : Type 0 where
  pub catalog_ok : Bool
  pub mempart_size_bytes : ℕ
  pub mempart_entries : ℕ
  pub total_events : ℕ
  pub total_data_parts : ℕ
  pub total_delta_parts : ℕ
  pub open_periods : ℕ
  pub closed_periods : ℕ
  pub compacted_periods : ℕ
  pub periods_needing_compaction : ℕ
  pub disk_usage_bytes : ℕ

size_of : Option Part → ℕ
size_of none = 0
size_of (some part) = part.size_bytes

unfoldable pub disk_usage : Catalog → List ℕ → ℕ → Result ℕ
unfolding size_of
disk_usage cat [] bytes = ok bytes
disk_usage cat (pid ∷ ids) bytes = do
  part ← get_part cat pid
  disk_usage cat ids (bytes + size_of part)

count_state : Option PeriodState → Health → Health
count_state none h = h
count_state (some opened) h = record h { open_periods = h.open_periods + 1 }
count_state (some closed) h = record h { closed_periods = h.closed_periods + 1 }
count_state (some compacted) h = record h { compacted_periods = h.compacted_periods + 1 }
count_state (some dropped) h = h

-- One round of the inner loop.
unfoldable pub count_period : Catalog → Bytes → Health → Result Health
unfolding disk_usage count_state
count_period cat key h = do
  data_ids ← get_period_parts cat key
  delta_ids ← get_period_deltas cat key
  bytes ← disk_usage cat (data_ids ++ delta_ids) h.disk_usage_bytes
  state ← get_period_state cat key
  ok (
      count_state state (record h {
        total_data_parts = h.total_data_parts + length data_ids;
        total_delta_parts = h.total_delta_parts + length delta_ids;
        periods_needing_compaction =
            (if is_eligible (length data_ids) (length delta_ids)
              then h.periods_needing_compaction + 1
              else h.periods_needing_compaction);
        disk_usage_bytes = bytes;
      }))

unfoldable pub count_periods : Catalog → List Bytes → Health → Result Health
unfolding count_period
count_periods cat [] h = ok h
count_periods cat (key ∷ keys) h = do
  counted ← count_period cat key h
  count_periods cat keys counted

unfoldable pub count_events : Catalog → List EventConfig → Health → Result Health
unfolding count_periods
count_events cat [] h = ok h
count_events cat (ev ∷ events) h = do
  counted ← count_periods cat (period_keys_for_event cat ev.name) h
  count_events cat events counted

unfoldable pub health : {B : Type 0} → Store B → Result Health
unfolding count_events
health s = if s.is_closed then err Error.closed else do
  events ← list_events s.catalog
  count_events s.catalog events (record {
    catalog_ok = true;
    mempart_size_bytes = s.writer.size_bytes;
    mempart_entries = (length s.writer.bitmaps + length s.writer.deltas) % 2 ^ 32;
    total_events = length events % 2 ^ 32;
    total_data_parts = 0;
    total_delta_parts = 0;
    open_periods = 0;
    closed_periods = 0;
    compacted_periods = 0;
    periods_needing_compaction = 0;
    disk_usage_bytes = 0;
  })

module _ (R : Roaring) where
  open R use {Bitmap}

  unfoldable pub close : Settings → ℕ → Action (Store Bitmap) (Unit {0})
  close c now s =
      if s.is_closed
      then (ok tt, s)
      else let marked = record s { is_closed = true } in
        if c.is_read_only then (ok tt, marked) else flush_internal R c now marked

  ignore : Result (Unit {0}) × Store Bitmap → Store Bitmap
  ignore (r, s) = s

  -- `Drop::drop`
  unfoldable pub drop : Settings → ℕ → Store Bitmap → Store Bitmap
  unfolding ignore
  drop c now s =
      if s.is_closed then s else if c.is_read_only then s else ignore (flush_internal R c now s)
