-- ===== src/Store/Freeze.antt =====
-- `rebuild_inverted_index` of src/lib.rs: the inverted index of what the read index has, with the
-- external ids that the dictionary has for the bits.
use inoxset.Prelude.{
  ℕ, ◌%◌, ◌^◌, ◌||◌, Bytes, Option, some, none, List, [], ◌∷◌, ◌++◌, length, ltb, if◌then◌else◌,
}
use inoxset.Prelude.HashMap
use inoxset.Prelude.HashMap.{HashMap}
use inoxset.Prelude.Eq.{nat_eq, text_eq, pair_eq}
use inoxset.Types.{Period}
use inoxset.Types.Order.{period_eq}
use inoxset.Error.{Result, ok, err, panic, configuration, ◌>>=◌}
use inoxset.Roaring.{Roaring}
use inoxset.MemPart.{Key}
use inoxset.Dict.{Dict, batch_reverse_lookup_u32}
use inoxset.Inverted.{Hashing, InvertedIndexBuilder, InvertedIndex, new_builder, add}
use inoxset.Inverted
use inoxset.Store.{Settings, Store}

-- The names of the events and the periods, with the ids given to them.
pub record Ids : Type 0 where
  pub event_names : List Bytes
  pub periods_vec : List Period
  pub event_map : HashMap Bytes ℕ
  pub period_map : HashMap Period ℕ

add_event : Option ℕ → Bytes → Ids → Ids
add_event (some id) ev ids = ids
add_event none ev ids = record ids {
  event_names = ids.event_names ++ ev ∷ [];
  event_map = HashMap.insert ids.event_map ev (length ids.event_names % 2 ^ 16);
}

add_period : Option ℕ → Period → Ids → Ids
add_period (some id) period ids = ids
add_period none period ids = record ids {
  periods_vec = ids.periods_vec ++ period ∷ [];
  period_map = HashMap.insert ids.period_map period (length ids.periods_vec % 2 ^ 16);
}

unfoldable pub collect_ids : List Key → Ids → Ids
unfolding add_event add_period
collect_ids [] ids = ids
collect_ids ((ev, period) ∷ keys) ids =
    let named = add_event (HashMap.get ids.event_map ev) ev ids in
    collect_ids keys (add_period (HashMap.get named.period_map period) period named)

unfoldable pub keys_of : {V : Type 0} → HashMap Key V → List Key
keys_of [] = []
keys_of ((key, v) ∷ m) = key ∷ keys_of m

-- `map[key]`
unfoldable pub must : Option ℕ → Result ℕ
must none = panic
must (some id) = ok id

-- The bits of one key.
push_all : ℕ → ℕ → List ℕ → List (ℕ × ℕ × ℕ)
push_all event_id period_id [] = []
push_all event_id period_id (id ∷ bits) =
    (event_id, period_id, id) ∷ push_all event_id period_id bits

third : List (ℕ × ℕ × ℕ) → List ℕ
third [] = []
third ((e, p, id) ∷ pending) = id ∷ third pending

unfoldable pub collect_map : List (ℕ × Bytes) → HashMap ℕ Bytes → HashMap ℕ Bytes
collect_map [] m = m
collect_map ((id, s) ∷ resolved) m = collect_map resolved (HashMap.insert m id s)

add_found : Hashing → Option Bytes → ℕ → ℕ → InvertedIndexBuilder → InvertedIndexBuilder
add_found h none event_id period_id b = b
add_found h (some ext_id) event_id period_id b = add h b ext_id event_id period_id

unfoldable pub add_pending :
    Hashing → HashMap ℕ Bytes → List (ℕ × ℕ × ℕ) → InvertedIndexBuilder → InvertedIndexBuilder
unfolding add_found
add_pending h id_to_ext [] b = b
add_pending h id_to_ext ((event_id, period_id, internal_id) ∷ pending) b =
    add_pending h id_to_ext pending
      (add_found h (HashMap.get id_to_ext internal_id) event_id period_id b)

module _ (R : Roaring) where
  open R use {Bitmap}

  bits_of : Option Bitmap → List ℕ
  bits_of none = []
  bits_of (some bm) = R.iter bm

  unfoldable pub pending_of : HashMap Key Bitmap → Ids → List Key → Result (List (ℕ × ℕ × ℕ))
  unfolding push_all bits_of must
  pending_of cache ids [] = ok []
  pending_of cache ids (key ∷ keys) = do
    event_id ← must (HashMap.get ids.event_map key.0)
    period_id ← must (HashMap.get ids.period_map key.1)
    rest ← pending_of cache ids keys
    ok (push_all event_id period_id (bits_of (HashMap.get cache key)) ++ rest)

  unfoldable pub build_frozen_inverted_index :
      Hashing → Dict → HashMap Key Bitmap → Result (InvertedIndex Bitmap)
  unfolding collect_ids keys_of pending_of third collect_map add_pending
  build_frozen_inverted_index h dict cache =
      let ids =
        collect_ids (keys_of cache)
          (record { event_names = []; periods_vec = []; event_map = []; period_map = [] }) in
      if ltb 32767 (length ids.event_names) || ltb 65536 (length ids.periods_vec)
      then err configuration
      else (do
        pending ← pending_of cache ids (keys_of cache)
        let resolved = batch_reverse_lookup_u32 dict (third pending)
        Inverted.build R h (
            add_pending h (collect_map resolved []) pending
              (new_builder ids.event_names ids.periods_vec)))

  swap : Store Bitmap → Result (InvertedIndex Bitmap) → Result (Unit {0}) × Store Bitmap
  swap s (ok idx) = (ok tt, record s { inverted = some idx })
  swap s (err e) = (err e, s)
  swap s panic = (panic, s)

  rebuild_from :
      Option (InvertedIndex Bitmap) → Settings → Store Bitmap → Result (Unit {0}) × Store Bitmap
  unfolding swap build_frozen_inverted_index
  rebuild_from none c s = (ok tt, s)
  rebuild_from (some idx) c s = swap s (build_frozen_inverted_index c.hashing s.dict s.bitmap_cache)

  unfoldable pub rebuild_inverted_index : Settings → Store Bitmap → Result (Unit {0}) × Store Bitmap
  unfolding rebuild_from
  rebuild_inverted_index c s = rebuild_from s.inverted c s
