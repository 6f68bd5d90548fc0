-- ===== src/Store/Step.antt =====
-- One entry of a snapshot written by `flush_snapshot` of src/lib.rs.
use inoxset.Prelude.{
  ℕ, ◌+◌, ◌<◌, ◌^◌, Bytes, Bool, true, false, Option, some, List, [], ◌∷◌, ◌++◌, ◌==◌, ◌≡◌, refl,
  ap, ◌∙◌, Bool-cases, inl, inr, if◌then◌else◌, arith,
}
use inoxset.Prelude.HashMap
use inoxset.Prelude.HashMap.{HashMap}
use inoxset.Prelude.Eq.{text_eq, text_beq, text_beq_iff}
use inoxset.Types.{Period, Part, PartKind, PeriodState, opened, EventConfig}
use inoxset.Error.{ok}
use inoxset.Period.{granularity, catalog_key}
use inoxset.Roaring.{Roaring}
use inoxset.Codec.RoundTrip.{AllU64}
use inoxset.Codec.Part.RoundTrip.{IsStorable}
use inoxset.PartStore.{part_file_path, extract_part_id_from_filename}
use inoxset.PartStore.Names.{extract_part_id_from_filename-part_file_path}
use inoxset.Catalog.{
  Catalog, register_part, get_part, append_period_parts, append_period_deltas, get_period_parts,
  get_period_deltas, get_period_state, set_period_state,
}
use inoxset.Catalog.Txn.{txn_get_part, txn_get_ids, txn_get_period_state, txn_set_period_state}
use inoxset.Catalog.Lookup.{
  txn_register_part-lookup, txn_append_ids-lookup, txn_set_period_state-lookup,
}
use inoxset.Merge.{tag}
use inoxset.Store.{Settings, Store, write_part, read_catalog, put_catalog}
use inoxset.Store.Content.{Content, push_data, push_delta, below, below-append}
use inoxset.Store.Stored.{ids, Stored}
use inoxset.Store.Frame.{Adds}
use inoxset.Store.Grow.{Stored-kept, Stored-data, Stored-delta}
use inoxset.Store.Flush.{new_part, save_part, ensure_open, flush_data, flush_delta}

-- The state of every key can be read.
abbrev pub Readable : HashMap Bytes Bytes → Bytes → Type 0
Readable db key = (state : Option PeriodState) × (txn_get_period_state db key ≡ ok state)

pub Readable-set :
    (db : HashMap Bytes Bytes) (key j : Bytes) (v : PeriodState)
    → Readable db j
    → Readable (txn_set_period_state db key v) j
Readable-set db key j v (state, h) = elim (Bool-cases (text_beq key j)) [
  | inl e ↦ (some v, txn_set_period_state-lookup db key j v ∙ rw e refl)
  | inr e ↦ (state, txn_set_period_state-lookup db key j v ∙ rw e h)
]

below-AllU64 :
    {B : Type 0} (d : Bool) (l : List (ℕ × B)) (i : ℕ)
    → i < 2 ^ 64
    → below i (tag d l) ≡ true
    → AllU64 (ids l ++ i ∷ [])
unfolding below tag ids
below-AllU64 d [] i h b = (h, tt)
below-AllU64 d ((j, x) ∷ l) i h b = (ground arith, below-AllU64 d l i h (ground arith))

module _ (R : Roaring) where
  open R use {Bitmap}

  -- What a write of parts leaves of the store.
  pub record Rest (s t : Store Bitmap) : Type 0 where
    pub counter : t.catalog.next_part_id ≡ s.catalog.next_part_id
    pub writer : t.writer ≡ s.writer
    pub is_closed : t.is_closed ≡ s.is_closed

  -- The store holds the parts `a key` of each key, with ids below `bound`.
  unfoldable pub Holds : Store Bitmap → (Bytes → Content Bitmap) → ℕ → Type 0
  Holds s a bound = (key : Bytes) → Stored R s.catalog s.files key (a key) bound

  unfoldable pub add_data : (Bytes → Content Bitmap) → Bytes → ℕ → Bitmap → Bytes → Content Bitmap
  add_data a key id b j = if text_beq key j then push_data (a j) id b else a j

  unfoldable pub add_delta : (Bytes → Content Bitmap) → Bytes → ℕ → Bitmap → Bytes → Content Bitmap
  add_delta a key id b j = if text_beq key j then push_delta (a j) id b else a j

  pub ensure_open-Readable :
      (key : Bytes) (s : Store Bitmap)
      → Readable s.catalog.period_state key
      → (db : HashMap Bytes Bytes) × (ensure_open R key s
          ≡ (ok tt, record s { catalog = record s.catalog { period_state = db } }))
        × ((j : Bytes) → Readable s.catalog.period_state j → Readable db j)
  unfolding ensure_open get_period_state set_period_state read_catalog txn_set_period_state
  ensure_open-Readable key s (Option.none, h) = (
    txn_set_period_state s.catalog.period_state key opened,
    rw h refl,
    λ j. Readable-set s.catalog.period_state key j opened,
  )
  ensure_open-Readable key s (some v, h) = (s.catalog.period_state, rw h refl, λ j r. r)

  module _ (c : Settings) (now : ℕ) (config : EventConfig) (event : Bytes) (period : Period)
      (id : ℕ) (b : Bitmap) (s : Store Bitmap) (a : Bytes → Content Bitmap) (holds : Holds s a id)
      (u : id < 2 ^ 64) where
    abbrev key : Bytes
    key = catalog_key event (granularity period) period

    abbrev part : PartKind → Part
    part k = new_part R c now config event period k 0 id b

    named :
        (k : PartKind)
        → extract_part_id_from_filename
            (part_file_path c.parts_root event config.finest_granularity period id k)
          ≡ some id
    named k =
        extract_part_id_from_filename-part_file_path c.parts_root event config.finest_granularity
          period id k u

    stored : (j : Bytes) → Stored R s.catalog s.files j (a j) id
    stored = unfold Holds in holds

    module _ (k : PartKind) (parts : HashMap ℕ Bytes)
        (finds : (j : ℕ)
          → txn_get_part parts j
            ≡ (if id == j then ok (some (part k)) else txn_get_part s.catalog.parts j))
        (lists states : HashMap Bytes Bytes) (readable : (j : Bytes) → Readable states j) where
      abbrev cat_data : Catalog
      cat_data = record s.catalog { parts = parts; period_parts = lists; period_state = states }

      abbrev cat_delta : Catalog
      cat_delta = record s.catalog { parts = parts; period_deltas = lists }

      Adds-data : Adds R s.catalog cat_data (part k)
      unfolding get_part new_part
      Adds-data = record { finds = finds; named = named k }

      Adds-delta : Adds R s.catalog cat_delta (part k)
      unfolding get_part new_part
      Adds-delta = record { finds = finds; named = named k }

      after_data :
          ((j : Bytes)
            → txn_get_ids lists j ≡ (
                if text_beq key j
                then ok (ids (a key).data_parts ++ id ∷ [])
                else txn_get_ids s.catalog.period_parts j))
          → (j : Bytes)
          → Stored R cat_data
              (HashMap.insert s.files (part k).file_path b)
              j
              (add_data a key id b j)
              (id + 1)
      unfolding new_part add_data get_period_parts get_period_deltas get_period_state
      after_data lookup j =
          let (state, has_state) = readable j in
          elim (Bool-cases (text_beq key j)) [
            | inl e ↦ rw e (
                Stored-data R s.catalog cat_data s.files (part k) b Adds-data j (a j) (stored j)
                  state has_state
                  (lookup j
                    ∙ rw e
                        (ap (λ i. ok (ids (a i).data_parts ++ id ∷ [])) ((text_beq_iff key j).0 e)))
                  refl)
            | inr e ↦ rw e (
                Stored-kept R s.catalog cat_data s.files (part k) b Adds-data j (a j) (stored j)
                  state has_state (lookup j ∙ rw e refl) refl)
          ]

      after_delta :
          ((j : Bytes)
            → txn_get_ids lists j ≡ (
                if text_beq key j
                then ok (ids (a key).delta_parts ++ id ∷ [])
                else txn_get_ids s.catalog.period_deltas j))
          → (j : Bytes)
          → Stored R cat_delta
              (HashMap.insert s.files (part k).file_path b)
              j
              (add_delta a key id b j)
              (id + 1)
      unfolding new_part add_delta get_period_parts get_period_deltas get_period_state
      after_delta lookup j = elim (Bool-cases (text_beq key j)) [
        | inl e ↦ rw e (
            Stored-delta R s.catalog cat_delta s.files (part k) b Adds-delta j (a j) (stored j)
              (stored j).state (stored j).has_state refl
              (lookup j
                ∙ rw e
                    (ap (λ i. ok (ids (a i).delta_parts ++ id ∷ [])) ((text_beq_iff key j).0 e))))
        | inr e ↦ rw e (
            Stored-kept R s.catalog cat_delta s.files (part k) b Adds-delta j (a j) (stored j)
              (stored j).state (stored j).has_state refl (lookup j ∙ rw e refl))
      ]

    data_u64 : AllU64 (ids (a key).data_parts ++ id ∷ [])
    data_u64 = below-AllU64 false (a key).data_parts id u (
        ground (
          arith,
          below-append id (tag false (a key).data_parts) (tag true (a key).delta_parts),
          (stored key).old,
        ))

    delta_u64 : AllU64 (ids (a key).delta_parts ++ id ∷ [])
    delta_u64 = below-AllU64 true (a key).delta_parts id u (
        ground (
          arith,
          below-append id (tag false (a key).data_parts) (tag true (a key).delta_parts),
          (stored key).old,
        ))

    Readable-before : (j : Bytes) → Readable s.catalog.period_state j
    Readable-before j = ((stored j).state, unfold get_period_state in (stored j).has_state)

    -- Writing one entry of the snapshot's bitmaps, with the next id, a path that can be written and a
    -- part that can be stored, succeeds: the store then holds a new newest data part with the
    -- entry's bitmap at the entry's key, and at every other key the parts it held.
    pub flush_data-Holds :
        c.writable (part PartKind.additive).file_path ≡ true
        → IsStorable (part PartKind.additive)
        → (t : Store Bitmap) × (flush_data R c now config (event, period) id b s ≡ (ok tt, t))
          × Holds t (add_data a key id b) (id + 1)
          × Rest s t
    unfolding flush_data save_part write_part read_catalog put_catalog register_part
        append_period_parts new_part Holds get_period_parts
    flush_data-Holds w v =
        let k = PartKind.additive in
        let (parts, registered, finds) = txn_register_part-lookup s.catalog.parts (part k) v in
        let (lists, appended, lookup) =
          txn_append_ids-lookup s.catalog.period_parts key (ids (a key).data_parts) (id ∷ [])
            (stored key).data_ids data_u64 in
        let files = HashMap.insert s.files (part k).file_path b in
        let (states, ensured, readable) =
          ensure_open-Readable key
            (record s {
              files = files;
              catalog = record s.catalog { parts = parts; period_parts = lists };
            })
            (Readable-before key) in
        (
          record s {
            files = files;
            catalog = cat_data k parts finds lists states (λ j. readable j (Readable-before j));
          },
          rw (w, registered, appended) ensured,
          after_data k parts finds lists states (λ j. readable j (Readable-before j)) lookup,
          record { counter = refl; writer = refl; is_closed = refl },
        )

    -- Writing one entry of the snapshot's deltas, likewise: the store then holds a new newest delta
    -- part at the entry's key, and at every other key the parts it held.
    pub flush_delta-Holds :
        c.writable (part PartKind.delta).file_path ≡ true
        → IsStorable (part PartKind.delta)
        → (t : Store Bitmap) × (flush_delta R c now config (event, period) id b s ≡ (ok tt, t))
          × Holds t (add_delta a key id b) (id + 1)
          × Rest s t
    unfolding flush_delta save_part write_part read_catalog put_catalog register_part
        append_period_deltas new_part Holds get_period_deltas
    flush_delta-Holds w v =
        let k = PartKind.delta in
        let (parts, registered, finds) = txn_register_part-lookup s.catalog.parts (part k) v in
        let (lists, appended, lookup) =
          txn_append_ids-lookup s.catalog.period_deltas key (ids (a key).delta_parts) (id ∷ [])
            (stored key).delta_ids delta_u64 in
        (
          record s {
            files = HashMap.insert s.files (part k).file_path b;
            catalog = cat_delta k parts finds lists s.catalog.period_state Readable-before;
          },
          rw (w, registered, appended) refl,
          after_delta k parts finds lists s.catalog.period_state Readable-before lookup,
          record { counter = refl; writer = refl; is_closed = refl },
        )
