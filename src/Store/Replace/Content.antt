-- ===== src/Store/Replace/Content.antt =====
-- The write transaction of `replace_bitmap` of src/lib.rs, and the parts that the store holds after it.
use inoxset.Prelude.{
  ℕ, ◌+◌, ◌<◌, ◌^◌, Bytes, some, [], ◌∷◌, ◌≡◌, refl, ap, sym, subst, ◌∙◌, if◌then◌else◌, arith,
}
use inoxset.Prelude.HashMap
use inoxset.Prelude.HashMap.{HashMap, get-insert, get-remove}
use inoxset.Prelude.Eq.{nat_eq, text_eq, text_beq}
use inoxset.Types.{Period, Part, PartKind, EventConfig}
use inoxset.Error.{ok}
use inoxset.PartStore.{extract_part_id_from_filename}
use inoxset.Period.{granularity, catalog_key}
use inoxset.Roaring.{Roaring}
use inoxset.PartStore.Names.{extract_part_id_from_filename-part_file_path}
use inoxset.Catalog.{get_period_state, set_period_parts, clear_period_deltas, register_part}
use inoxset.Catalog.Txn.{range, or_one, txn_set_period_parts, txn_clear_period_deltas}
use inoxset.Catalog.Lookup.{txn_register_part-lookup}
use inoxset.Store.{Settings, Store, write_part, read_catalog, put_catalog, write_txn}
use inoxset.Store.Content.{Content}
use inoxset.Store.Stored.{ids, Stored, Stored-counter}
use inoxset.Store.Disk.{read_disk}
use inoxset.Store.Flush.{new_part, save_part}
use inoxset.Store.Step.{Holds, ensure_open-Readable}
use inoxset.Store.Commit.{IsReady, IsConsistent, txn_alloc_part_ids-range}
use inoxset.Store.Swap.{replaced, IsApart, after, swap-Holds, replaced-read_disk}
use inoxset.Store.Replace.{OldParts, alloc_ids, first_of, replace_parts, replace_old}

module _ (R : Roaring) where
  open R use {Bitmap, contains}

  module _ (c : Settings) (now : ℕ) (config : EventConfig) (event : Bytes) (period : Period)
      (id : ℕ) (b : Bitmap) (s : Store Bitmap) (a : Bytes → Content Bitmap) (holds : Holds R s a id)
      (u : id < 2 ^ 64) (apart : IsApart R a (catalog_key event (granularity period) period)) where
    abbrev key : Bytes
    key = catalog_key event (granularity period) period

    abbrev part : Part
    part = new_part R c now config event period PartKind.additive 0 id b

    abbrev old : OldParts
    old = record {
      cat_key = key;
      data_ids = ids (a key).data_parts;
      delta_ids = ids (a key).delta_parts;
    }

    stored : (j : Bytes) → Stored R s.catalog s.files j (a j) id
    stored = unfold Holds in holds

    named : extract_part_id_from_filename part.file_path ≡ some id
    unfolding new_part
    named =
        extract_part_id_from_filename-part_file_path c.parts_root event config.finest_granularity
          period id PartKind.additive u

    pub replace_parts-Holds :
        IsReady R c now PartKind.additive config (event, period) id b
        → (t : Store Bitmap) × (replace_parts R c now config event period id b old s ≡ (ok tt, t))
          × Holds R t (replaced R a key id b) (id + 1)
          × (t.catalog.next_part_id ≡ s.catalog.next_part_id)
    unfolding replace_parts save_part write_part read_catalog put_catalog register_part
        set_period_parts clear_period_deltas get_period_state new_part
    replace_parts-Holds ready =
        let (parts, registered, finds) =
          txn_register_part-lookup s.catalog.parts part ready.can_store in
        let (states, ensured, readable) =
          ensure_open-Readable R key
            (record s {
              files = HashMap.insert s.files part.file_path b;
              catalog = record s.catalog {
                parts = parts;
                period_parts = txn_set_period_parts s.catalog.period_parts key (id ∷ []);
                period_deltas = txn_clear_period_deltas s.catalog.period_deltas key;
              };
            })
            ((stored key).state, (stored key).has_state) in
        let reads = λ (j : Bytes). readable j ((stored j).state, (stored j).has_state) in
        (
          record s {
            files = HashMap.insert s.files part.file_path b;
            catalog = after R part b key s a holds u named apart parts finds states reads;
          },
          rw (ready.can_write, registered) (rw ensured refl),
          swap-Holds R part b key s a holds u named apart parts finds states reads,
          refl,
        )

  module _ (c : Settings) (now : ℕ) (config : EventConfig) (event : Bytes) (period : Period)
      (b : Bitmap) (s : Store Bitmap) (a : Bytes → Content Bitmap) (h : IsConsistent R s a)
      (room : or_one s.catalog.next_part_id + 1 < 2 ^ 64)
      (apart : IsApart R a (catalog_key event (granularity period) period))
      (ready : IsReady R c now PartKind.additive config
        (event, period)
        (or_one s.catalog.next_part_id)
        b) where
    abbrev next_id : ℕ
    next_id = or_one s.catalog.next_part_id

    abbrev cat_key : Bytes
    cat_key = catalog_key event (granularity period) period

    abbrev moved : Store Bitmap
    moved = record s { catalog = record s.catalog { next_part_id = some (next_id + 1) } }

    moved-Holds : Holds R moved a next_id
    unfolding Holds
    moved-Holds key =
        Stored-counter R s.catalog s.files (some (next_id + 1)) key (a key) next_id
          (unfold IsConsistent Holds in h key)

    -- The transaction of `replace_bitmap`, given the parts of the key, on a store whose parts and
    -- counter are consistent, with an id left, a storable part and a writable path, and no part of
    -- the key listed under another key, succeeds. The parts and the counter are consistent again.
    -- For every catalog key the fold of the parts that `get` makes gives a bitmap before and after
    -- it: at the key it then has the bits of the new bitmap, at every other key the bits it had.
    pub replace_old-read_disk :
        (t : Store Bitmap) × (replace_old R c now config event period b
            (record {
              cat_key = cat_key;
              data_ids = ids (a cat_key).data_parts;
              delta_ids = ids (a cat_key).delta_parts;
            })
            s
          ≡ (ok tt, t))
        × IsConsistent R t (replaced R a cat_key next_id b)
        × ((key : Bytes)
            → (m n : Bitmap) × (read_disk R s.catalog s.files key ≡ ok m)
              × (read_disk R t.catalog t.files key ≡ ok n)
              × ((x : ℕ)
                  → contains n x ≡ (if text_beq cat_key key then contains b x else contains m x)))
    unfolding replace_old write_txn alloc_ids read_catalog first_of range IsConsistent Holds
        replaced
    replace_old-read_disk =
        let (t, done, held, counter) =
          replace_parts-Holds c now config event period next_id b moved a moved-Holds (omega arith)
            apart (record { can_write = ready.can_write; can_store = ready.can_store }) in
        let next : next_id + 1 ≡ or_one t.catalog.next_part_id =
          sym (ap or_one counter ∙ (unfold or_one in refl)) in
        let holds = subst (λ n. Holds R t (replaced R a cat_key next_id b) n) next held in
        (
          t,
          rw (txn_alloc_part_ids-range s.catalog.next_part_id 1 room) (rw done refl),
          holds,
          λ key.
              let (m, n, before, after, bits, same) =
                replaced-read_disk R s t a cat_key next_id b next_id (or_one t.catalog.next_part_id)
                  h holds key in
              (m, n, before, after, same),
        )
