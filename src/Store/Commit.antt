-- ===== src/Store/Commit.antt =====
-- The write transaction of `flush_snapshot` of src/lib.rs, as `get` sees it without the read index.
use inoxset.Prelude.{
  ℕ, ◌+◌, ◌<◌, ◌^◌, Bytes, Bool, true, false, not, ◌&&◌, ◌||◌, Option, some, [], ◌∷◌, length, ◌≡◌,
  refl, ap, sym, subst, ◌∙◌, Bool-cases, inl, inr, arith,
}
use inoxset.Prelude.HashMap.{HashMap}
use inoxset.Prelude.Eq.{text_eq, text_beq}
use inoxset.Types.{PartKind, EventConfig}
use inoxset.Error.{ok}
use inoxset.Roaring.{Roaring}
use inoxset.MemPart.{Key, MemPartSnapshot}
use inoxset.Codec.Part.RoundTrip.{IsStorable}
use inoxset.Catalog.Txn.{range, or_one, txn_alloc_part_ids}
use inoxset.Store.{Settings, Store, read_catalog, write_txn}
use inoxset.Store.Content.{
  Content, parts_of, below, push_data-below, push_delta-below, shows, push_data-shows,
  push_delta-shows, below_mono,
}
use inoxset.Store.Stored.{Stored-counter, read_disk-shows}
use inoxset.Store.Disk.{read_disk}
use inoxset.Store.Flush.{new_part, flush_data, flush_delta, commit_snapshot}
use inoxset.Store.Step.{Holds, add_data, add_delta, flush_data-Holds, flush_delta-Holds}
use inoxset.Store.Loop.{key_of, add_all, AllReady, flush_entries-Holds}

-- The counter gives the next ids, in order, and is moved past them.
pub txn_alloc_part_ids-range :
    (counter : Option ℕ) (count : ℕ)
    → or_one counter + count < 2 ^ 64
    → txn_alloc_part_ids counter count
      ≡ ok (range (or_one counter) count, some (or_one counter + count))
unfolding txn_alloc_part_ids
txn_alloc_part_ids-range counter count h = ground arith

module _ (R : Roaring) where
  open R use {Bitmap, contains}

  -- A part of the entry can be stored, and its file written.
  pub record IsReady (c : Settings) (now : ℕ) (kind : PartKind) (config : EventConfig) (k : Key)
      (id : ℕ) (b : Bitmap) : Type 0 where
    pub can_write : c.writable (new_part R c now config k.0 k.1 kind 0 id b).file_path ≡ true
    pub can_store : IsStorable (new_part R c now config k.0 k.1 kind 0 id b)

  -- Some entry with the catalog key has the bit.
  unfoldable pub written : ℕ → HashMap Key Bitmap → Bytes → Bool
  written x [] key = false
  written x ((k, b) ∷ entries) key =
      text_beq (key_of k) key && contains b x || written x entries key

  module _ (x : ℕ) (key : Bytes) where
    add_data-shows :
        (a : Bytes → Content Bitmap) (k : Key) (b : Bitmap) (id : ℕ)
        → below id (parts_of (a key)) ≡ true
        → (below (id + 1) (parts_of (add_data R a (key_of k) id b key)) ≡ true)
          × (shows R x (add_data R a (key_of k) id b key)
              ≡ (shows R x (a key) || text_beq (key_of k) key && contains b x))
    unfolding add_data
    add_data-shows a k b id h = elim (Bool-cases (text_beq (key_of k) key)) [
      | inl e ↦ rw e (push_data-below (a key) id b h, push_data-shows R x (a key) id b h)
      | inr e ↦ rw e (below_mono id (id + 1) (parts_of (a key)) (omega arith) h, ground arith)
    ]

    add_delta-shows :
        (a : Bytes → Content Bitmap) (k : Key) (b : Bitmap) (id : ℕ)
        → below id (parts_of (a key)) ≡ true
        → (below (id + 1) (parts_of (add_delta R a (key_of k) id b key)) ≡ true)
          × (shows R x (add_delta R a (key_of k) id b key)
              ≡ (shows R x (a key) && not (text_beq (key_of k) key && contains b x)))
    unfolding add_delta
    add_delta-shows a k b id h = elim (Bool-cases (text_beq (key_of k) key)) [
      | inl e ↦ rw e (push_delta-below (a key) id b h, push_delta-shows R x (a key) id b h)
      | inr e ↦ rw e (below_mono id (id + 1) (parts_of (a key)) (omega arith) h, ground arith)
    ]

    -- The loops, on the bits of one key.
    data_below :
        (entries : HashMap Key Bitmap) (a : Bytes → Content Bitmap) (id : ℕ)
        → below id (parts_of (a key)) ≡ true
        → below (id + length entries) (parts_of (add_all R (add_data R) a entries id key)) ≡ true
    unfolding add_all
    data_below [] a id h = below_mono id (id + 0) (parts_of (a key)) (omega arith) h
    data_below ((k, b) ∷ entries) a id h =
        let next : id + length ((k, b) ∷ entries) ≡ id + 1 + length entries = omega arith in
        rw next
          (data_below entries (add_data R a (key_of k) id b) (id + 1) (add_data-shows a k b id h).0)

    data_shows :
        (entries : HashMap Key Bitmap) (a : Bytes → Content Bitmap) (id : ℕ)
        → below id (parts_of (a key)) ≡ true
        → shows R x (add_all R (add_data R) a entries id key)
          ≡ (shows R x (a key) || written x entries key)
    unfolding add_all written
    data_shows [] a id h = ground arith
    data_shows ((k, b) ∷ entries) a id h =
        let (old, now) = add_data-shows a k b id h in
        ground (arith, data_shows entries (add_data R a (key_of k) id b) (id + 1) old, now)

    delta_shows :
        (entries : HashMap Key Bitmap) (a : Bytes → Content Bitmap) (id : ℕ)
        → below id (parts_of (a key)) ≡ true
        → shows R x (add_all R (add_delta R) a entries id key)
          ≡ (shows R x (a key) && not (written x entries key))
    unfolding add_all written
    delta_shows [] a id h = ground arith
    delta_shows ((k, b) ∷ entries) a id h =
        let (old, now) = add_delta-shows a k b id h in
        ground (arith, delta_shows entries (add_delta R a (key_of k) id b) (id + 1) old, now)

  -- The parts of the store, with the counter as the bound of their ids.
  unfoldable pub IsConsistent : Store Bitmap → (Bytes → Content Bitmap) → Type 0
  IsConsistent s a = Holds R s a (or_one s.catalog.next_part_id)

  -- The parts of each key after the snapshot.
  unfoldable pub after_snapshot :
      (Bytes → Content Bitmap) → MemPartSnapshot Bitmap → ℕ → Bytes → Content Bitmap
  after_snapshot a snapshot id =
      add_all R (add_delta R) (add_all R (add_data R) a snapshot.bitmaps id) snapshot.deltas
        (id + length snapshot.bitmaps)

  after_snapshot-shows :
      (a : Bytes → Content Bitmap) (snapshot : MemPartSnapshot Bitmap) (id : ℕ) (key : Bytes)
      (x : ℕ)
      → below id (parts_of (a key)) ≡ true
      → shows R x (after_snapshot a snapshot id key) ≡ (
          (shows R x (a key) || written x snapshot.bitmaps key)
          && not (written x snapshot.deltas key))
  unfolding after_snapshot
  after_snapshot-shows a snapshot id key x h =
      delta_shows x key snapshot.deltas (add_all R (add_data R) a snapshot.bitmaps id)
        (id + length snapshot.bitmaps) (data_below x key snapshot.bitmaps a id h)
      ∙ ap (λ v. v && not (written x snapshot.deltas key))
          (data_shows x key snapshot.bitmaps a id h)

  module _ (c : Settings) (now : ℕ) (configs : HashMap Bytes EventConfig)
      (snapshot : MemPartSnapshot Bitmap) (s : Store Bitmap) (a : Bytes → Content Bitmap)
      (h : IsConsistent s a)
      (room : or_one s.catalog.next_part_id + length snapshot.bitmaps + length snapshot.deltas
        < 2 ^ 64)
      (data_ready : AllReady R
        (IsReady c now PartKind.additive)
        configs
        snapshot.bitmaps
        (or_one s.catalog.next_part_id))
      (delta_ready : AllReady R
        (IsReady c now PartKind.delta)
        configs
        snapshot.deltas
        (or_one s.catalog.next_part_id + length snapshot.bitmaps)) where
    abbrev start : ℕ
    start = or_one s.catalog.next_part_id

    abbrev moved : Store Bitmap
    moved = record s {
      catalog = record s.catalog {
        next_part_id = some (start + (length snapshot.bitmaps + length snapshot.deltas));
      };
    }

    moved-Holds : Holds R moved a start
    unfolding Holds
    moved-Holds key =
        Stored-counter R s.catalog s.files
          (some (start + (length snapshot.bitmaps + length snapshot.deltas))) key (a key) start
          (unfold IsConsistent Holds in h key)

    -- The transaction of a flush, on a store whose parts and counter are consistent, with ids left for
    -- the snapshot, whose entries have known configurations, storable parts and writable paths,
    -- succeeds. The buffer is as it was, and the parts and the counter are consistent again, where
    -- the parts of each key are those before it and the snapshot's, in order.
    pub commit_snapshot-IsConsistent :
        (t : Store Bitmap) × (commit_snapshot R c now configs snapshot s ≡ (ok tt, t))
        × IsConsistent t (after_snapshot a snapshot start)
        × (t.writer ≡ s.writer)
    unfolding commit_snapshot read_catalog write_txn IsConsistent after_snapshot
    commit_snapshot-IsConsistent =
        let (t, e, held, rest) =
          flush_entries-Holds R (flush_data R c now) (add_data R) (IsReady c now PartKind.additive)
            configs
            (λ config k id b s a h u r.
              flush_data-Holds R c now config k.0 k.1 id b s a h u r.can_write r.can_store)
            snapshot.bitmaps (length snapshot.deltas) start moved a moved-Holds room data_ready in
        let (v, f, holds, left) =
          flush_entries-Holds R (flush_delta R c now) (add_delta R) (IsReady c now PartKind.delta)
            configs
            (λ config k id b s a h u r.
              flush_delta-Holds R c now config k.0 k.1 id b s a h u r.can_write r.can_store)
            snapshot.deltas 0 (start + length snapshot.bitmaps) t
            (add_all R (add_data R) a snapshot.bitmaps start) held (omega arith) delta_ready in
        let total : length snapshot.deltas + 0 ≡ length snapshot.deltas = omega arith in
        let allocated =
          txn_alloc_part_ids-range s.catalog.next_part_id
            (length snapshot.bitmaps + length snapshot.deltas) (omega arith) in
        let counter : or_one v.catalog.next_part_id
            ≡ start + length snapshot.bitmaps + length snapshot.deltas =
          ap or_one (left.counter ∙ rest.counter) ∙ (unfold or_one in omega arith) in
        (
          v,
          rw (allocated, e, rw total at f) refl,
          subst
              (λ n.
                Holds R v
                  (add_all R (add_delta R) (add_all R (add_data R) a snapshot.bitmaps start)
                    snapshot.deltas (start + length snapshot.bitmaps))
                  n)
              (sym counter) holds,
          left.writer ∙ rest.writer,
        )

    -- The transaction of a flush, on a store whose parts and counter are consistent, with ids left,
    -- storable parts and writable paths, succeeds. For every catalog key the fold of the parts that
    -- `get` makes gives a bitmap before and after it: after it a bit is set exactly when it was set
    -- before or is in a flushed bitmap of the key, and is in no flushed delta of the key.
    pub commit_snapshot-read_disk :
        (t : Store Bitmap) × (commit_snapshot R c now configs snapshot s ≡ (ok tt, t))
        × (t.writer ≡ s.writer)
        × ((key : Bytes)
            → (m n : Bitmap) × (read_disk R s.catalog s.files key ≡ ok m)
              × (read_disk R t.catalog t.files key ≡ ok n)
              × ((x : ℕ)
                  → contains n x ≡ (
                      (contains m x || written x snapshot.bitmaps key)
                      && not (written x snapshot.deltas key))))
    unfolding IsConsistent Holds
    commit_snapshot-read_disk =
        let (t, e, holds, w) = commit_snapshot-IsConsistent in
        (
          t,
          e,
          w,
          λ key.
              let (m, before, bits) =
                read_disk-shows R s.catalog s.files key (a key) start (h key) in
              let (n, after, new_bits) =
                read_disk-shows R t.catalog t.files key (after_snapshot a snapshot start key)
                  (or_one t.catalog.next_part_id) (holds key) in
              (
                m,
                n,
                before,
                after,
                λ x.
                    new_bits x
                    ∙ after_snapshot-shows a snapshot start key x (h key).old
                    ∙ ap
                        (λ v.
                          (v || written x snapshot.bitmaps key)
                          && not (written x snapshot.deltas key))
                        (sym (bits x)),
              ),
        )
