-- ===== src/Store/Failure.antt =====
-- The transaction of `flush` of src/lib.rs where it fails.
use inoxset.Prelude.{
  ℕ, ◌+◌, ◌<◌, ◌^◌, Bytes, true, Option, some, List, [], ◌∷◌, ◌≡◌, ◌≢◌, refl, ap, sym, subst, ◌∙◌,
  length, leb, Bool-cases, inl, inr, arith,
}
use inoxset.Prelude.HashMap.{HashMap}
use inoxset.Prelude.Eq.{text_eq}
use inoxset.Types.{EventConfig}
use inoxset.Error.{Result, ok, err, panic}
use inoxset.Roaring.{Roaring}
use inoxset.MemPart.{MemPartSnapshot}
use inoxset.PartStore.{extract_part_id_from_filename}
use inoxset.Codec.{corrupted}
use inoxset.Catalog.Txn.{or_one, txn_alloc_part_ids}
use inoxset.Store.{Settings, Store, read_catalog, write_txn}
use inoxset.Store.Monad.{Action, next, modify, pure, ◌>>=◌}
use inoxset.Store.Index.{mmap_read_part}
use inoxset.Store.Flush.{flush_data, flush_delta, flush_entries, commit_snapshot}
use inoxset.Merge.{Ordered}
use inoxset.Store.Content.{Content, parts_of, below}
use inoxset.Store.Stored.{AllKept, Stored, read_disk-fold_bits}
use inoxset.Store.Disk.{read_disk}
use inoxset.Store.Step.{Holds}
use inoxset.Store.Commit.{IsConsistent}
use inoxset.Store.Spared.{
  AllNew, range-AllNew, Spared, Spares, same-Spared, next-Spares, bind-Spared, flush_data-Spares,
  flush_delta-Spares, flush_entries-Spares, flush_entries-AllNew,
}

alloc-AllNew :
    (o : Option ℕ) (count : ℕ) (r : List ℕ × Option ℕ)
    → txn_alloc_part_ids o count ≡ ok r
    → AllNew (or_one o) r.0
unfolding txn_alloc_part_ids
alloc-AllNew o count (ids, counter) e = elim (Bool-cases (leb (2 ^ 64) (or_one o + count))) [
  | inl full ↦ absurd (too_many (rw full at e))
  | inr room ↦
      subst (AllNew (or_one o)) (same_first _ _ ids counter (rw room at e))
        (range-AllNew (or_one o) (or_one o) count (omega arith) (ground arith))
]
  where
    too_many : (corrupted {A = List ℕ × Option ℕ}) ≡ ok (ids, counter) → ⊥
    too_many h = cc

    same_first :
        (l : List ℕ) (n : Option ℕ) (l' : List ℕ) (n' : Option ℕ)
        → ◌≡◌ {A = Result (List ℕ × Option ℕ)} (ok (l, n)) (ok (l', n'))
        → l ≡ l'
    same_first l n l' n' h = cc

module _ (R : Roaring) (c : Settings) (now : ℕ) (configs : HashMap Bytes EventConfig)
    (snapshot : MemPartSnapshot R.Bitmap) (s : Store R.Bitmap) where
  open R use {Bitmap}

  abbrev bound : ℕ
  bound = or_one s.catalog.next_part_id

  abbrev write_all : List ℕ × Option ℕ → Action (Store Bitmap) (Unit {0})
  write_all (ids, counter) =
      modify (λ s. record s { catalog = record s.catalog { next_part_id = counter } }) >>= λ o.
      flush_entries R (flush_data R c now) configs snapshot.bitmaps ids >>= λ rest.
      flush_entries R (flush_delta R c now) configs snapshot.deltas rest >>= λ left. pure tt

  write_all-Spares : (r : List ℕ × Option ℕ) → AllNew bound r.0 → Spares R bound (write_all r)
  write_all-Spares (ids, counter) new t =
      let set : Action (Store Bitmap) (Unit {0}) =
        modify (λ s. record s { catalog = record s.catalog { next_part_id = counter } }) in
      let first = flush_entries R (flush_data R c now) configs snapshot.bitmaps ids in
      let second = flush_entries R (flush_delta R c now) configs snapshot.deltas in
      let last : List ℕ → Action (Store Bitmap) (Unit {0}) =
        λ rest. second rest >>= λ left. pure tt in
      bind-Spared R bound set (λ o. first >>= last) t
        (same-Spared R bound t (record t.catalog { next_part_id = counter }))
        (λ o e u.
          bind-Spared R bound first last u
            (flush_entries-Spares R bound (flush_data R c now) configs
              (flush_data-Spares R bound c now) snapshot.bitmaps ids new u)
            (λ rest f v.
              bind-Spared R bound (second rest) (λ left. pure tt) v
                (flush_entries-Spares R bound (flush_delta R c now) configs
                  (flush_delta-Spares R bound c now) snapshot.deltas rest
                  (flush_entries-AllNew R bound (flush_data R c now) configs
                    (flush_data-Spares R bound c now) snapshot.bitmaps ids rest u new f)
                  v)
                (λ left g w. same-Spared R bound w w.catalog)))

  -- The store after the transaction, before a failure is undone.
  abbrev unclosed : Store Bitmap
  unclosed =
      (next write_all
        (txn_alloc_part_ids s.catalog.next_part_id
          (length snapshot.bitmaps + length snapshot.deltas))
        s).1

  unclosed-Spared : Spared R bound s unclosed
  unclosed-Spared =
      next-Spares R bound write_all
        (txn_alloc_part_ids s.catalog.next_part_id
          (length snapshot.bitmaps + length snapshot.deltas))
        s (λ r e. write_all-Spares r (alloc-AllNew s.catalog.next_part_id _ r e))

  fails :
      (r : Result (Unit {0}) × Store Bitmap)
      → (write_txn (λ u. r) s).0 ≢ ok tt
      → (write_txn (λ u. r) s).1 ≡ record r.1 { catalog = s.catalog }
  unfolding write_txn
  fails (ok tt, t) h = absurd (h refl)
  fails (err e, t) h = refl
  fails (panic, t) h = refl

  spared-AllKept :
      (files : HashMap Bytes Bitmap)
      → ((path : Bytes) (id : ℕ)
          → extract_part_id_from_filename path ≡ some id
          → id < bound
          → mmap_read_part R files path ≡ mmap_read_part R s.files path)
      → (l : List (Ordered Bitmap)) → below bound l ≡ true
      → AllKept R s.catalog s.files l
      → AllKept R s.catalog files l
  unfolding AllKept below
  spared-AllKept files same [] h k = tt
  spared-AllKept files same (p ∷ l) h (k, r) = (
    record {
      part = k.part;
      found = k.found;
      reads = same k.part.file_path p.id k.named (ground arith) ∙ k.reads;
      named = k.named;
      own_id = k.own_id;
    },
    spared-AllKept files same l (ground arith) r,
  )

  -- Where the transaction of a flush fails on a store whose parts and counter are consistent, because a
  -- file cannot be written, a part cannot be stored, an event has no configuration or no ids are left,
  -- and however much it wrote before, nothing that was stored is touched: the catalog and the buffer
  -- that it was given are what they were, the store is consistent with the same parts, and for every
  -- catalog key the fold of the parts that `get` makes is the same.
  pub commit_snapshot-fails :
      (a : Bytes → Content Bitmap)
      → IsConsistent R s a
      → (commit_snapshot R c now configs snapshot s).0 ≢ ok tt
      → ((commit_snapshot R c now configs snapshot s).1.catalog ≡ s.catalog)
        × ((commit_snapshot R c now configs snapshot s).1.writer ≡ s.writer)
        × IsConsistent R (commit_snapshot R c now configs snapshot s).1 a
        × ((key : Bytes)
            → read_disk R
                (commit_snapshot R c now configs snapshot s).1.catalog
                (commit_snapshot R c now configs snapshot s).1.files
                key
              ≡ read_disk R s.catalog s.files key)
  unfolding commit_snapshot read_catalog IsConsistent Holds write_txn
  commit_snapshot-fails a h failed =
      let t = (commit_snapshot R c now configs snapshot s).1 in
      let undone : t ≡ record unclosed { catalog = s.catalog } = fails _ failed in
      let kept : (key : Bytes) → Stored R s.catalog unclosed.files key (a key) bound = λ key.
        record {
          data_ids = (h key).data_ids;
          delta_ids = (h key).delta_ids;
          kept =
              spared-AllKept unclosed.files unclosed-Spared.files (parts_of (a key)) (h key).old
                (h key).kept;
          unique = (h key).unique;
          old = (h key).old;
          state = (h key).state;
          has_state = (h key).has_state;
        } in
      (
        ap (λ (u : Store Bitmap). u.catalog) undone,
        ap (λ (u : Store Bitmap). u.writer) undone ∙ unclosed-Spared.writer,
        subst (λ (u : Store Bitmap). IsConsistent R u a) (sym undone) kept,
        λ key.
            ap (λ (u : Store Bitmap). read_disk R u.catalog u.files key) undone
            ∙ read_disk-fold_bits R s.catalog unclosed.files key (a key) bound (kept key)
            ∙ sym (read_disk-fold_bits R s.catalog s.files key (a key) bound (h key)),
      )
