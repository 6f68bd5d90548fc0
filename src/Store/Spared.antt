-- ===== src/Store/Spared.antt =====
-- What the writes of `flush` of src/lib.rs leave alone, whether or not they succeed: the buffer, and the
-- files of the parts with smaller ids.
use inoxset.Prelude.{
  ℕ, suc, zero, ◌+◌, ◌≤◌, ◌<◌, ◌^◌, ◌==◌, Bytes, false, Option, some, none, List, [], ◌∷◌, ◌≡◌,
  refl, subst, ◌∙◌, Bool-cases, inl, inr, arith,
}
use inoxset.Prelude.HashMap
use inoxset.Prelude.HashMap.{HashMap, get-insert}
use inoxset.Prelude.Eq.{text_eq}
use inoxset.Types.{Period, PartKind, EventConfig, PeriodState}
use inoxset.Error.{Result, ok, err, panic}
use inoxset.Period.{granularity, catalog_key}
use inoxset.Roaring.{Roaring}
use inoxset.MemPart.{Key}
use inoxset.PartStore.{extract_part_id_from_filename}
use inoxset.PartStore.Names.{extract_part_id_from_filename-part_file_path}
use inoxset.Catalog.{
  Catalog, register_part, append_period_parts, append_period_deltas, get_period_state,
}
use inoxset.Catalog.Txn.{range}
use inoxset.Store.{Settings, Store, write_part, read_catalog, put_catalog}
use inoxset.Store.Monad.{Action, next, lift, ◌>>=◌}
use inoxset.Store.Index.{mmap_read_part}
use inoxset.Store.Flush.{
  new_part, save_part, ensure_open, open_state, flush_data, flush_delta, flush_entries, config_of,
}
use inoxset.Store.Delete.Files.{other_path}

-- Ids of new parts: not below the bound, and each a `u64`.
unfoldable pub AllNew : ℕ → List ℕ → Type 0
AllNew bound [] = Unit
AllNew bound (id ∷ ids) = (bound ≤ id) × (id < 2 ^ 64) × AllNew bound ids

pub range-AllNew :
    (bound start count : ℕ)
    → bound ≤ start
    → start + count ≤ 2 ^ 64
    → AllNew bound (range start count)
unfolding AllNew range
range-AllNew bound start zero h k = tt
range-AllNew bound start (suc n) h k =
    (h, omega arith, range-AllNew bound (start + 1) n (omega arith) (omega arith))

same_ids : (l m : List ℕ) → ◌≡◌ {A = Result (List ℕ)} (ok l) (ok m) → l ≡ m
same_ids l m e = cc

module _ (R : Roaring) (bound : ℕ) where
  open R use {Bitmap}

  -- The buffer is the same, and so are the files of parts with ids below the bound.
  pub record Spared (s t : Store Bitmap) : Type 0 where
    pub writer : t.writer ≡ s.writer
    pub files :
        (path : Bytes) (id : ℕ)
        → extract_part_id_from_filename path ≡ some id
        → id < bound
        → mmap_read_part R t.files path ≡ mmap_read_part R s.files path

  abbrev pub Spares : {A : Type 0} → Action (Store Bitmap) A → Type 0
  Spares m = (s : Store Bitmap) → Spared s (m s).1

  Spared-trans : (s t u : Store Bitmap) → Spared s t → Spared t u → Spared s u
  Spared-trans s t u a b = record {
    writer = b.writer ∙ a.writer;
    files = λ path id e h. b.files path id e h ∙ a.files path id e h;
  }

  pub same-Spared : (s : Store Bitmap) (cat : Catalog) → Spared s (record s { catalog = cat })
  same-Spared s cat = record { writer = refl; files = λ path id e h. refl }

  module _ {A C : Type 0} where
    pub next-Spares :
        (f : A → Action (Store Bitmap) C) (r : Result A) (s : Store Bitmap)
        → ((a : A) → r ≡ ok a → Spares (f a))
        → Spared s (next f r s).1
    next-Spares f (ok a) s h = h a refl s
    next-Spares f (err e) s h = same-Spared s s.catalog
    next-Spares f panic s h = same-Spared s s.catalog

    pub bind-Spared :
        (m : Action (Store Bitmap) A) (f : A → Action (Store Bitmap) C) (s : Store Bitmap)
        → Spared s (m s).1
        → ((a : A) → (m s).0 ≡ ok a → Spares (f a))
        → Spared s ((m >>= f) s).1
    bind-Spared m f s h k =
        Spared-trans s (m s).1 (next f (m s).0 (m s).1).1 h (next-Spares f (m s).0 (m s).1 k)

  write_part-Spares :
      (c : Settings) (path : Bytes) (b : Bitmap) (id : ℕ)
      → extract_part_id_from_filename path ≡ some id
      → bound ≤ id
      → Spares (write_part c path b)
  unfolding write_part mmap_read_part
  write_part-Spares c path b id named new s = elim (Bool-cases (c.writable path)) [
    | inl h ↦ rw h (record {
      writer = refl;
      files = λ other i e below.
          let differs : (id == i) ≡ false = ground arith in
          rw (get-insert s.files path other b, other_path i id other path e named differs) refl;
    })
    | inr h ↦ rw h (same-Spared s s.catalog)
  ]

  put-Spares : (f : Catalog → Result Catalog) → Spares (read_catalog f >>= put_catalog)
  unfolding read_catalog put_catalog
  put-Spares f s =
      next-Spares put_catalog (f s.catalog) s (λ cat e u. unfold put_catalog in same-Spared u cat)

  open_state-Spares : (key : Bytes) (o : Option PeriodState) → Spares (open_state R key o)
  unfolding open_state
  open_state-Spares key (some state) s = same-Spared s s.catalog
  open_state-Spares key none s = same-Spared s _

  ensure_open-Spares : (key : Bytes) → Spares (ensure_open R key)
  unfolding ensure_open read_catalog
  ensure_open-Spares key s =
      next-Spares (open_state R key) (get_period_state s.catalog key) s
        (λ o e. open_state-Spares key o)

  module _ (c : Settings) (now : ℕ) where
    save_part-Spares :
        (config : EventConfig) (event : Bytes) (period : Period) (k : PartKind) (id : ℕ)
        (b : Bitmap)
        → bound ≤ id
        → id < 2 ^ 64
        → Spares (save_part R c (new_part R c now config event period k 0 id b) b)
    unfolding save_part new_part
    save_part-Spares config event period k id b new u s =
        let part = new_part R c now config event period k 0 id b in
        bind-Spared (write_part c part.file_path b) _ s
          (write_part-Spares c part.file_path b id
            (extract_part_id_from_filename-part_file_path c.parts_root event
              config.finest_granularity period id k u)
            new s)
          (λ o e. put-Spares (λ cat. register_part cat part))

    pub flush_data-Spares :
        (config : EventConfig) (k : Key) (id : ℕ) (b : Bitmap)
        → bound ≤ id
        → id < 2 ^ 64
        → Spares (flush_data R c now config k id b)
    unfolding flush_data
    flush_data-Spares config (event, period) id b new u s =
        let key = catalog_key event (granularity period) period in
        let save =
          save_part R c (new_part R c now config event period PartKind.additive 0 id b) b in
        let append : Action (Store Bitmap) Catalog =
          read_catalog (λ cat. append_period_parts cat key (id ∷ [])) in
        let finish : Catalog → Action (Store Bitmap) (Unit {0}) =
          λ cat. put_catalog cat >>= λ o. ensure_open R key in
        bind-Spared save (λ o. append >>= finish) s
          (save_part-Spares config event period PartKind.additive id b new u s)
          (λ o e t.
            bind-Spared append finish t (unfold read_catalog in same-Spared t t.catalog) (λ cat f v.
              bind-Spared (put_catalog cat) (λ o'. ensure_open R key) v
                (unfold put_catalog in same-Spared v cat) (λ o' g. ensure_open-Spares key)))

    pub flush_delta-Spares :
        (config : EventConfig) (k : Key) (id : ℕ) (b : Bitmap)
        → bound ≤ id
        → id < 2 ^ 64
        → Spares (flush_delta R c now config k id b)
    unfolding flush_delta
    flush_delta-Spares config (event, period) id b new u s =
        let key = catalog_key event (granularity period) period in
        let append : Catalog → Result Catalog = λ cat. append_period_deltas cat key (id ∷ []) in
        bind-Spared (save_part R c (new_part R c now config event period PartKind.delta 0 id b) b)
          (λ o. read_catalog append >>= put_catalog) s
          (save_part-Spares config event period PartKind.delta id b new u s)
          (λ o e. put-Spares append)

  module _ (write : EventConfig → Key → ℕ → Bitmap → Action (Store Bitmap) (Unit {0}))
      (configs : HashMap Bytes EventConfig)
      (spares : (config : EventConfig) (k : Key) (id : ℕ) (b : Bitmap)
        → bound ≤ id
        → id < 2 ^ 64
        → Spares (write config k id b)) where
    -- The loop, and the ids that it leaves.
    pub flush_entries-Spares :
        (entries : HashMap Key Bitmap) (ids : List ℕ)
        → AllNew bound ids
        → Spares (flush_entries R write configs entries ids)
    unfolding flush_entries AllNew
    flush_entries-Spares [] ids h s = same-Spared s s.catalog
    flush_entries-Spares (entry ∷ entries) [] h s = same-Spared s s.catalog
    flush_entries-Spares ((k, b) ∷ entries) (id ∷ ids) (new, u, h) s =
        bind-Spared (lift (config_of R (HashMap.get configs k.0))) _ s (same-Spared s s.catalog)
          (λ config e t.
            bind-Spared (write config k id b) _ t (spares config k id b new u t)
              (λ o f. flush_entries-Spares entries ids h))

    next-AllNew :
        {A : Type 0} (f : A → Action (Store Bitmap) (List ℕ)) (r : Result A) (s : Store Bitmap)
        (rest : List ℕ)
        → ((a : A) (t : Store Bitmap) → (f a t).0 ≡ ok rest → AllNew bound rest)
        → (next f r s).0 ≡ ok rest
        → AllNew bound rest
    next-AllNew f (ok a) s rest h e = h a s e
    next-AllNew f (err x) s rest h e = cc
    next-AllNew f panic s rest h e = cc

    pub flush_entries-AllNew :
        (entries : HashMap Key Bitmap) (ids rest : List ℕ) (s : Store Bitmap)
        → AllNew bound ids
        → (flush_entries R write configs entries ids s).0 ≡ ok rest
        → AllNew bound rest
    unfolding flush_entries AllNew
    flush_entries-AllNew [] ids rest s h e = subst (AllNew bound) (same_ids ids rest e) h
    flush_entries-AllNew (entry ∷ entries) [] rest s h e = cc
    flush_entries-AllNew ((k, b) ∷ entries) (id ∷ ids) rest s (new, u, h) e =
        next-AllNew _ (config_of R (HashMap.get configs k.0)) s rest
          (λ config t.
            next-AllNew _ (write config k id b t).0 (write config k id b t).1 rest
              (λ o v. flush_entries-AllNew entries ids rest v h))
          e
