-- ===== src/Inverted/Group.antt =====
-- The loops of `build` of src/inverted.rs.
use inoxset.Prelude.{
  ℕ, zero, suc, ◌+◌, ◌%◌, ◌^◌, ◌≤◌, ◌<◌, Bytes, Bool, true, false, ◌&&◌, ◌≢◌, ◌⊎◌, List, [], ◌∷◌,
  ◌++◌, ◌≡◌, refl, ap, sym, subst, ◌∙◌, leb, length, length-append, get_elem?, some, take-append,
  drop-append, append_assoc, append-nil, ◌==◌, ==_iff, arith, Bool-cases, inl, inr,
}
use inoxset.Prelude.Eq.{text_beq, text_beq_iff}
use inoxset.Types.{inline}
use inoxset.Error.{Result, ok}
use inoxset.Roaring.{Roaring}
use inoxset.Bloom.{BloomFilter, insert, test}
use inoxset.Bloom.Present.{IsSized, insert-test}
use inoxset.Inverted.{
  Hashing, Row, InvertedIndex, IndexEntry, sorted_from, take_group, group, slice,
}
use inoxset.Inverted.Rows.{packs, all_packs, has_hash, has_ext, packs-above}

module _ (h : Hashing) (k : ℕ) where
  -- What the inner loop does with sorted rows from the hash `k` on.
  record Takes (rows : List Row) (count : ℕ) (memberships : List ℕ) (bloom : BloomFilter)
      : Type 0 where
    after : List Row
    filter : BloomFilter
    runs :
        take_group h k rows count memberships bloom
        ≡ ok (count + length (packs k rows), after, memberships ++ packs k rows, filter)
    sorted : sorted_from (k + 1) after ≡ true
    size : length (packs k rows) + length after ≡ length rows
    all : all_packs rows ≡ packs k rows ++ all_packs after
    others : (j : ℕ) → j ≢ k → packs j rows ≡ packs j after
    other_hash : (j : ℕ) → j ≢ k → has_hash j rows ≡ has_hash j after
    sized : IsSized filter
    keeps :
        (e : Bytes) → test h.base_hashes bloom e ≡ ok true → test h.base_hashes filter e ≡ ok true
    covers :
        (e : Bytes)
        → has_ext e rows ≡ true
        → (test h.base_hashes filter e ≡ ok true) ⊎ (has_ext e after ≡ true)

  same_result :
      (c d : ℕ) (after : List Row) (l m : List ℕ) (f : BloomFilter)
      → c ≡ d
      → l ≡ m
      → ◌≡◌ {A = Result (ℕ × List Row × List ℕ × BloomFilter)}
          (ok (c, after, l, f))
          (ok (d, after, m, f))
  same_result c d after l m f e g = cc

  -- A row of the hash, before rows that are taken.
  Takes-more :
      (r : Row) (rows : List Row) (count : ℕ) (memberships : List ℕ) (bloom g : BloomFilter)
      → count + 1 < 2 ^ 32
      → (r.h64 == k) ≡ true
      → insert h.base_hashes bloom r.ext_bytes ≡ ok g
      → test h.base_hashes g r.ext_bytes ≡ ok true
      → ((e : Bytes) → test h.base_hashes bloom e ≡ ok true → test h.base_hashes g e ≡ ok true)
      → Takes rows (count + 1) (memberships ++ inline r.event_id r.period_id ∷ []) g
      → Takes (r ∷ rows) count memberships bloom
  unfolding take_group packs all_packs has_hash has_ext
  Takes-more r rows count memberships bloom g small same put found kept t =
      let exact : (count + 1) % 2 ^ 32 ≡ count + 1 = omega (arith, small) in
      let x = inline r.event_id r.period_id in
      let ps = packs k rows in
      record {
        after = t.after;
        filter = t.filter;
        runs =
            rw (same, put, exact, t.runs)
              (same_result (count + 1 + length ps) (count + length (x ∷ ps)) t.after
                ((memberships ++ x ∷ []) ++ ps) (memberships ++ x ∷ ps) t.filter (omega arith)
                (append_assoc memberships (x ∷ []) ps));
        sorted = t.sorted;
        size = rw same (omega (arith, t.size));
        all = rw same (ap (λ l. x ∷ l) t.all);
        others = λ j d. ground (arith, t.others j d, ==_iff r.h64 k, ==_iff r.h64 j, same);
        other_hash = λ j d. ground (arith, t.other_hash j d, ==_iff r.h64 k, ==_iff r.h64 j, same);
        sized = t.sized;
        keeps = λ e held. t.keeps e (kept e held);
        covers = λ e listed. elim (Bool-cases (text_beq r.ext_bytes e)) [
          | inl here ↦ inl (
              t.keeps e (
                subst (λ (b : Bytes). test h.base_hashes g b ≡ ok true)
                  ((text_beq_iff r.ext_bytes e).0 here) found))
          | inr there ↦ t.covers e (ground (arith, listed, there))
        ];
      }

  -- The first row of a larger hash ends the loop.
  Takes-none :
      (r : Row) (rows : List Row) (count : ℕ) (memberships : List ℕ) (bloom : BloomFilter)
      → (r.h64 == k) ≡ false
      → sorted_from k (r ∷ rows) ≡ true
      → IsSized bloom
      → Takes (r ∷ rows) count memberships bloom
  unfolding take_group sorted_from
  Takes-none r rows count memberships bloom differs s z =
      let later : sorted_from (k + 1) (r ∷ rows) ≡ true = ground (arith, ==_iff r.h64 k) in
      let none = packs-above k (k + 1) (r ∷ rows) (omega arith) later in
      record {
        after = r ∷ rows;
        filter = bloom;
        runs =
            rw (none, differs)
              (same_result count (count + 0) (r ∷ rows) memberships (memberships ++ []) bloom
                (omega arith) (sym (append-nil memberships)));
        sorted = later;
        size = rw none (omega arith);
        all = rw none refl;
        others = λ j d. refl;
        other_hash = λ j d. refl;
        sized = z;
        keeps = λ e held. held;
        covers = λ e listed. inr listed;
      }

  take_group-Takes :
      (rows : List Row) (count : ℕ) (memberships : List ℕ) (bloom : BloomFilter)
      → count + length rows < 2 ^ 32
      → sorted_from k rows ≡ true
      → IsSized bloom
      → Takes rows count memberships bloom
  unfolding take_group packs sorted_from all_packs has_hash has_ext
  take_group-Takes [] count memberships bloom small s z = record {
    after = [];
    filter = bloom;
    runs =
        same_result count (count + 0) [] memberships (memberships ++ []) bloom (omega arith)
          (sym (append-nil memberships));
    sorted = refl;
    size = refl;
    all = refl;
    others = λ j d. refl;
    other_hash = λ j d. refl;
    sized = z;
    keeps = λ e t. t;
    covers = λ e t. cc;
  }
  take_group-Takes (r ∷ rows) count memberships bloom small s z = elim (Bool-cases (r.h64 == k)) [
    | inl same ↦
        let (g, put, sized, found, kept) = insert-test h.base_hashes bloom r.ext_bytes z in
        let next : sorted_from k rows ≡ true = ground (arith, ==_iff r.h64 k) in
        Takes-more r rows count memberships bloom g (omega (arith, small)) same put found kept (
          take_group-Takes rows (count + 1) (memberships ++ inline r.event_id r.period_id ∷ []) g
            (omega (arith, small)) next sized)
    | inr differs ↦ Takes-none r rows count memberships bloom differs s z
  ]

-- Entries of growing hashes, from `lo` on.
unfoldable pub ascending : ℕ → List IndexEntry → Bool
ascending lo [] = true
ascending lo (e ∷ entries) = leb lo e.id_hash && ascending (e.id_hash + 1) entries

slice-middle : (pre ps post : List ℕ) → slice (pre ++ (ps ++ post)) (length pre) (length ps) ≡ ok ps
unfolding slice
slice-middle pre ps post =
    let fits : leb (length pre + length ps) (length (pre ++ (ps ++ post))) ≡ true =
      ground (arith, length-append pre (ps ++ post), length-append ps post) in
    rw (fits, drop-append pre (ps ++ post), take-append ps post) refl

-- The entry of a hash, and the place of it.
abbrev pub Finds : List IndexEntry → List ℕ → ℕ → List ℕ → Type 0
Finds entries memberships k found =
    (i : ℕ) × (e : IndexEntry) × (get_elem? entries i ≡ some e)
    × (e.id_hash ≡ k)
    × (slice memberships e.offset e.count ≡ ok found)

module _ (R : Roaring) (h : Hashing) where
  open R use {Bitmap}

  -- What the outer loop makes of sorted rows.
  pub record Groups (n lo : ℕ) (rows : List Row) (idx : InvertedIndex Bitmap) : Type 0 where
    pub frozen : InvertedIndex Bitmap
    pub entries : List IndexEntry
    pub runs : group R h n rows idx ≡ ok frozen
    pub adds : frozen.entries ≡ idx.entries ++ entries
    pub all : frozen.memberships ≡ idx.memberships ++ all_packs rows
    pub same_meta : frozen.meta ≡ idx.meta
    pub grows : ascending lo entries ≡ true
    pub finds : (k : ℕ) → has_hash k rows ≡ true → Finds entries frozen.memberships k (packs k rows)
    pub keeps :
        (e : Bytes)
        → test h.base_hashes idx.bloom e ≡ ok true
        → test h.base_hashes frozen.bloom e ≡ ok true
    pub covers : (e : Bytes) → has_ext e rows ≡ true → test h.base_hashes frozen.bloom e ≡ ok true

  Groups-nil :
      (n lo : ℕ) (idx : InvertedIndex Bitmap) → group R h n [] idx ≡ ok idx → Groups n lo [] idx
  unfolding all_packs has_hash has_ext ascending
  Groups-nil n lo idx done = record {
    frozen = idx;
    entries = [];
    runs = done;
    adds = sym (append-nil idx.entries);
    all = sym (append-nil idx.memberships);
    same_meta = refl;
    grows = refl;
    finds = λ k none. cc;
    keeps = λ e held. held;
    covers = λ e none. cc;
  }

  packs_self : (r : Row) (rows : List Row) → 1 ≤ length (packs r.h64 (r ∷ rows))
  unfolding packs
  packs_self r rows = ground (arith, ==_iff r.h64 r.h64)

  -- The entry of the first group, and an entry of a later one.
  Finds-first :
      (e : IndexEntry) (entries : List IndexEntry) (k : ℕ) (pre ps post memberships : List ℕ)
      → e.id_hash ≡ k
      → e.offset ≡ length pre
      → e.count ≡ length ps
      → memberships ≡ pre ++ (ps ++ post)
      → Finds (e ∷ entries) memberships k ps
  Finds-first e entries k pre ps post memberships a b c d =
      (0, e, refl, a, rw (b, c, d) (slice-middle pre ps post))

  Finds-later :
      (e : IndexEntry) (entries : List IndexEntry) (k : ℕ) (found memberships : List ℕ)
      → Finds entries memberships k found
      → Finds (e ∷ entries) memberships k found
  Finds-later e entries k found memberships (i, f, at, same, part) = (suc i, f, at, same, part)

  pub group-Groups :
      (n lo : ℕ) (rows : List Row) (idx : InvertedIndex Bitmap)
      → length rows ≤ n
      → length idx.memberships + length rows < 2 ^ 32
      → sorted_from lo rows ≡ true
      → IsSized idx.bloom
      → Groups n lo rows idx
  unfolding group all_packs has_hash has_ext sorted_from ascending
  group-Groups zero lo [] idx fits small s z = Groups-nil zero lo idx refl
  group-Groups zero lo (r ∷ rows) idx fits small s z = absurd (omega arith)
  group-Groups (suc n) lo [] idx fits small s z = Groups-nil (suc n) lo idx refl
  group-Groups (suc n) lo (r ∷ rows) idx fits small s z =
      let here : sorted_from r.h64 (r ∷ rows) ≡ true = ground arith in
      let t =
        take_group-Takes h r.h64 (r ∷ rows) 0 idx.memberships idx.bloom (omega (arith, small)) here
          z in
      let entry : IndexEntry = record {
        id_hash = r.h64;
        offset = length idx.memberships % 2 ^ 32;
        count = 0 + length (packs r.h64 (r ∷ rows));
      } in
      let idx' : InvertedIndex Bitmap = record idx {
        entries = idx.entries ++ entry ∷ [];
        memberships = idx.memberships ++ packs r.h64 (r ∷ rows);
        bloom = t.filter;
        known_hashes = R.insert idx.known_hashes r.h32;
      } in
      let fits' : length t.after ≤ n = omega (arith, t.size, packs_self r rows) in
      let small' : length idx'.memberships + length t.after < 2 ^ 32 =
        omega (arith, length-append idx.memberships (packs r.h64 (r ∷ rows)), t.size, small) in
      let g = group-Groups n (r.h64 + 1) t.after idx' fits' small' t.sorted t.sized in
      let ps = packs r.h64 (r ∷ rows) in
      let later = all_packs t.after in
      let joined = g.all ∙ append_assoc idx.memberships ps later in
      record {
        frozen = g.frozen;
        entries = entry ∷ g.entries;
        runs = rw t.runs g.runs;
        adds = g.adds ∙ append_assoc idx.entries (entry ∷ []) g.entries;
        all = joined ∙ ap (λ l. idx.memberships ++ l) (sym t.all);
        same_meta = g.same_meta;
        grows = ground (arith, g.grows);
        finds = λ k listed. elim (Bool-cases (r.h64 == k)) [
          | inl same ↦
              subst
                (λ (j : ℕ). Finds (entry ∷ g.entries) g.frozen.memberships j (packs j (r ∷ rows)))
                ((==_iff r.h64 k).0 same)
                (Finds-first entry g.entries r.h64 idx.memberships ps later g.frozen.memberships
                  refl (omega (arith, small)) (omega arith) joined)
          | inr differs ↦
              let other : k ≢ r.h64 = (λ e. ground (arith, ==_iff r.h64 k, differs, e)) in
              subst (λ (l : List ℕ). Finds (entry ∷ g.entries) g.frozen.memberships k l)
                (sym (t.others k other))
                (Finds-later entry g.entries k (packs k t.after) g.frozen.memberships
                  (g.finds k (sym (t.other_hash k other) ∙ listed)))
        ];
        keeps = λ e held. g.keeps e (t.keeps e held);
        covers = λ e listed. elim (t.covers e listed) [
          | inl found ↦ g.keeps e found
          | inr there ↦ g.covers e there
        ];
      }
