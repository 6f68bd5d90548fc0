-- ===== src/Builder/Recovery.antt =====
-- What `open` of src/builder.rs leaves of the part files.
use inoxset.Prelude.{
  ℕ, ◌<◌, ◌^◌, Bytes, bytes, Bool, true, false, none, some, List, [], ◌∷◌, ◌++◌, ◌≡◌, refl, ap, ◌∙◌,
  arith, Bool-cases, inl, inr, if◌then◌else◌, ◌&&◌, ◌||◌,
}
use inoxset.Prelude.HashMap
use inoxset.Prelude.HashMap.{HashMap}
use inoxset.Prelude.Eq.{text_eq, text_beq, text_beq_iff}
use inoxset.Error.{ok}
use inoxset.Types.{Granularity, Period, PartKind}
use inoxset.Roaring.{Roaring, is_among}
use inoxset.PartStore.{part_file_path, extract_part_id_from_filename}
use inoxset.PartStore.Orphans.Written.{is_orphan-part_file_path}
use inoxset.PartStore.Orphans.{file_name, is_orphan, scan_orphans}
use inoxset.Catalog.{keys, all_part_ids}
use inoxset.Builder.{
  InoxSetBuilder, Disk, Platform, delete_part, delete_orphans, clean, open_at, open_store,
}

-- A path is among the paths.
listed : Bytes → List Bytes → Bool
listed p [] = false
listed p (path ∷ paths) = text_beq path p || listed p paths

listed-scan :
    (known : List ℕ) (p : Bytes) (paths : List Bytes)
    → listed p (scan_orphans known paths) ≡ (listed p paths && is_orphan known p)
unfolding listed scan_orphans
listed-scan known p [] = refl
listed-scan known p (path ∷ paths) =
    let same = λ (h : text_beq path p ≡ true). ap (is_orphan known) ((text_beq_iff path p).0 h) in
    elim (Bool-cases (text_beq path p)) [
      | inl h ↦ ground (arith, same h, listed-scan known p paths)
      | inr h ↦ ground (arith, listed-scan known p paths)
    ]

module _ {B : Type 0} where
  listed-keys :
      (p : Bytes) (files : HashMap Bytes B)
      → listed p (keys files) ≡ false
      → HashMap.get files p ≡ none
  unfolding listed keys HashMap.get
  listed-keys p [] h = refl
  listed-keys p ((q, b) ∷ files) h = ground (arith, listed-keys p files)

  delete_orphans-files :
      (e : Platform) (orphans : List Bytes) (d : Disk B)
      → ((p : Bytes) → e.writable p ≡ true)
      → (t : Disk B) × (delete_orphans e orphans d ≡ (ok tt, t))
        × (t.catalog ≡ d.catalog)
        × (t.dict ≡ d.dict)
        × ((p : Bytes)
            → HashMap.get t.files p ≡ (if listed p orphans then none else HashMap.get d.files p))
  unfolding delete_orphans delete_part listed
  delete_orphans-files e [] d h = (d, refl, refl, refl, λ p. refl)
  delete_orphans-files e (path ∷ orphans) d h =
      let removed = record d { files = HashMap.remove d.files path } in
      let (t, run, cat, dict, files) = delete_orphans-files e orphans removed h in
      (
        t,
        rw (h path) run,
        cat,
        dict,
        λ p. ground (arith, files p, HashMap.get-remove d.files path p),
      )

unnamed_kept :
    (known : List ℕ) (q : Bytes)
    → extract_part_id_from_filename (file_name q q) ≡ none
    → is_orphan known q ≡ false
unfolding is_orphan
unnamed_kept known q h = rw h (ground arith)

module _ (R : Roaring) (e : Platform) (b : InoxSetBuilder) (path : Bytes) (d : Disk R.Bitmap)
    (has_path : b.path ≡ some path) (writes : b.is_read_only ≡ false)
    (allowed : (p : Bytes) → e.writable p ≡ true) where
  open_store-files :
      ((open_store R e b d).1.catalog ≡ d.catalog)
      × ((open_store R e b d).1.dict ≡ d.dict)
      × ((p : Bytes)
          → HashMap.get (open_store R e b d).1.files p
            ≡ (if is_orphan (all_part_ids d.catalog) p then none else HashMap.get d.files p))
  unfolding open_store open_at clean
  open_store-files =
      let orphans = scan_orphans (all_part_ids d.catalog) (keys d.files) in
      let (t, run, cat, dict, files) = delete_orphans-files e orphans d allowed in
      rw (has_path, writes, allowed (path ++ bytes "/parts"), run)
        (cat, dict, λ p. files p ∙ orphan_or p)
    where
      orphan_or :
          (p : Bytes)
          → (if listed p (scan_orphans (all_part_ids d.catalog) (keys d.files))
              then none
              else HashMap.get d.files p)
            ≡ (if is_orphan (all_part_ids d.catalog) p then none else HashMap.get d.files p)
      orphan_or p =
          ground
            (arith, listed-scan (all_part_ids d.catalog) p (keys d.files), listed-keys p d.files)

  -- Where a path is set and the file system lets the program write and remove every path, opening the
  -- store for writing, whether or not it succeeds, keeps the catalog, the dictionary, each file whose
  -- name has no part id and, among the files that have a part's path, exactly those whose id the
  -- catalog has: what a crash left between the write of a file and the commit is gone.
  pub open_store-part_file_path :
      ((open_store R e b d).1.catalog ≡ d.catalog)
      × ((open_store R e b d).1.dict ≡ d.dict)
      × ((q : Bytes)
          → extract_part_id_from_filename (file_name q q) ≡ none
          → HashMap.get (open_store R e b d).1.files q ≡ HashMap.get d.files q)
      × ((root event : Bytes) (g : Granularity) (p : Period) (id : ℕ) (k : PartKind)
          → id < 2 ^ 64
          → HashMap.get (open_store R e b d).1.files (part_file_path root event g p id k) ≡ (
              if is_among id (all_part_ids d.catalog)
              then HashMap.get d.files (part_file_path root event g p id k)
              else none))
  open_store-part_file_path =
      let (cat, dict, files) = open_store-files in
      let known = all_part_ids d.catalog in
      (
        cat,
        dict,
        λ q unnamed. ground (arith, files q, unnamed_kept known q unnamed),
        λ root event g p id k small. ground (
          arith,
          files (part_file_path root event g p id k),
          is_orphan-part_file_path known root event g p id k small,
        ),
      )
