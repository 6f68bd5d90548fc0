-- ===== src/Store/Delete/Files.antt =====
-- The files that `delete_period` of src/lib.rs removes, and those that it leaves.
use inoxset.Prelude.{
  ℕ, Bytes, Bool, true, false, not, ◌==◌, some, List, [], ◌∷◌, ◌++◌, ◌≡◌, refl, ap, sym, ◌∙◌,
  Bool-cases, inl, inr, arith,
}
use inoxset.Prelude.HashMap
use inoxset.Prelude.HashMap.{HashMap, get-remove}
use inoxset.Prelude.Eq.{nat_eq, text_eq, text_beq, text_beq_iff}
use inoxset.Types.{Part}
use inoxset.Error.{ok}
use inoxset.Roaring.{Roaring, is_among}
use inoxset.PartStore.{extract_part_id_from_filename}
use inoxset.Catalog.{Catalog, get_part}
use inoxset.Catalog.Removal.{is_listed, no_twice, AllFound}
use inoxset.Merge.{Ordered, tag}
use inoxset.Merge.Newest.{fresh, distinct}
use inoxset.Store.{Store, delete_files}
use inoxset.Store.Index.{mmap_read_part}
use inoxset.Store.Stored.{ids, AllKept}
use inoxset.Store.Swap.{is_apart}
use inoxset.Store.Compact.{paths_of_parts}

pub is_listed-among : (i : ℕ) (l : List ℕ) → is_listed i l ≡ is_among i l
unfolding is_listed is_among
is_listed-among i [] = refl
is_listed-among i (j ∷ l) = ground (arith, is_listed-among i l)

-- The paths have the ids in their names.
pub data Named : List ℕ → List Bytes → Type 0 where
  none_named : Named [] []
  one_named :
      (i : ℕ) (path : Bytes) {l : List ℕ} {paths : List Bytes}
      → extract_part_id_from_filename path ≡ some i
      → Named l paths
      → Named (i ∷ l) (path ∷ paths)

module _ {B : Type 0} where
  unfoldable pub part_ids : List (Ordered B) → List ℕ
  part_ids [] = []
  part_ids (p ∷ l) = p.id ∷ part_ids l

  pub part_ids-append : (l m : List (Ordered B)) → part_ids (l ++ m) ≡ part_ids l ++ part_ids m
  unfolding part_ids
  part_ids-append [] m = refl
  part_ids-append (p ∷ l) m = ap (λ t. p.id ∷ t) (part_ids-append l m)

  pub part_ids-tag : (d : Bool) (l : List (ℕ × B)) → part_ids (tag d l) ≡ ids l
  unfolding part_ids tag ids
  part_ids-tag d [] = refl
  part_ids-tag d ((i, b) ∷ l) = ap (λ t. i ∷ t) (part_ids-tag d l)

  part_ids-fresh : (i : ℕ) (l : List (Ordered B)) → fresh i l ≡ not (is_listed i (part_ids l))
  unfolding part_ids fresh is_listed
  part_ids-fresh i [] = refl
  part_ids-fresh i (p ∷ l) = ground (arith, part_ids-fresh i l)

  pub part_ids-distinct : (l : List (Ordered B)) → distinct l ≡ no_twice (part_ids l)
  unfolding part_ids distinct no_twice
  part_ids-distinct [] = refl
  part_ids-distinct (p ∷ l) = ground (arith, part_ids-distinct l, part_ids-fresh p.id l)

same_id : (i j : ℕ) → some i ≡ some j → i ≡ j
same_id i j e = cc

pub other_path :
    (i j : ℕ) (path q : Bytes)
    → extract_part_id_from_filename path ≡ some i
    → extract_part_id_from_filename q ≡ some j
    → (j == i) ≡ false
    → text_beq q path ≡ false
other_path i j path q e f h = elim (Bool-cases (text_beq q path)) [
  | inl same ↦ absurd (
      ground (
        arith,
        h,
        same_id j i (sym f ∙ ap extract_part_id_from_filename ((text_beq_iff q path).0 same) ∙ e),
      ))
  | inr other ↦ other
]

module _ (R : Roaring) where
  open R use {Bitmap, contains}

  file_left :
      (files : HashMap Bytes Bitmap) (i j : ℕ) (path q : Bytes)
      → extract_part_id_from_filename path ≡ some i
      → extract_part_id_from_filename q ≡ some j
      → (j == i) ≡ false
      → mmap_read_part R (HashMap.remove files q) path ≡ mmap_read_part R files path
  unfolding mmap_read_part
  file_left files i j path q e f h = rw (get-remove files q path, other_path i j path q e f h) refl

  -- The records of parts that the store holds, under paths with their ids.
  pub records :
      (cat : Catalog) (files : HashMap Bytes Bitmap) (l : List (Ordered Bitmap))
      → AllKept R cat files l
      → (parts : List Part) × AllFound cat.parts (part_ids l) parts
        × Named (part_ids l) (paths_of_parts parts)
  unfolding AllKept AllFound part_ids paths_of_parts get_part
  records cat files [] h = ([], tt, none_named)
  records cat files (p ∷ l) (k, h) =
      let (parts, found, named) = records cat files l h in
      (k.part ∷ parts, (k.found, found), one_named p.id k.part.file_path k.named named)

  -- Deleting files leaves those whose names have other ids.
  pub delete_files-Named :
      {l : List ℕ} {paths : List Bytes} (s : Store Bitmap)
      → Named l paths
      → (files : HashMap Bytes Bitmap) × (delete_files paths s
          ≡ (ok tt, record s { files = files }))
        × ((i : ℕ) (path : Bytes)
            → extract_part_id_from_filename path ≡ some i
            → is_among i l ≡ false
            → mmap_read_part R files path ≡ mmap_read_part R s.files path)
  unfolding delete_files is_among mmap_read_part
  delete_files-Named s none_named = (s.files, refl, λ i path e h. refl)
  delete_files-Named s (one_named j q {l} {paths} named rest) =
      let (files, done, left) =
        delete_files-Named (record s { files = HashMap.remove s.files q }) rest in
      (
        files,
        done,
        λ i path e h.
            left i path e (ground arith) ∙ file_left s.files i j path q e named (ground arith),
      )

  -- The parts stay whose ids are not among those that are removed.
  pub AllKept-apart :
      (cat cat' : Catalog) (files files' : HashMap Bytes Bitmap) (l : List ℕ)
      (m : List (Ordered Bitmap))
      → ((j : ℕ) → is_among j l ≡ false → get_part cat' j ≡ get_part cat j)
      → ((i : ℕ) (path : Bytes)
          → extract_part_id_from_filename path ≡ some i
          → is_among i l ≡ false
          → mmap_read_part R files' path ≡ mmap_read_part R files path)
      → is_apart l m ≡ true
      → AllKept R cat files m
      → AllKept R cat' files' m
  unfolding AllKept is_apart
  AllKept-apart cat cat' files files' l [] finds reads h k = tt
  AllKept-apart cat cat' files files' l (p ∷ m) finds reads h (k, r) = (
    record {
      part = k.part;
      found = finds p.id (ground arith) ∙ k.found;
      reads = reads p.id k.part.file_path k.named (ground arith) ∙ k.reads;
      named = k.named;
      own_id = k.own_id;
    },
    AllKept-apart cat cat' files files' l m finds reads (ground arith) r,
  )
