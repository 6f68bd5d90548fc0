-- ===== src/Store/Frame.antt =====
-- What a new part file and its record leave of the parts that the store holds.
use inoxset.Prelude.{
  ℕ, ◌<◌, Bytes, Bool, true, false, some, List, [], ◌∷◌, ◌++◌, ◌==◌, ◌≡◌, refl, ap, sym, ◌∙◌,
  Bool-cases, inl, inr, if◌then◌else◌, arith,
}
use inoxset.Prelude.HashMap
use inoxset.Prelude.HashMap.{HashMap, get-insert}
use inoxset.Prelude.Eq.{text_eq, text_beq, text_beq_iff}
use inoxset.Types.{Part}
use inoxset.Error.{ok}
use inoxset.Roaring.{Roaring}
use inoxset.PartStore.{extract_part_id_from_filename}
use inoxset.Catalog.{Catalog, get_part}
use inoxset.Merge.{Ordered}
use inoxset.Store.Index.{mmap_read_part}
use inoxset.Store.Content.{below}
use inoxset.Store.Stored.{IsKept, AllKept}

same_id : (i j : ℕ) → some i ≡ some j → i ≡ j
same_id i j e = cc

module _ (R : Roaring) where
  open R use {Bitmap}

  -- `cat'` has the part besides the parts of `cat`, under a path that has its id.
  pub record Adds (cat cat' : Catalog) (part : Part) : Type 0 where
    pub finds :
        (j : ℕ) → get_part cat' j ≡ (if part.part_id == j then ok (some part) else get_part cat j)
    pub named : extract_part_id_from_filename part.file_path ≡ some part.part_id

  module _ (cat cat' : Catalog) (files : HashMap Bytes Bitmap) (part : Part) (b : Bitmap)
      (a : Adds cat cat' part) where
    abbrev files' : HashMap Bytes Bitmap
    files' = HashMap.insert files part.file_path b

    IsKept-new : IsKept R cat' files' part.part_id b
    IsKept-new = record {
      part = part;
      found = a.finds part.part_id ∙ ground arith;
      reads = same_path;
      named = a.named;
      own_id = refl;
    }
      where
        same_path : mmap_read_part R files' part.file_path ≡ ok b
        same_path =
            unfold mmap_read_part in
            rw
              (
                get-insert files part.file_path part.file_path b,
                (text_beq_iff part.file_path part.file_path).1 refl,
              )
              refl

    other_path :
        (i : ℕ) (c : Bitmap)
        → i < part.part_id
        → (k : IsKept R cat files i c) → text_beq part.file_path k.part.file_path ≡ false
    other_path i c h k = elim (Bool-cases (text_beq part.file_path k.part.file_path)) [
      | inl e ↦ absurd (
          omega (
            arith,
            same_id part.part_id i (
                sym a.named
                ∙ ap extract_part_id_from_filename
                    ((text_beq_iff part.file_path k.part.file_path).0 e)
                ∙ k.named),
          ))
      | inr e ↦ e
    ]

    other_file :
        (i : ℕ) (c : Bitmap)
        → i < part.part_id
        → (k : IsKept R cat files i c) → mmap_read_part R files' k.part.file_path ≡ ok c
    other_file i c h k =
        unfold mmap_read_part in
        rw (get-insert files part.file_path k.part.file_path b, other_path i c h k) k.reads

    IsKept-old :
        (i : ℕ) (c : Bitmap) → i < part.part_id → IsKept R cat files i c → IsKept R cat' files' i c
    IsKept-old i c h k = record {
      part = k.part;
      found = a.finds i ∙ ground (arith, k.found);
      reads = other_file i c h k;
      named = k.named;
      own_id = k.own_id;
    }

    pub AllKept-old :
        (l : List (Ordered Bitmap))
        → below part.part_id l ≡ true
        → AllKept R cat files l
        → AllKept R cat' files' l
    unfolding AllKept below
    AllKept-old [] h k = tt
    AllKept-old (p ∷ l) h (k, r) =
        (IsKept-old p.id p.path (ground arith) k, AllKept-old l (ground arith) r)

    pub AllKept-middle :
        (l m : List (Ordered Bitmap)) (d : Bool)
        → below part.part_id (l ++ m) ≡ true
        → AllKept R cat files (l ++ m)
        → AllKept R cat' files' (l ++ record { id = part.part_id; is_delta = d; path = b } ∷ m)
    unfolding AllKept below
    AllKept-middle [] m d h r = (IsKept-new, AllKept-old m h r)
    AllKept-middle (p ∷ l) m d h (k, r) =
        (IsKept-old p.id p.path (ground arith) k, AllKept-middle l m d (ground arith) r)
