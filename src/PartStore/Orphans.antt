-- ===== src/PartStore/Orphans.antt =====
-- `scan_orphans` of src/part_store.rs, on the paths of the files under the directory: the walk
-- visits each of them once, and the order in which it does is that of the list.
pub mod Written
use inoxset.Prelude.{
  ℕ, ◌==◌, Bytes, bytes, Bool, true, false, not, ◌&&◌, Option, none, some, List, [], ◌∷◌,
  if◌then◌else◌,
}
use inoxset.Prelude.Eq.{text_beq}
use inoxset.Roaring.{is_among}
use inoxset.PartStore.{extract_part_id_from_filename}

-- `path.file_name()`: what follows the last slash.
unfoldable pub file_name : Bytes → Bytes → Bytes
file_name best [] = best
file_name best (c ∷ s) = if c == b'/' then file_name s s else file_name best s

-- `path.extension()`: what follows the last dot of the name, if something stands before it.
unfoldable pub extension : Bool → Option Bytes → Bytes → Option Bytes
extension started best [] = best
extension started best (c ∷ s) = extension true (if c == b'.' && started then some s else best) s

is_roar : Option Bytes → Bool
is_roar none = false
is_roar (some ext) = text_beq ext (bytes "roar")

is_unknown : List ℕ → Option ℕ → Bool
is_unknown known_ids none = false
is_unknown known_ids (some part_id) = not (is_among part_id known_ids)

-- The test that the walk makes of a file.
unfoldable pub is_orphan : List ℕ → Bytes → Bool
unfolding file_name extension is_roar is_unknown
is_orphan known_ids path =
    is_roar (extension false none (file_name path path))
    && is_unknown known_ids (extract_part_id_from_filename (file_name path path))

unfoldable pub scan_orphans : List ℕ → List Bytes → List Bytes
unfolding is_orphan
scan_orphans known_ids [] = []
scan_orphans known_ids (path ∷ paths) =
    let rest = scan_orphans known_ids paths in
    if is_orphan known_ids path then path ∷ rest else rest
