-- ===== src/Store/Delete/Tests.antt =====
-- The deletion of a period with a data part and a delta part, on bitmaps that are lists.
use inoxset.Prelude.{ℕ, Bytes, not, ◌&&◌, List, ◌≡◌}
use inoxset.Prelude.Eq.{text_beq}
use inoxset.Types.{Part}
use inoxset.Error.{ok}
use inoxset.Roaring.Instance.{list_roaring, member}
use inoxset.Catalog.Delete.{delete_period_returning_parts}
use inoxset.Store.{Store, delete_files}
use inoxset.Store.Disk.{read_disk}
use inoxset.Store.Commit.{IsConsistent}
use inoxset.Store.Compact.{paths_of_parts}
use inoxset.Store.Delete.{remove_parts}
use inoxset.Store.Delete.Content.{dropped, remove_parts-read_disk}
use inoxset.Store.Sample.Flushed.{key, parts, two_parts, two_parts-IsConsistent, two_parts-IsApart}

remove_parts-read_disk_example :
    (removed : List Part) × (t u : Store (List ℕ)) × (remove_parts
        (λ cat. delete_period_returning_parts cat key)
        two_parts
      ≡ (ok removed, t))
    × (delete_files (paths_of_parts removed) t ≡ (ok tt, u))
    × IsConsistent list_roaring u (dropped list_roaring parts key)
    × ((k : Bytes)
        → (m n : List ℕ) × (read_disk list_roaring two_parts.catalog two_parts.files k ≡ ok m)
          × (read_disk list_roaring u.catalog u.files k ≡ ok n)
          × ((x : ℕ) → member n x ≡ (not (text_beq key k) && member m x)))
remove_parts-read_disk_example =
    remove_parts-read_disk list_roaring key two_parts parts two_parts-IsConsistent two_parts-IsApart
