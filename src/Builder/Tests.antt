-- ===== src/Builder/Tests.antt =====
-- Opening a store after a crash that left a file without a record.
use inoxset.Prelude.{ℕ, ◌<◌, ◌^◌, Bytes, bytes, true, none, List, [], ◌∷◌, ◌≡◌, refl, if◌then◌else◌}
use inoxset.Prelude.HashMap
use inoxset.Prelude.Eq.{text_eq, text_beq}
use inoxset.Types.{Granularity, Period, PartKind}
use inoxset.Roaring.Instance.{list_roaring}
use inoxset.Roaring.{is_among}
use inoxset.PartStore.{part_file_path, extract_part_id_from_filename}
use inoxset.PartStore.Orphans.{file_name, is_orphan}
use inoxset.Catalog.{all_part_ids}
use inoxset.Inverted.Instance.{length_hashing}
use inoxset.Builder.{InoxSetBuilder, Disk, Platform, new, with_path, open_store}
use inoxset.Builder.Recovery.{open_store-part_file_path}

abbrev platform : Platform
platform = record { writable = λ path. true; hashing = length_hashing }

abbrev builder : InoxSetBuilder
builder = with_path new (bytes "/data")

abbrev orphan : Bytes
orphan = bytes "/data/parts/logins/day/2024-01-05.000000000007.roar"

abbrev after_crash : Disk (List ℕ)
after_crash = record {
  catalog = record {
    events = [];
    parts = [];
    period_parts = [];
    period_deltas = [];
    period_state = [];
    compaction_log = [];
    next_part_id = none;
  };
  dict = record { dict_fwd = []; dict_rev = []; dict_next_id = none };
  files = (orphan, 1 ∷ []) ∷ (bytes "/data/parts/notes.txt", []) ∷ [];
}

open_store-part_file_path_example :
    ((open_store list_roaring platform builder after_crash).1.catalog ≡ after_crash.catalog)
    × ((open_store list_roaring platform builder after_crash).1.dict ≡ after_crash.dict)
    × ((q : Bytes)
        → extract_part_id_from_filename (file_name q q) ≡ none
        → HashMap.get (open_store list_roaring platform builder after_crash).1.files q
          ≡ HashMap.get after_crash.files q)
    × ((root event : Bytes) (g : Granularity) (p : Period) (id : ℕ) (k : PartKind)
        → id < 2 ^ 64
        → HashMap.get
            (open_store list_roaring platform builder after_crash).1.files
            (part_file_path root event g p id k)
          ≡ (if is_among id (all_part_ids after_crash.catalog)
              then HashMap.get after_crash.files (part_file_path root event g p id k)
              else none))
unfolding with_path new
open_store-part_file_path_example =
    open_store-part_file_path list_roaring platform builder (bytes "/data") after_crash refl refl
      (λ p. refl)

orphan_found : is_orphan [] orphan ≡ true
unfolding is_orphan extract_part_id_from_filename text_beq is_among
orphan_found = refl
