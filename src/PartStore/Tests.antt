-- ===== src/PartStore/Tests.antt =====
-- The path of a delta part, and a container.
use inoxset.Prelude.{ℕ, zero, suc, ◌+◌, Bytes, bytes, [], ◌∷◌, some, ◌≡◌, arith}
use inoxset.Types.{Granularity, PartKind, Period}
use inoxset.PartStore.{part_file_path, extract_part_id_from_filename}
use inoxset.PartStore.Names.{extract_part_id_from_filename-part_file_path}

extract_part_id_from_filename-part_file_path_example :
    extract_part_id_from_filename (
      part_file_path
        (bytes "parts")
        (bytes "logins")
        Granularity.day
        (Period.day 2024 1 5)
        42
        PartKind.delta)
    ≡ some 42
extract_part_id_from_filename-part_file_path_example =
    extract_part_id_from_filename-part_file_path (bytes "parts") (bytes "logins") Granularity.day
      (Period.day 2024 1 5) 42 PartKind.delta (omega arith)

-- An array container with 5, 300 and 400.
abbrev container : Bytes
container = 5 ∷ 0 ∷ 44 ∷ 1 ∷ 144 ∷ 1 ∷ []

abbrev value_at : ℕ → ℕ
value_at zero = 5
value_at (suc zero) = 300
value_at (suc (suc i)) = 400 + i
