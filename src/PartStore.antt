-- ===== src/PartStore.antt =====
-- src/part_store.rs: the paths of part files and the id in a file's name. A path is its text, and
-- `join` puts a `/` between two texts: the root does not end in one.
pub mod Digits
pub mod Names
pub mod Search
pub mod Orphans
mod Tests
use inoxset.Prelude.{
  ℕ, ◌+◌, ◌-◌, ◌^◌, Bytes, bytes, Bool, Option, some, List, [], ◌∷◌, ◌++◌, ◌==◌, if◌then◌else◌,
}
use inoxset.Prelude.Opt.{◌>>=◌}
use inoxset.Prelude.Eq.{text_beq}
use inoxset.Prelude.Decimal.{padded, parse_uint}
use inoxset.Types.{Granularity, dir_name, PartKind, Period}
use inoxset.Period.{key}

-- `format!("{:012}", part_id)` with "d_" before it for a delta
unfoldable pub id_segment : ℕ → PartKind → Bytes
unfolding padded
id_segment part_id PartKind.additive = padded 12 part_id
id_segment part_id PartKind.delta = b'd' ∷ b'_' ∷ padded 12 part_id

unfoldable pub part_file_path : Bytes → Bytes → Granularity → Period → ℕ → PartKind → Bytes
unfolding id_segment key dir_name
part_file_path parts_root event gran period part_id kind =
    let dir = parts_root ++ b'/' ∷ event ++ b'/' ∷ dir_name gran in
    dir ++ b'/' ∷ key period ++ b'.' ∷ id_segment part_id kind ++ bytes ".roar"

-- `strip_suffix`
unfoldable pub strip_suffix : Bytes → Bytes → Option Bytes
unfolding text_beq
strip_suffix [] suffix = if text_beq [] suffix then some [] else Option.none
strip_suffix (c ∷ s) suffix =
    let rest = (do t ← strip_suffix s suffix; some (c ∷ t)) in
    if text_beq (c ∷ s) suffix then some [] else rest

-- `rsplit('.').next()`: what follows the last dot, or the whole text.
unfoldable pub after_last_dot : Bytes → Bytes → Bytes
after_last_dot best [] = best
after_last_dot best (c ∷ s) = if c == b'.' then after_last_dot s s else after_last_dot best s

-- `strip_prefix("d_")`, or the text itself
unfoldable pub without_d : Bytes → Bytes
without_d [] = []
without_d (c ∷ []) = c ∷ []
without_d (c ∷ e ∷ s) = if c == b'd' then (if e == b'_' then s else c ∷ e ∷ s) else c ∷ e ∷ s

unfoldable pub extract_part_id_from_filename : Bytes → Option ℕ
unfolding strip_suffix after_last_dot without_d parse_uint
extract_part_id_from_filename filename = do
  stem ← strip_suffix filename (bytes ".roar")
  parse_uint (2 ^ 64 - 1) (without_d (after_last_dot stem stem))
