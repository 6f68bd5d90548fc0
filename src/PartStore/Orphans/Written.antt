-- ===== src/PartStore/Orphans/Written.antt =====
-- The scan for orphans on the paths that the program writes.
use inoxset.Prelude.{
  ℕ, ◌^◌, ◌<◌, ◌≡◌, ◌≢◌, refl, ap, ◌∙◌, Bytes, bytes, true, false, not, ◌&&◌, Option, some, none,
  List, [], ◌∷◌, ◌++◌, append_assoc, ◌==◌, arith, if◌then◌else◌,
}
use inoxset.Prelude.Eq.{text_beq}
use inoxset.Prelude.Decimal.{padded}
use inoxset.Types.{Granularity, dir_name, PartKind, Period}
use inoxset.Period.{key}
use inoxset.Roaring.{is_among}
use inoxset.PartStore.{id_segment, part_file_path}
use inoxset.PartStore.Digits.{AllDigits, padded-AllDigits}
use inoxset.PartStore.Names.{DotFree, extract-segment}
use inoxset.PartStore.Orphans.{file_name, extension, is_roar, is_unknown, is_orphan}

-- No byte is a slash.
abbrev SlashFree : Bytes → Type 0
SlashFree [] = Unit
SlashFree (b ∷ s) = (b ≢ b'/') × SlashFree s

SlashFree-append : (s t : Bytes) → SlashFree s → SlashFree t → SlashFree (s ++ t)
SlashFree-append [] t h k = k
SlashFree-append (b ∷ s) t (h, r) k = (h, SlashFree-append s t r k)

digits-SlashFree : (s : Bytes) → AllDigits s → SlashFree s
digits-SlashFree [] h = tt
digits-SlashFree (b ∷ s) (h, r) = (omega arith, digits-SlashFree s r)

padded-SlashFree : (w n : ℕ) → SlashFree (padded w n)
padded-SlashFree w n = digits-SlashFree (padded w n) (padded-AllDigits w n)

-- A number after a separator.
part-SlashFree : (c w n : ℕ) → c ≢ b'/' → SlashFree (c ∷ padded w n)
part-SlashFree c w n h = (h, padded-SlashFree w n)

key-SlashFree : (p : Period) → SlashFree (key p)
unfolding key
key-SlashFree Period.static = ground arith
key-SlashFree (Period.hour y m d h) =
    SlashFree-append (padded 4 y ++ b'-' ∷ padded 2 m ++ b'-' ∷ padded 2 d) (b'T' ∷ padded 2 h)
      (SlashFree-append (padded 4 y ++ b'-' ∷ padded 2 m) (b'-' ∷ padded 2 d)
        (SlashFree-append (padded 4 y) (b'-' ∷ padded 2 m) (padded-SlashFree 4 y)
          (part-SlashFree b'-' 2 m (omega arith)))
        (part-SlashFree b'-' 2 d (omega arith)))
      (part-SlashFree b'T' 2 h (omega arith))
key-SlashFree (Period.day y m d) =
    SlashFree-append (padded 4 y ++ b'-' ∷ padded 2 m) (b'-' ∷ padded 2 d)
      (SlashFree-append (padded 4 y) (b'-' ∷ padded 2 m) (padded-SlashFree 4 y)
        (part-SlashFree b'-' 2 m (omega arith)))
      (part-SlashFree b'-' 2 d (omega arith))
key-SlashFree (Period.month y m) =
    SlashFree-append (padded 4 y) (b'-' ∷ padded 2 m) (padded-SlashFree 4 y)
      (part-SlashFree b'-' 2 m (omega arith))
key-SlashFree (Period.year y) = padded-SlashFree 4 y

segment-SlashFree : (id : ℕ) (k : PartKind) → SlashFree (b'.' ∷ id_segment id k)
unfolding id_segment
segment-SlashFree id PartKind.additive = part-SlashFree b'.' 12 id (omega arith)
segment-SlashFree id PartKind.delta =
    (omega arith, (omega arith, (omega arith, padded-SlashFree 12 id)))

SlashFree-file_name : (best s : Bytes) → SlashFree s → file_name best s ≡ best
unfolding file_name
SlashFree-file_name best [] h = refl
SlashFree-file_name best (c ∷ s) (n, h) = ground (arith, SlashFree-file_name best s h)

file_name-append :
    (dir name best : Bytes) → SlashFree name → file_name best (dir ++ b'/' ∷ name) ≡ name
unfolding file_name
file_name-append [] name best h = SlashFree-file_name name name h
file_name-append (c ∷ dir) name best h =
    ground
      (arith, file_name-append dir name best h, file_name-append dir name (dir ++ b'/' ∷ name) h)

extension-none : (best : Option Bytes) (s : Bytes) → DotFree s → extension true best s ≡ best
unfolding extension
extension-none best [] h = refl
extension-none best (c ∷ s) (n, h) = ground (arith, extension-none best s h)

extension-append :
    (best : Option Bytes) (front seg : Bytes)
    → DotFree seg
    → extension true best (front ++ b'.' ∷ seg) ≡ some seg
unfolding extension
extension-append best [] seg h = extension-none (some seg) seg h
extension-append best (c ∷ front) seg h =
    extension-append (if c == b'.' && true then some (front ++ b'.' ∷ seg) else best) front seg h

roar-extension :
    (name seg : Bytes)
    → extension false none ((name ++ b'.' ∷ seg) ++ bytes ".roar") ≡ some (bytes "roar")
unfolding extension
roar-extension [] seg = extension-append _ seg (bytes "roar") (ground arith)
roar-extension (c ∷ name) seg =
    extension-append _ (name ++ b'.' ∷ seg) (bytes "roar") (ground arith)

-- A part file is an orphan exactly when the known ids do not have its id.
pub is_orphan-part_file_path :
    (known : List ℕ) (root event : Bytes) (g : Granularity) (p : Period) (id : ℕ) (k : PartKind)
    → id < 2 ^ 64
    → is_orphan known (part_file_path root event g p id k) ≡ not (is_among id known)
unfolding part_file_path is_orphan
is_orphan-part_file_path known root event g p id k h =
    let dir = root ++ b'/' ∷ event ++ b'/' ∷ dir_name g in
    let name = (key p ++ b'.' ∷ id_segment id k) ++ bytes ".roar" in
    let whole = dir ++ b'/' ∷ name in
    let joined : ((dir ++ b'/' ∷ key p) ++ b'.' ∷ id_segment id k) ++ bytes ".roar" ≡ whole =
      ap (λ l. l ++ bytes ".roar") (append_assoc dir (b'/' ∷ key p) (b'.' ∷ id_segment id k))
      ∙ append_assoc dir (b'/' ∷ (key p ++ b'.' ∷ id_segment id k)) (bytes ".roar") in
    let free : SlashFree name =
      SlashFree-append (key p ++ b'.' ∷ id_segment id k) (bytes ".roar")
        (SlashFree-append (key p) (b'.' ∷ id_segment id k) (key-SlashFree p)
          (segment-SlashFree id k))
        (ground arith) in
    rw
      (
        joined,
        file_name-append dir name whole free,
        roar-extension (key p) (id_segment id k),
        extract-segment (key p) id k h,
      )
      (unfold is_roar is_unknown text_beq in refl)
