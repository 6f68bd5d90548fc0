-- ===== src/Inverted/Rows.antt =====
-- The rows that the builder of src/inverted.rs sorts: what a permutation keeps of them.
use mathlib.Core.List.{Permᴰ}
use mathlib.Core.List.Permᴰ
use inoxset.Prelude.{
  suc, ap, subst, ◌∙◌, length, Bool-cases, inl, inr, ℕ, ◌<◌, Bytes, Bool, true, false, ◌||◌, List,
  [], ◌∷◌, ◌≡◌, refl, ◌==◌, arith, if◌then◌else◌,
}
use inoxset.Prelude.Eq.{text_beq}
use inoxset.Types.{inline}
use inoxset.Inverted.{Row, sorted_from}

-- The memberships of the rows with a hash, in their order, and those of all rows.
unfoldable pub packs : ℕ → List Row → List ℕ
packs k [] = []
packs k (r ∷ rows) =
    let rest = packs k rows in if r.h64 == k then inline r.event_id r.period_id ∷ rest else rest

unfoldable pub all_packs : List Row → List ℕ
all_packs [] = []
all_packs (r ∷ rows) = inline r.event_id r.period_id ∷ all_packs rows

-- A row has the hash; a row has the external id.
unfoldable pub has_hash : ℕ → List Row → Bool
has_hash k [] = false
has_hash k (r ∷ rows) = r.h64 == k || has_hash k rows

unfoldable pub has_ext : Bytes → List Row → Bool
has_ext ext [] = false
has_ext ext (r ∷ rows) = text_beq r.ext_bytes ext || has_ext ext rows

module _ (k : ℕ) where
  packs-cons :
      (a : Row) (l m : List Row)
      → Permᴰ (packs k l) (packs k m)
      → Permᴰ (packs k (a ∷ l)) (packs k (a ∷ m))
  unfolding packs
  packs-cons a l m d = elim (Bool-cases (a.h64 == k)) [
    | inl h ↦ rw h (Permᴰ.cons refl d)
    | inr h ↦ rw h d
  ]

  packs-swap : (a b : Row) (l : List Row) → Permᴰ (packs k (a ∷ b ∷ l)) (packs k (b ∷ a ∷ l))
  unfolding packs
  packs-swap a b l = elim (Bool-cases (a.h64 == k)) [
    | inl h ↦ elim (Bool-cases (b.h64 == k)) [
      | inl g ↦ rw (h, g) (Permᴰ.swap refl refl)
      | inr g ↦ rw (h, g) (Permᴰ.refl _)
    ]
    | inr h ↦ rw h (Permᴰ.refl _)
  ]

  -- A permutation of the rows permutes the memberships of a hash.
  pub packs-Perm : {l m : List Row} → Permᴰ l m → Permᴰ (packs k l) (packs k m)
  packs-Perm Permᴰ.nil = Permᴰ.refl _
  packs-Perm (Permᴰ.cons {a = a} {l₁ = l} {l₂ = m} e d) =
      subst (λ (b : Row). Permᴰ (packs k (a ∷ l)) (packs k (b ∷ m))) e
        (packs-cons a l m (packs-Perm d))
  packs-Perm (Permᴰ.swap {a = a} {b = b} {a' = a'} {l = l} e f) =
      subst (λ (r : Row). Permᴰ (packs k (a ∷ b ∷ l)) (packs k (a' ∷ r ∷ l))) e
        (subst (λ (r : Row). Permᴰ (packs k (a ∷ b ∷ l)) (packs k (r ∷ a ∷ l))) f
          (packs-swap a b l))
  packs-Perm (Permᴰ.trans d e) = Permᴰ.trans (packs-Perm d) (packs-Perm e)

  pub has_hash-Perm : {l m : List Row} → Permᴰ l m → has_hash k l ≡ has_hash k m
  unfolding has_hash
  has_hash-Perm Permᴰ.nil = refl
  has_hash-Perm (Permᴰ.cons e d) = ground (arith, e, has_hash-Perm d)
  has_hash-Perm (Permᴰ.swap e f) = ground (arith, e, f)
  has_hash-Perm (Permᴰ.trans d e) = has_hash-Perm d ∙ has_hash-Perm e

pub has_ext-Perm : (ext : Bytes) {l m : List Row} → Permᴰ l m → has_ext ext l ≡ has_ext ext m
unfolding has_ext
has_ext-Perm ext Permᴰ.nil = refl
has_ext-Perm ext (Permᴰ.cons e d) = ground (arith, e, has_ext-Perm ext d)
has_ext-Perm ext (Permᴰ.swap e f) = ground (arith, e, f)
has_ext-Perm ext (Permᴰ.trans d e) = has_ext-Perm ext d ∙ has_ext-Perm ext e

pub length-Perm : {l m : List Row} → Permᴰ l m → length l ≡ length m
length-Perm Permᴰ.nil = refl
length-Perm (Permᴰ.cons e d) = ap suc (length-Perm d)
length-Perm (Permᴰ.swap e f) = refl
length-Perm (Permᴰ.trans d e) = length-Perm d ∙ length-Perm e

pub packs-above :
    (k lo : ℕ) (rows : List Row) → k < lo → sorted_from lo rows ≡ true → packs k rows ≡ []
unfolding packs sorted_from
packs-above k lo [] h s = refl
packs-above k lo (r ∷ rows) h s = ground (arith, packs-above k r.h64 rows)
