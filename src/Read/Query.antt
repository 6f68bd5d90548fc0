-- ===== src/Read/Query.antt =====
-- `query` of src/lib.rs against the sets that its expression denotes.
use inoxset.Prelude.{
  ℕ, Bytes, Bool, true, false, not, ◌&&◌, ◌||◌, ◌≡◌, refl, ap, ◌∙◌, if◌then◌else◌, arith,
}
use inoxset.Types.{Period, SetExpr, ref, and, or, diff}
use inoxset.Error.{Result, ok, ◌>>=◌}
use inoxset.Roaring.{Roaring}
use inoxset.Read.{query}

-- Membership in the set of an expression, from membership in the sets of its references.
unfoldable pub denotes : (Bytes → Period → ℕ → Bool) → SetExpr → ℕ → Bool
denotes at (ref event period) x = at event period x
denotes at (and a b) x = denotes at a x && denotes at b x
denotes at (or a b) x = denotes at a x || denotes at b x
denotes at (diff a b) x = denotes at a x && not (denotes at b x)

module _ (R : Roaring) (get : Bytes → Period → Result R.Bitmap) (at : Bytes → Period → R.Bitmap)
    (gets : (e : Bytes) (p : Period) → get e p ≡ ok (at e p)) where
  open R use {Bitmap, contains}

  unfoldable early : (op : Bitmap → Bitmap → Bitmap) → Bitmap → Bitmap → Bitmap
  early op l r = if R.is_empty l then l else op l r

  if-ok : (c : Bool) (l m : Bitmap) → (if c then ok l else ok m) ≡ ok (if c then l else m)
  if-ok true l m = refl
  if-ok false l m = refl

  early-ok :
      (op : Bitmap → Bitmap → Bitmap) (qa qb : Result Bitmap) (l r : Bitmap)
      → qa ≡ ok l
      → qb ≡ ok r
      → (qa >>= λ left. if R.is_empty left then ok left else (qb >>= λ right. ok (op left right)))
        ≡ ok (early op l r)
  unfolding early
  early-ok op qa qb l r h k =
      ap
        (λ q.
          q >>= λ left. if R.is_empty left then ok left else (qb >>= λ right. ok (op left right)))
        h
      ∙ ap (λ q. if R.is_empty l then ok l else (q >>= λ right. ok (op l right))) k
      ∙ if-ok (R.is_empty l) l (op l r)

  is_empty-contains : (l : Bitmap) (x : ℕ) → R.is_empty l ≡ true → contains l x ≡ false
  is_empty-contains l x h = (R.is_empty_iff l).0 h x

  early-intersection :
      (l r : Bitmap) (x : ℕ)
      → contains (early R.intersection l r) x ≡ (contains l x && contains r x)
  unfolding early
  early-intersection l r x = ground (arith, is_empty-contains l x, R.contains-intersection l r x)

  early-difference :
      (l r : Bitmap) (x : ℕ)
      → contains (early R.difference l r) x ≡ (contains l x && not (contains r x))
  unfolding early
  early-difference l r x = ground (arith, is_empty-contains l x, R.contains-difference l r x)

  -- If `get` returns a bitmap for every key, `query` returns one for every expression, and its
  -- bits are those of the set that the expression denotes, where it stops early as well.
  pub query-denotes :
      (expr : SetExpr)
      → (b : Bitmap) × (query R get expr ≡ ok b)
        × ((x : ℕ) → contains b x ≡ denotes (λ e p x. contains (at e p) x) expr x)
  unfolding query denotes
  query-denotes (ref e p) = (at e p, gets e p, λ x. refl)
  query-denotes (or a b) =
      let (l, el, hl) = query-denotes a in
      let (r, er, hr) = query-denotes b in
      (R.union l r, cc, λ x. ground (arith, R.contains-union l r x, hl x, hr x))
  query-denotes (and a b) =
      let (l, el, hl) = query-denotes a in
      let (r, er, hr) = query-denotes b in
      (
        early R.intersection l r,
        early-ok R.intersection (query R get a) (query R get b) l r el er,
        λ x. ground (arith, early-intersection l r x, hl x, hr x),
      )
  query-denotes (diff a b) =
      let (l, el, hl) = query-denotes a in
      let (r, er, hr) = query-denotes b in
      (
        early R.difference l r,
        early-ok R.difference (query R get a) (query R get b) l r el er,
        λ x. ground (arith, early-difference l r x, hl x, hr x),
      )
