-- ===== src/Merge/Newest.antt =====
-- The newest part that has a bit, in a list of parts and in the list sorted by id.
use inoxset.Prelude.{
  ◌==◌, ℕ, ◌<◌, ◌≤◌, Bool, true, false, not, ◌&&◌, ◌||◌, List, [], ◌∷◌, ◌≡◌, refl, ◌∙◌, ltb, leb,
  if◌then◌else◌, arith,
}
use inoxset.Roaring.{Roaring}
use inoxset.Merge.{Ordered, insert_by_id, sort_by_id}

module _ {P : Type 0} where
  -- Ids above `i`, ids that grow, and ids that differ.
  unfoldable pub above : ℕ → List (Ordered P) → Bool
  above i [] = true
  above i (p ∷ l) = ltb i p.id && above i l

  unfoldable pub increasing : List (Ordered P) → Bool
  unfolding above
  increasing [] = true
  increasing (p ∷ l) = above p.id l && increasing l

  pub increasing-tail :
      (p : Ordered P) (l : List (Ordered P)) → increasing (p ∷ l) ≡ true → increasing l ≡ true
  unfolding increasing
  increasing-tail p l h = ground arith

  unfoldable pub fresh : ℕ → List (Ordered P) → Bool
  fresh i [] = true
  fresh i (p ∷ l) = not (i == p.id) && fresh i l

  unfoldable pub distinct : List (Ordered P) → Bool
  unfolding fresh
  distinct [] = true
  distinct (p ∷ l) = fresh p.id l && distinct l

  above_trans : (i j : ℕ) (l : List (Ordered P)) → i < j → above j l ≡ true → above i l ≡ true
  unfolding above
  above_trans i j [] h k = refl
  above_trans i j (p ∷ l) h k = ground (arith, above_trans i j l h)

  above-insert_by_id :
      (i : ℕ) (p : Ordered P) (l : List (Ordered P)) → above i (insert_by_id p l) ≡ above i (p ∷ l)
  unfolding above insert_by_id
  above-insert_by_id i p [] = refl
  above-insert_by_id i p (q ∷ l) = ground (arith, above-insert_by_id i p l)

  increasing-insert_by_id :
      (p : Ordered P) (l : List (Ordered P))
      → increasing l ≡ true
      → fresh p.id l ≡ true
      → increasing (insert_by_id p l) ≡ true
  unfolding above increasing fresh insert_by_id
  increasing-insert_by_id p [] g f = refl
  increasing-insert_by_id p (q ∷ l) g f =
      ground
        (arith, increasing-insert_by_id p l, above-insert_by_id q.id p l, above_trans p.id q.id l)

  fresh-insert_by_id :
      (i : ℕ) (p : Ordered P) (l : List (Ordered P)) → fresh i (insert_by_id p l) ≡ fresh i (p ∷ l)
  unfolding fresh insert_by_id
  fresh-insert_by_id i p [] = refl
  fresh-insert_by_id i p (q ∷ l) = ground (arith, fresh-insert_by_id i p l)

  fresh-sort_by_id : (i : ℕ) (l : List (Ordered P)) → fresh i (sort_by_id l) ≡ fresh i l
  unfolding fresh sort_by_id
  fresh-sort_by_id i [] = refl
  fresh-sort_by_id i (p ∷ l) =
      fresh-insert_by_id i p (sort_by_id l) ∙ ground (arith, fresh-sort_by_id i l)

  pub increasing-sort_by_id :
      (l : List (Ordered P)) → distinct l ≡ true → increasing (sort_by_id l) ≡ true
  unfolding distinct sort_by_id increasing
  increasing-sort_by_id [] d = refl
  increasing-sort_by_id (p ∷ l) d = ground (
    arith,
    increasing-insert_by_id p (sort_by_id l),
    increasing-sort_by_id l,
    fresh-sort_by_id p.id l,
  )

module _ {P : Type 0} (R : Roaring) (bitmap_of : Ordered P → R.Bitmap) (x : ℕ) where
  unfoldable pub has : Ordered P → Bool
  has p = R.contains (bitmap_of p) x

  -- Some delta part of the list has the bit and an id that is not below `i`.
  unfoldable pub erased : ℕ → List (Ordered P) → Bool
  unfolding has
  erased i [] = false
  erased i (p ∷ l) = p.is_delta && has p && leb i p.id || erased i l

  -- Some data part of the first list has the bit, and no delta part of the second erases it.
  unfoldable pub survives : List (Ordered P) → List (Ordered P) → Bool
  unfolding has erased
  survives [] l = false
  survives (p ∷ m) l = not p.is_delta && has p && not (erased p.id l) || survives m l

  erased-insert_by_id :
      (i : ℕ) (p : Ordered P) (l : List (Ordered P))
      → erased i (insert_by_id p l) ≡ erased i (p ∷ l)
  unfolding erased insert_by_id
  erased-insert_by_id i p [] = refl
  erased-insert_by_id i p (q ∷ l) = ground (arith, erased-insert_by_id i p l)

  pub erased-sort_by_id : (i : ℕ) (l : List (Ordered P)) → erased i (sort_by_id l) ≡ erased i l
  unfolding erased sort_by_id
  erased-sort_by_id i [] = refl
  erased-sort_by_id i (p ∷ l) =
      erased-insert_by_id i p (sort_by_id l) ∙ ground (arith, erased-sort_by_id i l)

  survives-insert_by_id :
      (p : Ordered P) (m l : List (Ordered P)) → survives (insert_by_id p m) l ≡ survives (p ∷ m) l
  unfolding survives insert_by_id
  survives-insert_by_id p [] l = refl
  survives-insert_by_id p (q ∷ m) l = ground (arith, survives-insert_by_id p m l)

  pub survives-erased :
      (m l k : List (Ordered P)) (h : (i : ℕ) → erased i l ≡ erased i k)
      → survives m l ≡ survives m k
  unfolding survives
  survives-erased [] l k h = refl
  survives-erased (p ∷ m) l k h = ground (arith, survives-erased m l k h, h p.id)

  pub survives-sort_by_id : (m l : List (Ordered P)) → survives (sort_by_id m) l ≡ survives m l
  unfolding survives sort_by_id
  survives-sort_by_id [] l = refl
  survives-sort_by_id (p ∷ m) l =
      survives-insert_by_id p (sort_by_id m) l ∙ ground (arith, survives-sort_by_id m l)

  erased-above :
      (i j : ℕ) (l : List (Ordered P)) → above i l ≡ true → j ≤ i → erased j l ≡ erased i l
  unfolding above erased
  erased-above i j [] h k = refl
  erased-above i j (p ∷ l) h k = ground (arith, erased-above i j l)

  -- A part older than all of `m` erases nothing of it.
  survives-older :
      (p : Ordered P) (m l : List (Ordered P))
      → above p.id m ≡ true
      → survives m (p ∷ l) ≡ survives m l
  unfolding above survives erased
  survives-older p [] l h = refl
  survives-older p (q ∷ m) l h = ground (arith, survives-older p m l)

  -- What one part of the fold does, and what the parts after it leave of that.
  pub survives-step :
      (p : Ordered P) (l : List (Ordered P)) (acc next : Bool)
      → increasing (p ∷ l) ≡ true
      → next ≡ (if p.is_delta then acc && not (has p) else acc || has p)
      → (survives l l || next && not (erased 0 l))
        ≡ (survives (p ∷ l) (p ∷ l) || acc && not (erased 0 (p ∷ l)))
  unfolding increasing survives erased
  survives-step p l acc next h g =
      ground (arith, survives-older p l l, erased-above p.id 0 l, survives-older p l l)
