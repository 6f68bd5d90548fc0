-- ===== src/Dictionary/Known.antt =====
-- A text in the standalone dictionary of src/dictionary.rs, from its first id to its deletion.
use inoxset.Prelude.{ℕ, ◌^◌, ◌<◌, Bytes, true, false, some, inr, ◌≡◌, refl, ap, ◌∙◌}
use inoxset.Error.{ok}
use inoxset.Dict.{Dict, or_zero, read_fwd, read_or_write, assign_or_get}
use inoxset.Dict
use inoxset.Dict.Bijection.{IsValid}
use inoxset.Dict.Assign.{Assigns, Deletes, assign_or_get-Assigns, delete-Deletes}
use inoxset.Dictionary.{get_or_assign, is_some, contains, resolve, delete}

-- On a valid dictionary with an id left, a text gets an id; then the text is contained, the id
-- resolves to it, asking again gives the same id and changes nothing, and deleting the text returns
-- the id and leaves a valid dictionary that does not contain the text.
pub get_or_assign-delete :
    (d : Dict) (ext : Bytes)
    → IsValid d
    → or_zero d.dict_next_id < 2 ^ 32
    → (id : ℕ) × (after last : Dict) × (get_or_assign d ext ≡ ok (id, after))
      × (contains after ext ≡ true)
      × (resolve after id ≡ some ext)
      × (get_or_assign after ext ≡ ok (id, after))
      × (delete after ext ≡ (some id, last))
      × IsValid last
      × (contains last ext ≡ false)
unfolding get_or_assign contains is_some resolve delete
get_or_assign-delete d ext v room =
    let a : Assigns d d ext = assign_or_get-Assigns d d ext v room (inr refl) in
    let r : Deletes a.after ext = delete-Deletes a.after ext a.valid in
    (
      a.id,
      a.after,
      r.after,
      a.returns,
      ap is_some a.looked_up,
      a.reversed,
      (unfold assign_or_get Dict.lookup in
          ap (λ o. read_or_write o a.after ext) a.looked_up ∙ (unfold read_or_write in refl)),
      r.returns ∙ ap (λ o. (o, r.after)) a.looked_up,
      r.valid,
      ap is_some r.gone,
    )
