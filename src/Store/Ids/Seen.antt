-- ===== src/Store/Ids/Seen.antt =====
-- The bit that `contains_bit` of src/lib.rs answers, after a removal from the buffer.
use inoxset.Prelude.{
  ℕ, Bytes, Bool, true, false, not, ◌&&◌, ==_refl, List, [], ◌∷◌, ◌≡◌, ap, sym, ◌∙◌, arith,
}
use inoxset.Prelude.HashMap
use inoxset.Prelude.HashMap.{HashMap}
use inoxset.Prelude.Eq.{text_eq, pair_eq}
use inoxset.Types.{Period, EventConfig}
use inoxset.Types.Order.{period_eq}
use inoxset.Roaring.{Roaring, is_among}
use inoxset.MemPart.Content.{same_key_iff, holds}
use inoxset.Read.{contains_bit}
use inoxset.Read.Bits.{contains_bit-visible}
use inoxset.Rollup.View.{reaches, remove_buffer-visible}
use inoxset.Rollup.{remove_buffer}
use inoxset.Store.Ids.Steps.{Rest}

module _ (R : Roaring) where
  open R use {Bitmap}

  -- `remove_buffer` on the buffer, and nothing else.
  abbrev pub after_remove : Bytes → EventConfig → Period → List ℕ → Rest Bitmap → Rest Bitmap
  after_remove ev config p ids (dict, writer, names, cache, is_closed, inverted) =
      (dict, remove_buffer R writer ev config p ids, names, cache, is_closed, inverted)

  -- The bit that `contains_bit` answers.
  unfoldable pub seen : Rest Bitmap → Bytes → Period → ℕ → Bool
  seen r ev p id = contains_bit R (HashMap.get r.3 (ev, p)) r.1 ev p id

  seen-after_remove :
      (ev e : Bytes) (config : EventConfig) (p q : Period) (ids : List ℕ) (r : Rest Bitmap) (id : ℕ)
      → seen (after_remove ev config p ids r) e q id
        ≡ (seen r e q id && not (reaches ev config p (e, q) && is_among id ids))
  unfolding seen
  seen-after_remove ev e config p q ids r id =
      let cache = HashMap.get r.3 (e, q) in
      contains_bit-visible R cache (remove_buffer R r.1 ev config p ids) e q id
      ∙ remove_buffer-visible R r.1 ev config p (e, q) id (holds R cache id) ids
      ∙ ap (λ (b : Bool). b && not (reaches ev config p (e, q) && is_among id ids))
          (sym (contains_bit-visible R cache r.1 e q id))

  reaches_self :
      (ev : Bytes) (config : EventConfig) (p : Period) → reaches ev config p (ev, p) ≡ true
  unfolding reaches
  reaches_self ev config p = ground (arith, same_key_iff (ev, p) (ev, p))

  pub seen-removed :
      (ev : Bytes) (config : EventConfig) (p : Period) (id : ℕ) (r : Rest Bitmap)
      → seen (after_remove ev config p (id ∷ []) r) ev p id ≡ false
  unfolding is_among
  seen-removed ev config p id r = ground (
    arith,
    seen-after_remove ev ev config p p (id ∷ []) r id,
    reaches_self ev config p,
    ==_refl id,
  )

  pub seen-stays :
      (ev e : Bytes) (config : EventConfig) (p q : Period) (id : ℕ) (r : Rest Bitmap)
      → seen r e q id ≡ false
      → seen (after_remove ev config p (id ∷ []) r) e q id ≡ false
  seen-stays ev e config p q id r h =
      ground (arith, seen-after_remove ev e config p q (id ∷ []) r id)
