-- ===== src/Store/Ids/Erase.antt =====
-- `delete_entity` of src/lib.rs.
use inoxset.Prelude.{
  ℕ, Bytes, true, false, Option, none, some, List, [], ◌∷◌, ◌≡◌, refl, ap, sym, subst, ◌∙◌, arith,
  inl, inr, if◌then◌else◌, Bool-cases,
}
use inoxset.Prelude.HashMap
use inoxset.Prelude.HashMap.{HashMap}
use inoxset.Prelude.Eq.{text_eq, text_beq_iff, pair_eq, beq_refl}
use inoxset.Types.{Period, EventConfig}
use inoxset.Types.Order.{period_eq}
use inoxset.Error.{Result, ok}
use inoxset.Period.{validate}
use inoxset.Roaring.{Roaring}
use inoxset.Read.{contains_bit}
use inoxset.Dict.{Dict, batch_lookup}
use inoxset.Dict
use inoxset.Inverted.{any_pair}
use inoxset.Store.{Settings, Store, check_writable, ensure_event}
use inoxset.Store.Monad.{pure, lift}
use inoxset.Store.Write.{remove_bits, is_nil}
use inoxset.Store.Ids.Steps.{Rest, rest, next-ok, bind-ok, ensure_event-Keeps, check_writable-Keeps}
use inoxset.Store.Ids.Seen.{after_remove, seen, seen-removed, seen-stays}
use inoxset.Store.Ids.Found.{distinct, named, any_pair-find_scanning}
use inoxset.Store.Ids.{bit_there, find_scanning, find_memberships, find_with, forget_id, flatten}
use inoxset.Store.Ids.Write.{remove_ids, remove_each, delete_entity}

module _ (R : Roaring) (c : Settings) (ev : Bytes) (p : Period) where
  open R use {Bitmap}

  remove_bits-ok :
      (ids : List ℕ) (s : Store Bitmap) {t : Store Bitmap}
      → remove_bits R c ev p ids s ≡ (ok tt, t)
      → (config : EventConfig) × (rest t ≡ after_remove R ev config p ids (rest s))
  unfolding remove_bits
  remove_bits-ok ids s h =
      let (u1, s1, r1, k1, h1) = bind-ok (check_writable c) _ s (check_writable-Keeps c ev) h in
      let (u2, s2, r2, k2, h2) = bind-ok (lift (validate p)) _ s1 (λ s. refl) h1 in
      let (config, s3, r3, k3, h3) =
        bind-ok (ensure_event c ev) _ s2 (ensure_event-Keeps c ev) h2 in
      (config, sym (ap (λ r. rest r.1) h3) ∙ ap (after_remove R ev config p ids) (k3 ∙ k2 ∙ k1))

  -- The rest of `remove_ids`, for the ids that were found.
  remove_found-ok :
      (o : Option ℕ) (id : ℕ) (s : Store Bitmap) {t : Store Bitmap}
      → o ≡ some id
      → (if is_nil (flatten (o ∷ [])) then pure tt else remove_bits R c ev p (flatten (o ∷ []))) s
        ≡ (ok tt, t)
      → (config : EventConfig) × (rest t ≡ after_remove R ev config p (id ∷ []) (rest s))
  unfolding is_nil flatten
  remove_found-ok none id s known h = cc
  remove_found-ok (some i) id s known h =
      let (config, removed) = remove_bits-ok (i ∷ []) s h in
      let same : i ≡ id = cc in
      (config, removed ∙ ap (λ (j : ℕ). after_remove R ev config p (j ∷ []) (rest s)) same)

  remove_ids-ok :
      (ext : Bytes) (id : ℕ) (s : Store Bitmap) {t : Store Bitmap}
      → Dict.lookup s.dict ext ≡ some id
      → remove_ids R c ev p (ext ∷ []) s ≡ (ok tt, t)
      → (config : EventConfig) × (rest t ≡ after_remove R ev config p (id ∷ []) (rest s))
  unfolding remove_ids is_nil batch_lookup Dict.lookup
  remove_ids-ok ext id s known h =
      let (u1, s1, r1, k1, h1) = bind-ok (check_writable c) _ s (check_writable-Keeps c ev) h in
      let found = ap (λ (r : Rest Bitmap). Dict.lookup r.0 ext) k1 ∙ known in
      let (config, removed) = remove_found-ok (Dict.lookup s1.dict ext) id s1 found h1 in
      (config, removed ∙ ap (after_remove R ev config p (id ∷ [])) k1)

module _ (R : Roaring) (c : Settings) (ext : Bytes) (id : ℕ) where
  open R use {Bitmap}

  -- What removing an id from some pairs does: it hides the id's bit there, and shows none.
  record Hides (pairs : List (Bytes × Period)) (r u : Rest Bitmap) : Type 0 where
    same_dict : u.0 ≡ r.0
    same_names : u.2 ≡ r.2
    hidden : (e : Bytes) (q : Period) → any_pair pairs e q ≡ true → seen R u e q id ≡ false
    stays : (e : Bytes) (q : Period) → seen R r e q id ≡ false → seen R u e q id ≡ false

  hidden-cons :
      (u : Rest Bitmap) (ev : Bytes) (p : Period) (pairs : List (Bytes × Period)) (e : Bytes)
      (q : Period)
      → seen R u ev p id ≡ false
      → (any_pair pairs e q ≡ true → seen R u e q id ≡ false)
      → any_pair ((ev, p) ∷ pairs) e q ≡ true
      → seen R u e q id ≡ false
  unfolding any_pair
  hidden-cons u ev p pairs e q h k listed = ground (arith, text_beq_iff ev e, period_eq.beq_iff p q)

  remove_each-ok :
      (pairs : List (Bytes × Period)) (s : Store Bitmap) {t : Store Bitmap}
      → Dict.lookup s.dict ext ≡ some id
      → remove_each R c ext pairs s ≡ (ok tt, t)
      → Hides pairs (rest s) (rest t)
  unfolding remove_each any_pair
  remove_each-ok [] s known h =
      let same = ap (λ (r : Result (Unit {0}) × Store Bitmap). rest r.1) h in
      record {
        same_dict = sym (ap (λ (r : Rest Bitmap). r.0) same);
        same_names = sym (ap (λ (r : Rest Bitmap). r.2) same);
        hidden = λ e q none. cc;
        stays = λ e q no_bit. ap (λ (r : Rest Bitmap). seen R r e q id) (sym same) ∙ no_bit;
      }
  remove_each-ok ((ev, p) ∷ pairs) s {t = t} known h =
      let first = remove_ids R c ev p (ext ∷ []) in
      let (u, done, after) = next-ok (λ v. remove_each R c ext pairs) (first s).0 (first s).1 h in
      let (config, same) =
        remove_ids-ok R c ev p ext id s known (ap (λ r. (r, (first s).1)) done) in
      let known1 = ap (λ (r : Rest Bitmap). Dict.lookup r.0 ext) same ∙ known in
      let later = remove_each-ok pairs (first s).1 known1 after in
      record {
        same_dict = later.same_dict ∙ ap (λ (r : Rest Bitmap). r.0) same;
        same_names = later.same_names ∙ ap (λ (r : Rest Bitmap). r.2) same;
        hidden = λ e q listed.
            hidden-cons (rest t) ev p pairs e q
              (later.stays ev p (
                ap (λ (r : Rest Bitmap). seen R r ev p id) same
                ∙ seen-removed R ev config p id (rest s)))
              (later.hidden e q) listed;
        stays = λ e q no_bit. later.stays e q (
            ap (λ (r : Rest Bitmap). seen R r e q id) same
            ∙ seen-stays R ev e config p q id (rest s) no_bit);
      }

lookup-delete :
    (dict : Dict) (ext : Bytes) (id : ℕ)
    → Dict.lookup dict ext ≡ some id
    → Dict.lookup (Dict.delete dict ext).1 ext ≡ none
unfolding Dict.lookup Dict.delete
lookup-delete dict ext id known =
    rw known (rw (HashMap.get-remove dict.dict_fwd ext ext, beq_refl ext) refl)

module _ (R : Roaring) (c : Settings) (s : Store R.Bitmap) (ext : Bytes) (id : ℕ) where
  open R use {Bitmap}

  find_memberships-scanning :
      (u : Store Bitmap)
      → rest u ≡ rest s
      → s.is_closed ≡ false
      → s.inverted ≡ none
      → find_memberships R c u ext ≡ ok (find_scanning R u ext)
  unfolding find_memberships find_with
  find_memberships-scanning u same is_open disabled =
      let open1 = ap (λ (r : Rest Bitmap). r.4) same ∙ is_open in
      let disabled1 = ap (λ (r : Rest Bitmap). r.5) same ∙ disabled in simp (open1, disabled1)

  -- The bit after the loop, for a pair of a known event.
  unseen :
      (u : Store Bitmap) (r : Rest Bitmap) (ev : Bytes) (p : Period)
      → distinct u.bitmap_cache ≡ true
      → distinct u.writer.bitmaps ≡ true
      → Dict.lookup u.dict ext ≡ some id
      → Hides R c ext id (find_scanning R u ext) (rest u) r
      → named ev u.event_names ≡ true
      → seen R r ev p id ≡ false
  unfolding seen bit_there
  unseen u r ev p one_entry one_buffered known hides is_named =
      let listed = any_pair-find_scanning R u ext one_entry one_buffered ev p in
      let bit = ap (λ (o : Option ℕ). bit_there R o u ev p) known in
      elim (Bool-cases (seen R (rest u) ev p id)) [
        | inl shown ↦ hides.hidden ev p (ground (arith, listed, bit, shown, is_named))
        | inr no_bit ↦ hides.stays ev p no_bit
      ]

  module _ (one_entry : distinct s.bitmap_cache ≡ true)
      (one_buffered : distinct s.writer.bitmaps ≡ true) where
    -- Without an inverted index, a successful `delete_entity` of an id that the dictionary has takes
    -- it out of the dictionary and hides its bit, flushed or buffered, in every period of every event
    -- that the read index knows. It is assumed that the two maps have one entry for a key.
    pub delete_entity-erases :
        s.is_closed ≡ false
        → s.inverted ≡ none
        → Dict.lookup s.dict ext ≡ some id
        → {n : ℕ} {t : Store Bitmap} → delete_entity R c ext s ≡ (ok n, t)
        → (Dict.lookup t.dict ext ≡ none)
          × ((ev : Bytes) (p : Period)
              → named ev s.event_names ≡ true
              → contains_bit R (HashMap.get t.bitmap_cache (ev, p)) t.writer ev p id ≡ false)
    unfolding delete_entity forget_id seen
    delete_entity-erases is_open disabled known {n} {t} h =
        let (u1, s1, r1, k1, h1) = bind-ok (check_writable c) _ s (check_writable-Keeps c ext) h in
        let (l, found, h2) = next-ok _ (find_memberships R c s1 ext) s1 h1 in
        let (u3, done, h3) =
          next-ok _ (remove_each R c ext l s1).0 (remove_each R c ext l s1).1 h2 in
        let s3 = (remove_each R c ext l s1).1 in
        let known1 = ap (λ (r : Rest Bitmap). Dict.lookup r.0 ext) k1 ∙ known in
        let same_list : l ≡ find_scanning R s1 ext =
          cc (found, find_memberships-scanning s1 k1 is_open disabled) in
        let hides =
          subst (λ (pairs : List (Bytes × Period)). Hides R c ext id pairs (rest s1) (rest s3))
            same_list (remove_each-ok R c ext id l s1 known1 (ap (λ r. (r, s3)) done)) in
        let known3 = ap (λ (d : Dict). Dict.lookup d ext) hides.same_dict ∙ known1 in
        (
          sym (ap (λ (r : Result ℕ × Store Bitmap). Dict.lookup r.1.dict ext) h3)
              ∙ lookup-delete s3.dict ext id known3,
          λ ev p is_named.
              sym (ap (λ (r : Result ℕ × Store Bitmap). seen R (rest r.1) ev p id) h3)
              ∙ unseen s1 (rest s3) ev p (ap (λ (r : Rest Bitmap). distinct r.3) k1 ∙ one_entry)
                  (ap (λ (r : Rest Bitmap). distinct r.1.bitmaps) k1 ∙ one_buffered) known1 hides
                  (ap (λ (r : Rest Bitmap). named ev r.2) k1 ∙ is_named),
        )
