-- ===== src/Store/Ids/Found.antt =====
-- What `find_memberships` of src/lib.rs returns where there is no inverted index.
use inoxset.Prelude.{
  ℕ, Bytes, Bool, true, false, not, ◌&&◌, ◌||◌, Option, none, some, List, [], ◌∷◌, ◌++◌, ◌≡◌, refl,
  ◌∙◌, arith, Option-cases, inl, inr, if◌then◌else◌,
}
use inoxset.Prelude.HashMap
use inoxset.Prelude.HashMap.{HashMap}
use inoxset.Prelude.Eq.{text_eq, text_beq, text_beq_iff, pair_eq}
use inoxset.Types.{Period, period_beq}
use inoxset.Types.Order.{period_eq}
use inoxset.Roaring.{Roaring}
use inoxset.MemPart.{Key, MemPart, get_bitmap}
use inoxset.Dict.{Dict}
use inoxset.Dict
use inoxset.Inverted.{any_pair}
use inoxset.Error.{ok}
use inoxset.Read.{some_contains, contains_bit}
use inoxset.Store.{Settings, Store}
use inoxset.Store.Write.{is_nil}
use inoxset.Store.Ids.{
  event_ids, deltad, add_unflushed, retain_alive, scan_cache, scan_events, add_events,
  retain_events, find_scanning, find_memberships, bit_there, contains_id,
}

is_none : {V : Type 0} → Option V → Bool
is_none none = true
is_none (some v) = false

-- A map has one entry for a key.
unfoldable pub distinct : {V : Type 0} → HashMap Key V → Bool
unfolding is_none
distinct [] = true
distinct ((key, v) ∷ m) = is_none (HashMap.get m key) && distinct m

-- An event is among the names.
unfoldable pub named : Bytes → List Bytes → Bool
named ev [] = false
named ev (name ∷ names) = text_beq name ev || named ev names

any_pair-append :
    (l m : List (Bytes × Period)) (ev : Bytes) (p : Period)
    → any_pair (l ++ m) ev p ≡ (any_pair l ev p || any_pair m ev p)
unfolding any_pair
any_pair-append [] m ev p = refl
any_pair-append ((e, q) ∷ l) m ev p = ground (arith, any_pair-append l m ev p)

-- A pair that is added where it is not there yet.
any_pair-add :
    (wanted : Bool) (l : List (Bytes × Period)) (e ev : Bytes) (q p : Period)
    → any_pair (if wanted && not (any_pair l e q) then l ++ (e, q) ∷ [] else l) ev p
      ≡ (any_pair l ev p || (wanted && (text_beq e ev && period_beq q p)))
unfolding any_pair
any_pair-add wanted l e ev q p =
    let appended : any_pair (l ++ (e, q) ∷ []) ev p
        ≡ (any_pair l ev p || (text_beq e ev && period_beq q p)) =
      any_pair-append l ((e, q) ∷ []) ev p ∙ one (any_pair l ev p) in
    ground (arith, appended, text_beq_iff e ev, period_eq.beq_iff q p)
  where
    one : (b : Bool) → (b || any_pair ((e, q) ∷ []) ev p) ≡ (b || (text_beq e ev && period_beq q p))
    one b = ground arith

module _ (R : Roaring) (ev : Bytes) (p : Period) (id : ℕ) where
  open R use {Bitmap}

  -- The bit of the entry of the key.
  bit_in : HashMap Key Bitmap → Bool
  bit_in m = some_contains R (HashMap.get m (ev, p)) id

  any_pair-scan_cache :
      (event : Bytes) (cache : HashMap Key Bitmap)
      → distinct cache ≡ true
      → any_pair (scan_cache R cache event id) ev p ≡ (text_beq event ev && bit_in cache)
  unfolding any_pair scan_cache distinct bit_in HashMap.get some_contains
  any_pair-scan_cache event [] h = ground arith
  any_pair-scan_cache event (((e, q), bm) ∷ cache) h = ground (
    arith,
    any_pair-scan_cache event cache,
    text_beq_iff e event,
    text_beq_iff event ev,
    text_beq_iff e ev,
    period_eq.beq_iff q p,
  )

  any_pair-add_unflushed :
      (mp : MemPart Bitmap) (wanted : Bytes → Bool) (bitmaps : HashMap Key Bitmap)
      (l : List (Bytes × Period))
      → distinct bitmaps ≡ true
      → any_pair (add_unflushed R mp wanted id bitmaps l) ev p
        ≡ (any_pair l ev p || (wanted ev && bit_in bitmaps && not (deltad R mp ev p id)))
  unfolding add_unflushed distinct bit_in HashMap.get some_contains any_pair
  any_pair-add_unflushed mp wanted [] l h = ground arith
  any_pair-add_unflushed mp wanted (((e, q), bm) ∷ bitmaps) l h =
      let hit = wanted e && R.contains bm id && not (deltad R mp e q id) in
      ground (
        arith,
        any_pair-add_unflushed mp wanted bitmaps
            (if hit && not (any_pair l e q) then l ++ (e, q) ∷ [] else l),
        any_pair-add hit l e ev q p,
        text_beq_iff e ev,
        period_eq.beq_iff q p,
      )

  any_pair-retain_alive :
      (mp : MemPart Bitmap) (wanted : Bytes → Bool) (l : List (Bytes × Period))
      → any_pair (retain_alive R mp wanted id l) ev p
        ≡ (any_pair l ev p && not (wanted ev && deltad R mp ev p id))
  unfolding retain_alive any_pair
  any_pair-retain_alive mp wanted [] = refl
  any_pair-retain_alive mp wanted ((e, q) ∷ l) =
      ground (arith, any_pair-retain_alive mp wanted l, text_beq_iff e ev, period_eq.beq_iff q p)

  module _ (dict : Dict) (ext : Bytes) (known : Dict.lookup dict ext ≡ some id) where
    event_ids-known :
        (name : Bytes) (names : List Bytes)
        → event_ids dict ext (name ∷ names) ≡ (name, id) ∷ event_ids dict ext names
    unfolding event_ids
    event_ids-known name names = rw known refl

    any_pair-scan_events :
        (cache : HashMap Key Bitmap) (names : List Bytes)
        → distinct cache ≡ true
        → any_pair (scan_events R cache (event_ids dict ext names)) ev p
          ≡ (named ev names && bit_in cache)
    unfolding scan_events event_ids named any_pair
    any_pair-scan_events cache [] h = refl
    any_pair-scan_events cache (name ∷ names) h = rw (event_ids-known name names) (
        ground (
          arith,
          any_pair-append (scan_cache R cache name id)
              (scan_events R cache (event_ids dict ext names)) ev p,
          any_pair-scan_cache name cache h,
          any_pair-scan_events cache names h,
        ))

    any_pair-add_events :
        (mp : MemPart Bitmap) (names : List Bytes) (l : List (Bytes × Period))
        → distinct mp.bitmaps ≡ true
        → any_pair (add_events R mp (event_ids dict ext names) l) ev p ≡ (
            any_pair l ev p || (named ev names && (bit_in mp.bitmaps && not (deltad R mp ev p id))))
    unfolding add_events event_ids named
    any_pair-add_events mp [] l h = ground arith
    any_pair-add_events mp (name ∷ names) l h =
        let added = add_unflushed R mp (λ e. text_beq e name) id mp.bitmaps l in
        rw (event_ids-known name names) (
          ground (
            arith,
            any_pair-add_events mp names added h,
            any_pair-add_unflushed mp (λ (e : Bytes). text_beq e name) mp.bitmaps l h,
            text_beq_iff ev name,
            text_beq_iff name ev,
          ))

    any_pair-retain_events :
        (mp : MemPart Bitmap) (names : List Bytes) (l : List (Bytes × Period))
        → any_pair (retain_events R mp (event_ids dict ext names) l) ev p
          ≡ (any_pair l ev p && not (named ev names && deltad R mp ev p id))
    unfolding retain_events event_ids named
    any_pair-retain_events mp [] l = ground arith
    any_pair-retain_events mp (name ∷ names) l = rw (event_ids-known name names) (
        ground (
          arith,
          any_pair-retain_events mp names (retain_alive R mp (λ e. text_beq e name) id l),
          any_pair-retain_alive mp (λ (e : Bytes). text_beq e name) l,
          text_beq_iff ev name,
          text_beq_iff name ev,
        ))

event_ids-unknown :
    (dict : Dict) (ext : Bytes) (names : List Bytes)
    → Dict.lookup dict ext ≡ none
    → event_ids dict ext names ≡ []
unfolding event_ids
event_ids-unknown dict ext [] h = refl
event_ids-unknown dict ext (name ∷ names) h = rw h (event_ids-unknown dict ext names h)

module _ (R : Roaring) (s : Store R.Bitmap) (ext : Bytes)
    (one_entry : distinct s.bitmap_cache ≡ true)
    (one_buffered : distinct s.writer.bitmaps ≡ true) where
  any_pair-find_known :
      (ev : Bytes) (p : Period) (id : ℕ) (names : List Bytes)
      → Dict.lookup s.dict ext ≡ some id
      → any_pair
          (retain_events R s.writer (event_ids s.dict ext names) (
            add_events R s.writer
              (event_ids s.dict ext names)
              (scan_events R s.bitmap_cache (event_ids s.dict ext names))))
          ev
          p
        ≡ (named ev names && contains_bit R (HashMap.get s.bitmap_cache (ev, p)) s.writer ev p id)
  unfolding contains_bit bit_in deltad get_bitmap
  any_pair-find_known ev p id names known =
      let scanned = scan_events R s.bitmap_cache (event_ids s.dict ext names) in
      let added = add_events R s.writer (event_ids s.dict ext names) scanned in
      ground (
        arith,
        any_pair-retain_events R ev p id s.dict ext known s.writer names added,
        any_pair-add_events R ev p id s.dict ext known s.writer names scanned one_buffered,
        any_pair-scan_events R ev p id s.dict ext known s.bitmap_cache names one_entry,
      )

  -- `find_scanning`, over any names of events.
  found_among : List Bytes → List (Bytes × Period)
  found_among names =
      let ids = event_ids s.dict ext names in
      if is_nil ids
      then []
      else retain_events R s.writer ids
          (add_events R s.writer ids (scan_events R s.bitmap_cache ids))

  found_among-nil : (ev : Bytes) (p : Period) → any_pair (found_among []) ev p ≡ false
  unfolding found_among event_ids is_nil any_pair
  found_among-nil ev p = refl

  is_nil-known :
      (id : ℕ) (name : Bytes) (names : List Bytes)
      → Dict.lookup s.dict ext ≡ some id
      → is_nil (event_ids s.dict ext (name ∷ names)) ≡ false
  unfolding event_ids is_nil
  is_nil-known id name names known = rw known refl

  any_pair-found_among :
      (ev : Bytes) (p : Period) (id : ℕ) (names : List Bytes)
      → Dict.lookup s.dict ext ≡ some id
      → any_pair (found_among names) ev p
        ≡ (named ev names && contains_bit R (HashMap.get s.bitmap_cache (ev, p)) s.writer ev p id)
  unfolding found_among named
  any_pair-found_among ev p id [] known = found_among-nil ev p
  any_pair-found_among ev p id (name ∷ names) known =
      rw (is_nil-known id name names known) (any_pair-find_known ev p id (name ∷ names) known)

  pub any_pair-find_scanning :
      (ev : Bytes) (p : Period)
      → any_pair (find_scanning R s ext) ev p
        ≡ (named ev s.event_names && bit_there R (Dict.lookup s.dict ext) s ev p)
  unfolding find_scanning bit_there found_among any_pair
  any_pair-find_scanning ev p = elim (Option-cases (Dict.lookup s.dict ext)) [
    | inl h ↦ rw (event_ids-unknown s.dict ext s.event_names h, h) (ground arith)
    | inr (id, h) ↦ rw h (any_pair-found_among ev p id s.event_names h)
  ]

  -- Without an inverted index, `find_memberships` of an open store returns a list, and a pair of an
  -- event and a period is in it exactly when the read index has the event's name and `contains_id`
  -- answers that the id is in the pair. It is assumed that the two maps have one entry for a key.
  pub find_memberships-contains_id :
      (c : Settings)
      → s.is_closed ≡ false
      → s.inverted ≡ none
      → (l : List (Bytes × Period)) × (find_memberships R c s ext ≡ ok l)
        × ((ev : Bytes) (p : Period)
            → (b : Bool) × (contains_id R c s ev p ext ≡ ok b)
              × (any_pair l ev p ≡ (named ev s.event_names && b)))
  unfolding find_memberships contains_id
  find_memberships-contains_id c is_open disabled = (
    find_scanning R s ext,
    rw (is_open, disabled) refl,
    λ ev p. (
      bit_there R (Dict.lookup s.dict ext) s ev p,
      rw (is_open, disabled) refl,
      any_pair-find_scanning ev p,
    ),
  )
