-- ===== src/Period/CatalogKey.antt =====
-- `catalog_key` on different entries.
use inoxset.Prelude.{
  ◌<◌, Bytes, [], ◌∷◌, ◌++◌, append_assoc, some, ◌≡◌, ◌≢◌, refl, sym, ap, ◌∙◌, arith,
}
use inoxset.Types.{Granularity, dir_name, Period}
use inoxset.Error.Names.{All, IsName, slash_free}
use inoxset.Period.{key, catalog_key}
use inoxset.Period.Valid.{IsValid, year_of}
use inoxset.Period.Parse.{parse_period_key}
use inoxset.Period.Parse.RoundTrip.{parse_period_key-key}

abbrev SlashFree : Bytes → Type 0
SlashFree s = All (λ b. b ≢ b'/') s

-- A text is cut at its first slash in one way.
cut :
    (a b s t : Bytes)
    → SlashFree a
    → SlashFree b
    → a ++ b'/' ∷ s ≡ b ++ b'/' ∷ t
    → (a ≡ b) × (s ≡ t)
cut [] [] s t ha hb e = (refl, cc)
cut [] (y ∷ b) s t ha (hy, hb) e = absurd (hy cc)
cut (x ∷ a) [] s t (hx, ha) hb e = absurd (hx cc)
cut (x ∷ a) (y ∷ b) s t (hx, ha) (hy, hb) e = let (h, k) = cut a b s t ha hb cc in (cc, k)

dir_name-SlashFree : (g : Granularity) → SlashFree (dir_name g)
unfolding dir_name
dir_name-SlashFree Granularity.none = ground arith
dir_name-SlashFree _ = ground arith

dir_name_inj : (g h : Granularity) → dir_name g ≡ dir_name h → g ≡ h
unfolding dir_name
dir_name_inj Granularity.none Granularity.none e = refl
dir_name_inj Granularity.hour Granularity.hour e = refl
dir_name_inj Granularity.day Granularity.day e = refl
dir_name_inj Granularity.month Granularity.month e = refl
dir_name_inj Granularity.year Granularity.year e = refl
dir_name_inj _ _ e = ground arith

-- For event names that `validate_event_name` accepts and valid periods of years up to 9999, equal
-- catalog keys have the same event, granularity and period.
pub catalog_key_inj :
    (e f : Bytes) (g h : Granularity) (p q : Period)
    → IsName e
    → IsName f
    → IsValid p
    → IsValid q
    → year_of p < 10000
    → year_of q < 10000
    → catalog_key e g p ≡ catalog_key f h q
    → (e ≡ f) × (g ≡ h) × (p ≡ q)
unfolding catalog_key
catalog_key_inj e f g h p q ne nf vp vq yp yq same =
    let (a, rest) =
      cut e f (dir_name g ++ b'/' ∷ key p) (dir_name h ++ b'/' ∷ key q) (slash_free e ne.3)
        (slash_free f nf.3)
        (sym (append_assoc e (b'/' ∷ dir_name g) (b'/' ∷ key p))
          ∙ same
          ∙ append_assoc f (b'/' ∷ dir_name h) (b'/' ∷ key q)) in
    let (b, k) =
      cut (dir_name g) (dir_name h) (key p) (key q) (dir_name-SlashFree g) (dir_name-SlashFree h)
        rest in
    (
      a,
      dir_name_inj g h b,
      some_inj p q (
          sym (parse_period_key-key p vp yp)
          ∙ ap parse_period_key k
          ∙ parse_period_key-key q vq yq),
    )
  where
    some_inj : (p q : Period) → some p ≡ some q → p ≡ q
    some_inj p q e = cc
