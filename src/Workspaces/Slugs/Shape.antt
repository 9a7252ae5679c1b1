-- ===== src/Workspaces/Slugs/Shape.antt =====
-- The shape of a slug: words joined by single dashes.
use seo_agent_rct.Prelude.{
  ℕ, ◌≡◌, ◌⊎◌, inl, inr, refl, Bool, true, false, not, ◌&&◌, [], ◌∷◌, keep, arith, Bool-cases,
}
use seo_agent_rct.Text.{Text, is_empty}
use seo_agent_rct.Workspaces.Slugs.{
  TextLib, default_slug, strip_start, strip_end, strip_class, before_end, is_dash, is_kept, is_gap,
  join_gaps, or_default, slugify_text, strip,
}

-- Not a dash at the start.
abbrev pub no_dash_first : Text → Bool
no_dash_first [] = true
no_dash_first (c ∷ s) = not (is_dash c)

-- Not a dash at the end.
abbrev pub no_dash_last : Text → Bool
no_dash_last [] = true
no_dash_last (c ∷ []) = not (is_dash c)
no_dash_last (c ∷ d ∷ s) = no_dash_last (d ∷ s)

module _ (w : ℕ → Bool) where
  -- Every character is in the class, or a dash that no dash follows.
  abbrev pub Joined : Text → Type 0
  Joined [] = Unit
  Joined (c ∷ s) = ((w c ≡ true) ⊎ (is_dash c ≡ true) × (no_dash_first s ≡ true)) × Joined s

  Joined-strip_start :
      (s : Text)
      → Joined s
      → Joined (strip_start is_dash s) × (no_dash_first (strip_start is_dash s) ≡ true)
  unfolding strip_start
  Joined-strip_start [] h = (tt, refl)
  Joined-strip_start (c ∷ s) h = elim (Bool-cases (is_dash c)) [
    | inl e ↦ rw (strip_start, e) (Joined-strip_start s h.1)
    | inr e ↦ rw (strip_start, e) (h, ground arith)
  ]

  no_dash_first-strip_end :
      (s : Text) → no_dash_first s ≡ true → no_dash_first (strip_end is_dash s) ≡ true
  unfolding strip_end
  no_dash_first-strip_end [] h = h
  no_dash_first-strip_end (c ∷ s) h = first (strip_end is_dash s)
    where
      first : (t : Text) → no_dash_first (before_end is_dash c t) ≡ true
      first [] = ground arith
      first (d ∷ t) = h

  Joined-before_end :
      (c : ℕ) (t : Text)
      → (w c ≡ true) ⊎ (is_dash c ≡ true) × (no_dash_first t ≡ true)
      → Joined t
      → no_dash_last t ≡ true
      → Joined (before_end is_dash c t) × (no_dash_last (before_end is_dash c t) ≡ true)
  Joined-before_end c [] h j l = elim (Bool-cases (is_dash c)) [
    | inl e ↦ rw e (tt, refl)
    | inr e ↦ rw e ((h, tt), ground arith)
  ]
  Joined-before_end c (d ∷ t) h j l = ((h, j), l)

  Joined-strip_end :
      (s : Text)
      → Joined s
      → Joined (strip_end is_dash s) × (no_dash_last (strip_end is_dash s) ≡ true)
  unfolding strip_end
  Joined-strip_end [] h = (tt, refl)
  Joined-strip_end (c ∷ s) (inl k, h) =
      let (j, l) = Joined-strip_end s h in Joined-before_end c (strip_end is_dash s) (inl k) j l
  Joined-strip_end (c ∷ s) (inr (k, n), h) =
      let (j, l) = Joined-strip_end s h in
      Joined-before_end c (strip_end is_dash s) (inr (k, no_dash_first-strip_end s n)) j l

module _ (lib : TextLib) where
  -- A word character that stands for no gap.
  abbrev pub is_slug_letter : ℕ → Bool
  is_slug_letter c = lib.is_word c && not (is_gap lib c)

  -- Words of such characters, at least one, joined by single dashes.
  abbrev pub IsSlug : Text → Type 0
  IsSlug s =
      Joined is_slug_letter s
      × (no_dash_first s ≡ true)
      × (no_dash_last s ≡ true)
      × (is_empty s ≡ false)

  Joined-join_gaps :
      (in_gap : Bool) (s : Text)
      → let s' = join_gaps lib in_gap (keep (is_kept lib) s) in
        Joined is_slug_letter s' × (in_gap ≡ true → no_dash_first s' ≡ true)
  unfolding join_gaps
  Joined-join_gaps in_gap [] = (tt, λ h. refl)
  Joined-join_gaps in_gap (c ∷ s) = elim (Bool-cases (is_kept lib c)) [
    | inr e ↦ rw e (Joined-join_gaps in_gap s)
    | inl e ↦ elim (Bool-cases (is_gap lib c)) [
      | inr f ↦
          let (j, n) = Joined-join_gaps false s in
          rw (e, join_gaps, f) ((inl (ground arith), j), λ h. ground arith)
      | inl f ↦ elim (Bool-cases in_gap) [
        | inl g ↦ let (j, n) = Joined-join_gaps true s in rw (e, join_gaps, f, g) (j, λ h. n refl)
        | inr g ↦
            let (j, n) = Joined-join_gaps true s in
            rw (e, join_gaps, f, g) ((inr (refl, n refl), j), λ h. cc)
      ]
    ]
  ]

  or_default-IsSlug :
      (s : Text)
      → Joined is_slug_letter default_slug
      → Joined is_slug_letter s
      → no_dash_first s ≡ true
      → no_dash_last s ≡ true
      → IsSlug (or_default lib s)
  or_default-IsSlug [] d j f l = (d, refl, refl, refl)
  or_default-IsSlug (c ∷ s) d j f l = (j, f, l, refl)

  -- If the letters of "project" are word characters and no gaps, the slug of any text consists of
  -- one or more words of such characters, joined by single dashes.
  pub slugify_text-IsSlug :
      (text : Text) → Joined is_slug_letter default_slug → IsSlug (slugify_text lib text)
  unfolding slugify_text strip_class
  slugify_text-IsSlug text d =
      let s = join_gaps lib false (keep (is_kept lib) (strip lib (lib.lower text))) in
      let (j, n) = Joined-join_gaps false (strip lib (lib.lower text)) in
      let (j', f) = Joined-strip_start is_slug_letter s j in
      let (j'', l) = Joined-strip_end is_slug_letter (strip_start is_dash s) j' in
      or_default-IsSlug (strip_class is_dash s) d j''
        (no_dash_first-strip_end is_slug_letter (strip_start is_dash s) f) l
