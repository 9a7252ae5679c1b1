-- ===== src/Workspaces/Domains/Shape.antt =====
-- What a normalized domain is made of.
use seo_agent_rct.Prelude.{
  ℕ, zero, suc, ◌≡◌, inl, inr, Bool, false, ◌||◌, [], ◌∷◌, ◌==◌, arith, Bool-cases, All,
}
use seo_agent_rct.Pagination.Limits.{drop}
use seo_agent_rct.Text.{Text, is_empty, starts_with}
use seo_agent_rct.Workspaces.Slugs.{TextLib, strip, strip_class, strip_start, strip_end, before_end}
use seo_agent_rct.Workspaces.Domains.{
  scheme_end, after_first, before, host_part, without_www, www, normalize_domain,
}

-- The characters that end a host in a URL.
abbrev pub is_mark : ℕ → Bool
is_mark c = (c == b'/') || (c == b'?') || (c == b'#') || (c == b':')

-- No character of a text is in a class.
abbrev pub Lacks : (ℕ → Bool) → Text → Type 0
Lacks p s = All (λ c. p c ≡ false) s

Lacks-drop : (p : ℕ → Bool) (n : ℕ) (s : Text) → Lacks p s → Lacks p (drop n s)
Lacks-drop p zero s h = h
Lacks-drop p (suc n) [] h = tt
Lacks-drop p (suc n) (c ∷ s) h = Lacks-drop p n s h.1

Lacks-before_self : (mark : ℕ) (s : Text) → Lacks (λ c. c == mark) (before mark s)
unfolding before
Lacks-before_self mark [] = tt
Lacks-before_self mark (c ∷ s) = ground (arith, Lacks-before_self mark s)

Lacks-before : (p : ℕ → Bool) (mark : ℕ) (s : Text) → Lacks p s → Lacks p (before mark s)
unfolding before
Lacks-before p mark [] h = tt
Lacks-before p mark (c ∷ s) h = ground (arith, Lacks-before p mark s)

Lacks-strip_start : (p q : ℕ → Bool) (s : Text) → Lacks p s → Lacks p (strip_start q s)
unfolding strip_start
Lacks-strip_start p q [] h = tt
Lacks-strip_start p q (c ∷ s) h = elim (Bool-cases (q c)) [
  | inl e ↦ rw (strip_start, e) (Lacks-strip_start p q s h.1)
  | inr e ↦ rw (strip_start, e) h
]

Lacks-before_end :
    (p q : ℕ → Bool) (c : ℕ) (t : Text) → p c ≡ false → Lacks p t → Lacks p (before_end q c t)
Lacks-before_end p q c [] e h = elim (Bool-cases (q c)) [ inl f ↦ rw f tt | inr f ↦ rw f (e, tt) ]
Lacks-before_end p q c (d ∷ t) e h = (e, h)

Lacks-strip_end : (p q : ℕ → Bool) (s : Text) → Lacks p s → Lacks p (strip_end q s)
unfolding strip_end
Lacks-strip_end p q [] h = tt
Lacks-strip_end p q (c ∷ s) h =
    Lacks-before_end p q c (strip_end q s) h.0 (Lacks-strip_end p q s h.1)

Lacks-without_www : (p : ℕ → Bool) (d : Text) → Lacks p d → Lacks p (without_www d)
Lacks-without_www p d h = elim (Bool-cases (starts_with d www)) [
  | inl e ↦ rw e (Lacks-drop p 4 d h)
  | inr e ↦ rw e h
]

abbrev is_char : ℕ → ℕ → Bool
is_char mark c = c == mark

Lacks-is_mark :
    (s : Text)
    → Lacks (is_char b'/') s
    → Lacks (is_char b'?') s
    → Lacks (is_char b'#') s
    → Lacks (is_char b':') s
    → Lacks is_mark s
Lacks-is_mark [] a b c d = tt
Lacks-is_mark (x ∷ s) a b c d = (ground arith, Lacks-is_mark s a.1 b.1 c.1 d.1)

-- The four cuts, each of which keeps what the ones before it have done.
host_part-Lacks : (d : Text) → Lacks is_mark (host_part d)
host_part-Lacks d =
    let a = before b'/' d in
    let b = before b'?' a in
    let c = before b'#' b in
    let slash = Lacks-before (is_char b'/') b'?' a (Lacks-before_self b'/' d) in
    Lacks-is_mark (before b':' c)
      (Lacks-before (is_char b'/') b':' c (Lacks-before (is_char b'/') b'#' b slash))
      (Lacks-before (is_char b'?') b':' c
        (Lacks-before (is_char b'?') b'#' b (Lacks-before_self b'?' a)))
      (Lacks-before (is_char b'#') b':' c (Lacks-before_self b'#' b)) (Lacks-before_self b':' c)

-- A normalized domain has no slash, question mark, number sign or colon: neither a scheme nor a port,
-- path, query or fragment is left.
pub normalize_domain-Lacks :
    (lib : TextLib) (domain : Text) → Lacks is_mark (normalize_domain lib domain)
unfolding normalize_domain strip_class
normalize_domain-Lacks lib domain = elim (Bool-cases (is_empty domain)) [
  | inl e ↦ rw (normalize_domain, e) tt
  | inr e ↦
      let d = after_first scheme_end (lib.lower (strip lib domain)) in
      let h = without_www (host_part d) in
      rw (normalize_domain, e)
        (Lacks-strip_end is_mark lib.is_space (strip_start lib.is_space h) (
          Lacks-strip_start is_mark lib.is_space h
            (Lacks-without_www is_mark (host_part d) (host_part-Lacks d))))
]
