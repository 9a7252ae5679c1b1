-- ===== src/Passwords/Hashing.antt =====
-- `get_password_hash` and `verify_password` of backend/auth/security.py. The digits of
-- `hashlib.pbkdf2_hmac("sha256", password, salt, 100000).hex()` are a parameter, and the salt that
-- `secrets.token_hex(16)` draws is an argument.
use seo_agent_rct.Prelude.{
  ℕ, ◌≡◌, refl, Bool, true, false, ◌||◌, ◌&&◌, List, [], ◌∷◌, ◌++◌, ◌==◌, if◌then◌else◌, arith, ap,
  ◌∙◌,
}
use seo_agent_rct.Text.{Text, equals}

abbrev dollar : ℕ
dollar = b'$'

abbrev pub has_dollar : Text → Bool
has_dollar [] = false
has_dollar (c ∷ s) = let rest = has_dollar s in c == dollar || rest

abbrev with_head : ℕ → List Text → List Text
with_head c [] = (c ∷ []) ∷ []
with_head c (part ∷ parts) = (c ∷ part) ∷ parts

-- `s.split("$")`
unfoldable pub split_dollar : Text → List Text
split_dollar [] = [] ∷ []
split_dollar (c ∷ s) =
    let parts = split_dollar s in if c == dollar then [] ∷ parts else with_head c parts

abbrev algorithm : Text
algorithm =
    b'p' ∷ b'b' ∷ b'k' ∷ b'd' ∷ b'f' ∷ b'2' ∷ b':' ∷ b's' ∷ b'h' ∷ b'a' ∷ b'2' ∷ b'5' ∷ b'6' ∷ b':'
    ∷ b'1' ∷ b'0' ∷ b'0' ∷ b'0' ∷ b'0' ∷ b'0' ∷ []

module _ (pbkdf2_hex : (password salt : Text) → Text) where
  -- `get_password_hash`
  unfoldable pub get_password_hash : (salt password : Text) → Text
  get_password_hash salt [] = []
  get_password_hash salt (c ∷ p) =
      algorithm ++ (dollar ∷ (salt ++ (dollar ∷ pbkdf2_hex (c ∷ p) salt)))

  -- The comparison of the parts; any other number of parts is refused.
  abbrev pub verify_parts : (plain_password : Text) → List Text → Bool
  verify_parts plain_password (name ∷ salt ∷ expected_hash ∷ []) =
      equals name algorithm && equals (pbkdf2_hex plain_password salt) expected_hash
  verify_parts plain_password _ = false

  -- `verify_password`
  unfoldable pub verify_password : (plain_password hashed_password : Text) → Bool
  unfolding split_dollar
  verify_password plain_password [] = true
  verify_password plain_password (c ∷ h) = verify_parts plain_password (split_dollar (c ∷ h))

split_dollar-append :
    (a b : Text) → has_dollar a ≡ false → split_dollar (a ++ (dollar ∷ b)) ≡ a ∷ split_dollar b
unfolding split_dollar
split_dollar-append [] b h = refl
split_dollar-append (c ∷ a) b h = ground (arith, split_dollar-append a b)

split_dollar-free : (a : Text) → has_dollar a ≡ false → split_dollar a ≡ a ∷ []
unfolding split_dollar
split_dollar-free [] h = refl
split_dollar-free (c ∷ a) h = ground (arith, split_dollar-free a)

-- A password verifies against its hash under a salt without the separator, if the digits are
-- without it too.
pub verify_password-get_password_hash :
    (pbkdf2_hex : (password salt : Text) → Text) (salt password : Text)
    → has_dollar salt ≡ false
    → has_dollar (pbkdf2_hex password salt) ≡ false
    → verify_password pbkdf2_hex password (get_password_hash pbkdf2_hex salt password) ≡ true
unfolding verify_password get_password_hash
verify_password-get_password_hash pbkdf2_hex salt [] s d = refl
verify_password-get_password_hash pbkdf2_hex salt (c ∷ p) s d =
    let digits = pbkdf2_hex (c ∷ p) salt in
    let e : split_dollar (algorithm ++ (dollar ∷ (salt ++ (dollar ∷ digits))))
        ≡ algorithm ∷ salt ∷ digits ∷ [] =
      split_dollar-append algorithm (salt ++ (dollar ∷ digits)) refl
      ∙ ap (λ parts. algorithm ∷ parts)
          (split_dollar-append salt digits s
            ∙ ap (λ parts. salt ∷ parts) (split_dollar-free digits d)) in
    ap (verify_parts pbkdf2_hex (c ∷ p)) e ∙ ground arith
