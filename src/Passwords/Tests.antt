-- ===== src/Passwords/Tests.antt =====
-- A user with the number 1 and no password, and digits that spell the password.
use seo_agent_rct.Prelude.{
  ℕ, ◌≡◌, refl, ◌&&◌, none, some, List, [], ◌∷◌, leb, ltb, ◌+◌, ◌/◌, ◌%◌, if◌then◌else◌, false,
  arith, ℕ_discrete,
}
use seo_agent_rct.Dict
use seo_agent_rct.Dict.{Dict}
use seo_agent_rct.Text.{Text, Text_discrete}
use seo_agent_rct.Passwords.{
  PasswordLib, PasswordStore, password_set, change_password, validate_password_strength,
  set_password, check_password_history, store_password, hashes_of, verifies_any, has, is_one_of,
}
use seo_agent_rct.Passwords.Hashing.{has_dollar, get_password_hash, verify_password}
use seo_agent_rct.Passwords.Calls.{PasswordCall, change, ask, settings, perform_all}
use seo_agent_rct.Passwords.History.{change_password-refuses_recent}

abbrev digit : ℕ → ℕ
digit n = if ltb n 10 then 48 + n else 87 + n

abbrev hex_of : Text → Text
hex_of [] = []
hex_of (c ∷ s) = digit (c / 16) ∷ digit (c % 16) ∷ hex_of s

abbrev ascii : PasswordLib
ascii = record {
  isupper = λ c. leb 65 c && leb c 90;
  islower = λ c. leb 97 c && leb c 122;
  isdigit = λ c. leb 48 c && leb c 57;
  lower = λ s. s;
  pbkdf2_hex = λ password salt. hex_of password;
}

hex_law : (password : Text) → has_dollar (hex_of password) ≡ false
hex_law [] = refl
hex_law (c ∷ s) = ground (arith, hex_law s)

abbrev salt_of : ℕ → Text
salt_of c = b'0' ∷ c ∷ []

abbrev one_user : PasswordStore
one_user = record { passwords = (1, none) ∷ []; history = []; reset_tokens = []; sessions = [] }

abbrev word : ℕ → Text
word c = b'A' ∷ b'b' ∷ b'c' ∷ b'd' ∷ b'e' ∷ b'1' ∷ b'!' ∷ c ∷ []

abbrev later : List PasswordCall
later =
    change (salt_of b'1') 1 (word b'x') (word b'y')
    ∷ ask 5 (some 1) (b't' ∷ [])
    ∷ change (salt_of b'2') 1 (word b'y') (word b'z')
    ∷ []

change_password-refuses_recent_example :
    let s' =
      perform_all ascii later (change_password ascii (salt_of b'0') 1 [] (word b'x') one_user).1 in
    let r = change_password ascii (salt_of b'3') 1 (word b'z') (word b'x') s' in
    (r.1 ≡ s') × ¬ (r.0 ≡ password_set)
unfolding change_password validate_password_strength set_password check_password_history
    store_password get_password_hash verify_password hashes_of verifies_any has is_one_of settings
    Dict.get Dict.put Text_discrete ℕ_discrete
change_password-refuses_recent_example =
    change_password-refuses_recent ascii (salt_of b'0') 1 [] (word b'x') one_user later
      (salt_of b'3') (word b'z') refl (λ password salt. hex_law password) refl (omega arith)
