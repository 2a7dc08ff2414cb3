-- ===== src/Account/Password.antt =====
-- `validatePassword` of svc-account-session/account/create.go.
use Prim.Native.Char.{code}
use Prim.Native.String.{len}
use text.Mathlib.Text.{starts_with}
use hwmgmt_device_mgr_device.Base.{
  String, ℕ, Bool, false, ◌&&◌, ◌||◌, not, Option, some, none, ltb, leb, if◌then◌else◌,
}

-- `PasswordRules` of the configuration; `is_special` is what the class of the special characters
-- matches.
pub record PasswordRules : Type 0 where
  pub min_password_length : ℕ
  pub max_password_length : ℕ
  pub is_special : ℕ → Bool

-- `regexp.Match("[...]+", s)` for a class of characters.
unfoldable pub any_char : (ℕ → Bool) → String → Bool
any_char f String.[] = false
any_char f (String.◌∷◌ c s) = f (code c) || any_char f s

abbrev pub between : ℕ → ℕ → ℕ → Bool
between a b c = leb a c && leb c b

-- `strings.Contains(s, t)`
unfoldable pub contains_text : String → String → Bool
contains_text t String.[] = starts_with String.[] t
contains_text t (String.◌∷◌ c s) = starts_with (String.◌∷◌ c s) t || contains_text t s

abbrev pub too_plain : String
too_plain =
    "error: invalid password, password should contain minimum One Upper case, One Lower case, One Number and One Special character"

-- The text of the error, if there is one. `len` counts the bytes of UTF-8, and `to_lower` is `strings.ToLower`, with the tables of Unicode.
unfoldable pub validate_password :
    PasswordRules → (String → String) → String → String → Option String
validate_password rules to_lower user_name password =
    if contains_text (to_lower user_name) (to_lower password)
    then some "error: invalid password, username is present inside the password"
    else if ltb (len password) rules.min_password_length
    then some "error: invalid password, password length is less than the minimum length"
    else if ltb rules.max_password_length (len password)
    then some "error: invalid password, password length is greater than the maximum length"
    else if not (any_char (between b'A' b'Z') password)
    then some too_plain
    else if not (any_char (between b'a' b'z') password)
    then some too_plain
    else if not (any_char (between b'0' b'9') password)
    then some too_plain
    else if not (any_char rules.is_special password)
    then some too_plain
    else none
