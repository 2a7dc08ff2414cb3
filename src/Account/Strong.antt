-- ===== src/Account/Strong.antt =====
-- Which passwords `validatePassword` of svc-account-session/account/create.go lets through.
use Prim.Native.Char.{Char, code}
use Prim.Native.String.{len}
use Prim.Native.String.append
use text.Mathlib.Text.{starts_with}
use text.Mathlib.TextEquality.{starts_with_iff}
use mathlib.Core.Bool.{false≢true}
use hwmgmt_device_mgr_device.Base.{
  String, ℕ, Bool, Bool-cases, true, false, none, ◌≡◌, ◌≤◌, ◌↔◌, sym, refl, ap, ◌∙◌, inl, inr,
  arith,
}
use hwmgmt_device_mgr_device.Base.Text.{◌<>◌}
use hwmgmt_device_mgr_device.Account.Password.{
  PasswordRules, any_char, between, contains_text, validate_password,
}

-- The text `t` stands in `s`, and a character whose number is a `P` does.
abbrev pub Occurs : String → String → Type 0
Occurs t s = (before : String) × (after : String) × (s ≡ before <> (t <> after))

abbrev pub HasChar : (ℕ → Type 0) → String → Type 0
HasChar P s =
    (before : String) × (c : Char) × (after : String) × (s ≡ before <> String.◌∷◌ c after)
    × P (code c)

abbrev pub Within : ℕ → ℕ → ℕ → Type 0
Within a b n = (a ≤ n) × (n ≤ b)

-- A password that the rules admit.
pub record IsStrong (rules : PasswordRules) (to_lower : String → String)
    (user_name password : String) : Type 0 where
  pub unlike : ¬ Occurs (to_lower user_name) (to_lower password)
  pub long : rules.min_password_length ≤ len password
  pub short : len password ≤ rules.max_password_length
  pub upper : HasChar (Within 65 90) password
  pub lower : HasChar (Within 97 122) password
  pub number : HasChar (Within 48 57) password
  pub special : HasChar (λ n. rules.is_special n ≡ true) password

any_char-HasChar :
    (P : ℕ → Type 0) (f : ℕ → Bool) (s : String)
    → ((n : ℕ) → f n ≡ true → P n)
    → any_char f s ≡ true
    → HasChar P s
unfolding any_char
any_char-HasChar P f String.[] k h = absurd (false≢true h)
any_char-HasChar P f (String.◌∷◌ c s) k h = elim (Bool-cases (f (code c))) [
  | inl hit ↦ ("", c, s, sym (append.nil (String.◌∷◌ c s)), k (code c) hit)
  | inr miss ↦
      let (before, d, after, e, p) = any_char-HasChar P f s k (ground arith) in
      (
        String.◌∷◌ c before,
        d,
        after,
        ap (String.◌∷◌ c) e ∙ sym (append.cons c before (String.◌∷◌ d after)),
        p,
      )
]

any_char-append :
    (f : ℕ → Bool) (before : String) (c : Char) (after : String)
    → f (code c) ≡ true
    → any_char f (before <> String.◌∷◌ c after) ≡ true
unfolding any_char
any_char-append f String.[] c after h = rw append.nil (ground arith)
any_char-append f (String.◌∷◌ d before) c after h =
    rw append.cons (ground (arith, any_char-append f before c after h))

HasChar-any_char :
    (P : ℕ → Type 0) (f : ℕ → Bool) (s : String)
    → ((n : ℕ) → P n → f n ≡ true)
    → HasChar P s
    → any_char f s ≡ true
HasChar-any_char P f s k (before, c, after, e, p) =
    rw e (any_char-append f before c after (k (code c) p))

contains_text-Occurs : (t s : String) → contains_text t s ≡ true → Occurs t s
unfolding contains_text
contains_text-Occurs t String.[] h =
    let (after, e) = (starts_with_iff String.[] t).0 h in
    ("", after, sym e ∙ sym (append.nil (t <> after)))
contains_text-Occurs t (String.◌∷◌ c s) h = elim (Bool-cases (starts_with (String.◌∷◌ c s) t)) [
  | inl hit ↦
      let (after, e) = (starts_with_iff (String.◌∷◌ c s) t).0 hit in
      ("", after, sym e ∙ sym (append.nil (t <> after)))
  | inr miss ↦
      let (before, after, e) = contains_text-Occurs t s (ground arith) in
      (String.◌∷◌ c before, after, ap (String.◌∷◌ c) e ∙ sym (append.cons c before (t <> after)))
]

contains_text-prefix : (t s : String) → starts_with s t ≡ true → contains_text t s ≡ true
unfolding contains_text
contains_text-prefix t String.[] h = h
contains_text-prefix t (String.◌∷◌ c s) h = ground arith

contains_text-append : (t before after : String) → contains_text t (before <> (t <> after)) ≡ true
unfolding contains_text
contains_text-append t String.[] after =
    rw append.nil
      (contains_text-prefix t (t <> after) ((starts_with_iff (t <> after) t).1 (after, refl)))
contains_text-append t (String.◌∷◌ c before) after =
    rw append.cons (ground (arith, contains_text-append t before after))

Occurs-contains_text : (t s : String) → Occurs t s → contains_text t s ≡ true
Occurs-contains_text t s (before, after, e) = rw e (contains_text-append t before after)

-- What the chain of tests decides.
abbrev Passes : PasswordRules → (String → String) → String → String → Type 0
Passes rules to_lower user_name password =
    (contains_text (to_lower user_name) (to_lower password) ≡ false)
    × (rules.min_password_length ≤ len password)
    × (len password ≤ rules.max_password_length)
    × (any_char (between b'A' b'Z') password ≡ true)
    × (any_char (between b'a' b'z') password ≡ true)
    × (any_char (between b'0' b'9') password ≡ true)
    × (any_char rules.is_special password ≡ true)

passed-Passes :
    (rules : PasswordRules) (to_lower : String → String) (user_name password : String)
    → validate_password rules to_lower user_name password ≡ none
    → Passes rules to_lower user_name password
unfolding validate_password
passed-Passes rules to_lower user_name password h = (
  ground arith,
  ground arith,
  ground arith,
  ground arith,
  ground arith,
  ground arith,
  ground arith,
)

Passes-passed :
    (rules : PasswordRules) (to_lower : String → String) (user_name password : String)
    → Passes rules to_lower user_name password
    → validate_password rules to_lower user_name password ≡ none
unfolding validate_password
Passes-passed rules to_lower user_name password (a, b, c, d, e, f, g) = ground arith

between-Within : (a b n : ℕ) → between a b n ≡ true → Within a b n
between-Within a b n h = (ground arith, ground arith)

Within-between : (a b n : ℕ) → Within a b n → between a b n ≡ true
Within-between a b n (h, k) = ground arith

passed-IsStrong :
    (rules : PasswordRules) (to_lower : String → String) (user_name password : String)
    → validate_password rules to_lower user_name password ≡ none
    → IsStrong rules to_lower user_name password
passed-IsStrong rules to_lower user_name password h =
    let (unlike, long, short, upper, lower, number, special) =
      passed-Passes rules to_lower user_name password h in
    record {
      unlike = λ o. false≢true (sym unlike ∙ Occurs-contains_text _ _ o);
      long = long;
      short = short;
      upper = any_char-HasChar _ _ password (between-Within 65 90) upper;
      lower = any_char-HasChar _ _ password (between-Within 97 122) lower;
      number = any_char-HasChar _ _ password (between-Within 48 57) number;
      special = any_char-HasChar _ _ password (λ n h. h) special;
    }

IsStrong-passed :
    (rules : PasswordRules) (to_lower : String → String) (user_name password : String)
    → IsStrong rules to_lower user_name password
    → validate_password rules to_lower user_name password ≡ none
IsStrong-passed rules to_lower user_name password s =
    Passes-passed rules to_lower user_name password (
      unlike,
      s.long,
      s.short,
      HasChar-any_char _ _ password (Within-between 65 90) s.upper,
      HasChar-any_char _ _ password (Within-between 97 122) s.lower,
      HasChar-any_char _ _ password (Within-between 48 57) s.number,
      HasChar-any_char _ _ password (λ n h. h) s.special,
    )
  where
    unlike : contains_text (to_lower user_name) (to_lower password) ≡ false
    unlike = elim (Bool-cases (contains_text (to_lower user_name) (to_lower password))) [
      | inl hit ↦ absurd (s.unlike (contains_text-Occurs _ _ hit))
      | inr miss ↦ miss
    ]

-- The passwords that pass are exactly those in which, in lower case, the user's name does not occur as
-- a part, whose length in bytes of UTF-8 is within the bounds, and in which stand a letter from A to Z,
-- one from a to z, a digit from 0 to 9 and a special character.
pub validate_password-IsStrong :
    (rules : PasswordRules) (to_lower : String → String) (user_name password : String)
    → (validate_password rules to_lower user_name password ≡ none)
      ↔ IsStrong rules to_lower user_name password
validate_password-IsStrong rules to_lower user_name password = (
  passed-IsStrong rules to_lower user_name password,
  IsStrong-passed rules to_lower user_name password,
)
