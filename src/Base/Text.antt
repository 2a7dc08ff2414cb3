-- ===== src/Base/Text.antt =====
-- Texts that the services take apart: `strings.Split` and `strings.HasSuffix` at one character,
-- and the decimal form of an integer.
pub mod Digits
use Prim.Native.Char.{Char, code}
use Prim.Native.String.append
use Prim.Native.Nat.{ℕ, zero, suc, ◌-◌, ◌/◌, ◌%◌}
use mathlib.Core.Logic.{inl, inr}
use mathlib.Core.Path.{◌≡◌, refl, ap, ◌∙◌}
use mathlib.Core.Bool.{Bool, true, false, ◌&&◌, ◌||◌}
use mathlib.Core.List.{List, [], ◌∷◌}
use mathlib.Core.Option.{Option, none, some}
use text.Mathlib.Text.{◌==◌}
use native.Mathlib.Omega.{arith}
use hwmgmt_device_mgr_device.Base.Lists.{length, get_elem?}
use hwmgmt_device_mgr_device.Base.Tests.{eq_ℕ, ltb, if◌then◌else◌, ℤ, pos, negsuc, Bool-cases}
pub use Prim.Native.String.{String}
pub use Prim.Native.String.{◌++◌ as ◌<>◌}

-- The first piece grows by a character.
abbrev pub grow : Char → List String → List String
grow c [] = (String.◌∷◌ c String.[]) ∷ []
grow c (x ∷ xs) = (String.◌∷◌ c x) ∷ xs

-- `strings.Split(s, sep)` for a separator of one character.
unfoldable pub split : ℕ → String → List String
split sep String.[] = String.[] ∷ []
split sep (String.◌∷◌ c s) =
    let rest = split sep s in if eq_ℕ (code c) sep then String.[] ∷ rest else grow c rest

-- `strings.Split(s, "::")`.
unfoldable pub split_colons : String → List String
split_colons String.[] = String.[] ∷ []
split_colons (String.◌∷◌ c String.[]) = (String.◌∷◌ c String.[]) ∷ []
split_colons (String.◌∷◌ c (String.◌∷◌ d s)) =
    let here = split_colons s in
    let later = split_colons (String.◌∷◌ d s) in
    if eq_ℕ (code c) b':' && eq_ℕ (code d) b':' then String.[] ∷ here else grow c later

split_colons_test :
    split_colons "admin::2021-03-04 05:06:07 +0000 UTC::task7"
    ≡ "admin" ∷ "2021-03-04 05:06:07 +0000 UTC" ∷ "task7" ∷ []
unfolding split_colons
split_colons_test = refl

-- Whether a character stands in a text.
abbrev pub has_char : ℕ → String → Bool
has_char k String.[] = false
has_char k (String.◌∷◌ c s) = if eq_ℕ (code c) k then true else has_char k s

-- `strings.HasSuffix(s, sep)` for one character.
abbrev pub ends_with : ℕ → String → Bool
ends_with k String.[] = false
ends_with k (String.◌∷◌ c String.[]) = eq_ℕ (code c) k
ends_with k (String.◌∷◌ c (String.◌∷◌ d s)) = ends_with k (String.◌∷◌ d s)

-- `strings.TrimPrefix(s, prefix)`, where the prefix stands, and none where it does not.
unfoldable pub strip_prefix : String → String → Option String
strip_prefix String.[] s = some s
strip_prefix (String.◌∷◌ c p) String.[] = none
strip_prefix (String.◌∷◌ c p) (String.◌∷◌ d s) =
    let rest = strip_prefix p s in if eq_ℕ (code c) (code d) then rest else none

unfoldable pub trim_prefix : String → String → String
unfolding strip_prefix
trim_prefix p s = elim (strip_prefix p s) [ some rest ↦ rest | none ↦ s ]

-- `strings.HasSuffix(s, suffix)`.
unfoldable pub has_suffix : String → String → Bool
has_suffix t String.[] = String.[] == t
has_suffix t (String.◌∷◌ c s) = let rest = has_suffix t s in ((String.◌∷◌ c s) == t) || rest

-- `strings.Replace(s, c, with, -1)` for a text `c` of one character.
unfoldable pub replace : ℕ → String → String → String
replace k t String.[] = String.[]
replace k t (String.◌∷◌ c s) =
    let rest = replace k t s in if eq_ℕ (code c) k then t <> rest else String.◌∷◌ c rest

-- `strings.Join(xs, " ")`.
abbrev pub join_spaces : List String → String
join_spaces [] = ""
join_spaces (x ∷ []) = x
join_spaces (x ∷ y ∷ xs) = x <> " " <> join_spaces (y ∷ xs)

-- `strings.SplitN(s, ":", 2)`, where the separator stands.
unfoldable pub cut : ℕ → String → Option (String × String)
cut k String.[] = none
cut k (String.◌∷◌ c s) =
    let rest = cut k s in
    if eq_ℕ (code c) k
    then some (String.[], s)
    else elim rest [ some (a, b) ↦ some (String.◌∷◌ c a, b) | none ↦ none ]

has_suffix_test :
    (has_suffix "refused" "connection refused" ≡ true) × (has_suffix "EOF" "EO" ≡ false)
unfolding has_suffix
has_suffix_test = (refl, refl)

trim_prefix_test : (trim_prefix "task:" "task:t1" ≡ "t1") × (trim_prefix "task:" "user" ≡ "user")
unfolding trim_prefix strip_prefix
trim_prefix_test = (refl, refl)

cut_test : (cut b':' "a:b:c" ≡ some ("a", "b:c")) × (replace b'[' "\\[" "x[1" ≡ "x\\[1")
unfolding cut replace
cut_test = (refl, refl)

abbrev pub last_or : List String → String → String
last_or [] d = d
last_or (x ∷ xs) d = last_or xs x

abbrev digit : ℕ → String
digit n =
    if eq_ℕ n 0
    then "0"
    else if eq_ℕ n 1
    then "1"
    else if eq_ℕ n 2
    then "2"
    else if eq_ℕ n 3
    then "3"
    else if eq_ℕ n 4
    then "4"
    else if eq_ℕ n 5
    then "5"
    else if eq_ℕ n 6
    then "6"
    else if eq_ℕ n 7
    then "7"
    else if eq_ℕ n 8
    then "8"
    else "9"

show_fuel : ℕ → ℕ → String
show_fuel zero n = ""
show_fuel (suc f) n =
    let rest = show_fuel f (n / 10) in if ltb n 10 then digit n else rest <> digit (n % 10)

-- `%v` of an integer: its decimal digits, the most significant first.
unfoldable pub show : ℤ → String
unfolding show_fuel
show (pos n) = show_fuel (suc n) n
show (negsuc n) = "-" <> show_fuel (suc (suc n)) (suc n)

show_test : (show (pos 100) ≡ "100") × (show (negsuc 41) ≡ "-42") × (show (pos 0) ≡ "0")
unfolding show
show_test = (refl, refl, refl)

-- A text that lacks the separator is one piece.
pub split_of_piece : (sep : ℕ) (s : String) → has_char sep s ≡ false → split sep s ≡ s ∷ []
unfolding split
split_of_piece sep String.[] h = refl
split_of_piece sep (String.◌∷◌ c s) h = ground (arith, split_of_piece sep s)

-- The last piece of a text in which a separator stands before a piece.
pub split-append :
    (sep : ℕ) (s : String) (c : Char) (t : String)
    → code c ≡ sep
    → has_char sep t ≡ false
    → (x : String) × (y : String) × (xs : List String) × (split sep (s <> String.◌∷◌ c t)
        ≡ x ∷ y ∷ xs)
      × (last_or (y ∷ xs) "" ≡ t)
unfolding split
split-append sep String.[] c t e h =
    ("", t, [], rw append.nil (ground (arith, split_of_piece sep t)), refl)
split-append sep (String.◌∷◌ d s) c t e h =
    let (x, y, xs, pieces, last) = split-append sep s c t e h in
    elim (Bool-cases (eq_ℕ (code d) sep)) [
      | inl hit ↦ ("", x, y ∷ xs, rw append.cons (rw (hit, pieces)), last)
      | inr miss ↦ (String.◌∷◌ d x, y, xs, rw append.cons (rw (miss, pieces)), last)
    ]

pub ends_with_of_piece : (k : ℕ) (s : String) → has_char k s ≡ false → ends_with k s ≡ false
ends_with_of_piece k String.[] h = refl
ends_with_of_piece k (String.◌∷◌ c String.[]) h = ground arith
ends_with_of_piece k (String.◌∷◌ c (String.◌∷◌ d s)) h =
    ends_with_of_piece k (String.◌∷◌ d s) (ground arith)

-- What a text ends with, after another one is put in front of it.
pub ends_with-append :
    (k : ℕ) (s : String) (c : Char) (t : String)
    → ends_with k (s <> String.◌∷◌ c t) ≡ ends_with k (String.◌∷◌ c t)
ends_with-append k String.[] c t = rw append.nil refl
ends_with-append k (String.◌∷◌ d String.[]) c t = rw (append.cons, append.nil) refl
ends_with-append k (String.◌∷◌ d (String.◌∷◌ e s)) c t =
    rw (append.cons, append.cons) (rw append.cons at (ends_with-append k (String.◌∷◌ e s) c t))

-- The last element stands at the length less one.
pub get_elem?-last :
    (y : String) (xs : List String)
    → get_elem? (y ∷ xs) (length (y ∷ xs) - 1) ≡ some (last_or (y ∷ xs) "")
get_elem?-last y [] = refl
get_elem?-last y (x ∷ xs) =
    let e : suc (suc (length xs)) - 1 ≡ suc (suc (length xs) - 1) = omega arith in
    ap (get_elem? (y ∷ x ∷ xs)) e ∙ get_elem?-last x xs
