-- ===== src/Base/Text/Digits.antt =====
-- Decimal numbers and pieces of texts: a printed number has no colon, and a text without one is the
-- first piece before "::".
use Prim.Native.String.append
use Prim.Native.Nat.{ℕ, zero, suc, ◌/◌, ◌%◌}
use mathlib.Core.Path.{◌≡◌, refl}
use mathlib.Core.Bool.{Bool, true, false}
use mathlib.Core.List.{◌∷◌}
use native.Mathlib.Omega.{arith}
use hwmgmt_device_mgr_device.Base.Tests.{ℤ, pos, negsuc, if◌then◌else◌}
use hwmgmt_device_mgr_device.Base.Text.{
  String, ◌<>◌, has_char, split_colons, digit, show_fuel, show,
}

-- A text without a colon in front of a separator is the first piece.
pub split_colons-join :
    (v u : String) → has_char b':' v ≡ false → split_colons (v <> "::" <> u) ≡ v ∷ split_colons u
unfolding split_colons
split_colons-join String.[] u h = rw (append.nil, append.cons, append.cons, append.nil) refl
split_colons-join (String.◌∷◌ c String.[]) u h =
    let ih = split_colons-join String.[] u refl in
    rw (append.cons, append.nil)
      (rw (append.cons, append.cons, append.nil)
        (ground (arith, rw (append.nil, append.cons, append.cons, append.nil) at ih)))
split_colons-join (String.◌∷◌ c (String.◌∷◌ d s)) u h =
    let ih = split_colons-join (String.◌∷◌ d s) u (ground arith) in
    rw (append.cons, append.cons) (ground (arith, rw append.cons at ih))

pub has_char-append :
    (k : ℕ) (s t : String)
    → has_char k s ≡ false
    → has_char k t ≡ false
    → has_char k (s <> t) ≡ false
has_char-append k String.[] t h g = rw append.nil g
has_char-append k (String.◌∷◌ c s) t h g = rw append.cons (ground (arith, has_char-append k s t))

either :
    (b : Bool) (s t : String)
    → has_char b':' s ≡ false
    → has_char b':' t ≡ false
    → has_char b':' (if b then s else t) ≡ false
either true s t h g = h
either false s t h g = g

digit-has_char : (n : ℕ) → has_char b':' (digit n) ≡ false
digit-has_char n = search either depth 12

show_fuel-has_char : (f n : ℕ) → has_char b':' (show_fuel f n) ≡ false
unfolding show_fuel
show_fuel-has_char zero n = refl
show_fuel-has_char (suc f) n = ground (
  arith,
  digit-has_char n,
  has_char-append b':' (show_fuel f (n / 10)) (digit (n % 10)) (show_fuel-has_char f (n / 10))
      (digit-has_char (n % 10)),
)

pub show-has_char : (n : ℤ) → has_char b':' (show n) ≡ false
unfolding show
show-has_char (pos n) = show_fuel-has_char (suc n) n
show-has_char (negsuc n) =
    has_char-append b':' "-" (show_fuel (suc (suc n)) (suc n)) refl
      (show_fuel-has_char (suc (suc n)) (suc n))
