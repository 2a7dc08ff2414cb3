-- ===== src/Base/Exec.antt =====
-- A call of a service: it reads and changes the world outside, and ends with a value, with an
-- early return (a Go error, or a response that is already filled), or with a panic.
use Prim.Native.String.{String}
use mathlib.Core.Path.{◌≡◌, refl, ap}
use native.Mathlib.Omega.{arith}
use mathlib.Core.Logic.{◌≢◌}

pub data Outcome (E A : Type 0) : Type 0 where
  ok : A → Outcome E A
  err : E → Outcome E A
  panic : String → Outcome E A

abbrev pub Exec : Type 0 → Type 0 → Type 0 → Type 0
Exec W E A = W → Outcome E A × W

module _ {W E A : Type 0} where
  abbrev pub pure : A → Exec W E A
  pure a w = (ok a, w)

  -- An early `return`.
  abbrev pub raise : E → Exec W E A
  raise e w = (err e, w)

  -- A computation that touches nothing outside.
  abbrev pub lift : Outcome E A → Exec W E A
  lift r w = (r, w)

module _ {W E A B : Type 0} where
  abbrev pub continue : Outcome E A → (A → Exec W E B) → Exec W E B
  continue (ok a) f w = f a w
  continue (err e) f w = (err e, w)
  continue (panic m) f w = (panic m, w)

  infixl 5 ◌>>=◌ ◌>>◌
  abbrev pub ◌>>=◌ : Exec W E A → (A → Exec W E B) → Exec W E B
  ◌>>=◌ m f w = let (r, w') = m w in continue r f w'

  abbrev pub ◌>>◌ : Exec W E A → Exec W E B → Exec W E B
  m >> n = m >>= λ _. n

module _ {W E F A : Type 0} where
  abbrev pub or_else : Outcome E A → (E → Exec W F A) → Exec W F A
  or_else (ok a) f w = (ok a, w)
  or_else (err e) f w = f e w
  or_else (panic m) f w = (panic m, w)

  -- `if err != nil { ... }` after a call.
  abbrev pub on_error : Exec W E A → (E → Exec W F A) → Exec W F A
  on_error m f w = let (r, w') = m w in or_else r f w'

-- What ends neither with an early return nor with a panic has a value.
pub Outcome-ok :
    {E A : Type 0} (o : Outcome E A)
    → ((e : E) → o ≢ err e)
    → ((m : String) → o ≢ panic m)
    → (a : A) × (o ≡ ok a)
Outcome-ok (ok a) h k = (a, refl)
Outcome-ok (err e) h k = absurd (h e refl)
Outcome-ok (panic m) h k = absurd (k m refl)

-- What a block that returned has done first.
pub bind-ok :
    {W E A B : Type 0} (m : Exec W E A) (f : A → Exec W E B) (w : W) {b : B}
    → ((m >>= f) w).0 ≡ ok b
    → (a : A) × ((m w).0 ≡ ok a) × ((f a (m w).1).0 ≡ ok b)
bind-ok {E} {A} {B} m f w {b} h = from_outcome (m w).0 refl h
  where
    from_outcome :
        (o : Outcome E A)
        → (m w).0 ≡ o
        → (continue o f (m w).1).0 ≡ ok b
        → (a : A) × ((m w).0 ≡ ok a) × ((f a (m w).1).0 ≡ ok b)
    from_outcome (ok a) e k = (a, e, k)
    from_outcome (err x) e k = cc
    from_outcome (panic x) e k = cc

-- What holds of the world after the first part, and after the whole block if that part has a value,
-- holds of the world in which the block ends.
pub bind-world :
    {W E A B : Type 0} (m : Exec W E A) (f : A → Exec W E B) (w : W) (G : W → Type 0)
    → G (m w).1
    → ((a : A) → (m w).0 ≡ ok a → G (f a (m w).1).1)
    → G ((m >>= f) w).1
bind-world {E} {A} m f w G stop go = from_outcome (m w).0 refl
  where
    from_outcome : (o : Outcome E A) → (m w).0 ≡ o → G (continue o f (m w).1).1
    from_outcome (ok a) e = go a e
    from_outcome (err x) e = stop
    from_outcome (panic x) e = stop

-- What holds of the end of a block, from what holds in each case of its first part.
pub bind-elim :
    {W E A B : Type 0} (m : Exec W E A) (f : A → Exec W E B) (w : W) (G : Outcome E B × W → Type 0)
    → ((a : A) → (m w).0 ≡ ok a → G (f a (m w).1))
    → ((e : E) → (m w).0 ≡ err e → G (err e, (m w).1))
    → ((p : String) → (m w).0 ≡ panic p → G (panic p, (m w).1))
    → G ((m >>= f) w)
bind-elim {E} {A} m f w G go stop crash = from_outcome (m w).0 refl
  where
    from_outcome : (o : Outcome E A) → (m w).0 ≡ o → G (continue o f (m w).1)
    from_outcome (ok a) e = go a e
    from_outcome (err x) e = stop x e
    from_outcome (panic x) e = crash x e

-- What holds of the end of a call whose error is handled, from what holds in each case.
pub on_error-elim :
    {W E F A : Type 0} (m : Exec W E A) (f : E → Exec W F A) (w : W) (G : Outcome F A × W → Type 0)
    → ((a : A) → (m w).0 ≡ ok a → G (ok a, (m w).1))
    → ((e : E) → (m w).0 ≡ err e → G (f e (m w).1))
    → ((p : String) → G (panic p, (m w).1))
    → G (on_error m f w)
on_error-elim {E} {F} {A} m f w G good bad crash = from_outcome (m w).0 refl
  where
    from_outcome : (o : Outcome E A) → (m w).0 ≡ o → G (or_else o f (m w).1)
    from_outcome (ok a) e = good a e
    from_outcome (err x) e = bad x e
    from_outcome (panic x) e = crash x

-- The same for a call whose error is passed on in other words, and what follows it.
pub attempt-elim :
    {W E F A B : Type 0} (m : Exec W E A) (g : E → F) (f : A → Exec W F B) (w : W)
    (G : Outcome F B × W → Type 0)
    → ((a : A) → (m w).0 ≡ ok a → G (f a (m w).1))
    → ((e : E) → (m w).0 ≡ err e → G (err (g e), (m w).1))
    → ((p : String) → (m w).0 ≡ panic p → G (panic p, (m w).1))
    → G ((on_error m (λ e. raise (g e)) >>= f) w)
attempt-elim {E} {A} m g f w G go stop crash = from_outcome (m w).0 refl
  where
    from_outcome :
        (o : Outcome E A) → (m w).0 ≡ o → G ((or_else o (λ e. raise (g e)) >>= f) (m w).1)
    from_outcome (ok a) e = go a e
    from_outcome (err x) e = stop x e
    from_outcome (panic x) e = crash x e

-- A block whose first part is known to go well.
pub then-ok :
    {W E A B : Type 0} (m : Exec W E A) (f : A → Exec W E B) (w w' : W) {a : A}
    → m w ≡ (ok a, w')
    → (m >>= f) w ≡ f a w'
then-ok {E} {A} m f w w' e = ap (λ (z : Outcome E A × _). continue z.0 f z.1) e

-- An error that is passed on in other words: the world is that of the call, and so is a value.
pub reworded :
    {W E F A : Type 0} (m : Exec W E A) (g : E → F) (w : W)
    → ((on_error m (λ e. raise (g e)) w).1 ≡ (m w).1)
      × ((a : A) → (on_error m (λ e. raise (g e)) w).0 ≡ ok a → (m w).0 ≡ ok a)
reworded {E} {F} {A} m g w = from_outcome (m w).0
  where
    from_outcome :
        (o : Outcome E A)
        → ((or_else {F = F} o (λ e. raise (g e)) (m w).1).1 ≡ (m w).1)
          × ((a : A) → (or_else {F = F} o (λ e. raise (g e)) (m w).1).0 ≡ ok a → o ≡ ok a)
    from_outcome (ok a) = (refl, λ b h. ground arith)
    from_outcome (err e) = (refl, λ b h. cc)
    from_outcome (panic p) = (refl, λ b h. cc)

pub value-dropped :
    {W E A : Type 0} (m : Exec W E A) (w : W) {a : A}
    → (m w).0 ≡ ok a
    → (m >> pure tt) w ≡ (ok (tt {0}), (m w).1)
value-dropped {E} {A} m w e = ap (λ (o : Outcome E A). continue o (λ _. pure tt) (m w).1) e

-- A block that returned is its second part, from where the first one ended.
pub bind-run :
    {W E A B : Type 0} (m : Exec W E A) (f : A → Exec W E B) (w : W) {b : B}
    → ((m >>= f) w).0 ≡ ok b
    → (a : A) × ((m w).0 ≡ ok a) × ((m >>= f) w ≡ f a (m w).1)
bind-run {E} {A} m f w {b} h = from_outcome (m w).0 refl h
  where
    from_outcome :
        (o : Outcome E A)
        → (m w).0 ≡ o
        → (continue o f (m w).1).0 ≡ ok b
        → (a : A) × ((m w).0 ≡ ok a) × (continue o f (m w).1 ≡ f a (m w).1)
    from_outcome (ok a) e k = (a, e, refl)
    from_outcome (err x) e k = cc
    from_outcome (panic x) e k = cc
