-- ===== src/Effects.antt =====
-- Code with effects, as functions from a world to a result and the world after it.
use dzta.Prelude.{◌≡◌, refl, ap, Result, ok, err}

abbrev pub Io : Type 0 → Type 0 → Type 0 → Type 0
Io World E A = World → Result E A × World

module _ {World E A : Type 0} where
  abbrev pub lift : Result E A → Io World E A
  lift r world = (r, world)

  abbrev pub map_failure : {E' : Type 0} → (E → E') → Result E A × World → Result E' A × World
  map_failure f (ok a, world) = (ok a, world)
  map_failure f (err e, world) = (err (f e), world)

  abbrev pub and_then : {B : Type 0} → Result E A × World → (A → Io World E B) → Result E B × World
  and_then (ok a, world) next = next a world
  and_then (err e, world) next = (err e, world)

infixl 5 ◌>>=◌
abbrev pub ◌>>=◌ : {World E A B : Type 0} → Io World E A → (A → Io World E B) → Io World E B
(action >>= next) world = and_then (action world) next

-- What a success came from.
pub and_then-eq-ok :
    {World E A B : Type 0} (done : Result E A × World) (next : A → Io World E B) {out : B}
    {last : World}
    → and_then done next ≡ (ok out, last)
    → (value : A) × (middle : World) × (done ≡ (ok value, middle))
      × (next value middle ≡ (ok out, last))
and_then-eq-ok (ok value, middle) next h = (value, middle, refl, h)
and_then-eq-ok (err e, middle) next h = absurd (cc (h))

pub map_failure-eq-ok :
    {World E E' A : Type 0} (f : E → E') (done : Result E A × World) {value : A} {last : World}
    → map_failure f done ≡ (ok value, last)
    → done ≡ (ok value, last)
map_failure-eq-ok f (ok a, w) h = cc (h)
map_failure-eq-ok f (err e, w) h = absurd (cc (h))

pub lift-eq-ok :
    {World E A : Type 0} (r : Result E A) {world middle : World} {value : A}
    → lift r world ≡ (ok value, middle)
    → (r ≡ ok value) × (world ≡ middle)
lift-eq-ok r h = (ap (λ p. p.0) h, ap (λ p. p.1) h)

-- A success after a lifted result starts from the same world.
pub lift_then-eq-ok :
    {World E A B : Type 0} (r : Result E A) (world : World) (next : A → Io World E B) {out : B}
    {last : World}
    → and_then (lift r world) next ≡ (ok out, last)
    → (value : A) × (r ≡ ok value) × (next value world ≡ (ok out, last))
lift_then-eq-ok (ok value) world next h = (value, refl, h)
lift_then-eq-ok (err e) world next h = absurd (cc (h))
