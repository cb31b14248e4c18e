-- ===== src/Base/Exec.antt =====
-- Code that may raise: a result, or the exception that ends the script without a verdict.
use Prim.Native.String.{String}
use mathlib.Core.Path.{◌≡◌, refl}
use mathlib.Core.Bool.{Bool, true, false}
use mathlib.Core.Option.{Option, none, some}
use mathlib.Core.List.{List, [], ◌∷◌}

-- A subscript of a missing key, an order or a length asked of values that have none, a method that a
-- value does not have, a text that is not JSON, a directory that is opened like a file, or a file to
-- be opened that is not there.
pub data Exn : Type 0 where
  key_error type_error attribute_error decode_error is_directory : Exn
  not_found : String → Exn

pub data Result {ℓ} (A : Type ℓ) : Type ℓ where
  ok : A → Result A
  raised : Exn → Result A

-- `d[key]`, given `d.get(key)`.
abbrev pub subscript {ℓ} : {A : Type ℓ} → Option A → Result A
subscript none = raised key_error
subscript (some a) = ok a

-- An exception unless a test holds.
abbrev pub guard : Bool → Exn → Result (Unit {0})
guard test x = elim test [ true ↦ ok tt | false ↦ raised x ]

module _ {ℓ κ} {A : Type ℓ} {B : Type κ} where
  infixl 5 ◌>>=◌
  -- What follows code that may raise.
  abbrev pub ◌>>=◌ : Result A → (A → Result B) → Result B
  raised x >>= next = raised x
  ok a >>= next = next a

module _ {ℓ} {B : Type ℓ} where
  infixl 5 ◌>>◌
  abbrev pub ◌>>◌ : Result (Unit {0}) → Result B → Result B
  raised x >> second = raised x
  ok u >> second = second

module _ {ℓ κ} {A : Type ℓ} {B : Type κ} where
  -- `[f(x) for x in xs]`, where `f` may raise.
  unfoldable pub map_m : (A → Result B) → List A → Result (List B)
  map_m f [] = ok []
  map_m f (x ∷ xs) = do y ← f x; ys ← map_m f xs; ok (y ∷ ys)

  -- Code that returned, returned before what follows it.
  pub >>=-eq-ok :
      (first : Result A) (next : A → Result B) {out : B}
      → (first >>= next) ≡ ok out
      → (mid : A) × (first ≡ ok mid) × (next mid ≡ ok out)
  >>=-eq-ok (raised x) next h = cc
  >>=-eq-ok (ok mid) next h = (mid, refl, h)

module _ {ℓ} {A : Type ℓ} where
  pub ok_inj : {a b : A} → ok a ≡ ok b → a ≡ b
  ok_inj h = cc
