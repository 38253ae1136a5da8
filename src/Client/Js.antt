-- ===== src/Client/Js.antt =====
-- The values of JavaScript that the client builds and reads, and the class of ts/assignable.ts.
-- A `Uint8Array` and a `Buffer` are arrays of numbers.
use Prim.Native.String.{String}
use text.Mathlib.Text.{◌==◌}
use multisig_native.Base.{
  ℕ, suc, ◌≡◌, refl, Bool, List, [], ◌∷◌, map, Option, none, some, length, if◌then◌else◌,
}

mutual
  pub data Value : Type 0 where
    number : ℕ → Value
    boolean : Bool → Value
    array : Values → Value
    object : Properties → Value

  pub data Values : Type 0 where
    nil : Values
    cons : Value → Values → Values

  pub data Properties : Type 0 where
    end : Properties
    property : String → Value → Properties → Properties

abbrev pub values : List Value → Values
values [] = nil
values (v ∷ vs) = cons v (values vs)

abbrev pub count : Values → ℕ
count nil = 0
count (cons v vs) = suc (count vs)

-- `xs.map(f)` for an array of any objects.
abbrev pub array_of {ℓ} : {A : Type ℓ} → (A → Value) → List A → Value
array_of f xs = array (values (map f xs))

pub count-values {ℓ} :
    {A : Type ℓ} (f : A → Value) (xs : List A) → count (values (map f xs)) ≡ length xs
count-values f [] = refl
count-values f (x ∷ xs) = rw (count-values f xs)

-- Bytes.
abbrev pub buffer : List ℕ → Value
buffer = array_of number

-- `o.name`; a name that is missing is `none`.
abbrev pub lookup : String → Properties → Option Value
lookup name end = none
lookup name (property k v ps) = if k == name then some v else lookup name ps

-- `this[key] = value`
abbrev pub set_property : Properties → String → Value → Properties
set_property end key value = property key value end
set_property (property k v ps) key value =
    let rest = set_property ps key value in
    if k == key then property k value ps else property k v rest

-- The loop of the constructor of `Assignable`.
unfoldable pub assign_each : Properties → Properties → Properties
assign_each this end = this
assign_each this (property key value ps) = assign_each (set_property this key value) ps

-- `new C(properties)` for a class that extends `Assignable`.
unfoldable pub assignable : Properties → Value
unfolding assign_each
assignable ps = object (assign_each end ps)
