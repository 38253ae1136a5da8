-- ===== src/Base/Items.antt =====
-- The items of a list, wherever they stand.
use Prim.Native.Nat.{ℕ, zero, suc}
use mathlib.Core.Path.{◌≡◌, refl}
use mathlib.Core.List.{List, [], ◌∷◌, ◌++◌, map, flat_map}
use mathlib.Core.Option.{some}
use native.Mathlib.Omega.{arith}
use multisig_native.Base.Lists.{get_elem?}

-- The list has the item somewhere.
abbrev pub HasItem : {A : Type 0} → List A → A → Type 0
HasItem xs a = (i : ℕ) × (get_elem? xs i ≡ some a)

module _ {A : Type 0} where
  pub HasItem-append_left : (xs ys : List A) (a : A) → HasItem xs a → HasItem (xs ++ ys) a
  HasItem-append_left [] ys a (i, at) = cc
  HasItem-append_left (x ∷ xs) ys a (zero, at) = (0, at)
  HasItem-append_left (x ∷ xs) ys a (suc i, at) =
      let (j, found) = HasItem-append_left xs ys a (i, at) in (suc j, found)

  pub HasItem-append_right : (xs ys : List A) (a : A) → HasItem ys a → HasItem (xs ++ ys) a
  HasItem-append_right [] ys a h = h
  HasItem-append_right (x ∷ xs) ys a h =
      let (j, found) = HasItem-append_right xs ys a h in (suc j, found)

module _ {A B : Type 0} where
  pub HasItem-map : (f : A → B) (xs : List A) (a : A) → HasItem xs a → HasItem (map f xs) (f a)
  HasItem-map f [] a (i, at) = cc
  HasItem-map f (x ∷ xs) a (zero, at) = (0, ground arith)
  HasItem-map f (x ∷ xs) a (suc i, at) =
      let (j, found) = HasItem-map f xs a (i, at) in (suc j, found)

  -- An item of `map` is the image of an item.
  pub map-HasItem :
      (f : A → B) (xs : List A) (b : B) → HasItem (map f xs) b → (a : A) × HasItem xs a × (f a ≡ b)
  map-HasItem f [] b (i, at) = cc
  map-HasItem f (x ∷ xs) b (zero, at) = (x, (0, refl), ground arith)
  map-HasItem f (x ∷ xs) b (suc i, at) =
      let (a, (j, found), e) = map-HasItem f xs b (i, at) in (a, (suc j, found), e)

  pub HasItem-flat_map :
      (f : A → List B) (xs : List A) (a : A) (b : B)
      → HasItem xs a
      → HasItem (f a) b
      → HasItem (flat_map f xs) b
  unfolding flat_map
  HasItem-flat_map f [] a b (i, at) h = cc
  HasItem-flat_map f (x ∷ xs) a b (zero, at) h =
      let same : x ≡ a = ground arith in HasItem-append_left (f x) (flat_map f xs) b (rw same h)
  HasItem-flat_map f (x ∷ xs) a b (suc i, at) h =
      HasItem-append_right (f x) (flat_map f xs) b (HasItem-flat_map f xs a b (i, at) h)
