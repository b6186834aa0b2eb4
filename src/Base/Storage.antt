-- ===== src/Base/Storage.antt =====
-- FRAME's storage: a `StorageMap` is a function from keys, and a `StorageDoubleMap` that the code
-- iterates by its first key is a function from first keys to the list of second keys below it.
use pns_pallets.Base.Tests.{◌==◌, if◌then◌else◌}
use pns_pallets.Base.Lists.{elem, length}
use Prim.Native.Nat.{ℕ, suc}
use mathlib.Core.Path.{◌≡◌, refl}
use mathlib.Core.Bool.{Bool, true, false, ◌||◌}
use mathlib.Core.List.{List, [], ◌∷◌}
use mathlib.Core.Option.{Option, none, some}
use native.Mathlib.Omega.{arith}

abbrev pub StorageMap {ℓ} : Type ℓ → Type ℓ
StorageMap V = ℕ → Option V

abbrev pub DoubleSet : Type 0
DoubleSet = ℕ → List ℕ

-- A function changed at one key.
abbrev pub update {ℓ} : {V : Type ℓ} → ℕ → V → (ℕ → V) → ℕ → V
update k v m j = if k == j then v else m j

module _ {ℓ} {V : Type ℓ} where
  abbrev pub insert : ℕ → V → StorageMap V → StorageMap V
  insert k v m = update k (some v) m

  abbrev pub remove : ℕ → StorageMap V → StorageMap V
  remove k m = update k none m

-- Adding a key that is there changes nothing; removing one that is not, neither.
unfoldable pub add_key : ℕ → List ℕ → List ℕ
add_key k xs = if elem k xs then xs else k ∷ xs

unfoldable pub del_key : ℕ → List ℕ → List ℕ
del_key k [] = []
del_key k (x ∷ xs) = if k == x then del_key k xs else x ∷ del_key k xs

pub elem-add_key : (j k : ℕ) (xs : List ℕ) → elem j (add_key k xs) ≡ (j == k || elem j xs)
unfolding add_key
elem-add_key j k xs = ground arith

pub elem-del_key :
    (j k : ℕ) (xs : List ℕ) → elem j (del_key k xs) ≡ (if k == j then false else elem j xs)
unfolding del_key
elem-del_key j k [] = ground arith
elem-del_key j k (x ∷ xs) = ground (arith, elem-del_key j k xs)

abbrev pub contains_pair : ℕ → ℕ → DoubleSet → Bool
contains_pair i j m = elem j (m i)

abbrev pub insert_pair : ℕ → ℕ → DoubleSet → DoubleSet
insert_pair i j m = update i (add_key j (m i)) m

abbrev pub remove_pair : ℕ → ℕ → DoubleSet → DoubleSet
remove_pair i j m = update i (del_key j (m i)) m

abbrev pub clear_prefix {ℓ} : {V : Type ℓ} → ℕ → (ℕ → List V) → ℕ → List V
clear_prefix i m = update i [] m

-- No key twice.
abbrev pub Distinct : List ℕ → Type 0
Distinct [] = Unit {0}
Distinct (x ∷ xs) = (elem x xs ≡ false) × Distinct xs

pub add_key-Distinct : (k : ℕ) (xs : List ℕ) → Distinct xs → Distinct (add_key k xs)
unfolding add_key
add_key-Distinct k xs d = ground arith

pub del_key_absent : (k : ℕ) (xs : List ℕ) → elem k xs ≡ false → del_key k xs ≡ xs
unfolding del_key
del_key_absent k [] h = refl
del_key_absent k (x ∷ xs) h = ground (arith, del_key_absent k xs)

pub del_key-Distinct : (k : ℕ) (xs : List ℕ) → Distinct xs → Distinct (del_key k xs)
unfolding del_key
del_key-Distinct k [] d = tt
del_key-Distinct k (x ∷ xs) d = ground (arith, del_key-Distinct k xs d.1, elem-del_key x k xs)

pub length-add_key :
    (k : ℕ) (xs : List ℕ) → elem k xs ≡ false → length (add_key k xs) ≡ suc (length xs)
unfolding add_key
length-add_key k xs h = ground arith

pub length-del_key :
    (k : ℕ) (xs : List ℕ) → Distinct xs → elem k xs ≡ true → suc (length (del_key k xs)) ≡ length xs
unfolding del_key
length-del_key k [] d h = cc
length-del_key k (x ∷ xs) d h = ground (arith, length-del_key k xs d.1, del_key_absent k xs)
