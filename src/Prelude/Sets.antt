-- ===== src/Prelude/Sets.antt =====
-- Sets and maps with strings for keys: std::unordered_set, std::set and std::unordered_map as lists.
-- The order of a list stands for the order in which the container is walked.
use mathlib.Core.Path.{◌≡◌, refl, sym, ap, ◌∙◌}
use mathlib.Core.Logic.{inl, inr}
use mathlib.Core.List.{List, [], ◌∷◌}
use mathlib.Core.Bool.{Bool, true, false, ◌||◌, ◌&&◌, not}
use mathlib.Core.Option.{Option, none, some}
use native.Mathlib.Omega.{arith}
use opendxl_broker.Prelude.Tests.{if◌then◌else◌, Bool-cases}
use opendxl_broker.Prelude.Lists.{Str, str_eq, str_eq→eq}

pub str_eq_sym : (a b : Str) → str_eq a b ≡ str_eq b a
unfolding str_eq
str_eq_sym [] [] = refl
str_eq_sym [] (y ∷ ys) = refl
str_eq_sym (x ∷ xs) [] = refl
str_eq_sym (x ∷ xs) (y ∷ ys) = ground (arith, str_eq_sym xs ys)

-- `set.find( x ) != set.end()`
unfoldable pub has : Str → List Str → Bool
has x [] = false
has x (y ∷ ys) = str_eq y x || has x ys

-- `set.insert( x )`, whose result says whether it was new.
unfoldable pub insert : Str → List Str → List Str
insert x ys = if has x ys then ys else x ∷ ys

unfoldable pub erase : Str → List Str → List Str
erase x [] = []
erase x (y ∷ ys) = let rest = erase x ys in if str_eq y x then rest else y ∷ rest

-- `map.find( k )`
module _ {ℓ} {A : Type ℓ} where
  unfoldable pub find : Str → List (Str × A) → Option A
  find k [] = none
  find k ((l, v) ∷ m) = let rest = find k m in if str_eq l k then some v else rest

  -- `map[ k ] = v`
  unfoldable pub assign : Str → A → List (Str × A) → List (Str × A)
  assign k v [] = (k, v) ∷ []
  assign k v ((l, w) ∷ m) =
      let rest = assign k v m in if str_eq l k then (l, v) ∷ m else (l, w) ∷ rest

  -- `map.erase( k )`
  unfoldable pub remove : Str → List (Str × A) → List (Str × A)
  remove k [] = []
  remove k ((l, w) ∷ m) = let rest = remove k m in if str_eq l k then rest else (l, w) ∷ rest

  unfoldable pub keys : List (Str × A) → List Str
  keys [] = []
  keys ((k, v) ∷ m) = k ∷ keys m

  pub find-assign :
      (k l : Str) (v : A) (m : List (Str × A))
      → find l (assign k v m) ≡ (if str_eq k l then some v else find l m)
  unfolding find assign
  find-assign k l v [] = refl
  find-assign k l v ((j, w) ∷ m) = elim (Bool-cases (str_eq j k)) [
    | inl e ↦ let f = ap (λ z. str_eq z l) (str_eq→eq j k e) in ground (arith, f)
    | inr e ↦
        let f =
          λ (g : str_eq j l ≡ true). sym (ap (str_eq k) (str_eq→eq j l g)) ∙ str_eq_sym k j ∙ e in
        ground (arith, f, find-assign k l v m)
  ]

pub find-remove {ℓ} :
    {A : Type ℓ} (k l : Str) (m : List (Str × A))
    → find l (remove k m) ≡ (if str_eq k l then none else find l m)
unfolding find remove
find-remove k l [] = ground arith
find-remove k l ((j, w) ∷ m) = elim (Bool-cases (str_eq j k)) [
  | inl e ↦ let f = ap (λ z. str_eq z l) (str_eq→eq j k e) in ground (arith, f, find-remove k l m)
  | inr e ↦
      let f =
        λ (g : str_eq j l ≡ true). sym (ap (str_eq k) (str_eq→eq j l g)) ∙ str_eq_sym k j ∙ e in
      ground (arith, f, find-remove k l m)
]

pub has-insert : (x y : Str) (ys : List Str) → has x (insert y ys) ≡ (str_eq y x || has x ys)
unfolding has insert
has-insert x y ys = elim (Bool-cases (has y ys)) [
  | inl e ↦ elim (Bool-cases (str_eq y x)) [
    | inl f ↦ rw (e, f) (rw (sym (str_eq→eq y x f)) e)
    | inr f ↦ rw (e, f) refl
  ]
  | inr e ↦ rw e refl
]

pub has-erase : (x y : Str) (ys : List Str) → has x (erase y ys) ≡ (not (str_eq y x) && has x ys)
unfolding has erase
has-erase x y [] = ground arith
has-erase x y (z ∷ ys) = elim (Bool-cases (str_eq z y)) [
  | inl e ↦ let f = ap (λ w. str_eq w x) (str_eq→eq z y e) in ground (arith, f, has-erase x y ys)
  | inr e ↦
      let f =
        λ (g : str_eq z x ≡ true). sym (ap (str_eq y) (str_eq→eq z x g)) ∙ str_eq_sym y z ∙ e in
      ground (arith, f, has-erase x y ys)
]

pub has-eq : (x y : Str) (ys : List Str) → str_eq x y ≡ true → has x ys ≡ has y ys
has-eq x y ys e = ap (λ z. has z ys) (str_eq→eq x y e)
