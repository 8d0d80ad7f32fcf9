-- ===== src/Base/TextSet.antt =====
-- `Set<string>`: a list in insertion order.
use mathlib.Core.Bool.{Bool, false, ◌||◌}
use mathlib.Core.List.{List, [], ◌∷◌, ◌++◌}
use mathlib.Core.Path.{◌≡◌, refl}
use native.Mathlib.Omega.{arith}
use tea_desktop.Base.Tests.{if◌then◌else◌}
use tea_desktop.Base.Text.{Text, text_eq, text_eq_iff, text_eq_refl}

unfoldable pub contains : Text → List Text → Bool
contains k [] = false
contains k (x ∷ xs) = text_eq x k || contains k xs

unfoldable pub add : Text → List Text → List Text
unfolding contains
add k xs = if contains k xs then xs else xs ++ (k ∷ [])

unfoldable pub remove : Text → List Text → List Text
remove k [] = []
remove k (x ∷ xs) = let rest = remove k xs in if text_eq x k then rest else x ∷ rest

contains-snoc :
    (k j : Text) (xs : List Text) → contains j (xs ++ (k ∷ [])) ≡ (contains j xs || text_eq k j)
unfolding contains
contains-snoc k j [] = ground arith
contains-snoc k j (x ∷ xs) = ground (arith, contains-snoc k j xs)

pub contains-add :
    (k j : Text) (xs : List Text) → contains j (add k xs) ≡ (contains j xs || text_eq k j)
unfolding add
contains-add k j xs = ground (arith, contains-snoc k j xs, text_eq_iff k j)

pub contains-remove :
    (k j : Text) (xs : List Text)
    → contains j (remove k xs) ≡ (if text_eq k j then false else contains j xs)
unfolding contains remove
contains-remove k j [] = ground arith
contains-remove k j (x ∷ xs) =
    ground (arith, contains-remove k j xs, text_eq_iff x k, text_eq_iff x j, text_eq_iff k j)

pub add_new : (k : Text) (xs : List Text) → contains k xs ≡ false → add k xs ≡ xs ++ (k ∷ [])
unfolding add
add_new k xs h = ground arith

pub remove_absent : (k : Text) (xs : List Text) → contains k xs ≡ false → remove k xs ≡ xs
unfolding contains remove
remove_absent k [] h = refl
remove_absent k (x ∷ xs) h = ground (arith, remove_absent k xs)

-- No member stands twice.
abbrev pub Unique : List Text → Type 0
Unique [] = Unit
Unique (x ∷ xs) = (contains x xs ≡ false) × Unique xs

pub Unique-snoc :
    (xs : List Text) (k : Text) → Unique xs → contains k xs ≡ false → Unique (xs ++ (k ∷ []))
unfolding contains
Unique-snoc [] k u h = (refl, tt)
Unique-snoc (x ∷ xs) k u h = (
  ground (arith, contains-snoc k x xs, text_eq_iff x k, text_eq_iff k x),
  Unique-snoc xs k u.1 (ground arith),
)

pub Unique-remove : (k : Text) (xs : List Text) → Unique xs → Unique (remove k xs)
unfolding remove
Unique-remove k [] u = u
Unique-remove k (x ∷ xs) u = ground (arith, contains-remove k x xs, Unique-remove k xs u.1)

pub remove-cons_self : (k : Text) (xs : List Text) → remove k (k ∷ xs) ≡ remove k xs
unfolding remove
remove-cons_self k xs = rw (text_eq_refl k)

pub contains-remove_self : (k : Text) (xs : List Text) → contains k (remove k xs) ≡ false
contains-remove_self k xs = rw (contains-remove k k xs, text_eq_refl k)
