-- ===== src/Base/Map.antt =====
-- `Map<string, V>`: an association list in insertion order. `set` overwrites in place and appends
-- a new key; `delete` removes the key.
use mathlib.Core.Bool.{Bool}
use mathlib.Core.List.{◌++◌, List, [], ◌∷◌}
use mathlib.Core.Option.{Option, none, some}
use mathlib.Core.Logic.{◌≢◌, inl, inr}
use mathlib.Core.Path.{◌≡◌, ap, refl, subst, sym}
use Prim.Native.Nat.{◌+◌, ◌≤◌}
use native.Mathlib.Omega.{arith}
use tea_desktop.Base.Tests.{Bool-cases, if◌then◌else◌, is_some}
use tea_desktop.Base.Lists.{All, length}
use tea_desktop.Base.Text.{Text, text_eq, text_eq_iff, text_eq_refl}

module _ {ℓ} {V : Type ℓ} where
  unfoldable pub get : Text → List (Text × V) → Option V
  get k [] = none
  get k ((j, v) ∷ m) = let rest = get k m in if text_eq j k then some v else rest

  abbrev pub has : Text → List (Text × V) → Bool
  has k m = is_some (get k m)

  unfoldable pub set : Text → V → List (Text × V) → List (Text × V)
  set k v [] = (k, v) ∷ []
  set k v ((j, w) ∷ m) = let rest = set k v m in if text_eq j k then (j, v) ∷ m else (j, w) ∷ rest

  unfoldable pub delete : Text → List (Text × V) → List (Text × V)
  delete k [] = []
  delete k ((j, w) ∷ m) = let rest = delete k m in if text_eq j k then rest else (j, w) ∷ rest

  pub get-set :
      (k j : Text) (v : V) (m : List (Text × V))
      → get j (set k v m) ≡ (if text_eq k j then some v else get j m)
  unfolding get set
  get-set k j v [] = refl
  get-set k j v ((i, w) ∷ m) =
      ground (arith, text_eq_iff k j, text_eq_iff i k, text_eq_iff i j, get-set k j v m)

  pub get-delete :
      (k j : Text) (m : List (Text × V))
      → get j (delete k m) ≡ (if text_eq k j then none else get j m)
  unfolding get delete
  get-delete k j [] = ground arith
  get-delete k j ((i, w) ∷ m) =
      ground (arith, text_eq_iff k j, text_eq_iff i k, text_eq_iff i j, get-delete k j m)

  pub get-set_self : (k : Text) (v : V) (m : List (Text × V)) → get k (set k v m) ≡ some v
  get-set_self k v m = rw (get-set k k v m, text_eq_refl k)

  pub get-delete_self : (k : Text) (m : List (Text × V)) → get k (delete k m) ≡ none
  get-delete_self k m = rw (get-delete k k m, text_eq_refl k)

  pub length-delete-le : (k : Text) (m : List (Text × V)) → length (delete k m) ≤ length m
  unfolding delete
  length-delete-le k [] = omega arith
  length-delete-le k ((j, w) ∷ m) = ground (arith, length-delete-le k m)

  pub length-set-le : (k : Text) (v : V) (m : List (Text × V)) → length (set k v m) ≤ length m + 1
  unfolding set
  length-set-le k v [] = omega arith
  length-set-le k v ((j, w) ∷ m) = ground (arith, length-set-le k v m)

  -- Each key stands once.
  abbrev pub Absent : Text → List (Text × V) → Type ℓ
  Absent k m = get k m ≡ none

  abbrev pub IsMap : List (Text × V) → Type ℓ
  IsMap [] = Unit
  IsMap ((k, v) ∷ m) = Absent k m × IsMap m

  pub set-IsMap : (k : Text) (v : V) (m : List (Text × V)) → IsMap m → IsMap (set k v m)
  unfolding set get
  set-IsMap k v [] h = (refl, tt)
  set-IsMap k v ((j, w) ∷ m) h =
      ground (arith, text_eq_iff k j, text_eq_iff j k, get-set k j v m, set-IsMap k v m h.1)

  pub delete-IsMap : (k : Text) (m : List (Text × V)) → IsMap m → IsMap (delete k m)
  unfolding delete
  delete-IsMap k [] h = h
  delete-IsMap k ((j, w) ∷ m) h = ground (arith, get-delete k j m, delete-IsMap k m h.1)

  pub delete_absent : (k : Text) (m : List (Text × V)) → get k m ≡ none → delete k m ≡ m
  unfolding get delete
  delete_absent k [] h = refl
  delete_absent k ((j, w) ∷ m) h = ground (arith, delete_absent k m)

  pub set_absent :
      (k : Text) (v : V) (m : List (Text × V)) → get k m ≡ none → set k v m ≡ m ++ ((k, v) ∷ [])
  unfolding get set
  set_absent k v [] h = refl
  set_absent k v ((j, w) ∷ m) h = ground (arith, set_absent k v m)

  pub delete-cons_self :
      (k : Text) (v : V) (m : List (Text × V)) → delete k ((k, v) ∷ m) ≡ delete k m
  unfolding delete
  delete-cons_self k v m = rw (text_eq_refl k)

  pub delete-append :
      (k : Text) (m n : List (Text × V)) → delete k (m ++ n) ≡ delete k m ++ delete k n
  unfolding delete
  delete-append k [] n = refl
  delete-append k ((j, w) ∷ m) n = ground (arith, delete-append k m n)

  pub get-append_none :
      (k : Text) (m n : List (Text × V)) → get k m ≡ none → get k (m ++ n) ≡ get k n
  unfolding get
  get-append_none k [] n h = refl
  get-append_none k ((j, w) ∷ m) n h = ground (arith, get-append_none k m n)

  get-append_hit : (k : Text) (v : V) (m n : List (Text × V)) → get k (m ++ ((k, v) ∷ n)) ≢ none
  unfolding get
  get-append_hit k v [] n h = ground (arith, text_eq_refl k)
  get-append_hit k v ((j, w) ∷ m) n h = ground (arith, get-append_hit k v m n)

  -- A key that stands later in a map is absent from its first part.
  pub absent_before :
      (k : Text) (v : V) (m n : List (Text × V)) → IsMap (m ++ ((k, v) ∷ n)) → get k m ≡ none
  unfolding get
  absent_before k v [] n h = refl
  absent_before k v ((j, w) ∷ m) n h = elim (Bool-cases (text_eq j k)) [
    | inl e ↦ absurd (
        get-append_hit k v m n
          (subst (λ x. get x (m ++ ((k, v) ∷ n)) ≡ none) ((text_eq_iff j k).0 e) h.0))
    | inr e ↦ rw e (absent_before k v m n h.1)
  ]

  pub set-set : (k : Text) (v w : V) (m : List (Text × V)) → set k v (set k w m) ≡ set k v m
  unfolding set
  set-set k v w [] = rw (text_eq_refl k) refl
  set-set k v w ((j, u) ∷ m) = elim (Bool-cases (text_eq j k)) [
    | inl e ↦ rw (e, set) (rw e refl)
    | inr e ↦ rw (e, set) (rw e (ap (λ x. (j, u) ∷ x) (set-set k v w m)))
  ]

  -- Deleting the key of an entry takes out that entry.
  pub delete-middle :
      (k : Text) (v : V) (m n : List (Text × V))
      → IsMap (m ++ ((k, v) ∷ n))
      → delete k (m ++ ((k, v) ∷ n)) ≡ m ++ n
  unfolding delete
  delete-middle k v [] n h = rw (text_eq_refl k) (delete_absent k n h.0)
  delete-middle k v ((j, w) ∷ m) n h = elim (Bool-cases (text_eq j k)) [
    | inl e ↦ absurd (
        get-append_hit k v m n
          (subst (λ x. get x (m ++ ((k, v) ∷ n)) ≡ none) ((text_eq_iff j k).0 e) h.0))
    | inr e ↦ rw e (ap (λ x. (j, w) ∷ x) (delete-middle k v m n h.1))
  ]

  pub IsMap-drop :
      (k : Text) (v : V) (m n : List (Text × V)) → IsMap (m ++ ((k, v) ∷ n)) → IsMap (m ++ n)
  IsMap-drop k v m n h =
      subst IsMap (delete-middle k v m n h) (delete-IsMap k (m ++ ((k, v) ∷ n)) h)

module _ {ℓ κ} {V : Type ℓ} (P : Text × V → Type κ) where
  pub All-delete : (k : Text) (m : List (Text × V)) → All P m → All P (delete k m)
  unfolding delete
  All-delete k [] h = h
  All-delete k ((j, w) ∷ m) h = elim (Bool-cases (text_eq j k)) [
    | inl e ↦ rw e (All-delete k m h.1)
    | inr e ↦ rw e (h.0, All-delete k m h.1)
  ]

  pub All-set_new :
      (k : Text) (v : V) (m : List (Text × V))
      → get k m ≡ none
      → All P m
      → P (k, v)
      → All P (set k v m)
  unfolding get set
  All-set_new k v [] n h p = (p, tt)
  All-set_new k v ((j, w) ∷ m) n h p = elim (Bool-cases (text_eq j k)) [
    | inl e ↦ absurd (ground arith)
    | inr e ↦ rw e (h.0, All-set_new k v m (ground arith) h.1 p)
  ]

  -- What all entries have, the entry of a key has.
  pub All-get : (k : Text) (v : V) (m : List (Text × V)) → get k m ≡ some v → All P m → P (k, v)
  unfolding get
  All-get k v [] e h = absurd (ground arith)
  All-get k v ((j, w) ∷ m) e h = elim (Bool-cases (text_eq j k)) [
    | inl f ↦
        subst P (ap (λ (x : Text). (x, v)) ((text_eq_iff j k).0 f))
          (subst (λ (x : V). P (j, x)) (ground arith) h.0)
    | inr f ↦ All-get k v m (ground arith) h.1
  ]

  pub All-set : (k : Text) (v : V) (m : List (Text × V)) → All P m → P (k, v) → All P (set k v m)
  unfolding set
  All-set k v [] h p = (p, tt)
  All-set k v ((j, w) ∷ m) h p = elim (Bool-cases (text_eq j k)) [
    | inl e ↦ rw e (subst (λ (x : Text). P (x, v)) (sym ((text_eq_iff j k).0 e)) p, h.1)
    | inr e ↦ rw e (h.0, All-set k v m h.1 p)
  ]
