-- ===== src/Prelude/Map.antt =====
-- `std::map` with a numeric key: an association list in the map's order, which `before` decides.
use mathlib.Core.Path.{◌≡◌, refl, subst}
use mathlib.Core.Logic.{inl, inr}
use mathlib.Core.Bool.{Bool, true, false}
use mathlib.Core.Option.{Option, none, some}
use mathlib.Core.List.{List, [], ◌∷◌}
use Prim.Native.Nat.{ℕ, ◌+◌}
use native.Mathlib.Omega.{arith}
use cs144_intro2network.Prelude.Lists.{length}
use cs144_intro2network.Prelude.Tests.{◌==◌, if◌then◌else◌, ==_iff, Bool-cases}

abbrev pub Map {ℓ} : Type ℓ → Type ℓ
Map V = List (ℕ × V)

module _ {ℓ} {V : Type ℓ} where
  -- `m.find(k)`
  unfoldable pub lookup : ℕ → Map V → Option V
  lookup k [] = none
  lookup k ((j, v) ∷ m) = if j == k then some v else lookup k m

  -- `m.erase(k)`
  unfoldable pub erase : ℕ → Map V → Map V
  erase k [] = []
  erase k ((j, v) ∷ m) = if j == k then m else (j, v) ∷ erase k m

  -- `m[k] = v`
  unfoldable pub insert : (ℕ → ℕ → Bool) → ℕ → V → Map V → Map V
  insert before k v [] = (k, v) ∷ []
  insert before k v ((j, w) ∷ m) =
      if j == k
      then (k, v) ∷ m
      else if before k j
      then (k, v) ∷ (j, w) ∷ m
      else (j, w) ∷ insert before k v m

  pub lookup-insert :
      (before : ℕ → ℕ → Bool) (k j : ℕ) (v : V) (m : Map V)
      → lookup j (insert before k v m) ≡ (if k == j then some v else lookup j m)
  unfolding lookup insert
  lookup-insert before k j v [] = refl
  lookup-insert before k j v ((i, w) ∷ m) = ground (arith, lookup-insert before k j v m)

  -- A predicate of every entry.
  abbrev pub All {κ} : (ℕ → V → Type κ) → Map V → Type κ
  All P [] = Unit
  All P ((k, v) ∷ m) = P k v × All P m

  pub All-insert {κ} :
      (P : ℕ → V → Type κ) (before : ℕ → ℕ → Bool) (k : ℕ) (v : V) (m : Map V)
      → P k v
      → All P m
      → All P (insert before k v m)
  unfolding insert
  All-insert P before k v [] p h = (p, tt)
  All-insert P before k v ((j, w) ∷ m) p h =
      pick (j == k) (before k j) (All-insert P before k v m p h.1)
    where
      pick :
          (same ahead : Bool)
          → All P (insert before k v m)
          → All P (
              if same
              then (k, v) ∷ m
              else if ahead
              then (k, v) ∷ (j, w) ∷ m
              else (j, w) ∷ insert before k v m)
      pick true ahead rest = (p, h.1)
      pick false true rest = (p, h)
      pick false false rest = (h.0, rest)

  pub All-erase {κ} : (P : ℕ → V → Type κ) (k : ℕ) (m : Map V) → All P m → All P (erase k m)
  unfolding erase
  All-erase P k [] h = tt
  All-erase P k ((j, w) ∷ m) h = pick (j == k) (All-erase P k m h.1)
    where
      pick : (same : Bool) → All P (erase k m) → All P (if same then m else (j, w) ∷ erase k m)
      pick true rest = h.1
      pick false rest = (h.0, rest)

  pub All-lookup {κ} :
      (P : ℕ → V → Type κ) (k : ℕ) (v : V) (m : Map V) → All P m → lookup k m ≡ some v → P k v
  unfolding lookup
  All-lookup P k v [] h e = cc
  All-lookup P k v ((j, w) ∷ m) h e = elim (Bool-cases (j == k)) [
    | inl q ↦
        let p : some w ≡ some v = rw q at e in
        let r : w ≡ v = cc in subst (λ i. P i v) ((==_iff j k).0 q) (subst (P j) r h.0)
    | inr q ↦ All-lookup P k v m h.1 (rw q at e)
  ]

  pub length-erase :
      (k : ℕ) (v : V) (m : Map V) → lookup k m ≡ some v → length (erase k m) + 1 ≡ length m
  unfolding lookup erase
  length-erase k v [] e = cc
  length-erase k v ((j, w) ∷ m) e = ground (arith, length-erase k v m)
