-- ===== src/Common/Dicts.antt =====
-- Python's dict, as a list of entries in insertion order.
use mathlib.Core.Path.{◌≡◌, refl}
use mathlib.Core.Logic.{inl, inr}
use mathlib.Core.Option.{Option, none, some}
use mathlib.Core.List.{List, [], ◌∷◌}
use native.Mathlib.Omega.{arith}
use ops_inspection_system.Common.Tests.{if◌then◌else◌, Bool-cases}
use ops_inspection_system.Common.Lists.{All, All-map}
use ops_inspection_system.Common.Equality.{Eq, ◌==◌}

abbrev pub Dict {ℓ κ} : Type ℓ → Type κ → Type (ℓ ⊔ κ)
Dict K V = List (K × V)

module _ {ℓ κ} {K : Type ℓ} {V : Type κ} ⦃e : Eq K⦄ where
  -- `d.get(key)`
  unfoldable pub get : Dict K V → K → Option V
  get [] key = none
  get ((k, v) ∷ d) key = if key == k then some v else get d key

  -- `d[key] = value`
  unfoldable pub put : Dict K V → K → V → Dict K V
  put [] key value = (key, value) ∷ []
  put ((k, v) ∷ d) key value = if key == k then (k, value) ∷ d else (k, v) ∷ put d key value

  -- `d.pop(key, None)`
  unfoldable pub pop : Dict K V → K → Dict K V
  pop [] key = []
  pop ((k, v) ∷ d) key = let rest = pop d key in if key == k then rest else (k, v) ∷ rest

  pub get-put :
      (d : Dict K V) (key j : K) (value : V)
      → get (put d key value) j ≡ (if j == key then some value else get d j)
  unfolding get put
  get-put [] key j value = ground arith
  get-put ((k, v) ∷ d) key j value = ground (arith, get-put d key j value)

  pub get-put_self : (d : Dict K V) (key : K) (value : V) → get (put d key value) key ≡ some value
  get-put_self d key value = ground (arith, get-put d key key value)

  pub get-pop :
      (d : Dict K V) (key j : K) → get (pop d key) j ≡ (if j == key then none else get d j)
  unfolding get pop
  get-pop [] key j = ground arith
  get-pop ((k, v) ∷ d) key j = ground (arith, get-pop d key j)

  -- No key stands twice.
  abbrev pub IsDistinct : Dict K V → Type κ
  IsDistinct [] = Unit
  IsDistinct ((k, v) ∷ d) = (get d k ≡ none) × IsDistinct d

  pub put-IsDistinct :
      (d : Dict K V) (key : K) (value : V) → IsDistinct d → IsDistinct (put d key value)
  unfolding put get
  put-IsDistinct [] key value _ = (refl, tt)
  put-IsDistinct ((k, v) ∷ d) key value (h, hs) = elim (Bool-cases (key == k)) [
    | inl same ↦ rw (same, put) (h, hs)
    | inr other ↦
        rw (other, put) (ground (arith, get-put d key k value), put-IsDistinct d key value hs)
  ]

  -- Then each entry is the one that its key finds.
  pub All-get : (d : Dict K V) → IsDistinct d → All (λ e. get d e.0 ≡ some e.1) d
  unfolding get
  All-get [] _ = tt
  All-get ((k, v) ∷ d) (h, hs) = (
    ground arith,
    All-map (λ e. get d e.0 ≡ some e.1) (λ e. get ((k, v) ∷ d) e.0 ≡ some e.1) (λ e g. ground arith)
        d (All-get d hs),
  )
