-- ===== src/Map.antt =====
-- `std::map<std::string, V>` as an association list: `find`, and assignment through `operator[]`.
-- The order of the entries is not observable in the program.
use a_multi_threaded_key_val.Prelude.{
  ◌≡◌, refl, Option, none, some, List, [], ◌∷◌, arith, Bool-cases, inl, inr, if◌then◌else◌,
}
use a_multi_threaded_key_val.Text.{Str, ◌=str◌, =str_iff, =str→eq}

abbrev pub Map {ℓ} : Type ℓ → Type ℓ
Map V = List (Str × V)

module _ {ℓ} {V : Type ℓ} where
  -- `m.find(k)`: `none` is `m.end()`
  unfoldable pub find : Str → Map V → Option V
  find k [] = none
  find k ((j, v) ∷ m) = if j =str k then some v else find k m

  -- `m[k] = v`
  unfoldable pub assign : Str → V → Map V → Map V
  assign k v [] = (k, v) ∷ []
  assign k v ((j, w) ∷ m) = if j =str k then (k, v) ∷ m else (j, w) ∷ assign k v m

  pub find-empty : (k : Str) → find k [] ≡ none
  unfolding find
  find-empty k = refl

  pub find-assign :
      (k j : Str) (v : V) (m : Map V)
      → find j (assign k v m) ≡ (if k =str j then some v else find j m)
  unfolding find assign
  find-assign k j v [] = refl
  find-assign k j v ((i, w) ∷ m) =
      ground (arith, =str_iff k j, =str_iff i k, =str_iff i j, find-assign k j v m)

-- The keys are distinct, as in every `std::map`.
module _ {ℓ} {V : Type ℓ} where
  abbrev pub IsMap : Map V → Type ℓ
  IsMap [] = Unit
  IsMap ((k, v) ∷ m) = (find k m ≡ none) × IsMap m

  pub assign-IsMap : (k : Str) (v : V) (m : Map V) → IsMap m → IsMap (assign k v m)
  unfolding assign
  assign-IsMap k v [] h = (find-empty k, tt)
  assign-IsMap k v ((j, w) ∷ m) h = elim (Bool-cases (j =str k)) [
    | inl same ↦ rw same (rw (=str→eq j k same) at h.0, h.1)
    | inr other ↦ rw other (
      ground (arith, other, h.0, find-assign k j v m, =str_iff k j, =str_iff j k),
      assign-IsMap k v m h.1,
    )
  ]
