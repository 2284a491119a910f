-- ===== src/Js/TextMap.antt =====
-- `Map<string, V>` as an association list: `get`, `set` and `delete`.
use pro_slides_go.Base.{
  if◌then◌else◌, String, ◌≡◌, refl, Option, none, some, List, [], ◌∷◌, str_eq, eq_iff, arith,
}

module _ {ℓ} {V : Type ℓ} where
  unfoldable pub lookup : String → List (String × V) → Option V
  lookup key [] = none
  lookup key ((k, v) ∷ m) = if str_eq k key then some v else lookup key m

  unfoldable pub insert : String → V → List (String × V) → List (String × V)
  insert key v [] = (key, v) ∷ []
  insert key v ((k, w) ∷ m) = if str_eq k key then (key, v) ∷ m else (k, w) ∷ insert key v m

  unfoldable pub delete : String → List (String × V) → List (String × V)
  delete key [] = []
  delete key ((k, v) ∷ m) = if str_eq k key then delete key m else (k, v) ∷ delete key m

  pub lookup-delete :
      (gone wanted : String) (held : List (String × V))
      → lookup wanted (delete gone held) ≡ (if str_eq gone wanted then none else lookup wanted held)
  unfolding lookup delete
  lookup-delete gone wanted [] = ground arith
  lookup-delete gone wanted ((key, v) ∷ rest) = ground (
    arith,
    lookup-delete gone wanted rest,
    eq_iff key gone,
    eq_iff key wanted,
    eq_iff gone wanted,
  )

  pub lookup-insert :
      (added wanted : String) (v : V) (held : List (String × V))
      → lookup wanted (insert added v held)
        ≡ (if str_eq added wanted then some v else lookup wanted held)
  unfolding lookup insert
  lookup-insert added wanted v [] = refl
  lookup-insert added wanted v ((key, w) ∷ rest) = ground (
    arith,
    lookup-insert added wanted v rest,
    eq_iff key wanted,
    eq_iff added wanted,
    eq_iff key added,
  )
