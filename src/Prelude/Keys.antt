-- ===== src/Prelude/Keys.antt =====
-- The keys of an association list.
use infinid.Prelude.Assoc.{Eq, lookup, insert}
use infinid.Prelude.Bytes.{contains, Distinct}
use infinid.Prelude.{
  ◌≡◌, ◌∙◌, inl, inr, refl, Bool, true, false, ◌||◌, Option, none, some, List, [], ◌∷◌, Bool-cases,
  arith,
}

unfoldable pub keys {ℓ κ} : {K : Type ℓ} {V : Type κ} → List (K × V) → List K
keys [] = []
keys ((k, v) ∷ m) = k ∷ keys m

abbrev pub is_some {ℓ} : {A : Type ℓ} → Option A → Bool
is_some none = false
is_some (some a) = true

module _ {K V : Type 0} ⦃e : Eq K⦄ where
  pub contains-keys-insert :
      (k j : K) (v : V) (m : List (K × V))
      → contains (keys (insert k v m)) j ≡ (e.beq k j || contains (keys m) j)
  unfolding contains keys insert
  contains-keys-insert k j v [] = refl
  contains-keys-insert k j v ((i, w) ∷ m) =
      ground (arith, e.beq_iff i k, e.beq_iff k j, e.beq_iff i j, contains-keys-insert k j v m)

  pub keys-insert-Distinct :
      (k : K) (v : V) (m : List (K × V)) → Distinct (keys m) → Distinct (keys (insert k v m))
  unfolding contains keys insert
  keys-insert-Distinct k v [] d = (refl, tt)
  keys-insert-Distinct k v ((j, w) ∷ m) d = elim (Bool-cases (e.beq j k)) [
    | inl same ↦ let is : j ≡ k = (e.beq_iff j k).0 same in rw same (rw is at d.0, d.1)
    | inr other ↦ rw other (
      contains-keys-insert k j v m ∙ ground (arith, d.0, e.beq_iff k j, e.beq_iff j k),
      keys-insert-Distinct k v m d.1,
    )
  ]

  -- A key is there exactly when it has a value.
  pub contains-keys : (k : K) (m : List (K × V)) → contains (keys m) k ≡ is_some (lookup k m)
  unfolding contains keys lookup
  contains-keys k [] = refl
  contains-keys k ((j, v) ∷ m) = ground (arith, contains-keys k m)

  pub lookup-of_not_keys :
      (k : K) (m : List (K × V)) → contains (keys m) k ≡ false → lookup k m ≡ none
  lookup-of_not_keys k m h = ground (arith, contains-keys k m)
