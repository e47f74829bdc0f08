-- ===== src/Assoc.antt =====
-- std::unordered_map as the program uses it: an association list, in the map's order of iteration,
-- with the test for equal keys as a parameter.
use remote_monitoring_tool.Prelude.{
  ◌≡◌, refl, ap, Bool, true, false, Option, none, some, List, [], ◌∷◌, if◌then◌else◌, Bool-cases,
  inl, inr,
}

module _ {ℓ κ} {K : Type ℓ} {A : Type κ} (eq : K → K → Bool) where
  -- find
  unfoldable pub find_in : K → List (K × A) → Option A
  find_in k [] = none
  find_in k ((k', a) ∷ m) = let rest = find_in k m in if eq k k' then some a else rest

  -- m[k] = a
  unfoldable pub put : K → A → List (K × A) → List (K × A)
  put k a [] = (k, a) ∷ []
  put k a ((k', b) ∷ m) = let rest = put k a m in if eq k k' then (k', a) ∷ m else (k', b) ∷ rest

  -- erase
  unfoldable pub erase : K → List (K × A) → List (K × A)
  erase k [] = []
  erase k ((k', b) ∷ m) = let rest = erase k m in if eq k k' then rest else (k', b) ∷ rest

  pub find_in-put_same :
      ((j : K) → eq j j ≡ true)
      → (k : K) (a : A) (m : List (K × A)) → find_in k (put k a m) ≡ some a
  unfolding find_in put
  find_in-put_same same k a [] = rw (same k)
  find_in-put_same same k a ((k', b) ∷ m) = elim (Bool-cases (eq k k')) [
    | inl h ↦ rw (h, h)
    | inr h ↦ rw (h, h) (find_in-put_same same k a m)
  ]

  -- A binding is not seen by keys that differ from it.
  pub find_in-put_other :
      (j k : K)
      → ((i : K) → eq j i ≡ true → eq k i ≡ true → eq j k ≡ true)
      → eq j k ≡ false
      → (a : A) (m : List (K × A)) → find_in j (put k a m) ≡ find_in j m
  unfolding find_in put
  find_in-put_other j k joins ne a [] = rw ne
  find_in-put_other j k joins ne a ((i, b) ∷ m) = elim (Bool-cases (eq k i)) [
    | inl h ↦ elim (Bool-cases (eq j i)) [ inl g ↦ absurd (cc (joins i g h)) | inr g ↦ rw (h, g) ]
    | inr h ↦
        rw h (ap (λ rest. if eq j i then some b else rest) (find_in-put_other j k joins ne a m))
  ]

  -- Erasing a key leaves those that differ from it.
  pub find_in-erase_other :
      (j k : K)
      → ((i : K) → eq j i ≡ true → eq k i ≡ true → eq j k ≡ true)
      → eq j k ≡ false
      → (m : List (K × A)) → find_in j (erase k m) ≡ find_in j m
  unfolding find_in erase
  find_in-erase_other j k joins ne [] = refl
  find_in-erase_other j k joins ne ((i, b) ∷ m) = elim (Bool-cases (eq k i)) [
    | inl h ↦ elim (Bool-cases (eq j i)) [
      | inl g ↦ absurd (cc (joins i g h))
      | inr g ↦ rw (h, g) (find_in-erase_other j k joins ne m)
    ]
    | inr h ↦
        rw h (ap (λ rest. if eq j i then some b else rest) (find_in-erase_other j k joins ne m))
  ]

-- m[k] where the element may be missing, and is then made with the default value.
abbrev pub value_or {κ} : {A : Type κ} → Option A → A → A
value_or none a = a
value_or (some b) a = b

-- Whether it holds a value.
abbrev pub has_value {κ} : {A : Type κ} → Option A → Bool
has_value none = false
has_value (some a) = true
