-- ===== src/Prelude/Table.antt =====
-- Go maps as association lists: a write replaces, a delete removes, and a key stands at most once
-- in a list that these build. Keys are compared through an instance.
use mathlib.Core.Path.{subst}
use soundswamp.Prelude.{
  ℕ, ◌+◌, ◌≡◌, refl, sym, ◌∙◌, ◌≢◌, ◌↔◌, ◌⊎◌, inl, inr, Bool, true, false, ◌&&◌, Option, none, some,
  List, [], ◌∷◌, arith, ◌==◌, ==_iff, if◌then◌else◌, length, Bool-cases, All, ap₂,
}

pub record Eq {ℓ} (A : Type ℓ) : Type ℓ where
  pub beq : A → A → Bool
  pub beq_iff : (a b : A) → (beq a b ≡ true) ↔ (a ≡ b)

instance abbrev pub nat_eq : Eq ℕ
nat_eq = record { beq = ◌==◌; beq_iff = ==_iff }

-- A Go string is its sequence of bytes.
abbrev pub GoString : Type 0
GoString = List ℕ

unfoldable pub str_eq : GoString → GoString → Bool
str_eq [] [] = true
str_eq [] (d ∷ ds) = false
str_eq (c ∷ cs) [] = false
str_eq (c ∷ cs) (d ∷ ds) = c == d && str_eq cs ds

pub str_eq_iff : (s t : GoString) → (str_eq s t ≡ true) ↔ (s ≡ t)
unfolding str_eq
str_eq_iff [] [] = (λ _. refl, λ _. refl)
str_eq_iff [] (d ∷ ds) = (λ h. cc, λ h. cc)
str_eq_iff (c ∷ cs) [] = (λ h. cc, λ h. cc)
str_eq_iff (c ∷ cs) (d ∷ ds) =
    (λ h. ground (arith, str_eq_iff cs ds), λ h. ground (arith, str_eq_iff cs ds))

instance abbrev pub string_eq : Eq GoString
string_eq = record { beq = str_eq; beq_iff = str_eq_iff }

abbrev pub Table {ℓ κ} : Type ℓ → Type κ → Type (ℓ ⊔ κ)
Table K V = List (K × V)

module _ {ℓ} {K : Type ℓ} ⦃e : Eq K⦄ where
  pub beq_self : (k : K) → e.beq k k ≡ true
  beq_self k = (e.beq_iff k k).1 refl

  pub beq_ne : (k j : K) → k ≢ j → e.beq k j ≡ false
  beq_ne k j h = elim (Bool-cases (e.beq k j)) [
    | inl t ↦ absurd (h ((e.beq_iff k j).0 t))
    | inr f ↦ f
  ]

module _ {ℓ κ} {K : Type ℓ} {V : Type κ} ⦃e : Eq K⦄ where
  unfoldable pub lookup : K → Table K V → Option V
  lookup k [] = none
  lookup k ((j, v) ∷ m) = if e.beq j k then some v else lookup k m

  unfoldable pub insert : K → V → Table K V → Table K V
  insert k v [] = (k, v) ∷ []
  insert k v ((j, w) ∷ m) = if e.beq j k then (k, v) ∷ m else (j, w) ∷ insert k v m

  unfoldable pub delete : K → Table K V → Table K V
  delete k [] = []
  delete k ((j, w) ∷ m) = let rest = delete k m in if e.beq j k then rest else (j, w) ∷ rest

  pub lookup-insert :
      (k j : K) (v : V) (m : Table K V)
      → lookup j (insert k v m) ≡ (if e.beq k j then some v else lookup j m)
  unfolding lookup insert
  lookup-insert k j v [] = refl
  lookup-insert k j v ((i, w) ∷ m) =
      ground (arith, e.beq_iff k j, e.beq_iff i k, e.beq_iff i j, lookup-insert k j v m)

  pub lookup-delete :
      (k j : K) (m : Table K V) → lookup j (delete k m) ≡ (if e.beq k j then none else lookup j m)
  unfolding lookup delete
  lookup-delete k j [] = ground arith
  lookup-delete k j ((i, w) ∷ m) =
      ground (arith, e.beq_iff k j, e.beq_iff i k, e.beq_iff i j, lookup-delete k j m)

  pub lookup-insert_self : (k : K) (v : V) (m : Table K V) → lookup k (insert k v m) ≡ some v
  lookup-insert_self k v m = ground (arith, lookup-insert k k v m, beq_self k)

  pub lookup-delete_self : (k : K) (m : Table K V) → lookup k (delete k m) ≡ none
  lookup-delete_self k m = ground (arith, lookup-delete k k m, beq_self k)

  pub lookup-insert_ne :
      (k j : K) (v : V) (m : Table K V) → k ≢ j → lookup j (insert k v m) ≡ lookup j m
  lookup-insert_ne k j v m h = ground (arith, lookup-insert k j v m, beq_ne k j h)

  pub lookup-delete_ne : (k j : K) (m : Table K V) → k ≢ j → lookup j (delete k m) ≡ lookup j m
  lookup-delete_ne k j m h = ground (arith, lookup-delete k j m, beq_ne k j h)

  pub length-insert :
      (k : K) (v : V) (m : Table K V) → lookup k m ≡ none → length (insert k v m) ≡ length m + 1
  unfolding lookup insert
  length-insert k v [] h = omega arith
  length-insert k v ((j, w) ∷ m) h = ground (arith, length-insert k v m)

  pub delete-absent : (k : K) (m : Table K V) → lookup k m ≡ none → delete k m ≡ m
  unfolding lookup delete
  delete-absent k [] h = refl
  delete-absent k ((j, w) ∷ m) h = ground (arith, delete-absent k m)

-- Each key stands once.
module _ {ℓ κ} {K : Type ℓ} {V : Type κ} ⦃e : Eq K⦄ where
  abbrev pub Unique : Table K V → Type κ
  Unique [] = Unit
  Unique ((k, v) ∷ m) = (lookup k m ≡ none) × Unique m

  pub insert-Unique : (k : K) (v : V) (m : Table K V) → Unique m → Unique (insert k v m)
  unfolding insert
  insert-Unique k v [] u = (unfold lookup in refl, tt)
  insert-Unique k v ((j, w) ∷ m) u = elim (Bool-cases (e.beq j k)) [
    | inl same ↦ rw same (rw (sym ((e.beq_iff j k).0 same)) u.0, u.1)
    | inr other ↦
        rw other
          (lookup-insert_ne k j v m (λ p. cc (beq_self j, p, other)) ∙ u.0, insert-Unique k v m u.1)
  ]

  lookup-delete_absent :
      (k j : K) (m : Table K V) → lookup j m ≡ none → lookup j (delete k m) ≡ none
  lookup-delete_absent k j m h = ground (arith, lookup-delete k j m)

  pub delete-Unique : (k : K) (m : Table K V) → Unique m → Unique (delete k m)
  unfolding delete
  delete-Unique k [] u = tt
  delete-Unique k ((j, w) ∷ m) u = elim (Bool-cases (e.beq j k)) [
    | inl same ↦ rw same (delete-Unique k m u.1)
    | inr other ↦ rw other (lookup-delete_absent k j m u.0, delete-Unique k m u.1)
  ]

-- Every key of one table is a key of another.
module _ {ℓ κ} {K : Type ℓ} {V : Type κ} ⦃e : Eq K⦄ where
  abbrev pub KeysOf : Table K V → Table K V → Type (ℓ ⊔ κ)
  KeysOf m' m = (k : K) (v : V) → lookup k m' ≡ some v → (w : V) × (lookup k m ≡ some w)

  pub delete-KeysOf : (k : K) (m : Table K V) → KeysOf (delete k m) m
  delete-KeysOf k m j v h = (v, ground (arith, lookup-delete k j m, h))

  -- Whoever is found after a deletion is another one.
  pub delete-Other :
      (k j : K) (m : Table K V) (v : V)
      → lookup j (delete k m) ≡ some v
      → (j ≢ k) × (lookup j m ≡ some v)
  delete-Other k j m v h =
      ((λ p. cc (rw p at h, lookup-delete_self k m)), ground (arith, lookup-delete k j m, h))

  pub insert_known-KeysOf :
      (k : K) (v w : V) (m : Table K V) → lookup k m ≡ some w → KeysOf (insert k v m) m
  insert_known-KeysOf k v w m known j u h = elim (Bool-cases (e.beq k j)) [
    | inl same ↦ rw (sym ((e.beq_iff k j).0 same)) (w, known)
    | inr other ↦ (u, ground (arith, lookup-insert k j v m, h, other))
  ]

  -- Whoever is found after an insertion is the new one or was found before.
  pub insert-cases :
      (k j : K) (v u : V) (m : Table K V)
      → lookup j (insert k v m) ≡ some u
      → (j ≡ k) ⊎ (lookup j m ≡ some u)
  insert-cases k j v u m h = elim (Bool-cases (e.beq k j)) [
    | inl same ↦ inl (sym ((e.beq_iff k j).0 same))
    | inr other ↦ inr (ground (arith, lookup-insert k j v m, h, other))
  ]

  pub cons-KeysOf :
      (k : K) (v w : V) (m' m : Table K V) → KeysOf m' m → KeysOf ((k, v) ∷ m') ((k, w) ∷ m)
  unfolding lookup
  cons-KeysOf k v w m' m sub j u h = elim (Bool-cases (e.beq k j)) [
    | inl same ↦ rw same (w, refl)
    | inr other ↦ rw other (sub j u (rw other at h))
  ]

  pub no_keys : (m : Table K V) → ((k : K) → lookup k m ≡ none) → m ≡ []
  unfolding lookup
  no_keys [] h = refl
  no_keys ((k, v) ∷ m) h = cc (rw (beq_self k) at (h k))

-- What holds of every entry.
module _ {ℓ κ ι} {K : Type ℓ} {V : Type κ} ⦃e : Eq K⦄ (P : K × V → Type ι) where
  pub insert-All : (k : K) (v : V) (m : Table K V) → P (k, v) → All P m → All P (insert k v m)
  unfolding insert
  insert-All k v [] p h = (p, tt)
  insert-All k v ((j, w) ∷ m) p h = elim (Bool-cases (e.beq j k)) [
    | inl same ↦ rw same (p, h.1)
    | inr other ↦ rw other (h.0, insert-All k v m p h.1)
  ]

  pub delete-All : (k : K) (m : Table K V) → All P m → All P (delete k m)
  unfolding delete
  delete-All k [] h = tt
  delete-All k ((j, w) ∷ m) h = elim (Bool-cases (e.beq j k)) [
    | inl same ↦ rw same (delete-All k m h.1)
    | inr other ↦ rw other (h.0, delete-All k m h.1)
  ]

  pub lookup-All : (k : K) (v : V) (m : Table K V) → All P m → lookup k m ≡ some v → P (k, v)
  unfolding lookup
  lookup-All k v [] h found = cc found
  lookup-All k v ((j, w) ∷ m) h found = elim (Bool-cases (e.beq j k)) [
    | inl same ↦
        let value : some w ≡ some v = ground (arith, found, same) in
        let here : (j, w) ≡ (k, v) = ap₂ (λ a b. (a, b)) ((e.beq_iff j k).0 same) (cc value) in
        subst P here h.0
    | inr other ↦ lookup-All k v m h.1 (ground (arith, found, other))
  ]
