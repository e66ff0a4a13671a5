-- ===== src/Surround/Rows.antt =====
-- Buffers of buffers, read and written by two indices.
use soundswamp.Prelude.{
  ℕ, zero, suc, ◌≤◌, ◌<◌, ◌≡◌, refl, true, ◌&&◌, List, [], ◌∷◌, ◌==◌, ltb, if◌then◌else◌, arith,
  length, get_or, set, replicate, length-set, length-replicate, Bool-cases, inl, inr, ltb_not→le,
}
use soundswamp.Surround.{write, roomy}

module _ {ℓ} {A : Type ℓ} where
  pub get_or-set :
      (xs : List A) (i j : ℕ) (v d : A)
      → i < length xs
      → get_or (set xs i v) j d ≡ (if i == j then v else get_or xs j d)
  get_or-set [] i j v d h = absurd (omega arith)
  get_or-set (x ∷ xs) zero zero v d h = refl
  get_or-set (x ∷ xs) zero (suc j) v d h = ground arith
  get_or-set (x ∷ xs) (suc i) zero v d h = ground arith
  get_or-set (x ∷ xs) (suc i) (suc j) v d h = ground (arith, get_or-set xs i j v d)

  pub get_or-replicate : (n i : ℕ) (v d : A) → i < n → get_or (replicate n v) i d ≡ v
  get_or-replicate zero i v d h = absurd (omega arith)
  get_or-replicate (suc n) zero v d h = refl
  get_or-replicate (suc n) (suc i) v d h = get_or-replicate n i v d (omega arith)

module _ {ℓ} {A : Type ℓ} where
  -- Buffer `ch` has room for `p` samples, for each `ch` below `n`.
  pub record Room (n p : ℕ) (output : List (List A)) : Type ℓ where
    pub rows : n ≤ length output
    pub columns : (ch : ℕ) → ch < n → p ≤ length (get_or output ch [])

  pub replicate-Room : (n p : ℕ) (v : A) → Room n p (replicate n (replicate p v))
  replicate-Room n p v = record {
    rows = omega (arith, length-replicate n (replicate p v));
    columns = λ ch h.
        rw (get_or-replicate n ch (replicate p v) [] h) (omega (arith, length-replicate p v));
  }

  pub write-Room :
      (silence : A) (n p : ℕ) (output : List (List A)) (ch s : ℕ) (v : A)
      → ch < length output
      → Room n p output
      → Room n p (write silence output ch s v)
  unfolding write
  write-Room silence n p output ch s v hc r = record {
    rows = omega (arith, r.rows, length-set output ch (set (get_or output ch []) s v));
    columns = λ c h. rw (get_or-set output ch c (set (get_or output ch []) s v) [] hc) (kept c h);
  }
    where
      kept :
          (c : ℕ)
          → c < n
          → p ≤ length (if ch == c then set (get_or output ch []) s v else get_or output c [])
      kept c h = ground (arith, r.columns c h, length-set (get_or output ch []) s v)

  -- A sample of a buffer; `silence` outside.
  abbrev pub at : A → List (List A) → ℕ → ℕ → A
  at silence output ch s = get_or (get_or output ch []) s silence

  pub at-write :
      (silence : A) (n p : ℕ) (output : List (List A)) (ch s ch' s' : ℕ) (v : A)
      → Room n p output
      → ch < n
      → s < p
      → at silence (write silence output ch s v) ch' s'
        ≡ (if ch == ch' && s == s' then v else at silence output ch' s')
  unfolding write
  at-write silence n p output ch s ch' s' v r hc hs =
      rw (get_or-set output ch ch' (set (get_or output ch []) s v) [] (omega (arith, r.rows))) (
        ground
          (arith, get_or-set (get_or output ch []) s s' v silence (omega (arith, r.columns ch hc))))

  pub length-write :
      (silence : A) (output : List (List A)) (ch s : ℕ) (v : A)
      → length (write silence output ch s v) ≡ length output
  unfolding write
  length-write silence output ch s v = length-set output ch (set (get_or output ch []) s v)

  pub roomy-Room : (n p : ℕ) (output : List (List A)) → roomy n p output ≡ true → Room n p output
  unfolding roomy
  roomy-Room zero p output h = record { rows = omega arith; columns = λ ch k. absurd (omega arith) }
  roomy-Room (suc n) p [] h = cc
  roomy-Room (suc n) p (row ∷ rows) h = elim (Bool-cases (ltb (length row) p)) [
    | inl short ↦ cc
    | inr fits ↦
        let rest : Room n p rows = roomy-Room n p rows (ground arith) in
        record { rows = omega (arith, rest.rows); columns = column rest (ltb_not→le _ _ fits) }
  ]
    where
      column :
          Room n p rows
          → p ≤ length row
          → (ch : ℕ) → ch < suc n
          → p ≤ length (get_or (row ∷ rows) ch [])
      column rest fits zero k = fits
      column rest fits (suc ch) k = rest.columns ch (omega arith)

module _ {ℓ} {A : Type ℓ} where
  abbrev pub row_length : List (List A) → ℕ → ℕ
  row_length output ch = length (get_or output ch [])

  set-row_length :
      (output : List (List A)) (ch c : ℕ) (row : List A)
      → length row ≡ row_length output ch
      → row_length (set output ch row) c ≡ row_length output c
  set-row_length [] ch c row h = refl
  set-row_length (x ∷ xs) zero zero row h = h
  set-row_length (x ∷ xs) zero (suc c) row h = refl
  set-row_length (x ∷ xs) (suc ch) zero row h = refl
  set-row_length (x ∷ xs) (suc ch) (suc c) row h = set-row_length xs ch c row h

  pub write-row_length :
      (silence : A) (output : List (List A)) (ch s c : ℕ) (v : A)
      → row_length (write silence output ch s v) c ≡ row_length output c
  unfolding write
  write-row_length silence output ch s c v =
      set-row_length output ch c (set (get_or output ch []) s v)
        (length-set (get_or output ch []) s v)
