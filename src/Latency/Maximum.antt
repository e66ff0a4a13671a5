-- ===== src/Latency/Maximum.antt =====
-- internal/sync/latency.go: the loop in recalculate that looks for the largest P95.
use soundswamp.Prelude.{◌≡◌, refl, ◌∙◌, ◌⊎◌, inl, inr, false, [], ◌∷◌, if◌then◌else◌, Bool-cases}
use soundswamp.Prelude.Table.{GoString, Table}
use soundswamp.Prelude.Float.{Float, IsFloat}
use soundswamp.Latency.{JitterReport, max_p95}

module _ (f : Float) where
  -- `x` is the P95 of one of the reports.
  abbrev pub Reported : f.Carrier → Table GoString (JitterReport f) → Type 0
  Reported x [] = ⊥
  Reported x ((id, r) ∷ rs) = (x ≡ r.p95_ms) ⊎ Reported x rs

module _ (f : Float) (laws : IsFloat f) where
  open f use {Carrier, lt, lit}

  -- The running maximum never falls.
  max_p95_grows :
      (acc x : Carrier) (rs : Table GoString (JitterReport f))
      → lt acc x ≡ false
      → lt (max_p95 f acc rs) x ≡ false
  unfolding max_p95
  max_p95_grows acc x [] h = h
  max_p95_grows acc x ((id, r) ∷ rs) h = elim (Bool-cases (lt acc r.p95_ms)) [
    | inl up ↦ rw up (
        max_p95_grows r.p95_ms x rs (elim (Bool-cases (lt r.p95_ms x)) [
          | inl more ↦ cc (laws.lt_trans acc r.p95_ms x up more)
          | inr stop ↦ stop
        ]))
    | inr same ↦ rw same (max_p95_grows acc x rs h)
  ]

  pub max_p95_bounds :
      (acc x : Carrier) (rs : Table GoString (JitterReport f))
      → Reported f x rs
      → lt (max_p95 f acc rs) x ≡ false
  unfolding max_p95
  max_p95_bounds acc x [] h = absurd h
  max_p95_bounds acc x ((id, r) ∷ rs) (inr h) =
      max_p95_bounds (if lt acc r.p95_ms then r.p95_ms else acc) x rs h
  max_p95_bounds acc x ((id, r) ∷ rs) (inl e) = elim (Bool-cases (lt acc r.p95_ms)) [
    | inl up ↦ rw up (max_p95_grows r.p95_ms x rs (rw e (laws.lt_irrefl r.p95_ms)))
    | inr same ↦ rw same (max_p95_grows acc x rs (rw e same))
  ]

  pub max_p95_attained :
      (acc : Carrier) (rs : Table GoString (JitterReport f))
      → (max_p95 f acc rs ≡ acc) ⊎ Reported f (max_p95 f acc rs) rs
  unfolding max_p95
  max_p95_attained acc [] = inl refl
  max_p95_attained acc ((id, r) ∷ rs) =
      elim (max_p95_attained (if lt acc r.p95_ms then r.p95_ms else acc) rs) [
        | inr h ↦ inr (inr h)
        | inl e ↦ elim (Bool-cases (lt acc r.p95_ms)) [
          | inl up ↦ inr (inl (e ∙ rw up))
          | inr same ↦ inl (e ∙ rw same)
        ]
      ]

  -- Go visits a map in any order. Where every P95 of one list of reports is in the other, the
  -- maximum of the second, taken from 0 on, is not below that of the first: so two orders of one map
  -- give maxima of which neither is below the other.
  pub max_p95_order :
      (xs ys : Table GoString (JitterReport f))
      → ((x : Carrier) → Reported f x xs → Reported f x ys)
      → lt (max_p95 f (lit 0) ys) (max_p95 f (lit 0) xs) ≡ false
  max_p95_order xs ys h = elim (max_p95_attained (lit 0) xs) [
    | inl e ↦ rw e (max_p95_grows (lit 0) (lit 0) ys (laws.lt_irrefl (lit 0)))
    | inr r ↦ max_p95_bounds (lit 0) _ ys (h _ r)
  ]
