-- ===== src/Rewrite/Compact.antt =====
-- The filter idiom of package rewrite, `out := x[:0]; for _, t := range x { ...; out = append(out, t) }`,
-- which writes the kept elements over the array that it reads; and what it computes.
use kroxy.Base.{
  All, length-append, inl, inr, get_elem?-append, set-append, take-append, ℕ, zero, suc, ◌≡◌, refl,
  ap, ◌∙◌, Option, none, some, List, [], ◌∷◌, ◌++◌, length, get_elem?, set, take, arith,
  Option-cases, append_assoc, append-nil,
}

module _ {ℓ} {A : Type ℓ} where
  -- `n` elements are still to be read, from index `i` on; `w` elements have been written. `step`
  -- is the loop's body: none for `continue`.
  unfoldable pub compact_loop : (A → Option A) → ℕ → ℕ → ℕ → List A → List A
  compact_loop step zero i w arr = take w arr
  compact_loop step (suc n) i w arr = elim (get_elem? arr i) [
    | none ↦ take w arr
    | some t ↦ elim (step t) [
      | none ↦ compact_loop step n (suc i) w arr
      | some t' ↦ compact_loop step n (suc i) (suc w) (set arr w t')
    ]
  ]

  unfoldable pub compact : (A → Option A) → List A → List A
  unfolding compact_loop
  compact step arr = compact_loop step (length arr) 0 0 arr

  -- The same filter with a fresh list.
  unfoldable pub keep : (A → Option A) → List A → List A
  keep step [] = []
  keep step (t ∷ ts) =
      let rest = keep step ts in elim (step t) [ none ↦ rest | some t' ↦ t' ∷ rest ]

  -- A kept element goes over the first element that has been read over, or over itself.
  set_front :
      (front gap : List A) (t t' : A) (ts : List A)
      → (gap' : List A) × (set (front ++ (gap ++ (t ∷ ts))) (length front) t'
          ≡ (front ++ (t' ∷ [])) ++ (gap' ++ ts))
        × (length ((front ++ (t' ∷ [])) ++ gap') ≡ suc (length (front ++ gap)))
  set_front front [] t t' ts = (
    [],
    rw (set-append, append_assoc),
    omega (
      arith,
      length-append (front ++ (t' ∷ [])) [],
      length-append front (t' ∷ []),
      length-append {ℓ} front [],
    ),
  )
  set_front front (g ∷ gs) t t' ts = (
    gs ++ (t ∷ []),
    rw (set-append) (simp append_assoc),
    omega (
      arith,
      length-append (front ++ (t' ∷ [])) (gs ++ (t ∷ [])),
      length-append front (t' ∷ []),
      length-append gs (t ∷ []),
      length-append front (g ∷ gs),
    ),
  )

  -- The array of the loop is what was written, what has been read over, and what is still unread.
  compact_loop-keep :
      (step : A → Option A) (unread front gap arr : List A) (i w : ℕ)
      → w ≡ length front
      → i ≡ length (front ++ gap)
      → arr ≡ front ++ (gap ++ unread)
      → compact_loop step (length unread) i w arr ≡ front ++ keep step unread
  unfolding compact_loop keep
  compact_loop-keep step [] front gap arr i w hw hi ha = rw (hw, ha, take-append, append-nil)
  compact_loop-keep step (t ∷ ts) front gap arr i w hw hi ha = elim (Option-cases (step t)) [
    | inl skip ↦
        rw (compact_loop, here, skip, keep)
          (compact_loop-keep step ts front (gap ++ (t ∷ [])) arr (suc i) w hw
            (omega (
              arith,
              length-append (front ++ gap) (t ∷ []),
              ap length (append_assoc front gap (t ∷ [])),
            ))
            (rw ha (simp append_assoc)))
    | inr (t', kept) ↦
        let (gap', written, count) = set_front front gap t t' ts in
        rw (compact_loop, here, kept, keep)
          (compact_loop-keep step ts (front ++ (t' ∷ [])) gap' (set arr w t') (suc i) (suc w)
              (omega (arith, length-append front (t' ∷ []))) (omega arith) (rw (ha, hw) written)
            ∙ append_assoc front (t' ∷ []) (keep step ts))
  ]
    where
      here : get_elem? arr i ≡ some t
      here = rw (ha, hi, ← append_assoc) (get_elem?-append (front ++ gap) t ts)

  -- The loop over its own array computes the filter.
  pub compact-keep : (step : A → Option A) (arr : List A) → compact step arr ≡ keep step arr
  unfolding compact
  compact-keep step arr = compact_loop-keep step arr [] [] arr 0 0 refl refl refl

  -- What the filter keeps has passed the loop's body.
  keep-All {κ} :
      (P : A → Type κ) (step : A → Option A)
      → ((t t' : A) → step t ≡ some t' → P t')
      → (ts : List A) → All P (keep step ts)
  unfolding keep
  keep-All P step h [] = tt
  keep-All P step h (t ∷ ts) = elim (Option-cases (step t)) [
    | inl skip ↦ rw (keep, skip) (keep-All P step h ts)
    | inr (t', kept) ↦ rw (keep, kept) (h t t' kept, keep-All P step h ts)
  ]

  pub compact-All {κ} :
      (P : A → Type κ) (step : A → Option A)
      → ((t t' : A) → step t ≡ some t' → P t')
      → (ts : List A) → All P (compact step ts)
  compact-All P step h ts = rw compact-keep (keep-All P step h ts)
