-- ===== src/Proxy/Debug/Trim.antt =====
-- proxy/debug.go: what TrimSpace takes away from a text that ends with a space.
use kroxy.Base.{
  ◌≡◌, refl, sym, ap, ◌∙◌, arith, ℕ, zero, suc, ◌<◌, ltb, false, ◌&&◌, List, [], ◌∷◌, ◌++◌,
  append_assoc, append-nil, Bytes, length, length-append, has_prefix, All,
}
use kroxy.Proxy.Debug.{spaces, reverse, reverse_all, leading, trim_front, trim_space}

-- A printable character of ASCII, but for the space.
abbrev pub IsPlain : ℕ → Type 0
IsPlain b = (32 < b) × (b < 127)

-- A sequence that does not begin with a plain character.
abbrev IsOff : Bytes → Type 0
IsOff [] = ⊥
IsOff (x ∷ p) = (ltb 32 x && ltb x 127) ≡ false

leading_plain :
    (ps : List Bytes) (b : ℕ) (s : Bytes) → All IsOff ps → IsPlain b → leading ps (b ∷ s) ≡ 0
unfolding leading has_prefix
leading_plain [] b s off h = refl
leading_plain ([] ∷ ps) b s off h = absurd off.0
leading_plain ((x ∷ p) ∷ ps) b s off h = ground (arith, off.0, h, leading_plain ps b s off.1 h)

spaces-IsOff : All IsOff spaces
spaces-IsOff = (
  refl,
  (
    refl,
    (
      refl,
      (
        refl,
        (
          refl,
          (
            refl,
            (
              refl,
              (
                refl,
                (
                  refl,
                  (
                    refl,
                    (
                      refl,
                      (
                        refl,
                        (
                          refl,
                          (
                            refl,
                            (
                              refl,
                              (
                                refl,
                                (
                                  refl,
                                  (
                                    refl,
                                    (refl, (refl, (refl, (refl, (refl, (refl, (refl, tt))))))),
                                  ),
                                ),
                              ),
                            ),
                          ),
                        ),
                      ),
                    ),
                  ),
                ),
              ),
            ),
          ),
        ),
      ),
    ),
  ),
)

spaces_back-IsOff : All IsOff (reverse_all spaces)
spaces_back-IsOff = (
  refl,
  (
    refl,
    (
      refl,
      (
        refl,
        (
          refl,
          (
            refl,
            (
              refl,
              (
                refl,
                (
                  refl,
                  (
                    refl,
                    (
                      refl,
                      (
                        refl,
                        (
                          refl,
                          (
                            refl,
                            (
                              refl,
                              (
                                refl,
                                (
                                  refl,
                                  (
                                    refl,
                                    (refl, (refl, (refl, (refl, (refl, (refl, (refl, tt))))))),
                                  ),
                                ),
                              ),
                            ),
                          ),
                        ),
                      ),
                    ),
                  ),
                ),
              ),
            ),
          ),
        ),
      ),
    ),
  ),
)

trim_front_kept :
    (ps : List Bytes) (fuel : ℕ) (s : Bytes) → leading ps s ≡ 0 → trim_front ps fuel s ≡ s
unfolding trim_front
trim_front_kept ps zero s h = refl
trim_front_kept ps (suc fuel) s h = ground (arith, h)

reverse-append : (xs ys : Bytes) → reverse (xs ++ ys) ≡ reverse ys ++ reverse xs
reverse-append [] ys = sym (append-nil (reverse ys))
reverse-append (x ∷ xs) ys =
    ap (λ r. r ++ (x ∷ [])) (reverse-append xs ys) ∙ append_assoc (reverse ys) (reverse xs) (x ∷ [])

reverse-reverse : (xs : Bytes) → reverse (reverse xs) ≡ xs
reverse-reverse [] = refl
reverse-reverse (x ∷ xs) = reverse-append (reverse xs) (x ∷ []) ∙ ap (◌∷◌ x) (reverse-reverse xs)

length-reverse : (xs : Bytes) → length (reverse xs) ≡ length xs
length-reverse [] = refl
length-reverse (x ∷ xs) = omega (arith, length-append (reverse xs) (x ∷ []), length-reverse xs)

-- A text that begins and ends with plain characters.
pub data IsBounded : Bytes → Type 0 where
  bounded :
      (b c : ℕ) (s s' : Bytes) → IsPlain b → IsPlain c → b ∷ s ≡ s' ++ (c ∷ []) → IsBounded (b ∷ s)

trim_one :
    (fuel c : ℕ) (s : Bytes)
    → IsPlain c
    → trim_front (reverse_all spaces) (suc fuel) (32 ∷ c ∷ s) ≡ c ∷ s
unfolding trim_front leading has_prefix
trim_one fuel c s h =
    trim_front_kept (reverse_all spaces) fuel (c ∷ s)
      (leading_plain (reverse_all spaces) c s spaces_back-IsOff h)

trim_space_steps :
    (s front back : Bytes)
    → trim_front spaces (length s) s ≡ front
    → trim_front (reverse_all spaces) (length front) (reverse front) ≡ back
    → trim_space s ≡ reverse back
unfolding trim_space
trim_space_steps s front back h k =
    ap (λ f. reverse (trim_front (reverse_all spaces) (length f) (reverse f))) h ∙ ap reverse k

pub trim_space_bounded : (s : Bytes) → IsBounded s → trim_space (s ++ (32 ∷ [])) ≡ s
trim_space_bounded _ (bounded b c s s' hb hc e) =
    let x = b ∷ s in
    let ended : reverse x ≡ c ∷ reverse s' = ap reverse e ∙ reverse-append s' (c ∷ []) in
    let turned : reverse (x ++ (32 ∷ [])) ≡ 32 ∷ c ∷ reverse s' =
      reverse-append x (32 ∷ []) ∙ ap (◌∷◌ 32) ended in
    let fuel = length (s ++ (32 ∷ [])) in
    trim_space_steps (x ++ (32 ∷ [])) (x ++ (32 ∷ [])) (c ∷ reverse s')
      (trim_front_kept spaces (suc fuel) (x ++ (32 ∷ []))
        (leading_plain spaces b (s ++ (32 ∷ [])) spaces-IsOff hb))
      (ap (trim_front (reverse_all spaces) (suc fuel)) turned ∙ trim_one fuel c (reverse s') hc)
    ∙ ap reverse (sym ended)
    ∙ reverse-reverse x
