-- ===== src/Proxy/Debug/Words.antt =====
-- proxy/debug.go: the names in a summary of a request can be read off it.
use kroxy.Base.{
  ◌≡◌, map, refl, sym, ap, ◌∙◌, arith, ℕ, ◌==◌, if◌then◌else◌, List, [], ◌∷◌, ◌++◌, append_assoc,
  Bytes, All,
}
use kroxy.Proxy.Debug.{trim_space, spaced, dbg_list_offsets_req}
use kroxy.Rewrite.Kmsg.{Topic, TopicsMessage}
use kroxy.Proxy.Debug.Trim.{IsPlain, IsBounded, bounded, trim_space_bounded}

-- A name of Kafka's: not empty, of plain characters.
abbrev pub IsName : Bytes → Type 0
IsName [] = ⊥
IsName (b ∷ s) = All IsPlain (b ∷ s)

-- The names with a space between each two.
abbrev pub joined : {R : Type 0} → List (Topic R) → Bytes
joined [] = []
joined (t ∷ []) = t.topic
joined (t ∷ u ∷ ts) = t.topic ++ (32 ∷ joined (u ∷ ts))

abbrev pub IsNamed : {R : Type 0} → Topic R → Type 0
IsNamed t = IsName t.topic

module _ {R : Type 0} where
  spaced-joined :
      (t : Topic R) (ts : List (Topic R)) → spaced (t ∷ ts) ≡ joined (t ∷ ts) ++ (32 ∷ [])
  spaced-joined t [] = refl
  spaced-joined t (u ∷ ts) =
      ap (λ r. t.topic ++ (32 ∷ r)) (spaced-joined u ts)
      ∙ sym (append_assoc t.topic (32 ∷ joined (u ∷ ts)) (32 ∷ []))

last-IsPlain :
    (b : ℕ) (s : Bytes)
    → All IsPlain (b ∷ s)
    → (c : ℕ) × (s' : Bytes) × IsPlain c × (b ∷ s ≡ s' ++ (c ∷ []))
last-IsPlain b [] h = (b, [], h.0, refl)
last-IsPlain b (d ∷ s) h =
    let (c, s', plain, e) = last-IsPlain d s h.1 in (c, b ∷ s', plain, ap (◌∷◌ b) e)

name-IsBounded : (s : Bytes) → IsName s → IsBounded s
name-IsBounded [] h = absurd h
name-IsBounded (b ∷ s) h =
    let (c, s', plain, e) = last-IsPlain b s h in bounded b c s s' h.0 plain e

longer-IsBounded : (x y : Bytes) → IsName x → IsBounded y → IsBounded (x ++ (32 ∷ y))
longer-IsBounded [] y h k = absurd h
longer-IsBounded (b ∷ x) _ h (bounded d c s s' hd hc e) =
    bounded b c (x ++ (32 ∷ d ∷ s)) (b ∷ (x ++ (32 ∷ s'))) h.0 hc
      (ap (λ r. b ∷ (x ++ (32 ∷ r))) e ∙ ap (◌∷◌ b) (sym (append_assoc x (32 ∷ s') (c ∷ []))))

-- The parts of a text between its spaces.
abbrev pub put : ℕ → List Bytes → List Bytes
put b [] = (b ∷ []) ∷ []
put b (w ∷ ws) = (b ∷ w) ∷ ws

abbrev pub split : Bytes → List Bytes
split [] = [] ∷ []
split (b ∷ s) = let rest = split s in if b == 32 then [] ∷ rest else put b rest

split_word : (x : Bytes) → All IsPlain x → split x ≡ x ∷ []
split_word [] h = refl
split_word (b ∷ x) h = ground (arith, h.0, split_word x h.1)

split_first : (x y : Bytes) → All IsPlain x → split (x ++ (32 ∷ y)) ≡ x ∷ split y
split_first [] y h = refl
split_first (b ∷ x) y h = ground (arith, h.0, split_first x y h.1)

name-IsPlain : (s : Bytes) → IsName s → All IsPlain s
name-IsPlain [] h = tt
name-IsPlain (b ∷ s) h = h

module _ {R : Type 0} where
  joined-IsBounded :
      (t : Topic R) (ts : List (Topic R)) → All IsNamed (t ∷ ts) → IsBounded (joined (t ∷ ts))
  joined-IsBounded t [] h = name-IsBounded t.topic h.0
  joined-IsBounded t (u ∷ ts) h =
      longer-IsBounded t.topic (joined (u ∷ ts)) h.0 (joined-IsBounded u ts h.1)

  abbrev pub topic_of : Topic R → Bytes
  topic_of t = t.topic

  split-joined :
      (t : Topic R) (ts : List (Topic R))
      → All IsNamed (t ∷ ts)
      → split (joined (t ∷ ts)) ≡ map topic_of (t ∷ ts)
  split-joined t [] h = split_word t.topic (name-IsPlain t.topic h.0)
  split-joined t (u ∷ ts) h =
      split_first t.topic (joined (u ∷ ts)) (name-IsPlain t.topic h.0)
      ∙ ap (◌∷◌ t.topic) (split-joined u ts h.1)

  -- The debug summary of a ListOffsets request that names at least one topic, all its names printable
  -- ASCII without spaces, splits at its spaces into exactly the names, in their order: TrimSpace
  -- takes away no more than the space behind the last one.
  pub dbg_list_offsets_req-split :
      (req : TopicsMessage R) (t : Topic R) (ts : List (Topic R))
      → req.topics ≡ t ∷ ts
      → All IsNamed (t ∷ ts)
      → split (dbg_list_offsets_req req) ≡ map topic_of (t ∷ ts)
  dbg_list_offsets_req-split req t ts e h =
      ap (λ l. split (trim_space (spaced l))) e
      ∙ ap (λ s. split (trim_space s)) (spaced-joined t ts)
      ∙ ap split (trim_space_bounded (joined (t ∷ ts)) (joined-IsBounded t ts h))
      ∙ split-joined t ts h
