-- ===== src/Text/Split.antt =====
-- `s.split(d)` for a character `d`, its inverse, and what relates them.
use k_indexer.Prelude.{
  ℕ, ◌≡◌, ◌≢◌, refl, ap, ◌∙◌, List, [], ◌∷◌, ◌++◌, arith, ◌==◌, if◌then◌else◌, All,
}

-- The text `s` does not hold the character `d`.
abbrev pub Lacks : ℕ → List ℕ → Type 0
Lacks d = All (λ c. c ≢ d)

-- Put a character in front of the first part.
abbrev cons_head : ℕ → List (List ℕ) → List (List ℕ)
cons_head c [] = (c ∷ []) ∷ []
cons_head c (w ∷ ws) = (c ∷ w) ∷ ws

-- `s.split(d).collect()`: at least one part, also of the empty text.
unfoldable pub split : ℕ → List ℕ → List (List ℕ)
split d [] = [] ∷ []
split d (c ∷ s) = let rest = split d s in if c == d then [] ∷ rest else cons_head c rest

-- The parts with the character between them, as `format!("{}:{}", …)` writes them.
unfoldable pub join : ℕ → List (List ℕ) → List ℕ
join d [] = []
join d (w ∷ []) = w
join d (w ∷ v ∷ ws) = w ++ d ∷ join d (v ∷ ws)

split_lacking : (d : ℕ) (w : List ℕ) → Lacks d w → split d w ≡ w ∷ []
unfolding split
split_lacking d [] h = refl
split_lacking d (c ∷ w) (n, h) = ground (arith, split_lacking d w h)

split-append : (d : ℕ) (w s : List ℕ) → Lacks d w → split d (w ++ d ∷ s) ≡ w ∷ split d s
unfolding split
split-append d [] s h = ground arith
split-append d (c ∷ w) s (n, h) = ground (arith, split-append d w s h)

-- Splitting what was joined gives the parts back, if none of them holds the separator.
pub split-join :
    (d : ℕ) (ws : List (List ℕ)) → ws ≢ [] → All (Lacks d) ws → split d (join d ws) ≡ ws
unfolding join
split-join d [] h a = absurd (h refl)
split-join d (w ∷ []) h a = split_lacking d w a.0
split-join d (w ∷ v ∷ ws) h a =
    split-append d w (join d (v ∷ ws)) a.0 ∙ ap (λ r. w ∷ r) (split-join d (v ∷ ws) (cc) a.1)

Lacks-cons_head :
    (d c : ℕ) (ws : List (List ℕ)) → c ≢ d → All (Lacks d) ws → All (Lacks d) (cons_head c ws)
Lacks-cons_head d c [] n h = ((n, tt), tt)
Lacks-cons_head d c (w ∷ ws) n h = ((n, h.0), h.1)

-- No part holds the separator.
pub Lacks-split : (d : ℕ) (s : List ℕ) → All (Lacks d) (split d s)
unfolding split
Lacks-split d [] = (tt, tt)
Lacks-split d (c ∷ s) = ground (arith, Lacks-split d s, Lacks-cons_head d c (split d s))

-- The first colon of a joined text tells where its first part ends.
pub join_injective :
    (d : ℕ) (w v s t : List ℕ)
    → Lacks d w
    → Lacks d v
    → (w ++ d ∷ s) ≡ (v ++ d ∷ t)
    → (w ≡ v) × (s ≡ t)
join_injective d [] [] s t hw hv e = (refl, cc)
join_injective d [] (c ∷ v) s t hw hv e = ground arith
join_injective d (c ∷ w) [] s t hw hv e = ground arith
join_injective d (c ∷ w) (b ∷ v) s t hw hv e = ground (arith, join_injective d w v s t hw.1 hv.1)
