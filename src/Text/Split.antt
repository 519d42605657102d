-- ===== src/Text/Split.antt =====
-- Splitting what was joined.
use cncnet_server.Base.{ℕ, ◌≡◌, refl, ap, ◌∙◌, true, false, List, [], ◌∷◌, ◌++◌, ◌==◌, All, arith}
use cncnet_server.Text.{split, join}

abbrev pub Lacks : ℕ → List ℕ → Type 0
Lacks sep = All (λ c. (c == sep) ≡ false)

split-piece : (sep : ℕ) (p s : List ℕ) → Lacks sep p → split sep (p ++ sep ∷ s) ≡ p ∷ split sep s
split-piece sep [] s h = let same : (sep == sep) ≡ true = ground arith in rw same refl
split-piece sep (c ∷ p) s h = rw (h.0, split-piece sep p s h.1) refl

split-whole : (sep : ℕ) (p : List ℕ) → Lacks sep p → split sep p ≡ p ∷ []
split-whole sep [] h = refl
split-whole sep (c ∷ p) h = rw (h.0, split-whole sep p h.1) refl

pub split-join :
    (sep : ℕ) (p : List ℕ) (ps : List (List ℕ))
    → Lacks sep p
    → All (Lacks sep) ps
    → split sep (join sep (p ∷ ps)) ≡ p ∷ ps
split-join sep p [] h hs = split-whole sep p h
split-join sep p (q ∷ ps) h hs =
    split-piece sep p (join sep (q ∷ ps)) h ∙ ap (λ l. p ∷ l) (split-join sep q ps hs.0 hs.1)
