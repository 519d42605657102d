-- ===== src/Config/Trim.antt =====
-- `str::trim`, as src/config.rs uses it, and the white space at both ends.
use mathlib.Core.List.{reverse, reverse-append, reverse-reverse, reverse-cons}
use mathlib.Core.Path.{subst}
use cncnet_server.Base.{
  ℕ, ◌≡◌, refl, sym, ap, ◌∙◌, true, false, List, [], ◌∷◌, ◌++◌, All, All-append, Bool-cases, inl,
  inr,
}
use cncnet_server.Config.{is_whitespace, trim_start, trim}

-- No white space at the front.
abbrev pub IsFlush : List ℕ → Type 0
IsFlush [] = Unit
IsFlush (c ∷ s) = is_whitespace c ≡ false

abbrev pub IsBlank : List ℕ → Type 0
IsBlank = All (λ c. is_whitespace c ≡ true)

-- A text and what is left of it without the white space at its ends.
pub record Trimmed (s r : List ℕ) : Type 0 where
  pub before : List ℕ
  pub after : List ℕ
  pub whole : s ≡ before ++ (r ++ after)
  pub before_blank : IsBlank before
  pub after_blank : IsBlank after
  pub starts : IsFlush r
  pub ends : IsFlush (reverse r)

trim_start-split :
    (s : List ℕ) → (p : List ℕ) × (s ≡ p ++ trim_start s) × IsBlank p × IsFlush (trim_start s)
unfolding trim_start
trim_start-split [] = ([], refl, tt, tt)
trim_start-split (c ∷ s) = elim (Bool-cases (is_whitespace c)) [
  | inl blank ↦
      let (p, e, all, flush) = trim_start-split s in
      rw (blank, trim_start) (c ∷ p, ap (λ r. c ∷ r) e, (blank, all), flush)
  | inr visible ↦ rw (visible, trim_start) ([], refl, tt, visible)
]

IsFlush-front : (xs ys : List ℕ) → IsFlush (xs ++ ys) → IsFlush xs
IsFlush-front [] ys h = tt
IsFlush-front (x ∷ xs) ys h = h

IsBlank-reverse : (xs : List ℕ) → IsBlank xs → IsBlank (reverse xs)
IsBlank-reverse [] h = tt
IsBlank-reverse (x ∷ xs) h =
    subst IsBlank (sym (reverse-cons x xs))
      (All-append _ (reverse xs) (x ∷ []) (IsBlank-reverse xs h.1) (h.0, tt))

pub trim-Trimmed : (s : List ℕ) → Trimmed s (trim s)
unfolding trim
trim-Trimmed s =
    let t = trim_start s in
    let (p, e, p_blank, t_flush) = trim_start-split s in
    let u = trim_start (reverse t) in
    let (q, f, q_blank, u_flush) = trim_start-split (reverse t) in
    let g : t ≡ reverse u ++ reverse q =
      sym (reverse-reverse t) ∙ ap reverse f ∙ reverse-append q u in
    record {
      before = p;
      after = reverse q;
      whole = e ∙ ap (λ x. p ++ x) g;
      before_blank = p_blank;
      after_blank = IsBlank-reverse q q_blank;
      starts = IsFlush-front (reverse u) (reverse q) (subst IsFlush g t_flush);
      ends = subst IsFlush (sym (reverse-reverse u)) u_flush;
    }
