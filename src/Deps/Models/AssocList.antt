-- ===== src/Deps/Models/AssocList.antt =====
-- An association list with distinct keys meets the laws of `DashMap`.
use cncnet_server.Base.{
  ℕ, suc, ◌-◌, ◌≡◌, refl, Bool, none, some, List, [], ◌∷◌, ◌==◌, if◌then◌else◌, is_some, keep_if,
  length, filter, All, All-map, arith, Option-cases, inl, inr,
}
use cncnet_server.Deps.Maps.{DashMap, lookup}

module _ {V : Type 0} where
  abbrev pub erase : ℕ → List (ℕ × V) → List (ℕ × V)
  erase k [] = []
  erase k ((j, v) ∷ l) = if j == k then erase k l else (j, v) ∷ erase k l

  abbrev pub Distinct : List (ℕ × V) → Type 0
  Distinct [] = Unit
  Distinct ((k, v) ∷ l) = (lookup k l ≡ none) × Distinct l

  pub lookup-erase :
      (k j : ℕ) (l : List (ℕ × V)) → lookup j (erase k l) ≡ (if k == j then none else lookup j l)
  lookup-erase k j [] = ground arith
  lookup-erase k j ((i, v) ∷ l) = ground (arith, lookup-erase k j l)

  pub erase-Distinct : (k : ℕ) (l : List (ℕ × V)) → Distinct l → Distinct (erase k l)
  erase-Distinct k [] h = tt
  erase-Distinct k ((i, v) ∷ l) h = ground (arith, erase-Distinct k l h.1, lookup-erase k i l)

  length-erase_absent :
      (k : ℕ) (l : List (ℕ × V)) → lookup k l ≡ none → length (erase k l) ≡ length l
  length-erase_absent k [] h = refl
  length-erase_absent k ((i, v) ∷ l) h = ground (arith, length-erase_absent k l)

  length-erase_present :
      (k : ℕ) (v : V) (l : List (ℕ × V))
      → Distinct l
      → lookup k l ≡ some v
      → suc (length (erase k l)) ≡ length l
  length-erase_present k v [] d h = cc
  length-erase_present k v ((i, w) ∷ l) d h =
      ground (arith, length-erase_present k v l d.1, length-erase_absent k l)

  filter_absent :
      (p : ℕ → V → Bool) (k : ℕ) (l : List (ℕ × V))
      → lookup k l ≡ none
      → lookup k (filter (λ e. p e.0 e.1) l) ≡ none
  filter_absent p k [] h = refl
  filter_absent p k ((i, v) ∷ l) h = ground (arith, filter_absent p k l)

  pub filter-Distinct :
      (p : ℕ → V → Bool) (l : List (ℕ × V)) → Distinct l → Distinct (filter (λ e. p e.0 e.1) l)
  filter-Distinct p [] h = tt
  filter-Distinct p ((i, v) ∷ l) h =
      ground (arith, filter-Distinct p l h.1, filter_absent p i l h.0)

  pub lookup-filter :
      (p : ℕ → V → Bool) (k : ℕ) (l : List (ℕ × V))
      → Distinct l
      → lookup k (filter (λ e. p e.0 e.1) l) ≡ keep_if (p k) (lookup k l)
  lookup-filter p k [] d = refl
  lookup-filter p k ((i, v) ∷ l) d = ground (arith, lookup-filter p k l d.1, filter_absent p k l)

  below_cons :
      (k : ℕ) (v : V) (l : List (ℕ × V))
      → lookup k l ≡ none
      → (e : ℕ × V) → lookup e.0 l ≡ some e.1
      → lookup e.0 ((k, v) ∷ l) ≡ some e.1
  below_cons k v l h e found = ground arith

  pub Distinct-lookup : (l : List (ℕ × V)) → Distinct l → All (λ e. lookup e.0 l ≡ some e.1) l
  Distinct-lookup [] d = tt
  Distinct-lookup ((k, v) ∷ l) d =
      (ground arith, All-map (below_cons k v l d.0) l (Distinct-lookup l d.1))

abbrev pub AssocList : Type 0 → Type 0
AssocList V = (l : List (ℕ × V)) × Distinct l

module _ {V : Type 0} where
  pub lookup-erase_self : (k : ℕ) (l : List (ℕ × V)) → lookup k (erase k l) ≡ none
  lookup-erase_self k l = ground (arith, lookup-erase k k l)

  abbrev pub insert : ℕ → V → AssocList V → AssocList V
  insert k v m = ((k, v) ∷ erase k m.0, (lookup-erase_self k m.0, erase-Distinct k m.0 m.1))

  pub insert_lookup :
      (k j : ℕ) (v : V) (m : AssocList V)
      → lookup j (insert k v m).0 ≡ (if k == j then some v else lookup j m.0)
  insert_lookup k j v m = ground (arith, lookup-erase k j m.0)

  pub length-insert :
      (k : ℕ) (v : V) (m : AssocList V)
      → length (insert k v m).0 ≡ (if is_some (lookup k m.0) then length m.0 else suc (length m.0))
  length-insert k v m = elim (Option-cases (lookup k m.0)) [
    | inl e ↦ rw e (ground (arith, length-erase_absent k m.0 e))
    | inr (w, e) ↦ rw e (ground (arith, length-erase_present k w m.0 m.1 e))
  ]

  pub length-remove :
      (k : ℕ) (m : AssocList V)
      → length (erase k m.0) ≡ (if is_some (lookup k m.0) then length m.0 - 1 else length m.0)
  length-remove k m = elim (Option-cases (lookup k m.0)) [
    | inl e ↦ rw e (ground (arith, length-erase_absent k m.0 e))
    | inr (w, e) ↦ rw e (ground (arith, length-erase_present k w m.0 m.1 e))
  ]

abbrev pub assoc_map : DashMap
assoc_map = record {
  Map = AssocList;
  create_dashmap_with_capacity = λ n. ([], tt);
  get = λ k m. lookup k m.0;
  insert = insert;
  remove = λ k m. (erase k m.0, erase-Distinct k m.0 m.1);
  contains_key = λ k m. is_some (lookup k m.0);
  len = λ m. length m.0;
  retain = λ p m. (filter (λ e. p e.0 e.1) m.0, filter-Distinct p m.0 m.1);
  iter = λ m. m.0;
  get-create = λ k n. refl;
  get-insert = insert_lookup;
  get-remove = λ k j m. lookup-erase k j m.0;
  get-retain = λ p j m. lookup-filter p j m.0 m.1;
  contains_key_lem = λ k m. refl;
  lookup-iter = λ k m. refl;
  iter-get = λ m. Distinct-lookup m.0 m.1;
  len-iter = λ m. refl;
  len-create = λ n. refl;
  len-insert = length-insert;
  len-remove = length-remove;
  len-retain = λ p m. refl;
}
