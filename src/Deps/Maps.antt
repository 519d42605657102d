-- ===== src/Deps/Maps.antt =====
-- `dashmap::DashMap`, with the server's keys (numbers), as one thread sees it between its awaits.
use cncnet_server.Base.{
  ℕ, suc, ◌-◌, ◌≡◌, Bool, Option, none, some, List, [], ◌∷◌, ◌==◌, if◌then◌else◌, is_some, keep_if,
  length, filter, All,
}

-- The first entry of a key.
abbrev pub lookup : {V : Type 0} → ℕ → List (ℕ × V) → Option V
lookup k [] = none
lookup k ((j, v) ∷ l) = if j == k then some v else lookup k l

pub record DashMap : Type 1 where
  pub Map : Type 0 → Type 0
  -- `udp_relay_core::create_dashmap_with_capacity`
  pub create_dashmap_with_capacity : {V : Type 0} → ℕ → Map V
  pub get : {V : Type 0} → ℕ → Map V → Option V
  pub insert : {V : Type 0} → ℕ → V → Map V → Map V
  pub remove : {V : Type 0} → ℕ → Map V → Map V
  pub contains_key : {V : Type 0} → ℕ → Map V → Bool
  pub len : {V : Type 0} → Map V → ℕ
  pub retain : {V : Type 0} → (ℕ → V → Bool) → Map V → Map V
  -- The entries, in the order in which `retain` visits them.
  pub iter : {V : Type 0} → Map V → List (ℕ × V)
  pub get-create : {V : Type 0} (k n : ℕ) → get {V = V} k (create_dashmap_with_capacity n) ≡ none
  pub get-insert :
      {V : Type 0} (k j : ℕ) (v : V) (m : Map V)
      → get j (insert k v m) ≡ (if k == j then some v else get j m)
  pub get-remove :
      {V : Type 0} (k j : ℕ) (m : Map V) → get j (remove k m) ≡ (if k == j then none else get j m)
  pub get-retain :
      {V : Type 0} (p : ℕ → V → Bool) (j : ℕ) (m : Map V)
      → get j (retain p m) ≡ keep_if (p j) (get j m)
  pub contains_key_lem : {V : Type 0} (k : ℕ) (m : Map V) → contains_key k m ≡ is_some (get k m)
  pub lookup-iter : {V : Type 0} (k : ℕ) (m : Map V) → lookup k (iter m) ≡ get k m
  pub iter-get : {V : Type 0} (m : Map V) → All (λ e. get e.0 m ≡ some e.1) (iter m)
  pub len-iter : {V : Type 0} (m : Map V) → len m ≡ length (iter m)
  pub len-create : {V : Type 0} (n : ℕ) → len {V = V} (create_dashmap_with_capacity n) ≡ 0
  pub len-insert :
      {V : Type 0} (k : ℕ) (v : V) (m : Map V)
      → len (insert k v m) ≡ (if is_some (get k m) then len m else suc (len m))
  pub len-remove :
      {V : Type 0} (k : ℕ) (m : Map V)
      → len (remove k m) ≡ (if is_some (get k m) then len m - 1 else len m)
  pub len-retain :
      {V : Type 0} (p : ℕ → V → Bool) (m : Map V)
      → len (retain p m) ≡ length (filter (λ e. p e.0 e.1) (iter m))
