-- ===== src/Config/Checked.antt =====
-- What `ServerConfig::from_args` of src/config.rs accepts, and what the rest of the server can rely on.
use mathlib.Core.Path.{subst}
use cncnet_server.Base.{
  ℕ, ◌≤◌, ◌<◌, ◌≡◌, refl, ◌≢◌, ◌⊎◌, inl, inr, List, [], ◌∷◌, ◌++◌, ltb, ◌==◌, if_cases, All, arith,
  Bool-cases,
}
use cncnet_server.Config.{
  Args, ServerConfig, ConfigError, requires_root, too_few_clients, too_many_clients, ConfigResult,
  ok, bail, trim, without_semicolons, is_privileged, from_args,
}
use cncnet_server.Config.Trim.{Trimmed, trim-Trimmed}

-- Port 0 lets the system choose; the ports from 1 to 1024 need root.
abbrev pub IsRootPort : ℕ → Type 0
IsRootPort p = (1 ≤ p) × (p ≤ 1024)

abbrev pub IsClean : List ℕ → Type 0
IsClean = All (λ c. c ≢ b';')

-- The arguments as the configuration keeps them.
pub record Accepted (args : Args) (c : ServerConfig) : Type 0 where
  pub port : c.tunnel_port ≡ args.port
  pub unprivileged : (p : ℕ) → IsRootPort p → (p ≢ c.tunnel_port) × (p ≢ c.tunnel_v2_port)
  pub v2_port : c.tunnel_v2_port ≡ args.portv2
  pub clients : c.max_clients ≡ args.maxclients
  pub some_clients : (2 ≤ c.max_clients) × (c.max_clients ≤ 10000)
  pub limits : (1 ≤ c.ip_limit) × (c.ip_limit ≤ 100) × (1 ≤ c.ip_limit_v2) × (c.ip_limit_v2 ≤ 100)
  pub limit_kept : 1 ≤ args.iplimit → args.iplimit ≤ 100 → c.ip_limit ≡ args.iplimit
  pub limit_v2_kept : 1 ≤ args.iplimitv2 → args.iplimitv2 ≤ 100 → c.ip_limit_v2 ≡ args.iplimitv2
  pub name_clean : IsClean c.name
  pub name_trimmed : Trimmed (without_semicolons args.name) c.name

-- Why the arguments are refused.
abbrev pub IsReason : Args → ConfigError → Type 0
IsReason args (requires_root p) = IsRootPort p × ((p ≡ args.port) ⊎ (p ≡ args.portv2))
IsReason args too_few_clients = args.maxclients < 2
IsReason args too_many_clients = 10000 < args.maxclients

abbrev pub Checked : Args → ConfigResult → Type 0
Checked args (ok c) = Accepted args c
Checked args (bail e) = IsReason args e

without_semicolons-IsClean : (s : List ℕ) → IsClean (without_semicolons s)
without_semicolons-IsClean [] = tt
without_semicolons-IsClean (c ∷ s) = elim (Bool-cases (c == b';')) [
  | inl here ↦ rw here (without_semicolons-IsClean s)
  | inr other ↦ rw other (λ e. ground (arith, other, e), without_semicolons-IsClean s)
]

IsClean-part : (xs ys zs : List ℕ) → IsClean (xs ++ (ys ++ zs)) → IsClean ys
IsClean-part [] [] zs h = tt
IsClean-part [] (y ∷ ys) zs h = (h.0, IsClean-part [] ys zs h.1)
IsClean-part (x ∷ xs) ys zs h = IsClean-part xs ys zs h.1

trim-IsClean : (s : List ℕ) → IsClean s → IsClean (trim s)
trim-IsClean s h =
    let t = trim-Trimmed s in IsClean-part t.before (trim s) t.after (subst IsClean t.whole h)

-- The check of the arguments, on every branch. What is accepted has no port from 1 to 1024, from 2 to
-- 10000 clients, both limits from 1 to 100 and as given where they were in range, and as its name the
-- given one without semicolons and without the white space at its ends. What is refused is refused for
-- the reason that the error names: a port that needs root, too few clients, or too many.
pub from_args-Checked : (args : Args) → Checked args (from_args args)
unfolding from_args
from_args-Checked args =
    let clean = without_semicolons args.name in
    if_cases (Checked args) (is_privileged args.port) _ _
      (λ low. ((ground (arith, low), ground (arith, low)), inl refl))
      (λ high.
        if_cases (Checked args) (is_privileged args.portv2) _ _
          (λ low. ((ground (arith, low), ground (arith, low)), inr refl))
          (λ high2.
            if_cases (Checked args) (ltb args.maxclients 2) _ _ (λ few. ground (arith, few))
              (λ enough.
                if_cases (Checked args) (ltb 10000 args.maxclients) _ _
                  (λ many. ground (arith, many))
                  (λ not_many. record {
                    port = refl;
                    unprivileged = λ p root.
                        (λ e. ground (arith, high, root, e), λ e. ground (arith, high2, root, e));
                    v2_port = refl;
                    clients = refl;
                    some_clients = (ground (arith, enough), ground (arith, not_many));
                    limits = (ground arith, ground arith, ground arith, ground arith);
                    limit_kept = λ low_end high_end. ground arith;
                    limit_v2_kept = λ low_end high_end. ground arith;
                    name_clean = trim-IsClean clean (without_semicolons-IsClean args.name);
                    name_trimmed = trim-Trimmed clean;
                  }))))
