-- ===== src/V3/Registry.antt =====
-- What the V3 tunnel keeps of its two maps, clients and analyzers, whatever the operation.
use cncnet_server.Base.{
  ℕ, ◌≤◌, ◌<◌, ◌≡◌, refl, ◌∙◌, Bool, true, false, not, none, some, List, [], ◌∷◌, if◌then◌else◌,
  is_some, keep_if, filter, All, arith, Option-cases, inl, inr, length-filter-le,
}
use cncnet_server.Deps.{Deps, lookup}
use cncnet_server.V3.Cleanup.{remove_all}

module _ (d : Deps) where
  open d use {
    Map, get, insert, remove, len, retain, iter, TunnelClient, remote_ep, QualityAnalyzer,
    get-insert, get-remove, get-retain, len-insert, len-iter, len-retain, iter-get, lookup-iter,
  }

  -- The map of clients is within the limit, each client has an endpoint, and exactly the ids of the
  -- clients have an analyzer.
  pub record Registry (limit : ℕ) (m : Map TunnelClient) (q : Map QualityAnalyzer) : Type 0 where
    pub bounded : len m ≤ limit
    pub endpoint : (k : ℕ) (c : TunnelClient) → get k m ≡ some c → is_some (remote_ep c) ≡ true
    pub analyzed : (k : ℕ) → is_some (get k q) ≡ is_some (get k m)

  module _ {limit : ℕ} {m : Map TunnelClient} {q : Map QualityAnalyzer} where
    insert_endpoint :
        (k : ℕ) (c : TunnelClient)
        → is_some (remote_ep c) ≡ true
        → Registry limit m q
        → (j : ℕ) (e : TunnelClient) → get j (insert k c m) ≡ some e
        → is_some (remote_ep e) ≡ true
    insert_endpoint k c has r j e found = ground (arith, get-insert k j c m, r.endpoint j e)

    pub insert_new-Registry :
        (k : ℕ) (c : TunnelClient) (a : QualityAnalyzer)
        → is_some (remote_ep c) ≡ true
        → len m < limit
        → Registry limit m q
        → Registry limit (insert k c m) (insert k a q)
    insert_new-Registry k c a has room r = record {
      bounded = ground (arith, len-insert k c m);
      endpoint = insert_endpoint k c has r;
      analyzed = λ j. ground (arith, get-insert k j c m, get-insert k j a q, r.analyzed j);
    }

    pub insert_over-Registry :
        (k : ℕ) (c : TunnelClient) (a : QualityAnalyzer)
        → is_some (remote_ep c) ≡ true
        → is_some (get k m) ≡ true
        → Registry limit m q
        → Registry limit (insert k c m) (insert k a q)
    insert_over-Registry k c a has present r = record {
      bounded = ground (arith, len-insert k c m, r.bounded);
      endpoint = insert_endpoint k c has r;
      analyzed = λ j. ground (arith, get-insert k j c m, get-insert k j a q, r.analyzed j);
    }

    pub touch_client-Registry :
        (k : ℕ) (c : TunnelClient)
        → is_some (remote_ep c) ≡ true
        → is_some (get k m) ≡ true
        → Registry limit m q
        → Registry limit (insert k c m) q
    touch_client-Registry k c has present r = record {
      bounded = ground (arith, len-insert k c m, r.bounded);
      endpoint = insert_endpoint k c has r;
      analyzed = λ j. ground (arith, get-insert k j c m, r.analyzed j);
    }

    pub touch_analyzer-Registry :
        (k : ℕ) (a : QualityAnalyzer)
        → is_some (get k q) ≡ true
        → Registry limit m q
        → Registry limit m (insert k a q)
    touch_analyzer-Registry k a present r = record {
      bounded = r.bounded;
      endpoint = r.endpoint;
      analyzed = λ j. ground (arith, get-insert k j a q, r.analyzed j);
    }

  -- An analyzer that the sweep leaves.
  pub get-remove_all :
      (l : List (ℕ × TunnelClient)) (q : Map QualityAnalyzer) (j : ℕ)
      → get j (remove_all d l q) ≡ (if is_some (lookup j l) then none else get j q)
  unfolding remove_all
  get-remove_all [] q j = refl
  get-remove_all ((k, v) ∷ l) q j =
      get-remove_all l (remove k q) j ∙ ground (arith, get-remove k j q)

  module _ (p : ℕ → TunnelClient → Bool) (m : Map TunnelClient) where
    -- A sweep's list holds a key exactly if the key's current client passes the test.
    filter_misses :
        (l : List (ℕ × TunnelClient)) (j : ℕ)
        → All (λ e. get e.0 m ≡ some e.1) l
        → is_some (keep_if (p j) (get j m)) ≡ false
        → lookup j (filter (λ e. p e.0 e.1) l) ≡ none
    filter_misses [] j h out = refl
    filter_misses ((k, v) ∷ l) j h out = ground (arith, filter_misses l j h.1 out, h.0)

    filter_hits :
        (l : List (ℕ × TunnelClient)) (j : ℕ) (v : TunnelClient)
        → lookup j l ≡ some v
        → p j v ≡ true
        → is_some (lookup j (filter (λ e. p e.0 e.1) l)) ≡ true
    filter_hits [] j v found passes = cc
    filter_hits ((k, w) ∷ l) j v found passes = ground (arith, filter_hits l j v)

    lookup-filter_iter :
        (j : ℕ)
        → is_some (lookup j (filter (λ e. p e.0 e.1) (iter m))) ≡ is_some (keep_if (p j) (get j m))
    lookup-filter_iter j = elim (Option-cases (get j m)) [
      | inl e ↦ ground (arith, filter_misses (iter m) j (iter-get m))
      | inr (v, e) ↦
          ground (
            arith,
            lookup-iter j m,
            filter_misses (iter m) j (iter-get m),
            filter_hits (iter m) j v,
          )
    ]

  module _ {limit : ℕ} {m : Map TunnelClient} {q : Map QualityAnalyzer}
      (p : ℕ → TunnelClient → Bool) where
    -- A sweep that drops the clients that pass the test, and their analyzers.
    pub sweep-Registry :
        Registry limit m q
        → Registry limit
            (retain (λ k c. not (p k c)) m)
            (remove_all d (filter (λ e. p e.0 e.1) (iter m)) q)
    sweep-Registry r = record {
      bounded = omega (
        arith,
        r.bounded,
        len-retain (λ k c. not (p k c)) m,
        len-iter m,
        length-filter-le (λ e. not (p e.0 e.1)) (iter m),
      );
      endpoint = λ k c found. ground (arith, get-retain (λ i e. not (p i e)) k m, r.endpoint k c);
      analyzed = λ k. ground (
        arith,
        get-retain (λ i e. not (p i e)) k m,
        get-remove_all (filter (λ e. p e.0 e.1) (iter m)) q k,
        lookup-filter_iter p m k,
        r.analyzed k,
      );
    }
