-- ===== src/Announce/Tests.antt =====
-- An encoding of texts, and what the tunnels announce with it.
use cncnet_server.Base.{
  ℕ, zero, suc, ◌+◌, ◌≡◌, refl, ap, ◌∙◌, true, Option, none, some, List, [], ◌∷◌, ◌==◌,
  if◌then◌else◌, All, arith,
}
use cncnet_server.Announce.{is_encoded, UrlEncoding}
use cncnet_server.Announce.Tunnels.{Announced, v3_tick-Announced, v2_tick-Announced}
use cncnet_server.Metrics.{metrics_new}
use cncnet_server.Samples.{plain, small_config, at_second}
use cncnet_server.V2 as V2
use cncnet_server.V2.Periodic as Periodic
use cncnet_server.V3 as V3
use cncnet_server.V3.Cleanup.{remove_all, cleanup_expired_mappings}
use cncnet_server.V3.Heartbeat as Heartbeat

-- A character is so many times `a`, and `~`.
abbrev letters : ℕ → List ℕ → List ℕ
letters zero s = s
letters (suc n) s = b'a' ∷ letters n s

abbrev encode_text : List ℕ → List ℕ
encode_text [] = []
encode_text (c ∷ s) = letters c (b'~' ∷ encode_text s)

abbrev onto : ℕ → Option (List ℕ) → Option (List ℕ)
onto c none = none
onto c (some s) = some (c ∷ s)

abbrev decode_from : ℕ → List ℕ → Option (List ℕ)
decode_from n [] = some []
decode_from n (x ∷ s) = if x == b'a' then decode_from (suc n) s else onto n (decode_from 0 s)

decode_from-letters :
    (c n : ℕ) (s : List ℕ) → decode_from n (letters c (b'~' ∷ s)) ≡ onto (n + c) (decode_from 0 s)
decode_from-letters zero n s = ap (λ k. onto k (decode_from 0 s)) (omega arith)
decode_from-letters (suc c) n s =
    decode_from-letters c (suc n) s ∙ ap (λ k. onto k (decode_from 0 s)) (omega arith)

decode_from-encode_text : (s : List ℕ) → decode_from 0 (encode_text s) ≡ some s
decode_from-encode_text [] = refl
decode_from-encode_text (c ∷ s) =
    decode_from-letters c 0 (encode_text s)
    ∙ rw (decode_from-encode_text s) (ap (λ k. some (k ∷ s)) (omega arith))

letters-is_encoded :
    (c : ℕ) (s : List ℕ)
    → All (λ x. is_encoded x ≡ true) s
    → All (λ x. is_encoded x ≡ true) (letters c s)
letters-is_encoded zero s h = h
letters-is_encoded (suc c) s h = (refl, letters-is_encoded c s h)

encode_text-is_encoded : (s : List ℕ) → All (λ x. is_encoded x ≡ true) (encode_text s)
encode_text-is_encoded [] = tt
encode_text-is_encoded (c ∷ s) =
    letters-is_encoded c (b'~' ∷ encode_text s) (refl, encode_text-is_encoded s)

abbrev unary : UrlEncoding
unary = record {
  encode = encode_text;
  decode = decode_from 0;
  encode-is_encoded = encode_text-is_encoded;
  decode-encode = decode_from-encode_text;
}

abbrev v3 : V3.TunnelV3 plain
v3 = V3.tunnel_new plain small_config metrics_new

abbrev v3_beat : Heartbeat.Beat plain
v3_beat = Heartbeat.heartbeat_tick plain 2 v3 (at_second 5)

v3_empty : plain.len v3_beat.tunnel.mappings ≡ 0
unfolding V3.tunnel_new Heartbeat.heartbeat_tick remove_all cleanup_expired_mappings
v3_empty = refl

v3_tick-Announced_example :
    Announced unary plain small_config 3 50001
      (plain.len v3_beat.tunnel.mappings)
      v3_beat.tunnel.maintenance_mode
      v3_beat.announce
unfolding V3.tunnel_new
v3_tick-Announced_example =
    v3_tick-Announced unary plain 2 v3 (at_second 5) refl (omega arith) (omega (arith, v3_empty))
      (omega arith)

abbrev v2 : V2.TunnelV2 plain
v2 = V2.tunnel_new plain small_config metrics_new

v2_empty : plain.len (Periodic.heartbeat_tick plain v2 (at_second 5)).0.mappings ≡ 0
unfolding V2.tunnel_new Periodic.heartbeat_tick Periodic.cleanup_expired_mappings
v2_empty = refl

v2_tick-Announced_example :
    let (t', announce) = Periodic.heartbeat_tick plain v2 (at_second 5) in
    Announced unary plain small_config 2 50000 (plain.len t'.mappings) t'.maintenance_mode announce
unfolding V2.tunnel_new
v2_tick-Announced_example =
    v2_tick-Announced unary plain v2 (at_second 5) refl (omega arith) (omega (arith, v2_empty))
      (omega arith)
