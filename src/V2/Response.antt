-- ===== src/V2/Response.antt =====
-- The HTTP responses of src/tunnel_v2.rs and src/health.rs: status, headers, body.
use cncnet_server.Base.{ℕ, List, [], ◌∷◌}
use cncnet_server.Text.{codes}

pub record Response : Type 0 where
  pub status : ℕ
  pub headers : List (List ℕ × List ℕ)
  pub body : List ℕ

abbrev pub status_ok : ℕ
status_ok = 200

abbrev pub bad_request : ℕ
bad_request = 400

abbrev pub unauthorized : ℕ
unauthorized = 401

abbrev pub not_found : ℕ
not_found = 404

abbrev pub too_many_requests : ℕ
too_many_requests = 429

abbrev pub service_unavailable : ℕ
service_unavailable = 503

-- With no header of its own.
abbrev pub plain : ℕ → List ℕ → Response
plain status body = record { status = status; headers = []; body = body }

abbrev pub json : ℕ → List ℕ → Response
json status body = record {
  status = status;
  headers = (codes "Content-Type", codes "application/json") ∷ [];
  body = body;
}
