-- ===== src/Announce.antt =====
-- The request to the master server: `send_master_announce` of src/tunnel_v3.rs and src/tunnel_v2.rs.
-- The encoding of a text in a URL is the package urlencoding.
pub mod Reading
pub mod Tunnels
mod Tests
use cncnet_server.Base.{
  ℕ, ◌≡◌, Bool, true, false, ◌&&◌, ◌||◌, Option, some, List, [], ◌∷◌, ◌++◌, ◌==◌, leb,
  if◌then◌else◌, All,
}
use cncnet_server.Text.{codes, join}
use cncnet_server.Text.Decimal.{to_string}

-- The characters that percent-encoding gives: letters, digits, `-`, `_`, `.`, `~` and `%`.
abbrev pub is_encoded : ℕ → Bool
is_encoded c =
    (leb b'a' c && leb c b'z')
    || (leb b'A' c && leb c b'Z')
    || (leb b'0' c && leb c b'9')
    || c == b'-'
    || c == b'_'
    || c == b'.'
    || c == b'~'
    || c == b'%'

pub record UrlEncoding : Type 0 where
  pub encode : List ℕ → List ℕ
  pub decode : List ℕ → Option (List ℕ)
  pub encode-is_encoded : (s : List ℕ) → All (λ c. is_encoded c ≡ true) (encode s)
  pub decode-encode : (s : List ℕ) → decode (encode s) ≡ some s

-- What is announced.
pub record MasterAnnounce : Type 0 where
  pub url : List ℕ
  pub announced_version : ℕ
  pub name : List ℕ
  pub port : ℕ
  pub clients : ℕ
  pub maxclients : ℕ
  pub masterpw : List ℕ
  pub maintenance : Bool

abbrev pub parameter : List ℕ → List ℕ → List ℕ
parameter key value = key ++ (b'=' ∷ value)

module _ (u : UrlEncoding) where
  open u use {encode}

  -- The URL's text after the question mark.
  abbrev pub query_of : MasterAnnounce → List ℕ
  query_of a = join b'&' (
      parameter (codes "version") (to_string a.announced_version)
      ∷ parameter (codes "name") (encode a.name)
      ∷ parameter (codes "port") (to_string a.port)
      ∷ parameter (codes "clients") (to_string a.clients)
      ∷ parameter (codes "maxclients") (to_string a.maxclients)
      ∷ parameter (codes "masterpw") (encode a.masterpw)
      ∷ parameter (codes "maintenance") (if a.maintenance then codes "1" else codes "0")
      ∷ [])

  unfoldable pub announce_url : MasterAnnounce → List ℕ
  announce_url a = a.url ++ (b'?' ∷ query_of a)
