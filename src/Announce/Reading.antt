-- ===== src/Announce/Reading.antt =====
-- What a master server reads in the URL of an announcement.
use cncnet_server.Base.{
  ℕ, ◌^◌, ◌<◌, ◌≡◌, refl, ap, Bool, true, false, not, ◌&&◌, Option, none, some, List, [], ◌∷◌, ◌++◌,
  ◌==◌, if◌then◌else◌, All, All-map, All-append, arith,
}
use cncnet_server.Announce.{
  is_encoded, UrlEncoding, MasterAnnounce, parameter, query_of, announce_url,
}
use cncnet_server.Text.{codes, strip_prefix, split}
use cncnet_server.Text.Decimal.{
  to_string, is_digit, All-to_string, parse_unsigned, parse_unsigned-to_string,
}
use cncnet_server.Text.Split.{Lacks, split-join}

-- The value of a parameter, in the pieces between the ampersands.
abbrev pub find_value : List ℕ → List (List ℕ) → Option (List ℕ)
find_value key [] = none
find_value key (p ∷ ps) = elim (strip_prefix (key ++ (b'=' ∷ [])) p) [
  | none ↦ find_value key ps
  | some v ↦ some v
]

abbrev pub then_read {ℓ} : {A : Type ℓ} → Option (List ℕ) → (List ℕ → Option A) → Option A
then_read none read = none
then_read (some v) read = read v

unfoldable pub value_of : List ℕ → List ℕ → Option (List ℕ)
value_of key query = find_value key (split b'&' query)

digits-Lack : (s : List ℕ) → All (λ c. is_digit c ≡ true) s → Lacks b'&' s
digits-Lack s h = All-map (λ c e. ground (arith, e)) s h

encoded-Lack : (s : List ℕ) → All (λ c. is_encoded c ≡ true) s → Lacks b'&' s
encoded-Lack s h = All-map (λ c e. ground (arith, e)) s h

abbrev is_free : List ℕ → Bool
is_free [] = true
is_free (c ∷ s) = not (c == b'&') && is_free s

is_free-Lacks : (s : List ℕ) → is_free s ≡ true → Lacks b'&' s
is_free-Lacks [] e = tt
is_free-Lacks (c ∷ s) e = (ground (arith, e), is_free-Lacks s (ground (arith, e)))

parameter-Lacks :
    (key value : List ℕ) → is_free key ≡ true → Lacks b'&' value → Lacks b'&' (parameter key value)
parameter-Lacks key value e h =
    All-append (λ c. (c == b'&') ≡ false) key (b'=' ∷ value) (is_free-Lacks key e) (refl, h)

module _ (u : UrlEncoding) where
  open u use {encode, decode, encode-is_encoded, decode-encode}

  number-Lacks : (n : ℕ) → Lacks b'&' (to_string n)
  number-Lacks n = digits-Lack (to_string n) (All-to_string n)

  text-Lacks : (s : List ℕ) → Lacks b'&' (encode s)
  text-Lacks s = encoded-Lack (encode s) (encode-is_encoded s)

  flag-Lacks : (b : Bool) → Lacks b'&' (if b then codes "1" else codes "0")
  flag-Lacks true = (refl, tt)
  flag-Lacks false = (refl, tt)

  abbrev pieces : MasterAnnounce → List (List ℕ)
  pieces a =
      parameter (codes "version") (to_string a.announced_version)
      ∷ parameter (codes "name") (encode a.name)
      ∷ parameter (codes "port") (to_string a.port)
      ∷ parameter (codes "clients") (to_string a.clients)
      ∷ parameter (codes "maxclients") (to_string a.maxclients)
      ∷ parameter (codes "masterpw") (encode a.masterpw)
      ∷ parameter (codes "maintenance") (if a.maintenance then codes "1" else codes "0")
      ∷ []

  split-query_of : (a : MasterAnnounce) → split b'&' (query_of u a) ≡ pieces a
  split-query_of a =
      split-join b'&' _ _
        (parameter-Lacks (codes "version") _ refl (number-Lacks a.announced_version))
        (
          parameter-Lacks (codes "name") _ refl (text-Lacks a.name),
          (
            parameter-Lacks (codes "port") _ refl (number-Lacks a.port),
            (
              parameter-Lacks (codes "clients") _ refl (number-Lacks a.clients),
              (
                parameter-Lacks (codes "maxclients") _ refl (number-Lacks a.maxclients),
                (
                  parameter-Lacks (codes "masterpw") _ refl (text-Lacks a.masterpw),
                  (parameter-Lacks (codes "maintenance") _ refl (flag-Lacks a.maintenance), tt),
                ),
              ),
            ),
          ),
        )

  -- What stands under a key.
  read_query :
      (key : List ℕ) (a : MasterAnnounce) → value_of key (query_of u a) ≡ find_value key (pieces a)
  unfolding value_of
  read_query key a = ap (find_value key) (split-query_of a)

  -- The URL is the master server's with a query in which everything can be read back.
  pub record Readable (a : MasterAnnounce) (query : List ℕ) : Type 0 where
    pub url : announce_url u a ≡ a.url ++ (b'?' ∷ query)
    pub announced_version :
        then_read (value_of (codes "version") query) (parse_unsigned (2 ^ 64))
        ≡ some a.announced_version
    pub name : then_read (value_of (codes "name") query) decode ≡ some a.name
    pub port : then_read (value_of (codes "port") query) (parse_unsigned (2 ^ 64)) ≡ some a.port
    pub clients :
        then_read (value_of (codes "clients") query) (parse_unsigned (2 ^ 64)) ≡ some a.clients
    pub maxclients :
        then_read (value_of (codes "maxclients") query) (parse_unsigned (2 ^ 64))
        ≡ some a.maxclients
    pub masterpw : then_read (value_of (codes "masterpw") query) decode ≡ some a.masterpw
    pub maintenance :
        value_of (codes "maintenance") query ≡ some (if a.maintenance then codes "1" else codes "0")

  pub announce_url-Readable :
      (a : MasterAnnounce)
      → a.announced_version < 2 ^ 64
      → a.port < 2 ^ 64
      → a.clients < 2 ^ 64
      → a.maxclients < 2 ^ 64
      → Readable a (query_of u a)
  unfolding announce_url
  announce_url-Readable a v p c m = record {
    url = refl;
    announced_version =
        rw (read_query (codes "version") a) (parse_unsigned-to_string a.announced_version v);
    name = rw (read_query (codes "name") a) (decode-encode a.name);
    port = rw (read_query (codes "port") a) (parse_unsigned-to_string a.port p);
    clients = rw (read_query (codes "clients") a) (parse_unsigned-to_string a.clients c);
    maxclients = rw (read_query (codes "maxclients") a) (parse_unsigned-to_string a.maxclients m);
    masterpw = rw (read_query (codes "masterpw") a) (decode-encode a.masterpw);
    maintenance = read_query (codes "maintenance") a;
  }
