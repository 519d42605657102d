-- ===== src/Text/Tests.antt =====
-- The text functions at concrete inputs.
use cncnet_server.Base.{◌≡◌, refl, [], ◌∷◌}
use cncnet_server.Text.{codes, split}
use cncnet_server.Text.Decimal.{to_string, i16_to_string}

minus_two : i16_to_string 65534 ≡ codes "-2"
unfolding i16_to_string to_string
minus_two = refl

split_keeps_empty : split b'/' (codes "/a/") ≡ [] ∷ codes "a" ∷ [] ∷ []
split_keeps_empty = refl
