-- ===== src/Codec/Tests.antt =====
-- The codecs' theorems on small inputs.
use true_pad.Codec.Hex.RoundTrip.{hex_to_bytes-bytes_to_hex, hex_to_bytes_canonical}
use true_pad.Codec.Hex.{bytes_to_hex, hex_to_bytes}
use true_pad.Codec.Base64.{to_base64_url, from_base64_url}
use true_pad.Codec.Base64.RoundTrip.{from_base64_url-to_base64_url}
use true_pad.Codec.Leb128.{write_uleb128, read_uleb128, found, read_groups, last_group}
use true_pad.Codec.Leb128.RoundTrip.{read_uleb128-write_uleb128}
use true_pad.Codec.Leb128.Canonical.{read_uleb128_canonical}
use true_pad.Base.{every_byte-IsBytes}
use true_pad.Base.{◌≤◌, ◌≡◌, refl, [], ◌∷◌, ◌++◌, some, arith, Bytes, IsBytes, max_safe}

abbrev three : Bytes
three = 0 ∷ 171 ∷ 255 ∷ []

hex_to_bytes-bytes_to_hex_example : hex_to_bytes (bytes_to_hex three) ≡ some three
hex_to_bytes-bytes_to_hex_example = hex_to_bytes-bytes_to_hex three (every_byte-IsBytes three refl)

hex_to_bytes_canonical_example : (bytes_to_hex three ≡ bytes_to_hex three) × IsBytes three
hex_to_bytes_canonical_example =
    hex_to_bytes_canonical (bytes_to_hex three) three
      (hex_to_bytes-bytes_to_hex three (every_byte-IsBytes three refl))

from_base64_url-to_base64_url_example : from_base64_url (to_base64_url three) ≡ some three
from_base64_url-to_base64_url_example =
    from_base64_url-to_base64_url three (every_byte-IsBytes three refl)

read_uleb128-write_uleb128_example : read_uleb128 (write_uleb128 1000 ++ three) ≡ found 1000 three
read_uleb128-write_uleb128_example = read_uleb128-write_uleb128 1000 three (omega arith)

read_uleb128_canonical_example : (232 ∷ 7 ∷ three ≡ write_uleb128 1000 ++ three) × (1000 ≤ max_safe)
unfolding read_uleb128 read_groups last_group
read_uleb128_canonical_example =
    read_uleb128_canonical (232 ∷ 7 ∷ three) 1000 three (every_byte-IsBytes (232 ∷ 7 ∷ three) refl)
      refl
