-- ===== src/Tokens/Id.antt =====
-- internal/tokens/store.go: token identifiers, the digests in hexadecimal.
use forcefield.Base.{not, none, some, ◌==◌, if◌then◌else◌, Bytes, length, Result, ok, err}
use forcefield.Library.{Codec}
use forcefield.Tokens.Types.{StoreError, invalid_token}

unfoldable pub token_id : Codec → Bytes → Bytes
token_id c hash = c.hex_encode hash

unfoldable pub parse_token_id : Codec → Bytes → Result StoreError Bytes
parse_token_id c id = if not (length id == 64) then err invalid_token else elim (c.hex_decode id) [
  | none ↦ err invalid_token
  | some hash ↦ if length hash == 32 then ok hash else err invalid_token
]
