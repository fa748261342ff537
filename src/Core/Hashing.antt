-- ===== src/Core/Hashing.antt =====
-- What the program uses of sha256 and of hexadecimal text (`hashlib`, `bytes.hex`,
-- `bytes.fromhex`, `str.lower`), as an interface.
use microtensor_subnet.Base.{String, Option, some, ◌≡◌}

pub record Hashing : Type 1 where
  pub Digest : Type 0
  -- sha256(left + right)
  pub pair : Digest → Digest → Digest
  -- sha256((hotkey + transcript_sha).encode("utf-8"))
  pub leaf : String → String → Digest
  -- sha256_hex(b"")
  pub empty_root : String
  pub hex : Digest → String
  pub from_hex : String → Option Digest
  pub lower : String → String
  -- reading back what was printed
  pub from_hex-hex : (d : Digest) → from_hex (hex d) ≡ some d
  -- `bytes.hex` and `hexdigest` print in lower case
  pub lower-hex : (d : Digest) → lower (hex d) ≡ hex d
  pub lower-empty_root : lower empty_root ≡ empty_root
