-- ===== src/Connection/Permissions/Codes.antt =====
-- The texts of permissions: `parse` reads back what `code` writes, and reads nothing else.
use myc.Common.{
  ℕ, ◌≤◌, ◌≡◌, refl, sym, ◌∙◌, Option, none, some, List, ◌++◌, arith, bytes_eq, bytes_eq_sound,
  bytes_eq_refl, bytes_of, u32_to_string, parse_u32, parse_u32-u32_to_string, strip_prefix,
  strip_prefix-eq-some,
}
use myc.Connection.Permissions.{
  Permission, permission_code, permission_parse, parse_kind, canonical_kind, kind_of,
  sign_event_prefix, get_public_key, get_session_capability, sign_event, nip04_encrypt,
  nip04_decrypt, nip44_encrypt, nip44_decrypt, ping, switch_relays, logout,
}

-- Every permission whose event kind is a `u32` is read back from its code.
pub permission_parse-permission_code :
    (p : Permission) → kind_of p ≤ 4_294_967_295 → permission_parse (permission_code p) ≡ some p
unfolding permission_parse permission_code bytes_eq strip_prefix
permission_parse-permission_code get_public_key h = refl
permission_parse-permission_code get_session_capability h = refl
permission_parse-permission_code (sign_event kind) h =
    ground (arith, parse_u32-u32_to_string kind, bytes_eq_refl (u32_to_string kind))
permission_parse-permission_code nip04_encrypt h = refl
permission_parse-permission_code nip04_decrypt h = refl
permission_parse-permission_code nip44_encrypt h = refl
permission_parse-permission_code nip44_decrypt h = refl
permission_parse-permission_code ping h = refl
permission_parse-permission_code switch_relays h = refl
permission_parse-permission_code logout h = refl

canonical_kind-eq-some :
    (digits : List ℕ) (parsed : Option ℕ) (p : Permission)
    → canonical_kind digits parsed ≡ some p
    → sign_event_prefix ++ digits ≡ permission_code p
unfolding permission_code
canonical_kind-eq-some digits none p h = ground arith
canonical_kind-eq-some digits (some n) p h = ground (arith, bytes_eq_sound digits (u32_to_string n))

sign_event_code :
    (text : List ℕ) (stripped : Option (List ℕ)) (p : Permission)
    → strip_prefix sign_event_prefix text ≡ stripped
    → parse_kind stripped ≡ some p
    → permission_code p ≡ text
sign_event_code text none p e h = ground arith
sign_event_code text (some digits) p e h =
    sym (canonical_kind-eq-some digits (parse_u32 digits) p h)
    ∙ strip_prefix-eq-some sign_event_prefix text digits e

-- A text that is read is the code of what it is read as.
pub permission_parse_canonical :
    (text : List ℕ) (p : Permission) → permission_parse text ≡ some p → permission_code p ≡ text
unfolding permission_parse permission_code
permission_parse_canonical text p h = ground (
  arith,
  bytes_eq_sound text (bytes_of "get_public_key"),
  bytes_eq_sound text (bytes_of "get_session_capability"),
  bytes_eq_sound text (bytes_of "nip04_encrypt"),
  bytes_eq_sound text (bytes_of "nip04_decrypt"),
  bytes_eq_sound text (bytes_of "nip44_encrypt"),
  bytes_eq_sound text (bytes_of "nip44_decrypt"),
  bytes_eq_sound text (bytes_of "ping"),
  bytes_eq_sound text (bytes_of "switch_relays"),
  bytes_eq_sound text (bytes_of "logout"),
  sign_event_code text (strip_prefix sign_event_prefix text) p refl,
)
