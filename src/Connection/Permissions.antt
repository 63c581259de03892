-- ===== src/Connection/Permissions.antt =====
-- `MycConnectionPermission` and `MycConnectionPermissionSet` of src/state_connection.rs. A set is its
-- sorted list; the digest that the source stores beside it is a function of that list.
pub mod Sets
pub mod Codes
use myc.Common.{
  ℕ, Bool, true, false, ◌&&◌, ◌||◌, Option, none, some, List, [], ◌∷◌, ◌++◌, Result, ok, err, ltb,
  ◌==◌, length, bytes_eq, all, if◌then◌else◌, bytes_of, u32_to_string, parse_u32, strip_prefix,
  sort_by, has_equal_neighbours, search_by,
}

pub data Permission : Type 0 where
  get_public_key get_session_capability : Permission
  sign_event : ℕ → Permission
  nip04_encrypt nip04_decrypt nip44_encrypt nip44_decrypt ping switch_relays logout : Permission

pub data PermissionError : Type 0 where
  invalid_permission_set : PermissionError

abbrev pub sign_event_prefix : List ℕ
sign_event_prefix = bytes_of "sign_event:kind:"

-- `code`.
unfoldable pub permission_code : Permission → List ℕ
permission_code get_public_key = bytes_of "get_public_key"
permission_code get_session_capability = bytes_of "get_session_capability"
permission_code (sign_event kind) = sign_event_prefix ++ u32_to_string kind
permission_code nip04_encrypt = bytes_of "nip04_encrypt"
permission_code nip04_decrypt = bytes_of "nip04_decrypt"
permission_code nip44_encrypt = bytes_of "nip44_encrypt"
permission_code nip44_decrypt = bytes_of "nip44_decrypt"
permission_code ping = bytes_of "ping"
permission_code switch_relays = bytes_of "switch_relays"
permission_code logout = bytes_of "logout"

-- `.filter(|(kind, parsed)| *kind == parsed.to_string())`.
abbrev pub canonical_kind : List ℕ → Option ℕ → Option Permission
canonical_kind text none = none
canonical_kind text (some parsed) =
    if bytes_eq text (u32_to_string parsed) then some (sign_event parsed) else none

abbrev pub parse_kind : Option (List ℕ) → Option Permission
parse_kind none = none
parse_kind (some text) = canonical_kind text (parse_u32 text)

-- `parse`: the arms of the `match`, in turn.
unfoldable pub permission_parse : List ℕ → Option Permission
permission_parse value =
    if bytes_eq value (bytes_of "get_public_key")
    then some get_public_key
    else if bytes_eq value (bytes_of "get_session_capability")
    then some get_session_capability
    else if bytes_eq value (bytes_of "nip04_encrypt")
    then some nip04_encrypt
    else if bytes_eq value (bytes_of "nip04_decrypt")
    then some nip04_decrypt
    else if bytes_eq value (bytes_of "nip44_encrypt")
    then some nip44_encrypt
    else if bytes_eq value (bytes_of "nip44_decrypt")
    then some nip44_decrypt
    else if bytes_eq value (bytes_of "ping")
    then some ping
    else if bytes_eq value (bytes_of "switch_relays")
    then some switch_relays
    else if bytes_eq value (bytes_of "logout")
    then some logout
    else parse_kind (strip_prefix sign_event_prefix value)

-- The derived `Ord`: the place of the variant, then the kind.
abbrev pub variant : Permission → ℕ
variant get_public_key = 0
variant get_session_capability = 1
variant (sign_event _) = 2
variant nip04_encrypt = 3
variant nip04_decrypt = 4
variant nip44_encrypt = 5
variant nip44_decrypt = 6
variant ping = 7
variant switch_relays = 8
variant logout = 9

abbrev pub kind_of : Permission → ℕ
kind_of (sign_event kind) = kind
kind_of _ = 0

unfoldable pub permission_lt : Permission → Permission → Bool
permission_lt p q =
    ltb (variant p) (variant q) || (variant p == variant q && ltb (kind_of p) (kind_of q))

unfoldable pub permission_eq : Permission → Permission → Bool
permission_eq p q = variant p == variant q && kind_of p == kind_of q

-- `MycConnectionPermissionSet::new`. It sorts by `sort_unstable`: equal permissions are the same, so no
-- other order of them can be told apart.
unfoldable pub permission_set_new : List Permission → Result PermissionError (List Permission)
unfolding sort_by has_equal_neighbours
permission_set_new permissions =
    if ltb 64 (length permissions)
    then err invalid_permission_set
    else if has_equal_neighbours permission_eq (sort_by permission_lt permissions)
    then err invalid_permission_set
    else ok (sort_by permission_lt permissions)

-- `contains`, a binary search.
unfoldable pub permissions_contain : List Permission → Permission → Bool
permissions_contain permissions p = search_by permission_lt permission_eq permissions p

unfoldable pub is_subset_of : List Permission → List Permission → Bool
is_subset_of permissions other = all (permissions_contain other) permissions

unfoldable pub permissions_eq : List Permission → List Permission → Bool
permissions_eq [] [] = true
permissions_eq (p ∷ ps) (q ∷ qs) = permission_eq p q && permissions_eq ps qs
permissions_eq _ _ = false
