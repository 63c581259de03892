-- ===== src/Connection/Tests/Sets.antt =====
-- Permission sets and the texts of permissions at concrete inputs.
use myc.Common.{
  arith, ◌≤◌, ◌≡◌, refl, true, some, List, [], ◌∷◌, ok, any, all, length, bytes_eq, digits,
  u32_to_string, parse_digits, parse_u32, strip_prefix, bytes_of, sort_by, has_equal_neighbours,
  search_by,
}
use myc.Connection.Permissions.{
  Permission, sign_event, ping, permission_code, permission_parse, permission_lt, permission_eq,
  permission_set_new, permissions_contain, is_subset_of,
}
use myc.Connection.Permissions.Sets.{permission_set_new-contain, is_subset_of_antisym}
use myc.Connection.Permissions.Codes.{permission_parse-permission_code, permission_parse_canonical}

abbrev given : List Permission
given = ping ∷ sign_event 1 ∷ []

abbrev wanted : List Permission
wanted = sign_event 1 ∷ ping ∷ []

wanted_set : permission_set_new given ≡ ok wanted
unfolding permission_set_new permission_lt permission_eq sort_by has_equal_neighbours
wanted_set = refl

wanted_again : permission_set_new wanted ≡ ok wanted
unfolding permission_set_new permission_lt permission_eq sort_by has_equal_neighbours
wanted_again = refl

wanted_subset : is_subset_of wanted wanted ≡ true
unfolding is_subset_of all permissions_contain search_by permission_lt permission_eq
wanted_subset = refl

permission_set_new-contain_example :
    (permissions_contain wanted ping ≡ any (λ q. permission_eq q ping) given)
    × (length wanted ≡ length given)
    × (length wanted ≤ 64)
permission_set_new-contain_example = permission_set_new-contain given wanted ping wanted_set

is_subset_of_antisym_example : wanted ≡ wanted
is_subset_of_antisym_example =
    is_subset_of_antisym given wanted wanted wanted wanted_set wanted_again wanted_subset
      wanted_subset

permission_parse-permission_code_example :
    permission_parse (permission_code (sign_event 30_023)) ≡ some (sign_event 30_023)
permission_parse-permission_code_example =
    permission_parse-permission_code (sign_event 30_023) (omega arith)

parsed_kind : permission_parse (bytes_of "sign_event:kind:1") ≡ some (sign_event 1)
unfolding permission_parse bytes_eq strip_prefix parse_u32 parse_digits u32_to_string digits
parsed_kind = refl

permission_parse_canonical_example : permission_code (sign_event 1) ≡ bytes_of "sign_event:kind:1"
permission_parse_canonical_example =
    permission_parse_canonical (bytes_of "sign_event:kind:1") (sign_event 1) parsed_kind
