-- ===== src/Tokens/Request.antt =====
-- internal/tokens/store.go: the checks of a request's identifiers and grants.
use forcefield.Base.{
  ℕ, Bool, false, not, ◌&&◌, ◌||◌, List, [], ◌∷◌, ◌++◌, ltb, ◌==◌, Bytes, bytes_eq, length, ok,
  ◌>>◌, reject,
}
use forcefield.Library.{Text}
use forcefield.Tokens.Types.{invalid_request, Grant}
use forcefield.Tokens.Lineage.{Checked}

-- `for _, r := range value { if unicode.IsControl(r) }`
unfoldable pub any_control : Text → List ℕ → Bool
any_control t [] = false
any_control t (r ∷ rest) = t.is_control r || any_control t rest

unfoldable pub validate_identifier : Text → Bytes → ℕ → Checked
unfolding any_control
validate_identifier t value max_bytes = do
  reject
      (bytes_eq value []
        || ltb max_bytes (length value)
        || not (t.valid_utf8 value)
        || not (bytes_eq (t.trim_space value) value))
      invalid_request
  reject (any_control t (t.runes value)) invalid_request

unfoldable pub validate_binding : Text → Bytes → Bytes → Checked
unfolding validate_identifier
validate_binding t workload audience = do
  validate_identifier t workload 512
  validate_identifier t audience 512

-- `identity{service, credential, policy + "\x00" + binding}`
abbrev pub Identity : Type 0
Identity = Bytes × Bytes × Bytes

unfoldable pub identity : Grant → Identity
identity g = (g.service, g.credential_ref, g.policy_revision ++ 0 ∷ g.binding_revision)

unfoldable pub seen_before : Identity → List Identity → Bool
seen_before i [] = false
seen_before (a, b, c) ((x, y, z) ∷ seen) =
    bytes_eq a x && bytes_eq b y && bytes_eq c z || seen_before (a, b, c) seen

-- The tests on one grant before it is looked up in `seen`.
unfoldable pub validate_grant : Text → Grant → Checked
unfolding validate_identifier
validate_grant t g = do
  validate_identifier t g.service 256
  validate_identifier t g.credential_ref 1024
  validate_identifier t g.policy_revision 256
  validate_identifier t g.binding_revision 256
  reject (g.limits.requests_per_second == 0 && not (g.limits.burst == 0)) invalid_request

unfoldable pub validate_grants : Text → List Grant → List Identity → Checked
unfolding validate_grant seen_before identity
validate_grants t [] seen = ok tt
validate_grants t (g ∷ grants) seen = do
  validate_grant t g
  reject (seen_before (identity g) seen) invalid_request
  validate_grants t grants (identity g ∷ seen)

unfoldable pub validate_grant_set : Text → List Grant → ℕ → Checked
unfolding validate_grants
validate_grant_set t grants max = do
  reject (length grants == 0 || ltb max (length grants)) invalid_request
  validate_grants t grants []
