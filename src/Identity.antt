-- ===== src/Identity.antt =====
-- gatewayauth.go: the identity, the view of a request, the sentinel errors, the authenticator
-- interface, the context, and the authenticator that is for local development only.
pub mod Roles
pub mod Tests
use gateway_auth.Prelude.{
  ℕ, Bool, true, false, ◌||◌, ◌&&◌, List, [], ◌∷◌, Option, none, some, Result, ok, err,
  if◌then◌else◌, ◌==◌,
}
use gateway_auth.Text.{Bytes, codes, same}

-- A value of Go's type `any`, as far as the library looks into it: a string, a `[]string`, a
-- `[]any`. Every other dynamic type (a number, a boolean, an object, a time, nil) is `other`, with a
-- tag that tells two such values apart.
mutual
  pub data Any : Type 0 where
    str : Bytes → Any
    strs : List Bytes → Any
    arr : Anys → Any
    other : ℕ → Any

  pub data Anys : Type 0 where
    nil : Anys
    cons : Any → Anys → Anys

-- A `[]string`: nil, or allocated.
abbrev pub Strings : Type 0
Strings = Option (List Bytes)

-- What a `range` over the slice visits.
abbrev pub items : Strings → List Bytes
items none = []
items (some xs) = xs

-- A `map[string]any`: nil, or the entries.
abbrev pub Claims : Type 0
Claims = Option (List (Bytes × Any))

pub record Identity : Type 0 where
  pub subject : Bytes
  pub name : Bytes
  pub email : Bytes
  pub roles : Strings
  pub token : Bytes
  pub claims : Claims

-- `Identity{}`.
abbrev pub zero_identity : Identity
zero_identity = record {
  subject = [];
  name = [];
  email = [];
  roles = none;
  token = [];
  claims = none;
}

-- The loop of `HasRole`.
unfoldable pub holds : List Bytes → Bytes → Bool
holds [] role = false
holds (r ∷ rs) role = same r role || holds rs role

unfoldable pub has_role : Identity → Bytes → Bool
unfolding holds
has_role i role = holds (items i.roles) role

unfoldable pub has_any_role : Identity → List Bytes → Bool
has_any_role i [] = false
has_any_role i (role ∷ roles) = has_role i role || has_any_role i roles

-- `Headers.Get`: "" for a header that is absent. The adapter makes names case-insensitive.
abbrev pub Headers : Type 0
Headers = Bytes → Bytes

-- The errors that reach an adapter: the two sentinels, one wrapped by `fmt.Errorf("...: %w", err)`,
-- and those of an authenticator that is not of this package.
pub data AuthError : Type 0 where
  no_credential : AuthError
  invalid_token : AuthError
  wrapped : Bytes → AuthError → AuthError
  foreign : Bytes → AuthError

-- `errors.Is(err, ErrNoCredential)`.
unfoldable pub is_no_credential : AuthError → Bool
is_no_credential no_credential = true
is_no_credential (wrapped text e) = is_no_credential e
is_no_credential _ = false

-- `errors.Is(err, ErrInvalidToken)`.
unfoldable pub is_invalid_token : AuthError → Bool
is_invalid_token invalid_token = true
is_invalid_token (wrapped text e) = is_invalid_token e
is_invalid_token _ = false

-- `(Identity, error)`.
abbrev pub AuthResult : Type 0
AuthResult = Result AuthError Identity

-- `Authenticator`, over the state `S` that its calls may change. The context that Go passes carries
-- cancellation, which is seen in what the network answers, and fields of the log.
pub record Authenticator (S : Type 0) : Type 0 where
  pub authenticate : Headers → S → AuthResult × S
  pub enabled : Bool

-- `NewDisabled(roles...)`.
unfoldable pub new_disabled : {S : Type 0} → Strings → Authenticator S
new_disabled roles = record { authenticate = λ h s. (ok local, s); enabled = false }
  where
    local : Identity
    local = record {
      subject = codes "local";
      name = codes "local operator";
      email = codes "local@localhost";
      roles = roles;
      token = [];
      claims = none;
    }

-- A key of a `context.Context` or of Fiber's locals: the package's own `ContextKey{}`, or another's.
pub data Key : Type 0 where
  context_key : Key
  other_key : ℕ → Key

pub data Value : Type 0 where
  identity : Identity → Value
  other_value : ℕ → Value

-- A `context.Context`: the values attached to it, the latest first.
abbrev pub Context : Type 0
Context = List (Key × Value)

abbrev pub same_key : Key → Key → Bool
same_key context_key context_key = true
same_key (other_key m) (other_key n) = m == n
same_key _ _ = false

-- `ctx.Value(key)`.
unfoldable pub value : Context → Key → Option Value
value [] k = none
value ((j, v) ∷ ctx) k = if same_key j k then some v else value ctx k

-- The type assertion `.(Identity)`.
abbrev pub as_identity : Option Value → Option Identity
as_identity (some (identity i)) = some i
as_identity _ = none

unfoldable pub with_identity : Context → Identity → Context
with_identity ctx i = (context_key, identity i) ∷ ctx

unfoldable pub from_context : Context → Option Identity
unfolding value
from_context ctx = as_identity (value ctx context_key)
