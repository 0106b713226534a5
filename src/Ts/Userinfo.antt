-- ===== src/Ts/Userinfo.antt =====
-- ts/src/userinfo.ts: the fallback for display claims.
pub mod Overlap
pub mod Alike
pub mod Conforms
pub mod Tests
use gateway_auth.Prelude.{
  ℕ, ◌-◌, ◌*◌, ◌++◌, Bool, false, ◌&&◌, List, [], ◌∷◌, Option, none, some, Result, ok, err,
  if◌then◌else◌, ltb, leb,
}
use gateway_auth.Text.{codes, same}
use gateway_auth.Ts.Strings.{Units, or_blank}
use gateway_auth.Ts.Identity.{Identity}

-- Milliseconds.
abbrev pub userinfo_ttl : ℕ
userinfo_ttl = 60 * 60 * 1000

pub record Entry : Type 0 where
  pub name : Units
  pub email : Units
  pub fetched_at : ℕ

-- The `Map`, in the order of insertion.
abbrev pub Cache : Type 0
Cache = List (Units × Entry)

unfoldable pub get : Cache → Units → Option Entry
get [] subject = none
get ((s, e) ∷ cache) subject = if same s subject then some e else get cache subject

unfoldable pub set : Cache → Units → Entry → Cache
set [] subject entry = (subject, entry) ∷ []
set ((s, e) ∷ cache) subject entry =
    if same s subject then (s, entry) ∷ cache else (s, e) ∷ set cache subject entry

-- What `response.json()` gives: null, or a value with the members that the cast names, a string each or
-- absent (as in a value that is no object). `none` is a member that is absent or null.
pub record Members : Type 0 where
  pub sub : Option Units
  pub name : Option Units
  pub email : Option Units

pub data Body : Type 0 where
  null : Body
  members : Members → Body

-- `fetch` rejects, or a response comes, with its status and what `json()` gives or rejects with.
pub data Response : Type 0 where
  failed : Units → Response
  answered : ℕ → Result Units Body → Response

-- `fetchImpl(uri, { headers: { authorization } })`.
abbrev pub Fetch : Type 0
Fetch = Units → Units → Response

pub data Warning : Type 0 where
  request_failed : Units → Warning
  refused : ℕ → Warning
  undecodable : Units → Warning

-- `response.ok`.
abbrev pub is_ok : ℕ → Bool
is_ok status = leb 200 status && leb status 299

-- `fill` resolves with the identity as it left it, or rejects with an error.
pub record Filled : Type 0 where
  pub result : Result Units Identity
  pub cache : Cache
  pub warnings : List Warning

-- `cached && now - cached.fetchedAt < userinfoTTL`.
abbrev pub fresh : ℕ → Option Entry → Option Entry
fresh now none = none
fresh now (some e) = if ltb (now - e.fetched_at) userinfo_ttl then some e else none

-- `body.sub === identity.subject`.
abbrev pub is_about : Option Units → Units → Bool
is_about none subject = false
is_about (some sub) subject = same sub subject

-- From the body on: reading a member of null throws.
unfoldable pub use_body : ℕ → Identity → Cache → Result Units Body → Filled
use_body now i c (err e) = record { result = ok i; cache = c; warnings = undecodable e ∷ [] }
use_body now i c (ok null) = record { result = err (codes "TypeError"); cache = c; warnings = [] }
use_body now i c (ok (members m)) =
    if is_about m.sub i.subject
    then record {
      result = ok (record i { name = or_blank m.name; email = or_blank m.email });
      cache =
          set c i.subject
            (record { name = or_blank m.name; email = or_blank m.email; fetched_at = now });
      warnings = [];
    }
    else record { result = ok i; cache = c; warnings = [] }

unfoldable pub use_response : ℕ → Identity → Cache → Response → Filled
unfolding use_body
use_response now i c (failed e) = record {
  result = ok i;
  cache = c;
  warnings = request_failed e ∷ [];
}
use_response now i c (answered status body) =
    if is_ok status
    then use_body now i c body
    else record { result = ok i; cache = c; warnings = refused status ∷ [] }

abbrev pub use_entry : Identity → Cache → Entry → Filled
use_entry i c e = record {
  result = ok (record i { name = e.name; email = e.email });
  cache = c;
  warnings = [];
}

-- `fill(accessToken, identity)`: `now` is the clock at the lookup, `later` at the write.
unfoldable pub fill : Fetch → ℕ → ℕ → Units → Units → Identity → Cache → Filled
unfolding get use_response
fill fetch now later uri access_token i c = elim (fresh now (get c i.subject)) [
  | none ↦ use_response later i c (fetch uri (codes "Bearer " ++ access_token))
  | some e ↦ use_entry i c e
]
