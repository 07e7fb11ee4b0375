-- ===== src/Targets/Url.antt =====
-- targetstore.py, `validate_entry`: the URL of an entry, up to its parameters.
-- What urllib, the codec "idna" and the Unicode tables answer is a parameter.
use vigil_sre.Prelude.{
  ℕ, String, Bool, false, not, ◌||◌, List, [], ◌∷◌, Option, none, some, str_eq, leb, ◌==◌,
  if◌then◌else◌, is_some,
}
use vigil_sre.Prelude.Dict.{contains}
use vigil_sre.Targets.Text.{strip}
use vigil_sre.Targets.Value.{Value, text}
use vigil_sre.Targets.Checked.{
  Checked, ok, refused, Refusal, guard, ◌>>=◌, ◌>>◌, url_required, url_too_long, url_unparsable,
  scheme_not_allowed, no_host, invalid_port, port_zero, bad_domain, url_with_user,
  credential_parameter,
}
use Prim.Native.Char.{Char, code}
use Prim.Native.String.{count, [] as no_char, ◌∷◌ as ◌⊳◌}

-- What `urlparse` makes of a text, with its lazy properties; `endpoint` is `none` where asking for
-- the host and the port raises.
pub record Parsed : Type 0 where
  pub scheme : String
  pub netloc : String
  pub path : String
  pub params : String
  pub query : String
  pub fragment : String
  pub endpoint : Option (Option String × Option ℕ)
  pub username : Option String
  pub password : Option String

pub record Python : Type 0 where
  -- `none` is a ValueError
  pub urlparse : String → Option Parsed
  -- the names that `parse_qsl(..., keep_blank_values=True)` lists
  pub parameters : String → List String
  pub lower : String → String
  -- does `encode("idna")` succeed?
  pub is_domain : String → Bool
  -- the decimal value of a code point
  pub digit : ℕ → Option ℕ

abbrev pub max_url_length : ℕ
max_url_length = 2048

abbrev pub credential_params : List String
credential_params =
    "token" ∷ "access_token" ∷ "auth" ∷ "auth_token" ∷ "authorization" ∷ "key" ∷ "api_key"
    ∷ "apikey" ∷ "secret" ∷ "client_secret" ∷ "password" ∷ "passwd" ∷ "pwd" ∷ "jwt" ∷ "session"
    ∷ "bearer" ∷ "sig" ∷ "signature" ∷ "x-amz-signature" ∷ "x-goog-signature" ∷ "x-amz-credential"
    ∷ []

abbrev pub credential_suffixes : List String
credential_suffixes =
    "_token" ∷ "-token" ∷ "_key" ∷ "-key" ∷ "_secret" ∷ "-secret" ∷ "password" ∷ []

-- `s.split(sep)`, of one character
abbrev pub before_first : Char → List String → List String
before_first c [] = (c ⊳ no_char) ∷ []
before_first c (s ∷ rest) = (c ⊳ s) ∷ rest

unfoldable pub split : ℕ → String → List String
split sep no_char = "" ∷ []
split sep (c ⊳ s) = if code c == sep then "" ∷ split sep s else before_first c (split sep s)

-- `s.replace(old, new)`, of one character
unfoldable pub replace : ℕ → Char → String → String
replace old new no_char = ""
replace old new (c ⊳ s) = (if code c == old then new else c) ⊳ replace old new s

-- `s.endswith(suffix)`
unfoldable pub ends_with : String → String → Bool
ends_with no_char suffix = str_eq suffix ""
ends_with (c ⊳ s) suffix = str_eq (c ⊳ s) suffix || ends_with s suffix

unfoldable pub ends_with_any : String → List String → Bool
unfolding ends_with
ends_with_any s [] = false
ends_with_any s (x ∷ xs) = ends_with s x || ends_with_any s xs

unfoldable pub meets : List String → List String → Bool
unfolding contains
meets [] ys = false
meets (x ∷ xs) ys = contains ys x || meets xs ys

-- `part.split(";", 1)[1]`, if the part has a ";"
unfoldable pub after_semicolon : String → Option String
after_semicolon no_char = none
after_semicolon (c ⊳ s) = if code c == b';' then some s else after_semicolon s

abbrev pub with_part : Option String → List (String × String) → List (String × String)
with_part none rest = rest
with_part (some s) rest = ("path", s) ∷ rest

unfoldable pub path_parameters : List String → List (String × String)
unfolding after_semicolon
path_parameters [] = []
path_parameters (part ∷ parts) = with_part (after_semicolon part) (path_parameters parts)

-- The texts that may hold parameters, by the name that a refusal gives them.
unfoldable pub components : Parsed → List (String × String)
unfolding path_parameters split
components p =
    ("query", p.query)
    ∷ ("path", p.params)
    ∷ ("fragment", p.fragment)
    ∷ path_parameters (split b'/' p.path)

abbrev pub allowed_schemes : List String
allowed_schemes = "http" ∷ "https" ∷ []

abbrev pub is_port_zero : Option ℕ → Bool
is_port_zero none = false
is_port_zero (some n) = n == 0

abbrev pub required {ℓ} : {A : Type ℓ} → Option A → Refusal → Checked A
required none r = refused r
required (some a) r = ok a

module _ (py : Python) where
  unfoldable pub is_credential : String → Bool
  unfolding contains ends_with_any meets split replace
  is_credential name =
      let low = py.lower name in
      contains credential_params low
      || ends_with_any low credential_suffixes
      || meets (split b'_' (replace b'-' "_" low)) ("jwt" ∷ "session" ∷ "bearer" ∷ [])

  unfoldable pub check_names : String → List String → Checked (Unit {0})
  unfolding is_credential
  check_names component [] = ok tt
  check_names component (name ∷ names) = do
    guard (not (is_credential name)) (credential_parameter component name)
    check_names component names

  unfoldable pub check_components : List (String × String) → Checked (Unit {0})
  unfolding check_names replace
  check_components [] = ok tt
  check_components ((component, s) ∷ rest) = do
    check_names component (py.parameters (replace b';' "&" s))
    check_components rest

  unfoldable pub check_parsed : Parsed → Checked (Unit {0})
  unfolding contains components check_components
  check_parsed p = do
    guard (contains allowed_schemes p.scheme) (scheme_not_allowed p.scheme)
    guard (not (str_eq p.netloc "")) no_host
    endpoint ← required p.endpoint invalid_port
    host ← required endpoint.0 no_host
    guard (not (str_eq host "")) no_host
    guard (not (is_port_zero endpoint.1)) port_zero
    guard (py.is_domain host) (bad_domain host)
    guard (not (is_some p.username || is_some p.password)) url_with_user
    check_components (components p)

  unfoldable pub check_url_text : String → Checked (Unit {0})
  unfolding check_parsed
  check_url_text url = do
    guard (not (str_eq url "")) url_required
    guard (leb (count url) max_url_length) url_too_long
    parsed ← required (py.urlparse url) url_unparsable
    check_parsed parsed

  unfoldable pub validated_url : Option Value → Checked String
  unfolding check_url_text strip
  validated_url (some (text s)) = check_url_text (strip s) >> ok (strip s)
  validated_url _ = refused url_required
