-- ===== src/Requests.antt =====
-- crates/engine/src/proxy.rs: what the engine keeps of a request: the clipped target, the headers
-- that it shows, the headers that it strips and the template of a replay. The `http` crate's
-- header map is a parameter.
pub mod Headers
mod Tests
use sippin_soda.Base.{
  ℕ, ◌+◌, ◌++◌, ◌≡◌, Bool, true, false, not, ◌&&◌, ◌||◌, Option, none, some, List, [], ◌∷◌, map,
  if◌then◌else◌, any, take, is_some,
}
use sippin_soda.Text.{Text, text, text_eq, split, trim, to_ascii_lowercase}

-- A value, by its `to_str().ok()`.
pub record HeaderValue : Type 0 where
  pub as_str : Option Text

-- `HeaderMap`: its fields in its own order, and the two operations on a name.
pub record HeaderOps (M : Type 0) : Type 0 where
  pub iter : M → List (Text × HeaderValue)
  pub get_all : M → Text → List HeaderValue
  pub remove : M → Text → M

-- The names of fields are the same whatever their case.
abbrev pub SameName : Text → Text → Type 0
SameName name other = to_ascii_lowercase name ≡ to_ascii_lowercase other

-- What the crate documents of `remove`.
pub record IsHeaderMap {M : Type 0} (ops : HeaderOps M) : Type 0 where
  pub get_all-remove : (m : M) (name : Text) → ops.get_all (ops.remove m name) name ≡ []
  pub get_all-remove_other :
      (m : M) (name other : Text)
      → ops.get_all m other ≡ []
      → ops.get_all (ops.remove m name) other ≡ []
  pub get_all-remove_ne :
      (m : M) (name other : Text)
      → ¬ SameName name other
      → ops.get_all (ops.remove m name) other ≡ ops.get_all m other

-- `Request<Incoming>`, with `body().is_end_stream()`.
pub record Request (M : Type 0) : Type 0 where
  pub method : Text
  pub scheme : Option Text
  pub authority : Option Text
  pub host : Option Text
  pub path : Text
  pub query : Option Text
  pub headers : M
  pub ended : Bool

-- `struct ReplayTemplate`; the uri by its parts.
pub record ReplayTemplate (M : Type 0) : Type 0 where
  pub method : Text
  pub scheme : Option Text
  pub authority : Option Text
  pub host : Option Text
  pub path : Text
  pub query : Option Text
  pub headers : M

-- `value.chars().take(max).collect()`.
unfoldable pub clipped : Text → ℕ → Text
clipped value max = take max value

abbrev pub is_connect : {M : Type 0} → Request M → Bool
is_connect r = text_eq r.method (text "CONNECT")

abbrev last_part : List Text → Text
last_part [] = text "invalid-target"
last_part (part ∷ []) = part
last_part (part ∷ next ∷ parts) = last_part (next ∷ parts)

abbrev authority_or : Option Text → Text
authority_or none = text "invalid-target"
authority_or (some a) = a

unfoldable pub safe_target : {M : Type 0} → Request M → Text
unfolding text_eq split clipped
safe_target r =
    let host = last_part (split b'@' (authority_or r.authority)) in
    if is_connect r
    then clipped host 256
    else clipped host 256
      ++ clipped r.path 1024
      ++ (if is_some r.query then text "?[REDACTED]" else [])

abbrev pub shown_headers : List Text
shown_headers =
    text "content-type"
    ∷ text "content-length"
    ∷ text "accept"
    ∷ text "accept-encoding"
    ∷ text "content-encoding"
    ∷ text "cache-control"
    ∷ text "connection"
    ∷ text "transfer-encoding"
    ∷ []

abbrev pub is_shown : Text → Bool
is_shown name = any (λ shown. text_eq shown name) shown_headers

abbrev text_or_binary : Option Text → Text
text_or_binary none = text "[binary]"
text_or_binary (some t) = t

abbrev safe_header : Text × HeaderValue → Text × Text
safe_header (name, value) = (
  clipped name 128,
  if is_shown name then clipped (text_or_binary value.as_str) 256 else text "[REDACTED]",
)

abbrev pub hop_headers : List Text
hop_headers =
    text "connection"
    ∷ text "proxy-connection"
    ∷ text "keep-alive"
    ∷ text "proxy-authenticate"
    ∷ text "proxy-authorization"
    ∷ text "te"
    ∷ text "trailer"
    ∷ text "transfer-encoding"
    ∷ text "upgrade"
    ∷ []

abbrev pub internal_replay_header : Text
internal_replay_header = text "x-sippin-internal-replay"

abbrev pub secret_headers : List Text
secret_headers =
    text "host"
    ∷ text "authorization"
    ∷ text "cookie"
    ∷ text "x-api-key"
    ∷ text "content-length"
    ∷ internal_replay_header
    ∷ []

-- The names that the values of `connection` nominate.
unfoldable pub nominated : List HeaderValue → List Text
unfolding split trim
nominated [] = []
nominated (value ∷ values) = elim value.as_str [
  | none ↦ nominated values
  | some t ↦ map trim (split b',' t) ++ nominated values
]

abbrev is_get_or_head : Text → Bool
is_get_or_head method = text_eq method (text "GET") || text_eq method (text "HEAD")

abbrev pub is_text : Option Text → Text → Bool
is_text none u = false
is_text (some t) u = text_eq t u

module _ {M : Type 0} (ops : HeaderOps M) where
  unfoldable pub safe_headers : M → List (Text × Text)
  unfolding any text_eq clipped
  safe_headers headers = map safe_header (take 48 (ops.iter headers))

  -- `for name in names { headers.remove(name); }`.
  unfoldable pub remove_all : M → List Text → M
  remove_all headers [] = headers
  remove_all headers (name ∷ names) = remove_all (ops.remove headers name) names

  unfoldable pub strip_hop_headers : M → M
  unfolding nominated remove_all
  strip_hop_headers headers =
      remove_all (remove_all headers (nominated (ops.get_all headers (text "connection"))))
        hop_headers

  abbrev pub is_replayable : Request M → Bool
  is_replayable r =
      is_get_or_head r.method && r.ended && is_text r.scheme (text "http") && is_some r.authority

  unfoldable pub replay_template : Request M → Option (ReplayTemplate M)
  unfolding text_eq strip_hop_headers remove_all
  replay_template r =
      if is_replayable r
      then some (record {
        method = r.method;
        scheme = r.scheme;
        authority = r.authority;
        host = r.host;
        path = r.path;
        query = r.query;
        headers = remove_all (strip_hop_headers r.headers) secret_headers;
      })
      else none
