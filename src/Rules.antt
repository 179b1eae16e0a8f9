-- ===== src/Rules.antt =====
-- crates/engine/src/proxy.rs: the response rules and the replacement bodies. The `http` crate's
-- status codes, methods and header values are parameters.
pub mod Laws
mod Tests
use sippin_soda.Base.{
  ℕ, zero, suc, ◌+◌, ◌*◌, ◌≤◌, ◌<◌, ◌≡◌, ◌↔◌, Bool, true, false, not, ◌&&◌, ◌||◌, Option, none,
  some, List, [], ◌∷◌, ltb, leb, ◌==◌, if◌then◌else◌, String, length, any, all, retain, Result, ok,
  err, ok_or, ◌>>=◌, ◌>>◌, refuse_if, is_some, map_err,
}
use sippin_soda.Text.{
  Text, text, text_eq, len, is_empty, trim, contains, starts_with, to_ascii_lowercase,
  is_ascii_alphanumeric, is_ascii_uppercase,
}
use sippin_soda.Hosts.{HostPattern, compile}
use sippin_soda.Hosts

-- What the engine uses of the `http` crate.
pub record Http : Type 0 where
  -- `StatusCode::from_u16(_).is_ok()`
  pub from_u16 : ℕ → Bool
  pub is_success : ℕ → Bool
  pub is_redirection : ℕ → Bool
  pub is_client_error : ℕ → Bool
  pub is_server_error : ℕ → Bool
  -- `Method::from_bytes(_).is_ok()`
  pub method_from_bytes : Text → Bool
  -- `HeaderValue::from_str(_).is_ok()`
  pub header_value_from_str : Text → Bool

-- The ranges that the crate documents.
pub record IsDocumented (http : Http) : Type 0 where
  pub success : (s : ℕ) → http.is_success s ≡ true → (200 ≤ s) × (s < 300)
  pub redirection : (s : ℕ) → http.is_redirection s ≡ true → (300 ≤ s) × (s < 400)
  pub client_error : (s : ℕ) → http.is_client_error s ≡ true → (400 ≤ s) × (s < 500)
  pub server_error : (s : ℕ) → http.is_server_error s ≡ true → (500 ≤ s) × (s < 600)

-- `struct ResponseRuleConfig`.
pub record ResponseRuleConfig : Type 0 where
  pub id : Text
  pub name : Text
  pub enabled : Bool
  pub host : Text
  pub path_prefix : Text
  pub method : Option Text
  pub status : ℕ
  pub body : Option Text
  pub content_type : Option Text

-- `struct ResponseRule`.
pub record ResponseRule : Type 0 where
  pub id : Text
  pub name : Text
  pub host : HostPattern
  pub path_prefix : Text
  pub method : Option Text
  pub status : ℕ
  pub body : Option Text
  pub content_type : Option Text

abbrev pub unwrap_or : Option Text → Text → Text
unwrap_or none t = t
unwrap_or (some t) _ = t

abbrev content_type_error : String
content_type_error = "Replacement Content-Type is invalid or longer than 128 bytes."

abbrev line_break : ℕ → Bool
line_break c = (c == 13) || (c == 10)

-- `replacement.unzip()`.
abbrev pub unzip : Option (Text × Text) → Option Text × Option Text
unzip none = (none, none)
unzip (some (body, content_type)) = (some body, some content_type)

abbrev pub safe_id_character : ℕ → Bool
safe_id_character c = is_ascii_alphanumeric c || (c == b'-') || (c == b'_') || (c == b'.')

unfoldable pub unsafe_id : List Text → Text → Bool
unfolding all any len text_eq
unsafe_id seen id =
    is_empty id
    || ltb 128 (len id)
    || not (all safe_id_character id)
    || any (λ other. text_eq other id) seen

unfoldable pub unsafe_method : Text → Bool
unfolding all len
unsafe_method method = is_empty method || ltb 16 (len method) || not (all is_ascii_uppercase method)

unfoldable pub unsafe_path : Text → Bool
unfolding starts_with len
unsafe_path prefix = not (starts_with prefix (text "/")) || ltb 1024 (len prefix)

unfoldable pub body_forbidden : ℕ → Bool
body_forbidden s = (s == 204) || (s == 205) || (s == 304)

module _ (http : Http) where
  -- The statuses that a rule or a decision may ask for.
  unfoldable pub final_status : ℕ → Bool
  final_status s =
      http.from_u16 s
      && (http.is_success s
          || http.is_redirection s
          || http.is_client_error s
          || http.is_server_error s)

  unfoldable pub compile_replacement_body :
      Option Text → Option Text → Result String (Option (Text × Text))
  unfolding len trim any
  compile_replacement_body none content_type = do
    refuse_if (is_some content_type) "Content-Type can be replaced only with a replacement body."
    ok none
  compile_replacement_body (some body) content_type = do
    refuse_if (ltb (64 * 1024) (len body)) "Replacement body must be at most 65536 UTF-8 bytes."
    let t = unwrap_or content_type (text "text/plain; charset=utf-8")
    refuse_if (is_empty (trim t) || ltb 128 (len t) || any line_break t) content_type_error
    refuse_if (not (http.header_value_from_str (trim t))) content_type_error
    ok (some (body, trim t))

  unfoldable pub compile_method : Option Text → Result String (Option Text)
  unfolding unsafe_method
  compile_method none = ok none
  compile_method (some method) = do
    refuse_if (unsafe_method method) "Response rule methods must be uppercase ASCII tokens."
    refuse_if (not (http.method_from_bytes method)) "Response rule method is invalid."
    ok (some method)

  -- The closure of `compile_all`, with the ids that it has seen.
  unfoldable pub compile_rule : List Text → ResponseRuleConfig → Result String ResponseRule
  compile_rule seen config = do
    refuse_if (unsafe_id seen config.id)
        "Response rule IDs must be unique safe identifiers up to 128 characters."
    let name = trim config.name
    refuse_if (is_empty name || ltb 80 (len name)) "Response rule names must use 1-80 bytes."
    refuse_if (unsafe_path config.path_prefix)
        "Response rule path prefixes must begin with '/' and use at most 1024 bytes."
    method ← compile_method config.method
    refuse_if (not (final_status config.status)) "Response rule status must be between 200 and 599."
    refuse_if (body_forbidden config.status)
        "Response rules cannot use body-forbidden status 204, 205 or 304."
    replacement ← compile_replacement_body config.body config.content_type
    host ← compile config.host
    ok (record {
      id = config.id;
      name = name;
      host = host;
      path_prefix = config.path_prefix;
      method = method;
      status = config.status;
      body = (unzip replacement).0;
      content_type = (unzip replacement).1;
    })

  unfoldable pub compile_rules :
      List Text → List ResponseRuleConfig → Result String (List ResponseRule)
  compile_rules seen [] = ok []
  compile_rules seen (config ∷ configs) = do
    rule ← compile_rule seen config
    rules ← compile_rules (config.id ∷ seen) configs
    ok (rule ∷ rules)

  abbrev is_enabled : ResponseRuleConfig → Bool
  is_enabled config = config.enabled

  -- `ResponseRule::compile_all`.
  unfoldable pub compile_all : List ResponseRuleConfig → Result String (List ResponseRule)
  compile_all configs = do
    refuse_if (ltb 64 (length configs)) "At most 64 response rules are allowed."
    compile_rules [] (retain is_enabled configs)

abbrev method_matches : Option Text → Text → Bool
method_matches none method = true
method_matches (some expected) method = text_eq expected method

-- `ResponseRule::matches`.
unfoldable pub matches : ResponseRule → Text → Text → Text → Bool
unfolding starts_with text_eq
matches rule host path method =
    Hosts.matches rule.host (to_ascii_lowercase host)
    && starts_with path rule.path_prefix
    && method_matches rule.method method
