-- ===== src/Hosts.antt =====
-- crates/engine/src/proxy.rs: host patterns and the classification of destinations.
pub mod Match
pub mod Overlap
pub mod Classify
mod Tests
use sippin_soda.Base.{
  ℕ, ◌-◌, Bool, true, false, not, ◌&&◌, ◌||◌, Option, none, some, List, [], ◌∷◌, ◌++◌, ltb, leb,
  ◌==◌, if◌then◌else◌, any, all, length, is_some, get_elem?, Result, ok, err, refuse_if, collect,
  ◌>>=◌, ◌>>◌, String,
}
use sippin_soda.Text.{
  Text, text, len, is_empty, is_ascii, to_ascii_lowercase, is_ascii_alphanumeric, trim,
  trim_start_matches, trim_end_matches, text_eq, strip_prefix, strip_suffix, starts_with, ends_with,
  contains, split,
}
use sippin_soda.Text.Ip.{parse_ip, is_loopback}
use sippin_soda.Policy.{DestinationClass, development, production, unknown}

-- `enum HostPattern`.
pub data HostPattern : Type 0 where
  exact : Text → HostPattern
  suffix : Text → HostPattern

abbrev dot : ℕ
dot = b'.'

valid_label : Text → Bool
unfolding starts_with ends_with
valid_label label =
    not (is_empty label)
    && leb (len label) 63
    && not (starts_with label (text "-"))
    && not (ends_with label (text "-"))
    && all (λ c. is_ascii_alphanumeric c || (c == b'-') || (c == b'_')) label

unfoldable pub valid_hostname : Text → Bool
unfolding valid_label
valid_hostname value = all valid_label (split dot value)

-- `strip_prefix('[').and_then(strip_suffix(']')).unwrap_or(value)`.
unbracket : Text → Text
unfolding strip_prefix
unbracket value = elim (strip_prefix value (text "[")) [
  | none ↦ value
  | some rest ↦ elim (strip_suffix rest (text "]")) [ none ↦ value | some inner ↦ inner ]
]

abbrev wildcard_error : String
wildcard_error = "Host wildcards must use the form *.example.com."

-- The text that `compile` reads a rule as.
abbrev rule_text : Text → Text
rule_text value = to_ascii_lowercase (trim_end_matches (λ c. c == dot) (trim value))

compile_exact : Text → Result String HostPattern
unfolding unbracket
compile_exact value = do
  refuse_if (contains value b'*') wildcard_error
  refuse_if (not (is_some (parse_ip (unbracket value))) && not (valid_hostname (unbracket value)))
      "Host rules must be DNS names or IP addresses without a port or URL scheme."
  ok (exact (unbracket value))

compile_suffix : Text → Result String HostPattern
compile_suffix s = do
  refuse_if (is_empty s || contains s b'*' || not (valid_hostname s)) wildcard_error
  ok (suffix s)

-- `HostPattern::compile`.
unfoldable pub compile : Text → Result String HostPattern
unfolding compile_exact compile_suffix
compile rule = do
  let value = rule_text rule
  refuse_if (is_empty value || ltb 253 (len value) || not (is_ascii value))
      "Destination host rules must be non-empty ASCII names up to 253 characters."
  elim (strip_prefix value (text "*.")) [ some s ↦ compile_suffix s | none ↦ compile_exact value ]

-- `host.as_bytes()[host.len() - suffix.len() - 1] == b'.'` where `host` ends with `suffix`: that
-- byte is the last one of the code point before the suffix, and only "." has the byte 46.
dot_before : Text → Text → Bool
dot_before host s = elim (get_elem? host (length host - length s - 1)) [
  | none ↦ false
  | some c ↦ c == dot
]

-- `HostPattern::matches`.
unfoldable pub matches : HostPattern → Text → Bool
unfolding dot_before
matches (exact expected) host = text_eq host expected
matches (suffix s) host = ltb (len s) (len host) && ends_with host s && dot_before host s

-- `HostPattern::overlaps`.
unfoldable pub overlaps : HostPattern → HostPattern → Bool
unfolding matches
overlaps (exact left) (exact right) = text_eq left right
overlaps (exact host) (suffix s) = matches (suffix s) host
overlaps (suffix s) (exact host) = matches (suffix s) host
overlaps (suffix left) (suffix right) =
    text_eq left right || ends_with left (dot ∷ right) || ends_with right (dot ∷ left)

-- `struct DestinationClassifier`.
pub record DestinationClassifier : Type 0 where
  pub development : List HostPattern
  pub production : List HostPattern

-- `DestinationClassifier::compile`.
unfoldable pub compile_classifier : List Text → List Text → Result String DestinationClassifier
unfolding collect any
compile_classifier development_rules production_rules = do
  refuse_if (ltb 128 (length development_rules) || ltb 128 (length production_rules))
      "At most 128 Development and 128 Production host rules are allowed."
  dev ← collect compile development_rules
  prod ← collect compile production_rules
  refuse_if (any (λ d. any (λ p. overlaps d p) prod) dev)
      "Development and Production host rules overlap; classification must be unambiguous."
  ok (record { development = dev; production = prod })

-- The text that `classify` reads a host as.
abbrev pub host_text : Text → Text
host_text host = to_ascii_lowercase (
    trim_end_matches (λ c. c == dot)
      (trim_end_matches (λ c. c == b']') (trim_start_matches (λ c. c == b'[') (trim host))))

abbrev pub is_loopback_address : Text → Bool
is_loopback_address host = elim (parse_ip host) [ none ↦ false | some a ↦ is_loopback a ]

-- `DestinationClassifier::classify`.
unfoldable pub classify : DestinationClassifier → Text → DestinationClass
unfolding any text_eq
classify c host =
    if any (λ pattern. matches pattern (host_text host)) c.production
    then production
    else if any (λ pattern. matches pattern (host_text host)) c.development
        || text_eq (host_text host) (text "localhost")
        || is_loopback_address (host_text host)
    then development
    else unknown
