-- ===== src/Redact.antt =====
-- crates/engine/src/proxy/bodies.rs: the redaction of request bodies. `serde_json::Value` is the
-- data type below; a number is its literal. `char::to_lowercase` is a parameter, since it is a table
-- of Unicode.
pub mod Keys
pub mod Paths
pub mod Pointer
mod Tests
use sippin_soda.Base.{
  ℕ, zero, suc, Bool, true, false, not, ◌&&◌, ◌||◌, Option, none, some, List, [], ◌∷◌, ◌++◌, ltb,
  leb, ◌==◌, if◌then◌else◌, any, retain, length, Result, ok, err, refuse_if, collect, ◌>>=◌, ◌>>◌,
  String,
}
use sippin_soda.Text.{Text, text, text_eq, len, is_empty, trim, starts_with, split, parse_usize}
use sippin_soda.Policy.{redacted}

-- `serde_json::Value`: an object is its entries, in the order of the map.
mutual
  pub data Value : Type 0 where
    null : Value
    bool : Bool → Value
    num : Text → Value
    str : Text → Value
    arr : Items → Value
    obj : Fields → Value

  pub data Fields : Type 0 where
    end : Fields
    field : Text → Value → Fields → Fields

  pub data Items : Type 0 where
    nil : Items
    cons : Value → Items → Items

-- `Value::String("[REDACTED]".into())`.
abbrev pub hidden : Value
hidden = str redacted

abbrev sensitive_keys : List Text
sensitive_keys =
    text "authorization"
    ∷ text "password"
    ∷ text "passwd"
    ∷ text "token"
    ∷ text "accesstoken"
    ∷ text "refreshtoken"
    ∷ text "apikey"
    ∷ text "secret"
    ∷ text "clientsecret"
    ∷ text "cookie"
    ∷ text "session"
    ∷ []

flat_map : (ℕ → Text) → Text → Text
flat_map f [] = []
flat_map f (c ∷ t) = f c ++ flat_map f t

module _ (to_lowercase : ℕ → Text) where
  unfoldable pub normalized : Text → Text
  unfolding flat_map retain
  normalized key =
      flat_map to_lowercase (retain (λ c. not (c == b'-' || c == b'_' || c == b'.')) key)

  unfoldable pub is_sensitive : Text → Bool
  unfolding normalized any text_eq
  is_sensitive key = any (λ k. text_eq k (normalized key)) sensitive_keys

  unfoldable mutual
    pub redact_json : Value → Value
    redact_json null = null
    redact_json (bool b) = bool b
    redact_json (num n) = num n
    redact_json (str s) = str s
    redact_json (arr xs) = arr (redact_items xs)
    redact_json (obj fs) = obj (redact_fields fs)

    pub redact_items : Items → Items
    redact_items nil = nil
    redact_items (cons x xs) = cons (redact_json x) (redact_items xs)

    pub redact_fields : Fields → Fields
    redact_fields end = end
    redact_fields (field key value fs) =
        field key (if is_sensitive key then hidden else redact_json value) (redact_fields fs)

-- `object.values_mut().for_each(f)` and `values.iter_mut().for_each(f)`.
unfoldable pub map_fields : (Value → Value) → Fields → Fields
map_fields f end = end
map_fields f (field key value fs) = field key (f value) (map_fields f fs)

unfoldable pub map_items : (Value → Value) → Items → Items
map_items f nil = nil
map_items f (cons x xs) = cons (f x) (map_items f xs)

-- `if let Some(value) = object.get_mut(key) { f(value) }`, and the same for an index.
unfoldable pub update_field : (Value → Value) → Text → Fields → Fields
unfolding text_eq
update_field f key end = end
update_field f key (field k value fs) =
    if text_eq k key then field k (f value) fs else field k value (update_field f key fs)

unfoldable pub update_item : (Value → Value) → ℕ → Items → Items
update_item f i nil = nil
update_item f zero (cons x xs) = cons (f x) xs
update_item f (suc i) (cons x xs) = cons x (update_item f i xs)

abbrev pub star : Text
star = text "*"

unfoldable pub redact_path : Value → List Text → Value
unfolding map_fields map_items update_field update_item text_eq parse_usize
redact_path value [] = hidden
redact_path (obj fs) (segment ∷ remaining) =
    if text_eq segment star
    then obj (map_fields (λ v. redact_path v remaining) fs)
    else obj (update_field (λ v. redact_path v remaining) segment fs)
redact_path (arr xs) (segment ∷ remaining) =
    if text_eq segment star
    then arr (map_items (λ v. redact_path v remaining) xs)
    else elim (parse_usize segment) [
      | none ↦ arr xs
      | some index ↦ arr (update_item (λ v. redact_path v remaining) index xs)
    ]
redact_path null (segment ∷ remaining) = null
redact_path (bool b) (segment ∷ remaining) = bool b
redact_path (num n) (segment ∷ remaining) = num n
redact_path (str s) (segment ∷ remaining) = str s

-- `for path in &redaction_paths { redact_path(&mut value, path); }`.
unfoldable pub redact_paths : Value → List (List Text) → Value
redact_paths value [] = value
redact_paths value (path ∷ paths) = redact_paths (redact_path value path) paths

abbrev escape_error : String
escape_error = "Redaction paths contain an invalid JSON Pointer escape."

-- The loop of `decode_pointer_segment`.
unfoldable pub decode_pointer_segment : Text → Result String Text
decode_pointer_segment [] = ok []
decode_pointer_segment (c ∷ []) = if c == b'~' then err escape_error else ok (c ∷ [])
decode_pointer_segment (c ∷ d ∷ t) =
    let plain = decode_pointer_segment (d ∷ t) in
    let escaped = decode_pointer_segment t in
    if not (c == b'~')
    then (plain >>= λ rest. ok (c ∷ rest))
    else if d == b'0'
    then (escaped >>= λ rest. ok (b'~' ∷ rest))
    else if d == b'1'
    then (escaped >>= λ rest. ok (b'/' ∷ rest))
    else err escape_error

-- The text behind the leading "/".
abbrev after_slash : Text → Text
after_slash [] = []
after_slash (c ∷ t) = t

unfoldable pub compile_trimmed : Text → Result String (List Text)
compile_trimmed path =
    if ltb 512 (len path) || not (starts_with path (text "/"))
    then err "Redaction paths must be JSON Pointers beginning with '/' and at most 512 characters."
    else collect decode_pointer_segment (split b'/' (after_slash path))

unfoldable pub compile_path : Text → Result String (List Text)
compile_path path = compile_trimmed (trim path)

unfoldable pub compile_redaction_paths : List Text → Result String (List (List Text))
compile_redaction_paths paths = do
  refuse_if (ltb 64 (length paths)) "At most 64 custom request redaction paths are allowed."
  collect compile_path (retain (λ path. not (is_empty (trim path))) paths)
