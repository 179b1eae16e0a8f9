-- ===== src/Auth.antt =====
-- crates/engine/src/proxy.rs: `ProxyClientAuth`, the credentials of the proxy's clients. The `http`,
-- `base64`, `sha2` and `subtle` crates are parameters.
pub mod Laws
mod Tests
use sippin_soda.Base.{
  ℕ, zero, suc, ◌≡◌, Bool, true, false, not, ◌&&◌, ◌||◌, Option, none, some, List, [], ◌∷◌, ltb,
  leb, ◌==◌, if◌then◌else◌, String, all, Result, ok, err, ◌>>=◌, ◌>>◌, refuse_if, is_some_and,
}
use sippin_soda.Text.{Text, text, text_eq, len, trim, eq_ignore_ascii_case, is_ascii_alphanumeric}
use sippin_soda.Tls.{validate_id}

-- What the engine uses of the crates. Bytes and texts are both lists of numbers; a text that
-- `to_str` gives is ASCII, as are profile ids and tokens.
pub record Crypto : Type 0 where
  -- `BASE64.decode(_).ok()`
  pub decode : Text → Option (List ℕ)
  -- `Sha256::digest`
  pub sha256 : List ℕ → List ℕ

-- `struct ProxyClientAuth`.
pub record ProxyClientAuth : Type 0 where
  pub profile_id : Text
  pub token_sha256 : List ℕ

abbrev token_character : ℕ → Bool
token_character c = is_ascii_alphanumeric c || (c == b'-') || (c == b'_')

unfoldable pub valid_token : Text → Bool
unfolding len all
valid_token token = leb 32 (len token) && leb (len token) 128 && all token_character token

-- `str::split_once(separator)` and the split at the first separator of a byte string.
unfoldable pub split_once : ℕ → Text → Option (Text × Text)
split_once s [] = none
split_once s (c ∷ t) =
    if c == s
    then some ([], t)
    else elim (split_once s t) [ none ↦ none | some (front, back) ↦ some (c ∷ front, back) ]

module _ (crypto : Crypto) where
  -- `ProxyClientAuth::new`.
  unfoldable pub new : Text → Text → Result String ProxyClientAuth
  new profile_id token = do
    id ← validate_id profile_id
    refuse_if (not (valid_token token))
        "Proxy client tokens must use 32-128 letters, numbers, '-' or '_'."
    ok (record { profile_id = id; token_sha256 = crypto.sha256 token })

  unfoldable pub accepts_pair : ProxyClientAuth → Text × Text → Bool
  accepts_pair auth (profile_id, token) =
      text_eq profile_id auth.profile_id && text_eq (crypto.sha256 token) auth.token_sha256

  unfoldable pub accepts_basic : ProxyClientAuth → Text × Text → Bool
  accepts_basic auth (scheme, encoded) =
      eq_ignore_ascii_case scheme (text "basic")
      && is_some_and (crypto.decode (trim encoded))
          (λ decoded. is_some_and (split_once b':' decoded) (accepts_pair auth))

  -- `accepts`, from the text of the `proxy-authorization` header, if there is one.
  unfoldable pub accepts : ProxyClientAuth → Option Text → Bool
  accepts auth header =
      is_some_and header (λ value. is_some_and (split_once b' ' value) (accepts_basic auth))
