-- ===== src/Auth/Laws.antt =====
-- Which headers a client's credentials accept.
use sippin_soda.Base.{ℕ, ◌≡◌, Bool, true, false, not, some, List, ◌∷◌, ◌++◌, ◌==◌, any, not}
use sippin_soda.Text.{Text, text, trim, eq_ignore_ascii_case}
use sippin_soda.Auth.{Crypto, ProxyClientAuth}

abbrev has : ℕ → Text → Bool
has s t = any (λ c. c == s) t

-- A header value that presents the credentials: the Basic scheme, and the profile and a token with
-- the digest of the profile's, as the decoder gives them.
abbrev pub Presents : Crypto → ProxyClientAuth → Text → Type 0
Presents crypto auth value =
    (scheme : Text) × (encoded : Text) × (token : List ℕ) × (value ≡ scheme ++ b' ' ∷ encoded)
    × (has b' ' scheme ≡ false)
    × (eq_ignore_ascii_case scheme (text "basic") ≡ true)
    × (crypto.decode (trim encoded) ≡ some (auth.profile_id ++ b':' ∷ token))
    × (crypto.sha256 token ≡ auth.token_sha256)
