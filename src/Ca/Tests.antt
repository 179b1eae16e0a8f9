-- ===== src/Ca/Tests.antt =====
-- Runs of the authority, with crates whose JSON has one place for an authority.
use sippin_soda.Base.{
  ℕ, ◌*◌, ◌≡◌, refl, ap, ◌∙◌, sym, true, false, Option, none, some, List, [], ◌∷◌, ok, err, zero,
  suc, some_inj, ◌⊎◌,
}
use sippin_soda.Text.{Text, text, methods}
use sippin_soda.Text.Ip.{parse_ip}
use sippin_soda.Tls.{IssuedLeaf}
use sippin_soda.Bodies.{Bytes}
use sippin_soda.Ca.{
  StoredCa, Crates, KeyPair, Certificate, absent, status_from, generate_ca, fingerprint,
  normalize_leaf_host, is_leaf_host, valid_label, second,
}
use sippin_soda.Ca.Store.{Secret, status, prepare, generate, load, removal_check, certificate_pem}
use sippin_soda.Ca.Manager.{
  CaCall, asks, generates, removes, calls, spec_calls, Represents, calls-InStep, call, spec_call,
  spec_prepare, spec_load, spec_status,
}
use sippin_soda.Ca.Consent.{call-agreed, granted, generate-status, reads-SamePublic}

abbrev key : KeyPair
key = record { pem = text "K"; der = 1 ∷ 2 ∷ [] }

abbrev certificate : Certificate
certificate = record { pem = text "C"; der = 3 ∷ 4 ∷ [] }

-- 2024-01-01, in seconds after the epoch.
abbrev today : ℕ
today = 1704067200

abbrev authority : StoredCa
authority = record {
  certificate_pem = text "C";
  private_key_pem = text "K";
  fingerprint_sha256 = text "AB:0F";
  created_at = today * 1000;
  expires_at = 1861747200000;
}

-- JSON that can be read back: three texts, each with a zero after it, and two numbers.
abbrev put : Text → Bytes → Bytes
put [] after = 0 ∷ after
put (c ∷ t) after = suc c ∷ put t after

abbrev get : Bytes → Text × Bytes
get [] = ([], [])
get (zero ∷ after) = ([], after)
get (suc c ∷ after) = let (t, left) = get after in (c ∷ t, left)

get-put : (t : Text) (after : Bytes) → get (put t after) ≡ (t, after)
get-put [] after = refl
get-put (c ∷ t) after = rw (get-put t after) refl

abbrev written : StoredCa → Bytes
written ca =
    put ca.certificate_pem
      (put ca.private_key_pem (put ca.fingerprint_sha256 (ca.created_at ∷ ca.expires_at ∷ [])))

abbrev numbers : Text → Text → Text → Bytes → Option StoredCa
numbers pem secret print (created ∷ expires ∷ []) = some (record {
  certificate_pem = pem;
  private_key_pem = secret;
  fingerprint_sha256 = print;
  created_at = created;
  expires_at = expires;
})
numbers pem secret print bytes = none

abbrev parsed : Bytes → Option StoredCa
parsed bytes =
    let (pem, keys) = get bytes in
    let (secret, prints) = get keys in
    let (print, times) = get prints in numbers pem secret print times

parsed-written : (ca : StoredCa) → parsed (written ca) ≡ some ca
parsed-written ca =
    rw
      (
        get-put ca.certificate_pem (
            put ca.private_key_pem
              (put ca.fingerprint_sha256 (ca.created_at ∷ ca.expires_at ∷ []))),
        get-put ca.private_key_pem (put ca.fingerprint_sha256 (ca.created_at ∷ ca.expires_at ∷ [])),
        get-put ca.fingerprint_sha256 (ca.created_at ∷ ca.expires_at ∷ []),
      )
      refl

abbrev crates : Crates
crates = record {
  params_new = λ names. true;
  self_signed = λ params with_key. some certificate;
  key_from_pem = λ pem. some key;
  issuer_from = λ pem with_key. true;
  signed_by = λ params with_key pem ca_key. some certificate;
  sha256 = λ bytes. 0xAB ∷ 0x0F ∷ [];
  to_vec = λ ca. some (written ca);
  from_slice = parsed;
  from_unix_timestamp = λ seconds. some (seconds * second);
}

generate_ca_test : generate_ca crates (today * second) (some key) (today * 1000) ≡ ok authority
unfolding generate_ca fingerprint
generate_ca_test = refl

round_trip :
    (ca : StoredCa) (bytes : Bytes)
    → crates.to_vec ca ≡ some bytes
    → crates.from_slice bytes ≡ some ca
round_trip ca bytes e = ap parsed (sym (some_inj e)) ∙ parsed-written ca

leaf_host_test : normalize_leaf_host (text " LocalHost. ") ≡ ok (text "localhost")
unfolding normalize_leaf_host is_leaf_host valid_label methods parse_ip
leaf_host_test = refl

-- A history: generate without consent, generate, ask, generate again, remove, ask.
abbrev history : List CaCall
history =
    generates granted false (today * second) (some key) (today * 1000)
    ∷ generates granted true (today * second) (some key) (today * 1000)
    ∷ asks granted
    ∷ generates granted true (today * second) (some key) (today * 1000)
    ∷ removes granted true
    ∷ asks granted
    ∷ []

calls-InStep_example :
    ((calls crates none history).1 ≡ (spec_calls crates none history).1)
    × Represents crates (spec_calls crates none history).0 (calls crates none history).0
calls-InStep_example = calls-InStep crates none none history round_trip refl

history_test :
    (spec_calls crates none history).1
    ≡ err "Explicit consent is required before generating a local CA."
      ∷ ok (status_from authority)
      ∷ ok (status_from authority)
      ∷ err "A local CA already exists. Remove it before generating a replacement."
      ∷ ok absent
      ∷ ok absent
      ∷ []
unfolding spec_calls spec_call spec_prepare spec_load spec_status removal_check status_from
    generate_ca fingerprint
history_test = refl

abbrev stored : Secret
stored = some (written authority)

call-agreed_example :
    ((call crates stored (removes granted true)).0 ≡ stored)
    ⊎ ((true ≡ true) × (((call crates stored (removes granted true)).0 ≡ none) ⊎ (stored ≡ none)))
call-agreed_example = call-agreed crates stored (removes granted true)

abbrev now : ℕ
now = today * second

generated :
    (generate crates granted none true now (some key) (today * 1000)).1 ≡ ok (status_from authority)
unfolding generate prepare load generate_ca fingerprint status_from
generated = refl

generate-status_example :
    status crates granted (generate crates granted none true now (some key) (today * 1000)).0
    ≡ ok (status_from authority)
generate-status_example =
    generate-status crates granted none true now (some key) (today * 1000) (status_from authority)
      round_trip generated

abbrev leaf : IssuedLeaf
leaf = record {
  certificate_der = 3 ∷ 4 ∷ [];
  private_key_der = 1 ∷ 2 ∷ [];
  issuer_fingerprint_sha256 = text "AB:0F";
  host = text "localhost";
  expires_at = 1704153600000;
}

abbrev rekeyed : StoredCa
rekeyed = record authority { private_key_pem = text "other" }

reads-SamePublic_example :
    (status crates granted (some (written authority))
      ≡ status crates granted (some (written rekeyed)))
    × (certificate_pem crates granted (some (written authority))
        ≡ certificate_pem crates granted (some (written rekeyed)))
reads-SamePublic_example =
    reads-SamePublic crates granted authority rekeyed (written authority) (written rekeyed) refl
      refl (record { certificate = refl; fingerprint = refl; created = refl; expires = refl })
