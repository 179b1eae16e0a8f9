-- ===== src/Ca/Consent.antt =====
-- What changes the stored authority, and what its calls reveal.
use sippin_soda.Base.{
  ℕ, ◌≡◌, refl, sym, ap, ◌∙◌, ◌⊎◌, inl, inr, arith, Bool, true, false, Option, none, some, String,
  Result, ok, err, Result-cases,
}
use sippin_soda.Tls.{CaStatus}
use sippin_soda.Bodies.{Bytes}
use sippin_soda.Ca.{StoredCa, Crates, KeyPair, status_from}
use sippin_soda.Ca.Store.{
  Secret, Access, load, status, prepare, generate, certificate_pem, remove_ca, removal_check,
}
use sippin_soda.Ca.Manager.{CaCall, asks, generates, removes, call, generate-ok, generate-err}

err_ok :
    {cause : String} {reported : CaStatus}
    → ¬ (Path (Result String CaStatus) (err cause) (ok reported))
err_ok e = cc

load-none :
    (crates : Crates) (access : Access) (secret : Secret)
    → load crates access secret ≡ ok none
    → secret ≡ none
unfolding load
load-none crates access none h = refl
load-none crates access (some bytes) h = ground arith

prepare-consent :
    (crates : Crates) (access : Access) (secret : Secret) (consent : Bool) (now : ℕ)
    (key : Option KeyPair) (now_ms : ℕ) (ca : StoredCa) (bytes : Bytes)
    → prepare crates access secret consent now key now_ms ≡ ok (ca, bytes)
    → (consent ≡ true) × (load crates access secret ≡ ok none) × (crates.to_vec ca ≡ some bytes)
unfolding prepare
prepare-consent crates access secret consent now key now_ms ca bytes h =
    (ground arith, ground arith, ground arith)

removal_check-confirmed :
    (access : Access) (confirmed : Bool) {done : Unit {0}}
    → removal_check access confirmed ≡ ok done
    → confirmed ≡ true
unfolding removal_check
removal_check-confirmed access confirmed h = ground arith

-- The user's agreement that the call carries.
abbrev pub agreed : CaCall → Bool
agreed (asks access) = false
agreed (generates access consent now key now_ms) = consent
agreed (removes access confirmed) = confirmed

-- Without the user's agreement a call leaves the stored authority as it is; with it, a stored
-- authority is never replaced by another: what is stored stays, or goes, or takes an empty place.
pub call-agreed :
    (crates : Crates) (secret : Secret) (next : CaCall)
    → ((call crates secret next).0 ≡ secret)
      ⊎ ((agreed next ≡ true) × (((call crates secret next).0 ≡ none) ⊎ (secret ≡ none)))
unfolding call remove_ca
call-agreed crates secret (asks access) = inl refl
call-agreed crates secret (generates access consent now key now_ms) =
    elim (Result-cases (prepare crates access secret consent now key now_ms)) [
      | inl ((ca, bytes), e) ↦
          let (agree, empty, _) =
            prepare-consent crates access secret consent now key now_ms ca bytes e in
          inr (agree, inr (load-none crates access secret empty))
      | inr (cause, e) ↦
          inl
            (ap (λ pair. pair.0) (generate-err crates access secret consent now key now_ms cause e))
    ]
call-agreed crates secret (removes access confirmed) =
    elim (Result-cases (removal_check access confirmed)) [
      | inl (_, e) ↦ inr (removal_check-confirmed access confirmed e, inl (rw (e, remove_ca) refl))
      | inr (cause, e) ↦ inl (rw (e, remove_ca) refl)
    ]

-- All uses of the store succeed.
abbrev pub granted : Access
granted = record { lifecycle = true; entry = true; reads = true; entry_again = true; writes = true }

status-parsed :
    (crates : Crates) (ca : StoredCa) (bytes : Bytes)
    → crates.from_slice bytes ≡ some ca
    → status crates granted (some bytes) ≡ ok (status_from ca)
unfolding status load
status-parsed crates ca bytes e = ground arith

-- A status that `generate` reports is the one that `status` reads back, where JSON that can be
-- written can be read back.
pub generate-status :
    (crates : Crates) (access : Access) (secret : Secret) (consent : Bool) (now : ℕ)
    (key : Option KeyPair) (now_ms : ℕ) (reported : CaStatus)
    → ((ca : StoredCa) (bytes : Bytes)
        → crates.to_vec ca ≡ some bytes
        → crates.from_slice bytes ≡ some ca)
    → (generate crates access secret consent now key now_ms).1 ≡ ok reported
    → status crates granted (generate crates access secret consent now key now_ms).0 ≡ ok reported
generate-status crates access secret consent now key now_ms reported trip h =
    elim (Result-cases (prepare crates access secret consent now key now_ms)) [
      | inl ((ca, bytes), e) ↦
          let made = generate-ok crates access secret consent now key now_ms ca bytes e in
          let (_, _, json) =
            prepare-consent crates access secret consent now key now_ms ca bytes e in
          ap (λ pair. status crates granted pair.0) made
          ∙ status-parsed crates ca bytes (trip ca bytes json)
          ∙ sym (ap (λ pair. pair.1) made)
          ∙ h
      | inr (cause, e) ↦ absurd (
          err_ok (
            sym (
              ap (λ pair. pair.1)
                (generate-err crates access secret consent now key now_ms cause e))
            ∙ h))
    ]

-- The two authorities differ in the private key at most.
pub record SamePublic (a b : StoredCa) : Type 0 where
  pub certificate : a.certificate_pem ≡ b.certificate_pem
  pub fingerprint : a.fingerprint_sha256 ≡ b.fingerprint_sha256
  pub created : a.created_at ≡ b.created_at
  pub expires : a.expires_at ≡ b.expires_at

status_from-SamePublic : (a b : StoredCa) → SamePublic a b → status_from a ≡ status_from b
unfolding status_from
status_from-SamePublic a b same = rw (same.fingerprint, same.created, same.expires) refl

-- Neither the status nor the exported certificate depends on the private key: two stored
-- authorities that differ in it only give the same answers.
pub reads-SamePublic :
    (crates : Crates) (access : Access) (a b : StoredCa) (bytes others : Bytes)
    → crates.from_slice bytes ≡ some a
    → crates.from_slice others ≡ some b
    → SamePublic a b
    → (status crates access (some bytes) ≡ status crates access (some others))
      × (certificate_pem crates access (some bytes) ≡ certificate_pem crates access (some others))
unfolding status certificate_pem load
reads-SamePublic crates access a b bytes others parsed parsed' same =
    let same_status = status_from-SamePublic a b same in
    let same_pem = same.certificate in (ground arith, ground arith)
