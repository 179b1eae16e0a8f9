-- ===== src/Ca/Manager.antt =====
-- What the operations of `CaManager` do to the stored authority.
use sippin_soda.Base.{
  ℕ, ◌≡◌, refl, inl, inr, arith, Bool, not, Option, none, some, List, [], ◌∷◌, String, Result, ok,
  err, refuse_if, ◌>>=◌, ◌>>◌, Result-cases, is_some,
}
use sippin_soda.Tls.{CaStatus}
use sippin_soda.Bodies.{Bytes}
use sippin_soda.Ca.{StoredCa, Crates, KeyPair, absent, status_from, generate_ca}
use sippin_soda.Ca.Store.{Secret, Access, load, status, prepare, generate, remove_ca, removal_check}

-- A call, with what its uses of the store come to.
pub data CaCall : Type 0 where
  asks : Access → CaCall
  generates : Access → Bool → ℕ → Option KeyPair → ℕ → CaCall
  removes : Access → Bool → CaCall

unfoldable pub call : Crates → Secret → CaCall → Secret × Result String CaStatus
call crates secret (asks access) = (secret, status crates access secret)
call crates secret (generates access consent now key now_ms) =
    generate crates access secret consent now key now_ms
call crates secret (removes access confirmed) = remove_ca access secret confirmed

-- The secret after the calls, and their results.
unfoldable pub calls : Crates → Secret → List CaCall → Secret × List (Result String CaStatus)
calls crates secret [] = (secret, [])
calls crates secret (first ∷ others) =
    let (next, result) = call crates secret first in
    let (last, results) = calls crates next others in (last, result ∷ results)

-- What the manager promises: a cell that holds an authority or none, which no JSON is written to.
unfoldable pub spec_load : Access → Option StoredCa → Result String (Option StoredCa)
spec_load access authority = do
  refuse_if (not access.entry) "The operating-system credential store is unavailable."
  refuse_if (not access.reads) "Cannot read the local CA from the credential store."
  ok authority

abbrev status_of : Option StoredCa → CaStatus
status_of none = absent
status_of (some ca) = status_from ca

unfoldable pub spec_status : Access → Option StoredCa → Result String CaStatus
spec_status access authority = do
  refuse_if (not access.lifecycle) "Local CA lifecycle lock failed."
  stored ← spec_load access authority
  ok (status_of stored)

unfoldable pub spec_prepare :
    Crates → Access → Option StoredCa → Bool → ℕ → Option KeyPair → ℕ → Result String StoredCa
spec_prepare crates access authority consent now generated now_ms = do
  refuse_if (not consent) "Explicit consent is required before generating a local CA."
  refuse_if (not access.lifecycle) "Local CA lifecycle lock failed."
  stored ← spec_load access authority
  refuse_if (is_some stored) "A local CA already exists. Remove it before generating a replacement."
  ca ← generate_ca crates now generated now_ms
  refuse_if (not (is_some (crates.to_vec ca))) "Cannot prepare the CA for secure storage."
  refuse_if (not access.entry_again) "The operating-system credential store is unavailable."
  refuse_if (not access.writes) "Cannot save the local CA in the credential store."
  ok ca

unfoldable pub spec_call :
    Crates → Option StoredCa → CaCall → Option StoredCa × Result String CaStatus
spec_call crates authority (asks access) = (authority, spec_status access authority)
spec_call crates authority (generates access consent now key now_ms) =
    elim (spec_prepare crates access authority consent now key now_ms) [
      | err cause ↦ (authority, err cause)
      | ok ca ↦ (some ca, ok (status_from ca))
    ]
spec_call crates authority (removes access confirmed) = elim (removal_check access confirmed) [
  | err cause ↦ (authority, err cause)
  | ok _ ↦ (none, ok absent)
]

unfoldable pub spec_calls :
    Crates → Option StoredCa → List CaCall → Option StoredCa × List (Result String CaStatus)
spec_calls crates authority [] = (authority, [])
spec_calls crates authority (first ∷ others) =
    let (next, result) = spec_call crates authority first in
    let (last, results) = spec_calls crates next others in (last, result ∷ results)

-- The secret stores the authority.
abbrev pub Represents : Crates → Option StoredCa → Secret → Type 0
Represents crates none secret = secret ≡ none
Represents crates (some ca) secret =
    (bytes : Bytes) × (secret ≡ some bytes) × (crates.from_slice bytes ≡ some ca)

load-Represents :
    (crates : Crates) (access : Access) (authority : Option StoredCa) (secret : Secret)
    → Represents crates authority secret
    → load crates access secret ≡ spec_load access authority
unfolding load spec_load
load-Represents crates access none secret e = ground arith
load-Represents crates access (some ca) secret (bytes, e, parsed) = ground arith

status-Represents :
    (crates : Crates) (access : Access) (authority : Option StoredCa) (secret : Secret)
    → Represents crates authority secret
    → status crates access secret ≡ spec_status access authority
unfolding status spec_status
status-Represents crates access authority secret r =
    grind (arith, load-Represents crates access authority secret r)

-- What a generated authority adds to the cell is what its JSON stands for.
prepare-ok :
    (crates : Crates) (access : Access) (authority : Option StoredCa) (secret : Secret)
    (consent : Bool) (now : ℕ) (key : Option KeyPair) (now_ms : ℕ) (ca : StoredCa) (bytes : Bytes)
    → Represents crates authority secret
    → prepare crates access secret consent now key now_ms ≡ ok (ca, bytes)
    → (spec_prepare crates access authority consent now key now_ms ≡ ok ca)
      × (crates.to_vec ca ≡ some bytes)
unfolding prepare spec_prepare
prepare-ok crates access authority secret consent now key now_ms ca bytes r h =
    let loaded = load-Represents crates access authority secret r in (ground arith, ground arith)

prepare-err :
    (crates : Crates) (access : Access) (authority : Option StoredCa) (secret : Secret)
    (consent : Bool) (now : ℕ) (key : Option KeyPair) (now_ms : ℕ) (cause : String)
    → Represents crates authority secret
    → prepare crates access secret consent now key now_ms ≡ err cause
    → spec_prepare crates access authority consent now key now_ms ≡ err cause
unfolding prepare spec_prepare
prepare-err crates access authority secret consent now key now_ms cause r h =
    let loaded = load-Represents crates access authority secret r in ground arith

pub generate-err :
    (crates : Crates) (access : Access) (secret : Secret) (consent : Bool) (now : ℕ)
    (key : Option KeyPair) (now_ms : ℕ) (cause : String)
    → prepare crates access secret consent now key now_ms ≡ err cause
    → generate crates access secret consent now key now_ms ≡ (secret, err cause)
unfolding generate
generate-err crates access secret consent now key now_ms cause e = rw (e, generate) refl

pub generate-ok :
    (crates : Crates) (access : Access) (secret : Secret) (consent : Bool) (now : ℕ)
    (key : Option KeyPair) (now_ms : ℕ) (ca : StoredCa) (bytes : Bytes)
    → prepare crates access secret consent now key now_ms ≡ ok (ca, bytes)
    → generate crates access secret consent now key now_ms ≡ (some bytes, ok (status_from ca))
unfolding generate
generate-ok crates access secret consent now key now_ms ca bytes e = rw (e, generate) refl

-- The cell and the credential store go through a call in step.
abbrev InStep :
    Crates → Option StoredCa × Result String CaStatus → Secret × Result String CaStatus → Type 0
InStep crates (authority, expected) (secret, result) =
    (result ≡ expected) × Represents crates authority secret

spec_generates-err :
    (crates : Crates) (access : Access) (authority : Option StoredCa) (consent : Bool) (now : ℕ)
    (key : Option KeyPair) (now_ms : ℕ) (cause : String)
    → spec_prepare crates access authority consent now key now_ms ≡ err cause
    → spec_call crates authority (generates access consent now key now_ms) ≡ (authority, err cause)
unfolding spec_call
spec_generates-err crates access authority consent now key now_ms cause e = rw (e, spec_call) refl

spec_generates-ok :
    (crates : Crates) (access : Access) (authority : Option StoredCa) (consent : Bool) (now : ℕ)
    (key : Option KeyPair) (now_ms : ℕ) (ca : StoredCa)
    → spec_prepare crates access authority consent now key now_ms ≡ ok ca
    → spec_call crates authority (generates access consent now key now_ms)
      ≡ (some ca, ok (status_from ca))
unfolding spec_call
spec_generates-ok crates access authority consent now key now_ms ca e = rw (e, spec_call) refl

call-InStep :
    (crates : Crates) (authority : Option StoredCa) (secret : Secret) (next : CaCall)
    → ((ca : StoredCa) (bytes : Bytes)
        → crates.to_vec ca ≡ some bytes
        → crates.from_slice bytes ≡ some ca)
    → Represents crates authority secret
    → InStep crates (spec_call crates authority next) (call crates secret next)
unfolding call spec_call remove_ca
call-InStep crates authority secret (asks access) trip r =
    (status-Represents crates access authority secret r, r)
call-InStep crates authority secret (generates access consent now key now_ms) trip r =
    elim (Result-cases (prepare crates access secret consent now key now_ms)) [
      | inl ((ca, bytes), e) ↦
          let (kept, json) =
            prepare-ok crates access authority secret consent now key now_ms ca bytes r e in
          rw (generate-ok crates access secret consent now key now_ms ca bytes e)
            (rw (kept, spec_call) (refl, (bytes, refl, trip ca bytes json)))
      | inr (cause, e) ↦ rw (generate-err crates access secret consent now key now_ms cause e) (
          rw
            (prepare-err crates access authority secret consent now key now_ms cause r e, spec_call)
            (refl, r))
    ]
call-InStep crates authority secret (removes access confirmed) trip r =
    elim (Result-cases (removal_check access confirmed)) [
      | inl (_, e) ↦ rw (e, spec_call, remove_ca) (refl, refl)
      | inr (cause, e) ↦ rw (e, spec_call, remove_ca) (refl, r)
    ]

-- Where JSON that can be written can be read back, every history of calls has the results that a
-- cell without JSON gives, and leaves a secret that stores what the cell holds.
pub calls-InStep :
    (crates : Crates) (authority : Option StoredCa) (secret : Secret) (history : List CaCall)
    → ((ca : StoredCa) (bytes : Bytes)
        → crates.to_vec ca ≡ some bytes
        → crates.from_slice bytes ≡ some ca)
    → Represents crates authority secret
    → ((calls crates secret history).1 ≡ (spec_calls crates authority history).1)
      × Represents crates (spec_calls crates authority history).0 (calls crates secret history).0
unfolding calls spec_calls
calls-InStep crates authority secret [] trip r = (refl, r)
calls-InStep crates authority secret (first ∷ others) trip r =
    let (same, kept) = call-InStep crates authority secret first trip r in
    let (sames, last) =
      calls-InStep crates (spec_call crates authority first).0 (call crates secret first).0 others
        trip kept in
    (rw (same, sames) refl, last)
