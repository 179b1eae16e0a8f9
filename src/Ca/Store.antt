-- ===== src/Ca/Store.antt =====
-- `CaManager`: the authority in the credential store.
use sippin_soda.Base.{
  ℕ, Bool, not, Option, none, some, String, Result, ok, err, ok_or, ◌>>=◌, refuse_if, ◌>>◌, map_err,
  is_some,
}
use sippin_soda.Text.{Text}
use sippin_soda.Policy.{DestinationClass, authorize, inspect_tls}
use sippin_soda.Tls.{CaStatus, IssuedLeaf}
use sippin_soda.Bodies.{Bytes}
use sippin_soda.Ca.{StoredCa, Crates, KeyPair, absent, status_from, generate_ca, issue_leaf_from_ca}

-- The secret under the application's name.
abbrev pub Secret : Type 0
Secret = Option Bytes

-- How a call's uses of the lock and of the credential store go: whether the lock holds, the entry
-- opens, the secret can be read, the entry opens a second time, and the secret can be written.
pub record Access : Type 0 where
  pub lifecycle : Bool
  pub entry : Bool
  pub reads : Bool
  pub entry_again : Bool
  pub writes : Bool

abbrev unavailable : String
unavailable = "The operating-system credential store is unavailable."

abbrev lock_failed : String
lock_failed = "Local CA lifecycle lock failed."

abbrev parse_stored : Crates → Bytes → Result String (Option StoredCa)
parse_stored crates secret = elim (crates.from_slice secret) [
  | none ↦ err "The stored local CA is invalid; remove and regenerate it."
  | some ca ↦ ok (some ca)
]

-- `CaManager::load`.
unfoldable pub load : Crates → Access → Secret → Result String (Option StoredCa)
load crates access secret = do
  refuse_if (not access.entry) unavailable
  refuse_if (not access.reads) "Cannot read the local CA from the credential store."
  elim secret [ none ↦ ok none | some bytes ↦ parse_stored crates bytes ]

-- `CaManager::status`.
unfoldable pub status : Crates → Access → Secret → Result String CaStatus
status crates access secret = do
  refuse_if (not access.lifecycle) lock_failed
  stored ← load crates access secret
  elim stored [ none ↦ ok absent | some ca ↦ ok (status_from ca) ]

-- The authority that `generate` is to store, and its JSON.
unfoldable pub prepare :
    Crates → Access → Secret → Bool → ℕ → Option KeyPair → ℕ → Result String (StoredCa × Bytes)
prepare crates access secret consent now generated now_ms = do
  refuse_if (not consent) "Explicit consent is required before generating a local CA."
  refuse_if (not access.lifecycle) lock_failed
  stored ← load crates access secret
  refuse_if (is_some stored) "A local CA already exists. Remove it before generating a replacement."
  ca ← generate_ca crates now generated now_ms
  bytes ← ok_or (crates.to_vec ca) "Cannot prepare the CA for secure storage."
  refuse_if (not access.entry_again) unavailable
  refuse_if (not access.writes) "Cannot save the local CA in the credential store."
  ok (ca, bytes)

-- `CaManager::generate`: the secret afterwards, and the result.
unfoldable pub generate :
    Crates → Access → Secret → Bool → ℕ → Option KeyPair → ℕ → Secret × Result String CaStatus
generate crates access secret consent now generated now_ms =
    elim (prepare crates access secret consent now generated now_ms) [
      | err cause ↦ (secret, err cause)
      | ok (ca, bytes) ↦ (some bytes, ok (status_from ca))
    ]

-- `CaManager::certificate_pem`, as a text.
unfoldable pub certificate_pem : Crates → Access → Secret → Result String Text
certificate_pem crates access secret = do
  refuse_if (not access.lifecycle) lock_failed
  stored ← load crates access secret
  ca ← ok_or stored "Generate the local CA before exporting its certificate."
  ok ca.certificate_pem

-- The early returns of `remove`.
unfoldable pub removal_check : Access → Bool → Result String (Unit {0})
removal_check access confirmed = do
  refuse_if (not confirmed) "Explicit confirmation is required before removing local CA material."
  refuse_if (not access.lifecycle) lock_failed
  refuse_if (not access.entry) unavailable
  refuse_if (not access.writes) "Cannot remove the local CA from the credential store."
  ok tt

-- `CaManager::remove`: the secret afterwards, and the result.
unfoldable pub remove_ca : Access → Secret → Bool → Secret × Result String CaStatus
remove_ca access secret confirmed = elim (removal_check access confirmed) [
  | err cause ↦ (secret, err cause)
  | ok _ ↦ (none, ok absent)
]

-- `CaManager::issue_leaf`.
unfoldable pub issue_leaf :
    Crates
    → Access
    → Secret
    → Text
    → DestinationClass
    → ℕ
    → Option KeyPair
    → Result String IssuedLeaf
issue_leaf crates access secret host destination now generated = do
  map_err (authorize destination inspect_tls)
      "TLS certificates can be issued only for Development destinations."
  refuse_if (not access.lifecycle) lock_failed
  stored ← load crates access secret
  ca ← ok_or stored "Generate the local CA before issuing a host certificate."
  issue_leaf_from_ca crates ca host destination now generated
