-- ===== src/Tls/History.antt =====
-- Where the proof of an inspection gate comes from, over every history of calls.
use sippin_soda.Base.{◌≡◌, refl, Bool, true, false, none, some, List, [], ◌∷◌, arith}
use sippin_soda.Tls.{
  TlsInspectionGate, TlsClientTrustProof, TlsClientIdentity, IssuedLeaf, Handshake, bad_leaf,
  timed_out, rejected, accepted, default_gate, set_opt_in, verify_client_trust,
}

-- A call of a method that changes the gate.
pub data GateCall : Type 0 where
  opt : Bool → GateCall
  verify : IssuedLeaf → TlsClientIdentity → Handshake → GateCall

-- The gate after a history of calls, the latest first.
unfoldable pub gate_after : List GateCall → TlsInspectionGate
unfolding default_gate set_opt_in verify_client_trust
gate_after [] = default_gate
gate_after (opt enabled ∷ calls) = set_opt_in (gate_after calls) enabled
gate_after (verify leaf identity handshake ∷ calls) =
    (verify_client_trust (gate_after calls) leaf identity handshake).0

-- The latest verification was accepted, while inspection was opted in, and gave the proof; since
-- then inspection was never opted out.
abbrev pub Origin : List GateCall → TlsClientTrustProof → Type 0
Origin [] p = ⊥
Origin (opt true ∷ calls) p = Origin calls p
Origin (opt false ∷ calls) p = ⊥
Origin (verify leaf identity accepted ∷ calls) p =
    ((gate_after calls).opted_in ≡ true)
    × (p.issuer_fingerprint_sha256 ≡ leaf.issuer_fingerprint_sha256)
    × (p.verified_host ≡ leaf.host)
    × (p.client ≡ identity)
    × (p.expires_at ≡ leaf.expires_at)
Origin (verify leaf identity _ ∷ calls) p = ⊥

-- A gate that is not opted in holds no proof.
pub closed_gate :
    (calls : List GateCall)
    → (gate_after calls).opted_in ≡ false
    → (gate_after calls).trust_proof ≡ none
unfolding gate_after
closed_gate [] h = refl
closed_gate (opt true ∷ calls) h = ground arith
closed_gate (opt false ∷ calls) h = ground (arith, closed_gate calls)
closed_gate (verify leaf identity handshake ∷ calls) h = ground (arith, closed_gate calls)

-- Over every history of calls, a proof in the gate was given by the latest verification, which the
-- client accepted while inspection was opted in, for that leaf and that client, and inspection was
-- not opted out since.
pub trust_proof-Origin :
    (calls : List GateCall) (p : TlsClientTrustProof)
    → (gate_after calls).trust_proof ≡ some p
    → Origin calls p
unfolding gate_after
trust_proof-Origin [] p h = cc
trust_proof-Origin (opt true ∷ calls) p h = trust_proof-Origin calls p (ground arith)
trust_proof-Origin (opt false ∷ calls) p h = ground (arith, closed_gate calls)
trust_proof-Origin (verify leaf identity accepted ∷ calls) p h = ground (arith, closed_gate calls)
trust_proof-Origin (verify leaf identity bad_leaf ∷ calls) p h = ground (arith, closed_gate calls)
trust_proof-Origin (verify leaf identity timed_out ∷ calls) p h = ground (arith, closed_gate calls)
trust_proof-Origin (verify leaf identity rejected ∷ calls) p h = ground (arith, closed_gate calls)
