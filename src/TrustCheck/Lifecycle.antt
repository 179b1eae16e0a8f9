-- ===== src/TrustCheck/Lifecycle.antt =====
-- What holds of the manager over every sequence of calls, one at a time.
use sippin_soda.Base.{
  ℕ, ◌≡◌, refl, sym, ap, subst, some_inj, Option-cases, Result-cases, ◌∙◌, true, false, none, some,
  List, [], ◌∷◌, arith, Bool-cases, ◌⊎◌, inl, inr, ok,
}
use sippin_soda.Tls.{TlsInspectionGate, TlsClientTrustProof, TlsClientIdentity, IssuedLeaf}
use sippin_soda.TrustCheck.{
  TlsTrustCheckManager, RunningCheck, Visit, Listener, start, cancel, finish_check, default_manager,
  verified, cancel_running, run_check,
}

-- A call, or the end of the task that the last `start` spawned.
pub data CheckEvent : Type 0 where
  starts : IssuedLeaf → TlsClientIdentity → ℕ → ℕ → Listener → CheckEvent
  finishes : Visit → ℕ → CheckEvent
  cancels : CheckEvent

unfoldable pub check_step : TlsTrustCheckManager → CheckEvent → TlsTrustCheckManager
unfolding start finish_check cancel
check_step m (starts leaf client valid_for now listener) =
    (start m leaf client valid_for now listener).0
check_step m (finishes visit now) = finish_check m visit now
check_step m cancels = cancel m

unfoldable pub check_run : TlsTrustCheckManager → List CheckEvent → TlsTrustCheckManager
check_run m [] = m
check_run m (e ∷ es) = check_run (check_step m e) es

-- A gate is there only with the status of the check that made it: verified, for the client of its
-- proof, until its leaf expires.
pub record IsBacked (m : TlsTrustCheckManager) (gate : TlsInspectionGate) : Type 0 where
  pub proof : TlsClientTrustProof
  pub opted_in : gate.opted_in ≡ true
  pub proved : gate.trust_proof ≡ some proof
  pub verified_status : m.status.state ≡ verified
  pub same_client : m.status.client ≡ some proof.client
  pub same_expiry : m.status.expires_at ≡ some proof.expires_at

-- Every gate is backed, and there is none while a check runs.
pub record IsConsistent (m : TlsTrustCheckManager) : Type 0 where
  pub backed : (gate : TlsInspectionGate) → m.gate ≡ some gate → IsBacked m gate
  pub pending : (c : RunningCheck) → m.running ≡ some c → c.finished ≡ false → m.gate ≡ none

module _ {m n : TlsTrustCheckManager} where
  IsBacked-move :
      {gate : TlsInspectionGate} → n.status ≡ m.status → IsBacked m gate → IsBacked n gate
  IsBacked-move e b = record {
    proof = b.proof;
    opted_in = b.opted_in;
    proved = b.proved;
    verified_status = ap (λ s. s.state) e ∙ b.verified_status;
    same_client = ap (λ s. s.client) e ∙ b.same_client;
    same_expiry = ap (λ s. s.expires_at) e ∙ b.same_expiry;
  }

  -- A step that keeps the status and the gate, and leaves at most the same check running.
  kept-IsConsistent :
      n.status ≡ m.status
      → n.gate ≡ m.gate
      → ((c : RunningCheck) → n.running ≡ some c → c.finished ≡ false → m.running ≡ some c)
      → IsConsistent m
      → IsConsistent n
  kept-IsConsistent s g r v = record {
    backed = λ gate e. IsBacked-move s (v.backed gate (sym g ∙ e));
    pending = λ c e open_check. g ∙ v.pending c (r c e open_check) open_check;
  }

closed-IsConsistent : (m : TlsTrustCheckManager) → m.gate ≡ none → IsConsistent m
closed-IsConsistent m g = record {
  backed = λ gate e. absurd (not_both (sym g ∙ e));
  pending = λ c e open_check. g;
}
  where
    not_both : {gate : TlsInspectionGate} → none ≡ some gate → ⊥
    not_both e = cc

cancel_running-IsConsistent :
    (m : TlsTrustCheckManager) → IsConsistent m → IsConsistent (cancel_running m)
unfolding cancel_running
cancel_running-IsConsistent m v = kept-IsConsistent refl refl (λ c e _. cc) v

-- `start` changes nothing, or only stops the running check, or leaves no gate.
start_cases :
    (m : TlsTrustCheckManager) (leaf : IssuedLeaf) (client : TlsClientIdentity) (valid_for now : ℕ)
    (listener : Listener)
    → let m' = (start m leaf client valid_for now listener).0 in
      (m ≡ m') ⊎ (cancel_running m ≡ m') ⊎ (m'.gate ≡ none)
unfolding start
start_cases m leaf client valid_for now listener = ground arith

start-IsConsistent :
    (m : TlsTrustCheckManager) (leaf : IssuedLeaf) (client : TlsClientIdentity) (valid_for now : ℕ)
    (listener : Listener)
    → IsConsistent m
    → IsConsistent (start m leaf client valid_for now listener).0
start-IsConsistent m leaf client valid_for now listener v =
    elim (start_cases m leaf client valid_for now listener) [
      | inl same ↦ subst IsConsistent same v
      | inr (inl stopped) ↦ subst IsConsistent stopped (cancel_running-IsConsistent m v)
      | inr (inr closed) ↦ closed-IsConsistent _ closed
    ]

abbrev proof_of : IssuedLeaf → TlsClientIdentity → TlsClientTrustProof
proof_of leaf client = record {
  issuer_fingerprint_sha256 = leaf.issuer_fingerprint_sha256;
  verified_host = leaf.host;
  client = client;
  expires_at = leaf.expires_at;
}

run_check_ok :
    (leaf : IssuedLeaf) (client : TlsClientIdentity) (visit : Visit) (gate : TlsInspectionGate)
    → run_check leaf client visit ≡ ok gate
    → (gate.opted_in ≡ true) × (gate.trust_proof ≡ some (proof_of leaf client))
unfolding run_check
run_check_ok leaf client visit gate h = ground arith

-- The end of a check: nothing runs, or it failed without a gate, or it made a gate.
finish_cases :
    (m : TlsTrustCheckManager) (visit : Visit) (now : ℕ)
    → ((c : RunningCheck) → m.running ≡ some c → c.finished ≡ false → m.gate ≡ none)
    → let m' = finish_check m visit now in
      (m ≡ m')
      ⊎ (m'.gate ≡ none)
      ⊎ ((gate : TlsInspectionGate) × (m'.gate ≡ some gate)
          × IsBacked m' gate
          × (c : RunningCheck) × (m'.running ≡ some c)
          × (c.finished ≡ true))
unfolding finish_check
finish_cases m visit now pending = elim (Option-cases m.running) [
  | inl idle_now ↦ inl (ground arith)
  | inr (c, running_now) ↦ elim (Bool-cases c.finished) [
    | inl over ↦ inl (ground arith)
    | inr going ↦ elim (Result-cases (run_check c.leaf c.client visit)) [
      | inl (gate, made) ↦ inr (
          inr (
            gate,
            ground arith,
            record {
              proof = proof_of c.leaf c.client;
              opted_in = ground (arith, run_check_ok c.leaf c.client visit gate);
              proved = ground (arith, run_check_ok c.leaf c.client visit gate);
              verified_status = ground arith;
              same_client = ground arith;
              same_expiry = ground arith;
            },
            record c { finished = true },
            ground arith,
            refl,
          ))
      | inr (e, failed_now) ↦ inr (inl (ground (arith, pending c running_now going)))
    ]
  ]
]

finish-IsConsistent :
    (m : TlsTrustCheckManager) (visit : Visit) (now : ℕ)
    → IsConsistent m
    → IsConsistent (finish_check m visit now)
finish-IsConsistent m visit now v = elim (finish_cases m visit now v.pending) [
  | inl same ↦ subst IsConsistent same v
  | inr (inl closed) ↦ closed-IsConsistent _ closed
  | inr (inr (gate, g, b, c, r, over)) ↦ record {
    backed = λ other e. subst (IsBacked (finish_check m visit now)) (some_inj (sym g ∙ e)) b;
    pending = λ d e open_check. absurd (not_open (some_inj (sym r ∙ e)) over open_check);
  }
]
  where
    not_open : {c d : RunningCheck} → c ≡ d → c.finished ≡ true → d.finished ≡ false → ⊥
    not_open e over open_check = cc

cancel-IsConsistent : (m : TlsTrustCheckManager) → IsConsistent (cancel m)
unfolding cancel
cancel-IsConsistent m = closed-IsConsistent _ refl

check_step-IsConsistent :
    (m : TlsTrustCheckManager) (e : CheckEvent) → IsConsistent m → IsConsistent (check_step m e)
unfolding check_step
check_step-IsConsistent m (starts leaf client valid_for now listener) v =
    start-IsConsistent m leaf client valid_for now listener v
check_step-IsConsistent m (finishes visit now) v = finish-IsConsistent m visit now v
check_step-IsConsistent m cancels v = cancel-IsConsistent m

check_run_from-IsConsistent :
    (m : TlsTrustCheckManager) (es : List CheckEvent)
    → IsConsistent m
    → IsConsistent (check_run m es)
unfolding check_run
check_run_from-IsConsistent m [] v = v
check_run_from-IsConsistent m (e ∷ es) v =
    check_run_from-IsConsistent (check_step m e) es (check_step-IsConsistent m e v)

default-IsConsistent : IsConsistent default_manager
unfolding default_manager
default-IsConsistent = closed-IsConsistent _ refl

-- After every sequence of starts, ends of checks and cancellations, the gate of the manager, if
-- there is one, is opted in and holds a proof, and the status says that this proof's client was
-- verified until the proof expires; and while a check runs there is no gate.
pub check_run-IsConsistent : (es : List CheckEvent) → IsConsistent (check_run default_manager es)
check_run-IsConsistent es = check_run_from-IsConsistent default_manager es default-IsConsistent

-- A cancelled manager stays without a gate until a new check is started: the task that was
-- aborted cannot bring one back.
pub cancelled_stays_closed :
    (m : TlsTrustCheckManager) (visit : Visit) (now : ℕ)
    → finish_check (cancel m) visit now ≡ cancel m
unfolding finish_check cancel
cancelled_stays_closed m visit now = refl
