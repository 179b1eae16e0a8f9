-- ===== src/Dispatch/Admission.antt =====
-- Which requests `handle` records, and how their exchanges end.
use sippin_soda.Base.{
  ℕ, ◌≡◌, refl, sym, ap, ◌∙◌, ◌⊎◌, inl, inr, arith, true, false, not, ◌&&◌, Option, none, some,
  List, [], ◌∷◌, ◌==◌, String, is_some, is_ok, find, Bool-cases, Option-cases, subst, some_inj,
}
use sippin_soda.Text.{Text}
use sippin_soda.Policy.{DestinationClass, development, authorize}
use sippin_soda.Policy
use sippin_soda.Hosts.{classify}
use sippin_soda.Auth.{Crypto, ProxyClientAuth, accepts}
use sippin_soda.Requests.{HeaderOps}
use sippin_soda.Engine.{State, ReplayAuthorization}
use sippin_soda.Engine.Traffic.{Capture, change, is_pending}
use sippin_soda.Engine.Exchange.{update, note_end, finish, finished_capture, capture_of}
use sippin_soda.Engine.Control.{host_or_empty}
use sippin_soda.Dispatch.{
  Answer, refused, Attempt, relays, timed_out, fails, admit, redeem_header, answer, Incoming,
  run_exchange, handle_admitted, handle,
}

-- The request has the right to be forwarded, for the client: it is the proxy's own replay, or its
-- credentials are those of the configured profile, or no credentials are asked for.
pub data Admitted (crypto : Crypto)
    : Option ReplayAuthorization → Option ProxyClientAuth → Option Text → Option Text → Type 0 where
  by_replay :
      {auth : Option ProxyClientAuth} {header : Option Text} (replay : ReplayAuthorization)
      → Admitted crypto (some replay) auth header replay.client_profile_id
  by_profile :
      {header : Option Text} (auth : ProxyClientAuth)
      → accepts crypto auth header ≡ true
      → Admitted crypto none (some auth) header (some auth.profile_id)
  by_default : {header : Option Text} → Admitted crypto none none header none

admit-Admitted :
    (crypto : Crypto) (replay : Option ReplayAuthorization) (auth : Option ProxyClientAuth)
    (header client : _)
    → admit crypto replay auth header ≡ some client
    → Admitted crypto replay auth header client
unfolding admit
admit-Admitted crypto (some replay) auth header client h =
    subst (Admitted crypto (some replay) auth header) (some_inj h) (by_replay replay)
admit-Admitted crypto none (some auth) header client h =
    elim (Bool-cases (accepts crypto auth header)) [
      | inl right ↦
          subst (Admitted crypto none (some auth) header) (ground arith) (by_profile auth right)
      | inr wrong ↦ ground arith
    ]
admit-Admitted crypto none none header client h =
    subst (Admitted crypto none none header) (some_inj h) by_default

replay_refused : (d : DestinationClass) → is_ok (authorize d Policy.replay) ≡ true → d ≡ development
unfolding authorize
replay_refused Policy.development h = refl
replay_refused d h = cc

module _ {M : Type 0} (ops : HeaderOps M) (crypto : Crypto) where
  -- What `handle` comes to: no exchange, and an answer of its own; or an exchange for an admitted
  -- client, whose destination the rules in force call Development if it is a replay.
  abbrev pub Handled :
      State M
      → Incoming M
      → Option ProxyClientAuth
      → (State M → ℕ → State M × Attempt)
      → ℕ
      → State M × Answer
      → Type 0
  Handled s i auth operation elapsed (after, reply) =
      let (replay, left) = redeem_header s i.token in
      let class = classify left.destination_classifier (host_or_empty i.request.host) in
      ((after ≡ left)
        × ((reply ≡ refused 407 "Valid proxy client credentials are required.")
            ⊎ (reply ≡ refused 403 "Replay is allowed only for Development destinations.")))
      ⊎ ((client : Option Text) × Admitted crypto replay auth i.header client
          × (is_some replay ≡ true → class ≡ development)
          × ((after, reply) ≡ run_exchange ops left i class client replay operation elapsed))

  handle_admitted-Handled :
      (s : State M) (i : Incoming M) (auth : Option ProxyClientAuth)
      (operation : State M → ℕ → State M × Attempt) (elapsed : ℕ) (client : Option Text)
      → Admitted crypto (redeem_header s i.token).0 auth i.header client
      → Handled s i auth operation elapsed (
          handle_admitted ops
            (redeem_header s i.token).1
            i
            client
            (redeem_header s i.token).0
            operation
            elapsed)
  unfolding handle_admitted
  handle_admitted-Handled s i auth operation elapsed client admitted =
      let (replay, left) = redeem_header s i.token in
      let class : DestinationClass =
        classify left.destination_classifier (host_or_empty i.request.host) in
      elim (Bool-cases (is_some replay && not (is_ok (authorize class Policy.replay)))) [
        | inl forbidden ↦ rw (forbidden, handle_admitted) (inl (refl, inr refl))
        | inr allowed ↦
            rw (allowed, handle_admitted)
              (inr (client, admitted, (λ is_replay. replay_refused class (ground arith)), refl))
      ]

  -- Every request is refused without an exchange, or admitted and run as one.
  pub handle-Handled :
      (s : State M) (i : Incoming M) (auth : Option ProxyClientAuth)
      (operation : State M → ℕ → State M × Attempt) (elapsed : ℕ)
      → Handled s i auth operation elapsed (handle ops crypto s i auth operation elapsed)
  unfolding handle handle_admitted
  handle-Handled s i auth operation elapsed =
      elim (Option-cases (admit crypto (redeem_header s i.token).0 auth i.header)) [
        | inl none_is ↦ rw (none_is, handle) (inl (refl, inl refl))
        | inr (client, e) ↦
            rw (e, handle)
              (handle_admitted-Handled s i auth operation elapsed client
                (admit-Admitted crypto (redeem_header s i.token).0 auth i.header client e))
      ]

module _ (id : ℕ) where
  find-head :
      (x : Capture) (traffic : List Capture)
      → (x.id == id) ≡ true
      → find (λ c. c.id == id) (x ∷ traffic) ≡ some x
  unfolding find
  find-head x traffic at = rw at refl

  find-tail :
      (x : Capture) (traffic : List Capture)
      → (x.id == id) ≡ false
      → find (λ c. c.id == id) (x ∷ traffic) ≡ find (λ c. c.id == id) traffic
  unfolding find
  find-tail x traffic other = rw other refl

  change-head :
      (f : Capture → Capture) (x : Capture) (traffic : List Capture)
      → (x.id == id) ≡ true
      → change id f (x ∷ traffic) ≡ f x ∷ traffic
  unfolding change
  change-head f x traffic at = rw at refl

  change-tail :
      (f : Capture → Capture) (x : Capture) (traffic : List Capture)
      → (x.id == id) ≡ false
      → change id f (x ∷ traffic) ≡ x ∷ change id f traffic
  unfolding change
  change-tail f x traffic other = rw other refl

  -- A changed capture is found where the capture was.
  find-change :
      (f : Capture → Capture) (traffic : List Capture) (c : Capture)
      → ((x : Capture) → (f x).id ≡ x.id)
      → find (λ x. x.id == id) (change id f traffic) ≡ some c
      → (before : Capture) × (find (λ x. x.id == id) traffic ≡ some before) × (c ≡ f before)
  unfolding find change
  find-change f [] c same h = cc
  find-change f (x ∷ traffic) c same h = elim (Bool-cases (x.id == id)) [
    | inl at ↦
        let still = ap (λ n. n == id) (same x) ∙ at in
        (
          x,
          find-head x traffic at,
          some_inj (
              sym h
              ∙ ap (find (λ c. c.id == id)) (change-head f x traffic at)
              ∙ find-head (f x) traffic still),
        )
    | inr other ↦
        let (before, found, is) = find-change f traffic c same (
          sym (
            ap (find (λ c. c.id == id)) (change-tail f x traffic other)
            ∙ find-tail x (change id f traffic) other)
          ∙ h) in
        (before, find-tail x traffic other ∙ found, is)
  ]

pub finished_capture-ends :
    (cause : Option String) (elapsed : ℕ) (c : Capture)
    → is_pending (finished_capture cause elapsed c).phase ≡ false
finished_capture-ends none elapsed c = ground arith
finished_capture-ends (some e) elapsed c = ground arith

pub finished_capture-id :
    (cause : Option String) (elapsed : ℕ) (c : Capture)
    → (finished_capture cause elapsed c).id ≡ c.id
finished_capture-id cause elapsed c = ground arith

-- After `finish` the capture, if it is still there, is not pending.
pub finish-ends :
    {M : Type 0} (s : State M) (id : ℕ) (cause : Option String) (elapsed : ℕ) (c : Capture)
    → capture_of (finish s id cause elapsed) id ≡ some c
    → is_pending c.phase ≡ false
unfolding finish note_end update
finish-ends s id cause elapsed c h =
    let (before, _, is) =
      find-change id (finished_capture cause elapsed) s.traffic c
        (finished_capture-id cause elapsed) h in
    ap (λ x. is_pending x.phase) is ∙ finished_capture-ends cause elapsed before

-- An exchange that fails or runs out of time is over: its capture, if it is still there, is no
-- longer pending.
pub answer-ends :
    {M : Type 0} (s : State M) (id : ℕ) (attempt : Attempt) (elapsed : ℕ) (c : Capture)
    → ¬ (attempt ≡ relays)
    → capture_of (answer s id attempt elapsed).0 id ≡ some c
    → is_pending c.phase ≡ false
unfolding answer
answer-ends s id relays elapsed c failed h = absurd (failed refl)
answer-ends s id (fails (status, message)) elapsed c failed h =
    finish-ends (update s id (λ c. record c { status = some status })) id (some message) elapsed c h
answer-ends s id timed_out elapsed c failed h =
    finish-ends (update s id (λ c. record c { status = some 504 })) id
      (some "Upstream request timed out.") elapsed c h
