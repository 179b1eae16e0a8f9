-- ===== src/Tunnel/Run.antt =====
-- How tunnels and the requests inside them end.
use sippin_soda.Base.{
  ℕ, List, [], ◌∷◌, ◌==◌, find, String, Option-cases, ◌≡◌, refl, sym, ap, ◌∙◌, ◌⊎◌, inl, inr, arith,
  Bool, true, false, not, ◌&&◌, ◌||◌, Option, none, some, Result, ok, err, Bool-cases, Result-cases,
  is_some, is_some_and_lem, if◌then◌else◌, refuse_if-eq-ok,
}
use sippin_soda.Text.{Text, text, text_eq, eq_ignore_ascii_case, to_ascii_lowercase}
use sippin_soda.Text.Laws.{text_eq→eq}
use sippin_soda.Policy.{DestinationClass}
use sippin_soda.Requests.{HeaderOps, Request}
use sippin_soda.Engine.{State}
use sippin_soda.Engine.Traffic.{Capture, Phase, change, is_pending}
use sippin_soda.Engine.Exchange.{
  capture_of, update, finish, note_end, finished_capture, drop_exchange, interrupted,
}
use sippin_soda.Dispatch.{ForwardError, Attempt, relays, timed_out, fails, contains_key}
use sippin_soda.Dispatch.Admission.{finish-ends, finished_capture-ends, finished_capture-id}
use sippin_soda.Tunnel.Establish.{is_some-none}
use sippin_soda.Tunnel.{
  RunEnd, ends, aborted, copied, transport_failed, lifetime_over, opaque_message,
  intercepted_message, Tunnel, Target, Network, Interceptor, InterceptedEnd, OpaqueEnd, open_tunnel,
  establish, run, run_message, same_target, inner_check, forward_inner, inner_answer,
}

err_inj : {A E : Type 0} {a b : E} → Path (Result E A) (err a) (err b) → a ≡ b
err_inj e = cc

pub inner_answer-ends :
    {M : Type 0} (s : State M) (id : ℕ) (attempt : Attempt) (elapsed : ℕ) (c : Capture)
    → ¬ (attempt ≡ relays)
    → capture_of (inner_answer s id attempt elapsed).0 id ≡ some c
    → is_pending c.phase ≡ false
unfolding inner_answer
inner_answer-ends s id relays elapsed c failed h = absurd (failed refl)
inner_answer-ends s id (fails (status, message)) elapsed c failed h =
    finish-ends (update s id (λ c. record c { status = some status })) id (some message) elapsed c h
inner_answer-ends s id timed_out elapsed c failed h =
    finish-ends (update s id (λ c. record c { status = some 504 })) id
      (some "Upstream HTTPS request timed out.") elapsed c h

same_target-parts :
    {M : Type 0} (r : Request M) (authority : Text) (http2 : Bool)
    → same_target r authority http2 ≡ true
    → (http2 ≡ true)
      × ((scheme : Text) × (r.scheme ≡ some scheme) × (text_eq scheme (text "https") ≡ true))
      × ((other : Text) × (r.authority ≡ some other)
          × (eq_ignore_ascii_case other authority ≡ true))
unfolding same_target
same_target-parts r authority http2 h = (
  ground arith,
  is_some_and_lem r.scheme (λ scheme. text_eq scheme (text "https")) (ground arith),
  is_some_and_lem r.authority (λ other. eq_ignore_ascii_case other authority) (ground arith),
)

-- A request names the target over HTTP/2 by the scheme and an authority that differs in case at most.
pub record NamesTarget {M : Type 0} (r : Request M) (authority : Text) (http2 : Bool) : Type 0 where
  pub over_http2 : http2 ≡ true
  pub https : r.scheme ≡ some (text "https")
  pub named : Text
  pub names : r.authority ≡ some named
  pub same : to_ascii_lowercase named ≡ to_ascii_lowercase authority

same_target-NamesTarget :
    {M : Type 0} (r : Request M) (authority : Text) (http2 : Bool)
    → same_target r authority http2 ≡ true
    → NamesTarget r authority http2
same_target-NamesTarget r authority http2 h =
    let (over, (scheme, is, https), (other, at, equal)) = same_target-parts r authority http2 h in
    record {
      over_http2 = over;
      https = is ∙ ap some (text_eq→eq scheme (text "https") https);
      named = other;
      names = at;
      same = text_eq→eq (to_ascii_lowercase other) (to_ascii_lowercase authority) equal;
    }

inner_check-ok :
    {M : Type 0} (ops : HeaderOps M) (r : Request M) (authority : Text) (http2 : Bool)
    (done : Unit {0})
    → inner_check ops r authority http2 ≡ ok done
    → (contains_key ops r.headers (text "upgrade") ≡ false)
      × (((r.scheme ≡ none) × (r.authority ≡ none)) ⊎ NamesTarget r authority http2)
unfolding inner_check
inner_check-ok ops r authority http2 done h =
    let (no_upgrade, h1) = refuse_if-eq-ok (contains_key ops r.headers (text "upgrade")) _ _ h in
    let (same, _) =
      refuse_if-eq-ok
        ((is_some r.scheme || is_some r.authority) && not (same_target r authority http2)) _ _ h1 in
    (
      no_upgrade,
      elim (Bool-cases (same_target r authority http2)) [
        | inl named ↦ inr (same_target-NamesTarget r authority http2 named)
        | inr unnamed ↦
            inl (is_some-none r.scheme (ground arith), is_some-none r.authority (ground arith))
      ],
    )

-- A tunnel comes to its end as it should: upgraded, opaque, and copied to the end of both sides.
abbrev IsClean : Tunnel → RunEnd → Type 0
IsClean tunnel (ends upgraded intercepted opaque) =
    (upgraded ≡ true) × (tunnel.interception ≡ none) × (opaque ≡ copied)
IsClean tunnel aborted = ⊥

-- The time at which the end is noted.
abbrev noted_at : RunEnd → ℕ → ℕ → ℕ
noted_at (ends upgraded intercepted opaque) elapsed dropped = elapsed
noted_at aborted elapsed dropped = dropped

-- What the end of a tunnel makes of its capture: nothing, if it was over, and else its verdict.
pub record IsSettled (tunnel : Tunnel) (end : RunEnd) (elapsed dropped : ℕ) (before after : Capture)
    : Type 0 where
  pub kept : is_pending before.phase ≡ false → after ≡ before
  pub timed : is_pending before.phase ≡ true → after.duration_ms ≡ noted_at end elapsed dropped
  pub verdict :
      is_pending before.phase ≡ true
      → (IsClean tunnel end × (after.phase ≡ Phase.complete) × (after.error ≡ none))
        ⊎ ((¬ IsClean tunnel end)
            × (after.phase ≡ Phase.error)
            × ((message : String) × (after.error ≡ some message)))

find-change_id :
    (id : ℕ) (f : Capture → Capture) (traffic : List Capture) (c : Capture)
    → ((x : Capture) → (f x).id ≡ x.id)
    → find (λ x. x.id == id) traffic ≡ some c
    → find (λ x. x.id == id) (change id f traffic) ≡ some (f c)
unfolding find change
find-change_id id f [] c same h = cc
find-change_id id f (x ∷ traffic) c same h =
    ground (arith, same x, find-change_id id f traffic c same)

finish-capture :
    {M : Type 0} (s : State M) (id : ℕ) (cause : Option String) (elapsed : ℕ) (c : Capture)
    → capture_of s id ≡ some c
    → capture_of (finish s id cause elapsed) id ≡ some (finished_capture cause elapsed c)
unfolding finish note_end update
finish-capture s id cause elapsed c h =
    find-change_id id (finished_capture cause elapsed) s.traffic c
      (finished_capture-id cause elapsed) h

-- A capture that is over is finished without effect.
finished_capture-over :
    (cause : Option String) (elapsed : ℕ) (c : Capture)
    → is_pending c.phase ≡ false
    → finished_capture cause elapsed c ≡ c
finished_capture-over cause elapsed c h = rw h refl

none_some : {A : Type 0} {a : A} → ¬ (Path (Option A) none (some a))
none_some e = cc

opaque_message-verdict :
    (opaque : OpaqueEnd)
    → ((opaque ≡ copied) × (opaque_message opaque ≡ none))
      ⊎ ((¬ (opaque ≡ copied)) × ((message : String) × (opaque_message opaque ≡ some message)))
unfolding opaque_message
opaque_message-verdict copied = inl (refl, refl)
opaque_message-verdict transport_failed = inr ((λ e. cc), (_, refl))
opaque_message-verdict lifetime_over = inr ((λ e. cc), (_, refl))

-- The message of an end that is clean, and of any other.
run_message-verdict :
    (tunnel : Tunnel) (upgraded : Bool) (intercepted : InterceptedEnd) (opaque : OpaqueEnd)
    → (IsClean tunnel (ends upgraded intercepted opaque)
        × (run_message tunnel upgraded intercepted opaque ≡ none))
      ⊎ ((¬ IsClean tunnel (ends upgraded intercepted opaque))
          × ((message : String) × (run_message tunnel upgraded intercepted opaque ≡ some message)))
unfolding run_message opaque_message
run_message-verdict tunnel false intercepted opaque = inr ((λ clean. cc), (_, refl))
run_message-verdict tunnel true intercepted opaque = elim (Option-cases tunnel.interception) [
  | inr (route, e) ↦ inr (
    (λ clean. none_some (sym clean.1 ∙ e)),
    (intercepted_message intercepted, rw (e, run_message) refl),
  )
  | inl e ↦ elim (opaque_message-verdict opaque) [
    | inl (clean, is) ↦ inl ((refl, e, clean), rw (e, run_message) is)
    | inr (broken, (message, is)) ↦
        inr ((λ clean. broken clean.2), (message, rw (e, run_message) is))
  ]
]

-- What finishing a capture with or without a message makes of it.
finished_capture-verdict :
    (Clean : Type 0) (cause : Option String) (at : ℕ) (c : Capture)
    → is_pending c.phase ≡ true
    → (Clean × (cause ≡ none)) ⊎ ((¬ Clean) × ((message : String) × (cause ≡ some message)))
    → let after = finished_capture cause at c in
      (after.duration_ms ≡ at)
      × ((Clean × (after.phase ≡ Phase.complete) × (after.error ≡ none))
          ⊎ ((¬ Clean)
              × (after.phase ≡ Phase.error)
              × ((message : String) × (after.error ≡ some message))))
finished_capture-verdict Clean cause at c pending (inl (clean, e)) =
    (ground (arith, pending), inl (clean, rw (pending, e) refl, rw (pending, e) refl))
finished_capture-verdict Clean cause at c pending (inr (broken, (message, e))) =
    (ground (arith, pending), inr (broken, rw (pending, e) refl, (message, rw (pending, e) refl)))

-- However a tunnel ends, aborts included, its capture, if it is there, is over: as it was if it was
-- over before, and else, with the time of the end, complete where the tunnel was opaque and was copied
-- to its end, and an error with a message otherwise.
pub run-IsSettled :
    {M : Type 0} (s : State M) (id : ℕ) (tunnel : Tunnel) (end : RunEnd) (elapsed dropped : ℕ)
    (before : Capture)
    → capture_of s id ≡ some before
    → (after : Capture) × (capture_of (run s id tunnel end elapsed dropped) id ≡ some after)
      × IsSettled tunnel end elapsed dropped before after
unfolding run drop_exchange
run-IsSettled s id tunnel (ends upgraded intercepted opaque) elapsed dropped before h =
    let cause = run_message tunnel upgraded intercepted opaque in
    let settled = finished_capture cause elapsed before in
    let verdict = λ (pending : is_pending before.phase ≡ true).
      finished_capture-verdict (IsClean tunnel (ends upgraded intercepted opaque)) cause elapsed
        before pending (run_message-verdict tunnel upgraded intercepted opaque) in
    (
      settled,
      finish-capture (finish s id cause elapsed) id (some interrupted) dropped settled
            (finish-capture s id cause elapsed before h)
          ∙ ap some (
              finished_capture-over (some interrupted) dropped settled
                (finished_capture-ends cause elapsed before)),
      record {
        kept = finished_capture-over cause elapsed before;
        timed = λ pending. (verdict pending).0;
        verdict = λ pending. (verdict pending).1;
      },
    )
run-IsSettled s id tunnel aborted elapsed dropped before h =
    let verdict = λ (pending : is_pending before.phase ≡ true).
      finished_capture-verdict ⊥ (some interrupted) dropped before pending
        (inr ((λ clean. clean), (_, refl))) in
    (
      finished_capture (some interrupted) dropped before,
      finish-capture s id (some interrupted) dropped before h,
      record {
        kept = finished_capture-over (some interrupted) dropped before;
        timed = λ pending. (verdict pending).0;
        verdict = λ pending. (verdict pending).1;
      },
    )

-- A request inside an intercepted tunnel is refused without a change, or it asks for no upgrade and
-- names no target, or over HTTP/2 and https the target of the tunnel itself, whatever its case.
pub forward_inner-same_target :
    {M : Type 0} (ops : HeaderOps M) (s : State M) (id : ℕ) (r : Request M) (authority : Text)
    (http2 : Bool) (send : State M → State M × Attempt)
    → ((cause : ForwardError) × (forward_inner ops s id r authority http2 send ≡ (s, fails cause)))
      ⊎ ((contains_key ops r.headers (text "upgrade") ≡ false)
          × (((r.scheme ≡ none) × (r.authority ≡ none)) ⊎ NamesTarget r authority http2))
unfolding forward_inner
forward_inner-same_target ops s id r authority http2 send =
    elim (Result-cases (inner_check ops r authority http2)) [
      | inl (done, e) ↦ inr (inner_check-ok ops r authority http2 done e)
      | inr (cause, e) ↦ inl (cause, rw (e, forward_inner) refl)
    ]

establish-opened :
    {M : Type 0} (ops : HeaderOps M) (s : State M) (id : ℕ) (r : Request M) (target : Target)
    (net : Network) (destination : DestinationClass) (client : Option Text)
    (tls : Option Interceptor) (tunnel : Tunnel)
    → open_tunnel ops r target net destination client tls ≡ ok tunnel
    → (establish ops s id r target net destination client tls).1
      ≡ (if net.waiting then ok tunnel else err (503, "Proxy is stopping."))
unfolding establish
establish-opened ops s id r target net destination client tls tunnel e = rw (e, establish) refl

left_owner :
    (waiting : Bool) (tunnel : Tunnel) (cause : ForwardError)
    → Path
        (Result ForwardError Tunnel)
        (if waiting then ok tunnel else err (503, "Proxy is stopping."))
        (err cause)
    → (waiting ≡ false) × (cause ≡ (503, "Proxy is stopping."))
left_owner true tunnel cause h = cc
left_owner false tunnel cause h = (refl, sym (err_inj h))

-- Where a tunnel does not come about, the state is as before; where its owner has gone in the
-- meantime, the exchange ends by the answer that this error gives.
pub establish-err :
    {M : Type 0} (ops : HeaderOps M) (s : State M) (id : ℕ) (r : Request M) (target : Target)
    (net : Network) (destination : DestinationClass) (client : Option Text)
    (tls : Option Interceptor) (cause : ForwardError)
    → (establish ops s id r target net destination client tls).1 ≡ err cause
    → ((establish ops s id r target net destination client tls).0 ≡ s)
      ⊎ ((net.waiting ≡ false) × (cause ≡ (503, "Proxy is stopping.")))
unfolding establish
establish-err ops s id r target net destination client tls cause h =
    elim (Result-cases (open_tunnel ops r target net destination client tls)) [
      | inl (tunnel, e) ↦ inr (
          left_owner net.waiting tunnel cause
            (sym (establish-opened ops s id r target net destination client tls tunnel e) ∙ h))
      | inr (refusal, e) ↦ inl (rw (e, establish) refl)
    ]
