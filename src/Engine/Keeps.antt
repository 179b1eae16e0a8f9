-- ===== src/Engine/Keeps.antt =====
-- The other operations keep the shared state well formed.
use sippin_soda.Base.{
  ℕ, zero, suc, ◌≤◌, ◌≡◌, refl, ap, subst, ◌∙◌, Bool, true, false, ◌&&◌, Option, List, [], ◌∷◌,
  length, ◌==◌, ltb, any, find, arith, inl, inr, Bool-cases, Option-cases, String, Result-cases,
}
use sippin_soda.Base.Assoc.{lookup, insert, remove}
use sippin_soda.Requests.{ReplayTemplate}
use sippin_soda.Text.{Text}
use sippin_soda.Status.{SocketAddr}
use sippin_soda.Rules.{Http}
use sippin_soda.Engine.Traffic.{Capture}
use sippin_soda.Engine.{State, evict_oldest, forget}
use sippin_soda.Engine.Exchange.{note_end, open_breakpoint, may_modify}
use sippin_soda.Engine.Config.{ProxyConfig, Plan, bad_limits}
use sippin_soda.Engine.Control.{
  clear, install_plan, apply_plan, evict_excess, resolve_response_breakpoint, compile_decision,
}
use sippin_soda.Engine.Invariant.{
  IsWellFormed, Ascending, Within, is_listed, Ascending-pop, Within-remove, Within-insert,
  Within-remove_any, full_traffic,
}
use sippin_soda.Engine.Begin.{update-IsWellFormed}

found_listed :
    (id : ℕ) (cs : List Capture)
    → may_modify (find (λ c. c.id == id) cs) ≡ true
    → is_listed id cs ≡ true
unfolding find any
found_listed id [] h = cc
found_listed id (c ∷ cs) h = ground (arith, found_listed id cs)

pub Within-nil : (V : Type 0) (cs : List Capture) → Within {V = V} [] cs
unfolding lookup
Within-nil V cs id h = cc

positive_limit : (c : ProxyConfig) → bad_limits c ≡ false → 1 ≤ c.capture_limit
unfolding bad_limits
positive_limit c h = ground arith

module _ {M : Type 0} where
  abbrev pub view : State M → ℕ × ℕ × ℕ × List Capture × List (ℕ × ℕ) × List (ℕ × ReplayTemplate M)
  view s = (s.limit, s.next_id, s.status.captures, s.traffic, s.breakpoints, s.replay_templates)

  record IsWellFormedView
      (v : ℕ × ℕ × ℕ × List Capture × List (ℕ × ℕ) × List (ℕ × ReplayTemplate M)) : Type 0 where
    room : 1 ≤ v.0
    bounded : length v.3 ≤ v.0
    counted : v.2 ≡ length v.3
    ordered : Ascending 0 v.3 v.1
    breakpoints_within : Within v.4 v.3
    templates_within : Within v.5 v.3

  pub again : (s s' : State M) → view s ≡ view s' → IsWellFormed s → IsWellFormed s'
  again s s' e w =
      let v : IsWellFormedView (view s') = subst IsWellFormedView e (record {
        room = w.room;
        bounded = w.bounded;
        counted = w.counted;
        ordered = w.ordered;
        breakpoints_within = w.breakpoints_within;
        templates_within = w.templates_within;
      }) in
      record {
        room = v.room;
        bounded = v.bounded;
        counted = v.counted;
        ordered = v.ordered;
        breakpoints_within = v.breakpoints_within;
        templates_within = v.templates_within;
      }

  -- A change of the state that the invariant does not look at.
  pub note_end-IsWellFormed :
      (s : State M) (id : ℕ) (cause : Option String) (elapsed : ℕ)
      → IsWellFormed s
      → IsWellFormed (note_end s id cause elapsed)
  unfolding note_end
  note_end-IsWellFormed s id cause elapsed w = update-IsWellFormed s id _ (λ c. ground arith) w

  pub open_breakpoint-IsWellFormed :
      (s : State M) (id status channel : ℕ)
      → IsWellFormed s
      → IsWellFormed (open_breakpoint s id status channel).1
  unfolding open_breakpoint
  open_breakpoint-IsWellFormed s id status channel w =
      elim (Bool-cases (s.break_on_responses && may_modify (find (λ c. c.id == id) s.traffic))) [
        | inr e ↦ rw e w
        | inl e ↦ rw e (
            again _ _ refl (
              update-IsWellFormed (record s { breakpoints = insert id channel s.breakpoints }) id _
                (λ c. refl)
                (record {
                  room = w.room;
                  bounded = w.bounded;
                  counted = w.counted;
                  ordered = w.ordered;
                  breakpoints_within =
                      Within-insert s.breakpoints s.traffic id channel
                        (found_listed id s.traffic (ground arith)) w.breakpoints_within;
                  templates_within = w.templates_within;
                })))
      ]

  -- A breakpoint goes.
  pub removed_breakpoint :
      (s : State M) (id : ℕ)
      → IsWellFormed s
      → IsWellFormed (record s { breakpoints = remove id s.breakpoints })
  removed_breakpoint s id w = record {
    room = w.room;
    bounded = w.bounded;
    counted = w.counted;
    ordered = w.ordered;
    breakpoints_within = Within-remove_any s.breakpoints s.traffic id w.breakpoints_within;
    templates_within = w.templates_within;
  }

  pub resolve-IsWellFormed :
      (http : Http) (s : State M) (id : ℕ) (status : Option ℕ) (body content_type : Option Text)
      (is_open : ℕ → Bool)
      → IsWellFormed s
      → IsWellFormed (resolve_response_breakpoint http s id status body content_type is_open).0
  unfolding resolve_response_breakpoint
  resolve-IsWellFormed http s id status body content_type is_open w =
      elim (Result-cases (compile_decision http status body content_type)) [
        | inr (e, h) ↦ rw (resolve_response_breakpoint, h) w
        | inl (d, h) ↦ elim (Option-cases (lookup id s.breakpoints)) [
          | inl k ↦ rw (resolve_response_breakpoint, h, k) w
          | inr (channel, k) ↦ rw (resolve_response_breakpoint, h, k) (removed_breakpoint s id w)
        ]
      ]

  pub clear-IsWellFormed : (s : State M) → IsWellFormed s → IsWellFormed (clear s)
  unfolding clear
  clear-IsWellFormed s w = record {
    room = w.room;
    bounded = omega arith;
    counted = refl;
    ordered = omega arith;
    breakpoints_within = Within-nil _ [];
    templates_within = Within-nil _ [];
  }

  evict_oldest_lem :
      (s : State M) (c : Capture) (cs : List Capture)
      → s.traffic ≡ c ∷ cs
      → ((evict_oldest s).traffic ≡ cs)
        × ((evict_oldest s).limit ≡ s.limit)
        × ((evict_oldest s).next_id ≡ s.next_id)
        × ((evict_oldest s).breakpoints ≡ remove c.id s.breakpoints)
        × ((evict_oldest s).replay_templates ≡ remove c.id s.replay_templates)
  unfolding evict_oldest forget
  evict_oldest_lem s c cs e = rw (e, evict_oldest, forget) (refl, refl, refl, refl, refl)

  -- What holds while `start` evicts: all but the bound and the count.
  record IsOrdered (s : State M) : Type 0 where
    ordered : Ascending 0 s.traffic s.next_id
    breakpoints_within : Within s.breakpoints s.traffic
    templates_within : Within s.replay_templates s.traffic

  evict_oldest-IsOrdered :
      (s : State M) (c : Capture) (cs : List Capture)
      → s.traffic ≡ c ∷ cs
      → IsOrdered s
      → IsOrdered (evict_oldest s)
  evict_oldest-IsOrdered s c cs e o =
      let (t, l, n, b, r) = evict_oldest_lem s c cs e in
      record {
        ordered =
            rw (t, n)
              (Ascending-pop 0 c cs s.next_id (subst (λ x. Ascending 0 x s.next_id) e o.ordered));
        breakpoints_within =
            rw (t, b)
              (Within-remove s.breakpoints c cs
                (subst (Within s.breakpoints) e o.breakpoints_within));
        templates_within =
            rw (t, r)
              (Within-remove s.replay_templates c cs
                (subst (Within s.replay_templates) e o.templates_within));
      }

  evict_excess-IsOrdered :
      (fuel : ℕ) (s : State M)
      → length s.traffic ≤ fuel
      → IsOrdered s
      → IsOrdered (evict_excess fuel s)
        × (length (evict_excess fuel s).traffic ≤ s.limit)
        × ((evict_excess fuel s).limit ≡ s.limit)
  unfolding evict_excess
  evict_excess-IsOrdered zero s h o = (o, omega (arith, h), refl)
  evict_excess-IsOrdered (suc fuel) s h o = elim (Bool-cases (ltb s.limit (length s.traffic))) [
    | inr e ↦ rw e (o, ground arith, refl)
    | inl e ↦
        let (c, cs, t) = full_traffic s.traffic (length s.traffic) (ground arith) refl in
        let (t', l, n, b, r) = evict_oldest_lem s c cs t in
        let (o', bound, same) =
          evict_excess-IsOrdered fuel (evict_oldest s) (omega (arith, h, ap length t, ap length t'))
            (evict_oldest-IsOrdered s c cs t o) in
        rw e (
          o',
          subst (λ x. length (evict_excess fuel (evict_oldest s)).traffic ≤ x) l bound,
          same ∙ l,
        )
  ]

  pub install_plan-IsWellFormed :
      (s : State M) (c : ProxyConfig) (plan : Plan) (address : SocketAddr)
      → bad_limits c ≡ false
      → IsWellFormed s
      → IsWellFormed (install_plan s c plan address)
  unfolding install_plan apply_plan
  install_plan-IsWellFormed s c plan address good w =
      let (o, bound, same) =
        evict_excess-IsOrdered (length s.traffic) (apply_plan s c plan) (omega arith) (record {
          ordered = w.ordered;
          breakpoints_within = w.breakpoints_within;
          templates_within = w.templates_within;
        }) in
      record {
        room = rw same (positive_limit c good);
        bounded = rw same bound;
        counted = refl;
        ordered = o.ordered;
        breakpoints_within = o.breakpoints_within;
        templates_within = o.templates_within;
      }
