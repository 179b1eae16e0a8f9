-- ===== src/Engine/Begin.antt =====
-- A new exchange, and the updates of one, keep the shared state well formed.
use sippin_soda.Base.{
  ℕ, suc, ◌≤◌, ◌≡◌, refl, sym, subst, ◌∙◌, ◌++◌, true, Option, none, some, List, [], ◌∷◌,
  if◌then◌else◌, length, length-append, ◌==◌, arith, inl, inr, Bool-cases,
}
use sippin_soda.Requests.{ReplayTemplate, Request, HeaderOps, replay_template}
use sippin_soda.Policy.{DestinationClass}
use sippin_soda.Text.{Text}
use sippin_soda.Engine.Traffic.{Capture}
use sippin_soda.Engine.{State, evict_oldest, forget}
use sippin_soda.Engine.Exchange.{begin_exchange, update, new_capture, add_exchange, insert_template}
use sippin_soda.Engine.Invariant.{
  IsWellFormed, Ascending, Within, is_listed, Ascending-push, Ascending-pop, Ascending-change,
  length-change, listed-change, Within-remove, Within-push, Within-insert, full_traffic,
  listed_last,
}

module _ {M : Type 0} where
  pub update-IsWellFormed :
      (s : State M) (id : ℕ) (f : Capture → Capture)
      → ((c : Capture) → (f c).id ≡ c.id)
      → IsWellFormed s
      → IsWellFormed (update s id f)
  unfolding update
  update-IsWellFormed s id f keeps w = record {
    room = w.room;
    bounded = rw (length-change id f s.traffic) w.bounded;
    counted = rw (length-change id f s.traffic) w.counted;
    ordered = Ascending-change id f 0 s.traffic s.next_id keeps w.ordered;
    breakpoints_within = λ j h. listed-change id f j s.traffic keeps ∙ w.breakpoints_within j h;
    templates_within = λ j h. listed-change id f j s.traffic keeps ∙ w.templates_within j h;
  }

  -- An exchange with the id can be added: there is room for it, and its id was taken.
  pub record HasRoom (id : ℕ) (s : State M) : Type 0 where
    pub room : 1 ≤ s.limit
    pub space : suc (length s.traffic) ≤ s.limit
    pub taken : s.next_id ≡ suc id
    pub ordered : Ascending 0 s.traffic id
    pub breakpoints_within : Within s.breakpoints s.traffic
    pub templates_within : Within s.replay_templates s.traffic

  -- Eviction of the oldest capture takes what belongs to it away.
  evict_oldest-HasRoom :
      (id : ℕ) (s : State M) (c : Capture) (cs : List Capture)
      → s.traffic ≡ c ∷ cs
      → 1 ≤ s.limit
      → length s.traffic ≤ s.limit
      → s.next_id ≡ suc id
      → Ascending 0 s.traffic id
      → Within s.breakpoints s.traffic
      → Within s.replay_templates s.traffic
      → HasRoom id (evict_oldest s)
  unfolding evict_oldest forget
  evict_oldest-HasRoom id s c cs e r l n a b t =
      rw (e, evict_oldest, forget)
        (record {
          room = r;
          space = subst (λ x. length x ≤ s.limit) e l;
          taken = n;
          ordered = Ascending-pop 0 c cs id (subst (λ x. Ascending 0 x id) e a);
          breakpoints_within = Within-remove s.breakpoints c cs (subst (Within s.breakpoints) e b);
          templates_within =
              Within-remove s.replay_templates c cs (subst (Within s.replay_templates) e t);
        })

  make_room :
      (s : State M)
      → IsWellFormed s
      → HasRoom s.next_id (
          if length s.traffic == s.limit
          then evict_oldest (record s { next_id = suc s.next_id })
          else record s { next_id = suc s.next_id })
  make_room s w = elim (Bool-cases (length s.traffic == s.limit)) [
    | inl full ↦
        let (c, cs, e) = full_traffic s.traffic s.limit w.room (ground arith) in
        rw full (
          evict_oldest-HasRoom s.next_id (record s { next_id = suc s.next_id }) c cs e w.room
            w.bounded refl w.ordered w.breakpoints_within w.templates_within)
    | inr free ↦ rw free (record {
      room = w.room;
      space = ground (arith, w.bounded);
      taken = refl;
      ordered = w.ordered;
      breakpoints_within = w.breakpoints_within;
      templates_within = w.templates_within;
    })
  ]

  template-Within :
      (id : ℕ) (template : Option (ReplayTemplate M)) (m : List (ℕ × ReplayTemplate M))
      (cs : List Capture)
      → is_listed id cs ≡ true
      → Within m cs
      → Within (insert_template id template m) cs
  template-Within id none m cs listed w = w
  template-Within id (some t) m cs listed w = Within-insert m cs id t listed w

  add_exchange-IsWellFormed :
      (s : State M) (c : Capture) (template : Option (ReplayTemplate M))
      → HasRoom c.id s
      → IsWellFormed (add_exchange s c.id c template)
  add_exchange-IsWellFormed s c template w = record {
    room = w.room;
    bounded = omega (arith, length-append s.traffic (c ∷ []), w.space);
    counted = refl;
    ordered =
        subst (Ascending 0 (s.traffic ++ c ∷ [])) (sym w.taken)
          (Ascending-push 0 s.traffic c.id c w.ordered refl);
    breakpoints_within = Within-push s.breakpoints s.traffic c w.breakpoints_within;
    templates_within =
        template-Within c.id template s.replay_templates (s.traffic ++ c ∷ [])
          (listed_last s.traffic c) (Within-push s.replay_templates s.traffic c w.templates_within);
  }

  pub begin_exchange-IsWellFormed :
      (ops : HeaderOps M) (s : State M) (r : Request M) (destination : DestinationClass)
      (client_profile_id : Option Text) (replay_of : Option ℕ) (now : ℕ)
      → IsWellFormed s
      → IsWellFormed (begin_exchange ops s r destination client_profile_id replay_of now).1
  unfolding begin_exchange
  begin_exchange-IsWellFormed ops s r destination client_profile_id replay_of now w =
      add_exchange-IsWellFormed _
        (new_capture ops s.next_id r destination client_profile_id replay_of now)
        (replay_template ops r) (make_room s w)
