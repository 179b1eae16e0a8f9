-- ===== src/Requests/Tests.antt =====
-- A request whose header map is a list of fields.
use mathlib.Core.List.{Memᴰ}
use sippin_soda.Base.{
  ◌≡◌, ◌∙◌, ◌⊎◌, sym, ap, inl, inr, refl, true, none, some, List, [], ◌∷◌, All, if◌then◌else◌,
  arith, Bool-cases,
}
use sippin_soda.Text.{Text, text, text_eq, to_ascii_lowercase, methods}
use sippin_soda.Text.Laws.{text_eq→eq}
use sippin_soda.Requests.{
  HeaderValue, HeaderOps, IsHeaderMap, SameName, Request, ReplayTemplate, nominated, remove_all,
  strip_hop_headers, replay_template,
}
use sippin_soda.Requests.Headers.{
  Lacks, hop_by_hop, not_replayed, Nominates, strip_hop_headers-Lacks, replay_template-Lacks,
}

abbrev Fields : Type 0
Fields = List (Text × HeaderValue)

unfoldable values_of : Fields → Text → List HeaderValue
unfolding text_eq
values_of [] name = []
values_of ((key, value) ∷ fields) name =
    if text_eq key name then value ∷ values_of fields name else values_of fields name

unfoldable without : Fields → Text → Fields
unfolding text_eq
without [] name = []
without ((key, value) ∷ fields) name =
    if text_eq key name then without fields name else (key, value) ∷ without fields name

abbrev ops : HeaderOps Fields
ops = record { iter = λ fields. fields; get_all = values_of; remove = without }

removed : (fields : Fields) (name : Text) → values_of (without fields name) name ≡ []
unfolding values_of without
removed [] name = refl
removed ((key, value) ∷ fields) name = ground (arith, removed fields name)

kept :
    (fields : Fields) (name other : Text)
    → values_of fields other ≡ []
    → values_of (without fields name) other ≡ []
unfolding values_of without
kept [] name other h = refl
kept ((key, value) ∷ fields) name other h = ground (arith, kept fields name other)

kept_ne :
    (fields : Fields) (name other : Text)
    → ¬ SameName name other
    → values_of (without fields name) other ≡ values_of fields other
unfolding values_of without
kept_ne [] name other h = refl
kept_ne ((key, value) ∷ fields) name other h = elim (Bool-cases (text_eq key name)) [
  | inl e ↦ elim (Bool-cases (text_eq key other)) [
    | inl e' ↦
        absurd (h (ap to_ascii_lowercase (sym (text_eq→eq key name e) ∙ text_eq→eq key other e')))
    | inr e' ↦ ground (arith, kept_ne fields name other h)
  ]
  | inr e ↦ ground (arith, kept_ne fields name other h)
]

ops-IsHeaderMap : IsHeaderMap ops
ops-IsHeaderMap = record {
  get_all-remove = removed;
  get_all-remove_other = kept;
  get_all-remove_ne = kept_ne;
}

abbrev value : Text → HeaderValue
value t = record { as_str = some t }

abbrev fields : Fields
fields =
    (text "connection", value (text "close, x-hop"))
    ∷ (text "x-hop", value (text "1"))
    ∷ (text "cookie", value (text "a=b"))
    ∷ (text "accept", value (text "text/html"))
    ∷ []

abbrev request : Request Fields
request = record {
  method = text "GET";
  scheme = some (text "http");
  authority = some (text "api.dev");
  host = some (text "api.dev");
  path = text "/a";
  query = none;
  headers = fields;
  ended = true;
}

abbrev template : ReplayTemplate Fields
template = record {
  method = text "GET";
  scheme = some (text "http");
  authority = some (text "api.dev");
  host = some (text "api.dev");
  path = text "/a";
  query = none;
  headers = (text "accept", value (text "text/html")) ∷ [];
}

templated : replay_template ops request ≡ some template
unfolding replay_template strip_hop_headers remove_all nominated values_of without methods
templated = refl

strip_hop_headers-Lacks_example :
    Lacks ops (strip_hop_headers ops fields) hop_by_hop
    × ((v : HeaderValue) (name : Text)
        → Memᴰ v (values_of fields (text "connection"))
        → Nominates v name
        → values_of (strip_hop_headers ops fields) name ≡ [])
    × ((other : Text)
        → All (λ name. ¬ SameName name other) hop_by_hop
        → ((v : HeaderValue) (name : Text)
            → Memᴰ v (values_of fields (text "connection"))
            → Nominates v name
            → ¬ SameName name other)
        → values_of (strip_hop_headers ops fields) other ≡ values_of fields other)
strip_hop_headers-Lacks_example = strip_hop_headers-Lacks ops ops-IsHeaderMap fields

replay_template-Lacks_example :
    ((request.method ≡ text "GET") ⊎ (request.method ≡ text "HEAD"))
    × (request.ended ≡ true)
    × (request.scheme ≡ some (text "http"))
    × ((authority : Text) × (request.authority ≡ some authority)
        × (template.authority ≡ some authority))
    × (template.method ≡ request.method)
    × Lacks ops template.headers hop_by_hop
    × Lacks ops template.headers not_replayed
replay_template-Lacks_example = replay_template-Lacks ops ops-IsHeaderMap request template templated
