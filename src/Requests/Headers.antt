-- ===== src/Requests/Headers.antt =====
-- What `strip_hop_headers` leaves of a message, and what a template of a replay holds.
use mathlib.Core.List.{Memᴰ}
use mathlib.Core.List.Memᴰ
use sippin_soda.Base.{
  Bool, false, ◌||◌, ◌≡◌, ◌∙◌, ◌⊎◌, ◌++◌, refl, inl, inr, true, none, some, Option, List, [], ◌∷◌,
  All, sym, ap, subst, if_some, map, arith, Option-cases, some_inj,
}
use sippin_soda.Text.{Text, text, text_eq, split, trim}
use sippin_soda.Text.Laws.{text_eq→eq}
use sippin_soda.Requests.{
  HeaderValue, HeaderOps, IsHeaderMap, SameName, Request, ReplayTemplate, nominated, hop_headers,
  secret_headers, remove_all, strip_hop_headers, replay_template, is_replayable, is_text,
}

module _ {M : Type 0} (ops : HeaderOps M) where
  -- No field of any of the names.
  abbrev pub Lacks : M → List Text → Type 0
  Lacks headers names = All (λ name. ops.get_all headers name ≡ []) names

-- The hop-by-hop fields of RFC 9110, section 7.6.1, and of RFC 2616, section 13.5.1.
abbrev pub hop_by_hop : List Text
hop_by_hop =
    text "connection"
    ∷ text "keep-alive"
    ∷ text "proxy-connection"
    ∷ text "te"
    ∷ text "trailer"
    ∷ text "transfer-encoding"
    ∷ text "upgrade"
    ∷ text "proxy-authenticate"
    ∷ text "proxy-authorization"
    ∷ []

-- What a replay must not carry over: credentials, cookies, the length, the host, and the header that
-- the engine authorizes its own replays with.
abbrev pub not_replayed : List Text
not_replayed =
    text "authorization"
    ∷ text "cookie"
    ∷ text "x-api-key"
    ∷ text "content-length"
    ∷ text "host"
    ∷ text "x-sippin-internal-replay"
    ∷ []

-- A value of the header names a field between its commas, with white space around it or not.
pub record Nominates (value : HeaderValue) (name : Text) : Type 0 where
  pub words : Text
  pub readable : value.as_str ≡ some words
  pub part : Text
  pub listed : Memᴰ part (split b',' words)
  pub named : trim part ≡ name

none_some : {A : Type 0} {a : A} → ¬ (Path (Option A) none (some a))
none_some e = cc

module _ (P : Text → Type 0) where
  All-append : (xs ys : List Text) → All P (xs ++ ys) → All P xs × All P ys
  All-append [] ys h = (tt, h)
  All-append (x ∷ xs) ys (h, hs) = let (left, right) = All-append xs ys hs in ((h, left), right)

  append-All : (xs ys : List Text) → All P xs → All P ys → All P (xs ++ ys)
  append-All [] ys h k = k
  append-All (x ∷ xs) ys (h, hs) k = (h, append-All xs ys hs k)

  All-trim : (xs : List Text) (x : Text) → All P (map trim xs) → Memᴰ x xs → P (trim x)
  All-trim [] x h m = absurd (Memᴰ.not-nil m)
  All-trim (y ∷ xs) x (h, hs) m = elim (Memᴰ.cases_cons m) [
    | inl e ↦ subst (λ y. P (trim y)) (sym e) h
    | inr m' ↦ All-trim xs x hs m'
  ]

  trim-All : (xs : List Text) → ((x : Text) → Memᴰ x xs → P (trim x)) → All P (map trim xs)
  trim-All [] h = tt
  trim-All (x ∷ xs) h = (h x (Memᴰ.head refl), trim-All xs (λ y m. h y (Memᴰ.tail m)))

  -- The code's list of nominated names holds those that are nominated, and no others.
  All-nominated :
      (values : List HeaderValue)
      → All P (nominated values)
      → (value : HeaderValue) (name : Text) → Memᴰ value values
      → Nominates value name
      → P name
  unfolding nominated
  All-nominated [] h value name m names = absurd (Memᴰ.not-nil m)
  All-nominated (first ∷ values) h value name m names = elim (Option-cases first.as_str) [
    | inl e ↦ elim (Memᴰ.cases_cons m) [
      | inl same ↦ absurd (none_some (sym e ∙ ap (λ v. v.as_str) (sym same) ∙ names.readable))
      | inr m' ↦ All-nominated values (rw e at h) value name m' names
    ]
    | inr (t, e) ↦
        let (here, there) = All-append (map trim (split b',' t)) (nominated values) (rw e at h) in
        elim (Memᴰ.cases_cons m) [
          | inl same ↦
              let words_are = some_inj (sym names.readable ∙ ap (λ v. v.as_str) same ∙ e) in
              subst P names.named (
                All-trim (split b',' t) names.part here
                  (subst (λ w. Memᴰ names.part (split b',' w)) words_are names.listed))
          | inr m' ↦ All-nominated values there value name m' names
        ]
  ]

  nominated-All :
      (values : List HeaderValue)
      → ((value : HeaderValue) (name : Text) → Memᴰ value values → Nominates value name → P name)
      → All P (nominated values)
  unfolding nominated
  nominated-All [] h = tt
  nominated-All (first ∷ values) h =
      let others = nominated-All values (λ value name m names. h value name (Memᴰ.tail m) names) in
      elim (Option-cases first.as_str) [
        | inl e ↦ rw e others
        | inr (t, e) ↦ rw e (
            append-All (map trim (split b',' t)) (nominated values)
              (trim-All (split b',' t) (λ part m.
                h first (trim part) (Memᴰ.head refl)
                  (record { words = t; readable = e; part = part; listed = m; named = refl })))
              others)
      ]

is_text→eq : (o : Option Text) (u : Text) → is_text o u ≡ true → o ≡ some u
is_text→eq none u h = cc
is_text→eq (some t) u h = ap some (text_eq→eq t u h)

or_cases : (a b : Bool) → a || b ≡ true → (a ≡ true) ⊎ (b ≡ true)
or_cases true b h = inl refl
or_cases false b h = inr h

module _ {M : Type 0} (ops : HeaderOps M) where
  is_replayable-parts :
      (r : Request M)
      → is_replayable ops r ≡ true
      → ((r.method ≡ text "GET") ⊎ (r.method ≡ text "HEAD"))
        × (r.ended ≡ true)
        × (r.scheme ≡ some (text "http"))
        × ((authority : Text) × (r.authority ≡ some authority))
  is_replayable-parts r h = elim (Option-cases r.authority) [
    | inl e ↦ ground arith
    | inr (authority, e) ↦ (
      elim (or_cases (text_eq r.method (text "GET")) (text_eq r.method (text "HEAD"))
          (ground arith)) [
            | inl get ↦ inl (text_eq→eq r.method (text "GET") get)
            | inr head ↦ inr (text_eq→eq r.method (text "HEAD") head)
          ],
      ground arith,
      is_text→eq r.scheme (text "http") (ground arith),
      (authority, e),
    )
  ]

  -- The fields that the code removes are those that it should.
  hop_by_hop-Lacks : {headers : M} → Lacks ops headers hop_headers → Lacks ops headers hop_by_hop
  hop_by_hop-Lacks (c, (p, (k, (pa, (pz, (e, (r, (te, (u, done))))))))) =
      (c, (k, (p, (e, (r, (te, (u, (pa, (pz, tt)))))))))

  not_replayed-Lacks :
      {headers : M} → Lacks ops headers secret_headers → Lacks ops headers not_replayed
  not_replayed-Lacks (h, (a, (c, (x, (l, (i, done)))))) = (a, (c, (x, (l, (h, (i, tt))))))

hop_headers-All : (P : Text → Type 0) → All P hop_by_hop → All P hop_headers
hop_headers-All P (c, (k, (p, (e, (r, (te, (u, (pa, (pz, done))))))))) =
    (c, (p, (k, (pa, (pz, (e, (r, (te, (u, tt)))))))))

module _ {M : Type 0} (ops : HeaderOps M) (law : IsHeaderMap ops) where
  remove_all_other :
      (names : List Text) (headers : M) (other : Text)
      → ops.get_all headers other ≡ []
      → ops.get_all (remove_all ops headers names) other ≡ []
  unfolding remove_all
  remove_all_other [] headers other h = h
  remove_all_other (name ∷ names) headers other h =
      remove_all_other names (ops.remove headers name) other
        (law.get_all-remove_other headers name other h)

  remove_all-Lacks :
      (names : List Text) (headers : M) → Lacks ops (remove_all ops headers names) names
  unfolding remove_all
  remove_all-Lacks [] headers = tt
  remove_all-Lacks (name ∷ names) headers = (
    remove_all_other names (ops.remove headers name) name (law.get_all-remove headers name),
    remove_all-Lacks names (ops.remove headers name),
  )

  still_Lacks :
      (names others : List Text) (headers : M)
      → Lacks ops headers others
      → Lacks ops (remove_all ops headers names) others
  still_Lacks names [] headers h = tt
  still_Lacks names (other ∷ others) headers (h, hs) =
      (remove_all_other names headers other h, still_Lacks names others headers hs)

  -- A field that no removed name is equal to, whatever its case, is as it was.
  remove_all_ne :
      (names : List Text) (headers : M) (other : Text)
      → All (λ name. ¬ SameName name other) names
      → ops.get_all (remove_all ops headers names) other ≡ ops.get_all headers other
  unfolding remove_all
  remove_all_ne [] headers other h = refl
  remove_all_ne (name ∷ names) headers other (h, hs) =
      remove_all_ne names (ops.remove headers name) other hs
      ∙ law.get_all-remove_ne headers name other h

  -- What strip_hop_headers leaves holds no hop-by-hop field and none that a value of `connection`
  -- nominated, and every other field as it was.
  pub strip_hop_headers-Lacks :
      (headers : M)
      → Lacks ops (strip_hop_headers ops headers) hop_by_hop
        × ((value : HeaderValue) (name : Text)
            → Memᴰ value (ops.get_all headers (text "connection"))
            → Nominates value name
            → ops.get_all (strip_hop_headers ops headers) name ≡ [])
        × ((other : Text)
            → All (λ name. ¬ SameName name other) hop_by_hop
            → ((value : HeaderValue) (name : Text)
                → Memᴰ value (ops.get_all headers (text "connection"))
                → Nominates value name
                → ¬ SameName name other)
            → ops.get_all (strip_hop_headers ops headers) other ≡ ops.get_all headers other)
  unfolding strip_hop_headers
  strip_hop_headers-Lacks headers =
      let values = ops.get_all headers (text "connection") in
      let stripped = remove_all ops headers (nominated values) in
      (
        hop_by_hop-Lacks ops (remove_all-Lacks hop_headers stripped),
        (λ value name listed names.
            All-nominated (λ n. ops.get_all (strip_hop_headers ops headers) n ≡ []) values
              (still_Lacks hop_headers _ _ (remove_all-Lacks _ headers)) value name listed names),
        (λ other not_hop not_named.
            remove_all_ne hop_headers stripped other
              (hop_headers-All (λ n. ¬ SameName n other) not_hop)
            ∙ remove_all_ne (nominated values) headers other
                (nominated-All (λ n. ¬ SameName n other) values not_named)),
      )

  -- A template of a replay is that of a GET or HEAD request over plain http without a body, to an
  -- authority, and holds no hop-by-hop header, no credentials, no cookie, no length and no host.
  pub replay_template-Lacks :
      (r : Request M) (t : ReplayTemplate M)
      → replay_template ops r ≡ some t
      → ((r.method ≡ text "GET") ⊎ (r.method ≡ text "HEAD"))
        × (r.ended ≡ true)
        × (r.scheme ≡ some (text "http"))
        × ((authority : Text) × (r.authority ≡ some authority) × (t.authority ≡ some authority))
        × (t.method ≡ r.method)
        × Lacks ops t.headers hop_by_hop
        × Lacks ops t.headers not_replayed
  unfolding replay_template
  replay_template-Lacks r t h =
      let (replayable, same) = if_some (is_replayable ops r) _ t h in
      let (method, ended, scheme, (authority, at)) = is_replayable-parts ops r replayable in
      (
        method,
        ended,
        scheme,
        (authority, at, ap (λ u. u.authority) (sym same) ∙ at),
        sym (ap (λ u. u.method) same),
        subst (λ u. Lacks ops u.headers hop_by_hop) same
            (hop_by_hop-Lacks ops
              (still_Lacks secret_headers hop_headers _ (remove_all-Lacks hop_headers _))),
        subst (λ u. Lacks ops u.headers not_replayed) same
            (not_replayed-Lacks ops (remove_all-Lacks secret_headers _)),
      )
