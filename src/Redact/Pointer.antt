-- ===== src/Redact/Pointer.antt =====
-- The compilation of JSON Pointers reads back what an encoder of pointers writes.
use sippin_soda.Base.{
  ℕ, ◌≤◌, ◌≡◌, refl, ap, ◌∙◌, true, false, List, [], ◌∷◌, ◌++◌, map, inl, inr, arith, if◌then◌else◌,
  Bool-cases, ◌==◌, ==_iff, ok, collect, ◌>>=◌, ltb,
}
use sippin_soda.Text.{Text, text, len, trim, split, starts_with}
use sippin_soda.Redact.{decode_pointer_segment, compile_path, compile_trimmed, after_slash}

-- RFC 6901: "~" is written "~0" and "/" is written "~1".
abbrev encode_char : ℕ → Text
encode_char c = if c == b'~' then text "~0" else if c == b'/' then text "~1" else c ∷ []

unfoldable pub encode_segment : Text → Text
encode_segment [] = []
encode_segment (c ∷ t) = encode_char c ++ encode_segment t

unfoldable pub print_pointer : List Text → Text
unfolding encode_segment
print_pointer [] = []
print_pointer (segment ∷ segments) = b'/' ∷ (encode_segment segment ++ print_pointer segments)

decode_plain :
    (c : ℕ) (t : Text)
    → (c == b'~') ≡ false
    → decode_pointer_segment (c ∷ t) ≡ (decode_pointer_segment t >>= λ rest. ok (c ∷ rest))
unfolding decode_pointer_segment
decode_plain c [] h = rw h
decode_plain c (d ∷ t) h = rw h

decode_tilde :
    (t : Text)
    → decode_pointer_segment (b'~' ∷ b'0' ∷ t)
      ≡ (decode_pointer_segment t >>= λ rest. ok (b'~' ∷ rest))
unfolding decode_pointer_segment
decode_tilde t = refl

decode_slash :
    (t : Text)
    → decode_pointer_segment (b'~' ∷ b'1' ∷ t)
      ≡ (decode_pointer_segment t >>= λ rest. ok (b'/' ∷ rest))
unfolding decode_pointer_segment
decode_slash t = refl

decode_nil : decode_pointer_segment [] ≡ ok []
unfolding decode_pointer_segment
decode_nil = refl

-- Decoding an encoded segment gives the segment back.
pub decode-encode : (segment : Text) → decode_pointer_segment (encode_segment segment) ≡ ok segment
unfolding encode_segment
decode-encode [] = decode_nil
decode-encode (c ∷ t) = elim (Bool-cases (c == b'~')) [
  | inl e ↦ rw e (decode_tilde (encode_segment t) ∙ rw (decode-encode t, (==_iff c b'~').0 e))
  | inr e ↦ elim (Bool-cases (c == b'/')) [
    | inl s ↦
        rw (e, s) (decode_slash (encode_segment t) ∙ rw (decode-encode t, (==_iff c b'/').0 s))
    | inr s ↦ rw (e, s) (decode_plain c (encode_segment t) e ∙ rw (decode-encode t))
  ]
]

NoSlash : Text → Type 0
NoSlash [] = Unit {0}
NoSlash (c ∷ t) = ((c == b'/') ≡ false) × NoSlash t

encode-NoSlash : (segment : Text) → NoSlash (encode_segment segment)
unfolding encode_segment NoSlash
encode-NoSlash [] = tt
encode-NoSlash (c ∷ t) = elim (Bool-cases (c == b'~')) [
  | inl e ↦ rw e (refl, (refl, encode-NoSlash t))
  | inr e ↦ elim (Bool-cases (c == b'/')) [
    | inl s ↦ rw (e, s) (refl, (refl, encode-NoSlash t))
    | inr s ↦ rw (e, s) (s, encode-NoSlash t)
  ]
]

split-print :
    (segments : List Text) (p : Text)
    → NoSlash p
    → split b'/' (p ++ print_pointer segments) ≡ p ∷ map encode_segment segments
unfolding split print_pointer NoSlash
split-print [] [] h = refl
split-print (s ∷ segments) [] h =
    ap (◌∷◌ []) (split-print segments (encode_segment s) (encode-NoSlash s))
split-print segments (c ∷ p) (h, hs) = rw (h, split-print segments p hs)

collect-decode :
    (segments : List Text)
    → collect decode_pointer_segment (map encode_segment segments) ≡ ok segments
unfolding collect
collect-decode [] = refl
collect-decode (s ∷ segments) = rw (decode-encode s, collect-decode segments)

starts_with-print :
    (segment : Text) (segments : List Text)
    → starts_with (print_pointer (segment ∷ segments)) (text "/") ≡ true
unfolding starts_with print_pointer
starts_with-print segment segments =
    starts_with_nil (encode_segment segment ++ print_pointer segments)
  where
    starts_with_nil : (t : Text) → starts_with t [] ≡ true
    starts_with_nil [] = refl
    starts_with_nil (c ∷ t) = refl

split-after_slash :
    (segment : Text) (segments : List Text)
    → split b'/' (after_slash (print_pointer (segment ∷ segments)))
      ≡ map encode_segment (segment ∷ segments)
unfolding print_pointer
split-after_slash segment segments =
    split-print segments (encode_segment segment) (encode-NoSlash segment)

compile_trimmed-print :
    (segment : Text) (segments : List Text)
    → len (print_pointer (segment ∷ segments)) ≤ 512
    → compile_trimmed (print_pointer (segment ∷ segments)) ≡ ok (segment ∷ segments)
unfolding compile_trimmed
compile_trimmed-print segment segments short =
    rw (starts_with-print segment segments, not_longer, split-after_slash segment segments)
      (collect-decode (segment ∷ segments))
  where
    not_longer : ltb 512 (len (print_pointer (segment ∷ segments))) ≡ false
    not_longer = ground arith

-- A pointer of at least one segment that is written with the escapes of RFC 6901, is at most 512
-- bytes long and neither begins nor ends in white space compiles to its segments.
pub compile_path-print :
    (segment : Text) (segments : List Text)
    → trim (print_pointer (segment ∷ segments)) ≡ print_pointer (segment ∷ segments)
    → len (print_pointer (segment ∷ segments)) ≤ 512
    → compile_path (print_pointer (segment ∷ segments)) ≡ ok (segment ∷ segments)
unfolding compile_path
compile_path-print segment segments trimmed short =
    ap compile_trimmed trimmed ∙ compile_trimmed-print segment segments short
