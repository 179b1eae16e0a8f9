-- ===== src/JsonLayout/Strings.antt =====
-- The white space outside the strings of a JSON text, by the grammar of its strings.
use sippin_soda.Base.{◌≡◌, refl, ap, arith, true, false, ◌||◌, [], ◌∷◌, ◌==◌, if◌then◌else◌}
use sippin_soda.Bodies.{Bytes}
use sippin_soda.JsonLayout.{Mode, in_string}
use sippin_soda.JsonLayout.Spaces.{compact}

-- Where a text stands by the grammar of JSON: outside strings, in one, or in one after a backslash.
pub data Region : Type 0 where
  outer inner escape : Region

-- The text without the white space outside its strings, where a string goes from a quote to the next
-- quote that no backslash escapes, and a backslash escapes what follows it.
unfoldable pub without_space : Region → Bytes → Bytes
without_space region [] = []
without_space outer (byte ∷ bytes) =
    let opened = without_space inner bytes in
    let others = without_space outer bytes in
    if byte == b'"'
    then byte ∷ opened
    else if (byte == b' ') || (byte == b'\t') || (byte == b'\n') || (byte == b'\r')
    then others
    else byte ∷ others
without_space inner (byte ∷ bytes) =
    let closed = without_space outer bytes in
    let escaped = without_space escape bytes in
    let others = without_space inner bytes in
    if byte == b'"' then byte ∷ closed else if byte == b'\\' then byte ∷ escaped else byte ∷ others
without_space escape (byte ∷ bytes) = byte ∷ without_space inner bytes

-- The mode of the loop there.
abbrev mode_of : Region → Mode
mode_of outer = record { string = false; escaped = false }
mode_of inner = record { string = true; escaped = false }
mode_of escape = record { string = true; escaped = true }

pub compact-without_space :
    (region : Region) (bytes : Bytes) → compact (mode_of region) bytes ≡ without_space region bytes
unfolding compact without_space in_string
compact-without_space region [] = refl
compact-without_space outer (byte ∷ bytes) =
    ground (arith, compact-without_space outer bytes, compact-without_space inner bytes)
compact-without_space inner (byte ∷ bytes) = ground (
  arith,
  compact-without_space outer bytes,
  compact-without_space inner bytes,
  compact-without_space escape bytes,
)
compact-without_space escape (byte ∷ bytes) =
    ap (λ xs. byte ∷ xs) (compact-without_space inner bytes)
