-- ===== src/JsonLayout.antt =====
-- crates/engine/src/proxy/bodies/inspect.rs: the layout of a recorded JSON body. An underflow of the
-- depth, which a body that serde_json has accepted does not come to, makes the layout `none`.
pub mod Spaces
pub mod Strings
pub mod Again
pub mod View
pub mod Budget
mod Tests
use sippin_soda.Base.{
  ℕ, zero, suc, ◌+◌, ◌-◌, ◌*◌, ◌++◌, Bool, true, false, not, ◌&&◌, ◌||◌, Option, none, some, List,
  [], ◌∷◌, ltb, ◌==◌, if◌then◌else◌, replicate,
}
use sippin_soda.Bodies.{Bytes}

-- Where a reader stands: in a string or not, and after a backslash in it; and how deep.
pub record Mode : Type 0 where
  pub string : Bool
  pub escaped : Bool

pub record Place : Type 0 where
  pub mode : Mode
  pub depth : ℕ

abbrev pub at_start : Place
at_start = record { mode = record { string = false; escaped = false }; depth = 0 }

abbrev pub is_open : ℕ → Bool
is_open byte = (byte == b'{') || (byte == b'[')

abbrev pub is_close : ℕ → Bool
is_close byte = (byte == b'}') || (byte == b']')

abbrev pub is_space : ℕ → Bool
is_space byte = (byte == b' ') || (byte == b'\n') || (byte == b'\r') || (byte == b'\t')

-- A byte of a string.
unfoldable pub in_string : Mode → ℕ → Mode
in_string p byte =
    if p.escaped
    then record p { escaped = false }
    else if byte == b'\\'
    then record p { escaped = true }
    else if byte == b'"'
    then record p { string = false }
    else p

abbrev indent : ℕ → Bytes
indent depth = replicate (depth * 2) b' '

-- What a byte outside a string is written as, and where the reader stands then.
unfoldable pub outside : Place → ℕ → Option (Place × Bytes)
outside p byte =
    if byte == b'"'
    then some (record p { mode = record (p.mode) { string = true } }, byte ∷ [])
    else if is_open byte
    then some (record p { depth = suc p.depth }, byte ∷ b'\n' ∷ indent (suc p.depth))
    else if is_close byte
    then (elim p.depth [
      | zero ↦ none
      | suc depth ↦ some (record p { depth = depth }, b'\n' ∷ indent depth ++ byte ∷ [])
    ])
    else if byte == b','
    then some (p, b',' ∷ b'\n' ∷ indent p.depth)
    else if byte == b':'
    then some (p, b':' ∷ b' ' ∷ [])
    else if is_space byte
    then some (p, [])
    else some (p, byte ∷ [])

unfoldable pub layout_byte : Place → ℕ → Option (Place × Bytes)
layout_byte p byte =
    if p.mode.string
    then some (record p { mode = in_string p.mode byte }, byte ∷ [])
    else outside p byte

-- The loop of `format_json`, from a place on.
unfoldable pub layout : Place → Bytes → Option Bytes
layout p [] = some []
layout p (byte ∷ bytes) = elim (layout_byte p byte) [
  | none ↦ none
  | some (next, written) ↦ elim (layout next bytes) [
    | none ↦ none
    | some others ↦ some (written ++ others)
  ]
]

-- The loop of `CheckedReader::read`: `none` where the nesting is too deep.
unfoldable pub check_outside : Place → ℕ → Option Place
check_outside p byte =
    if byte == b'"'
    then some (record p { mode = record (p.mode) { string = true } })
    else if is_open byte
    then (if ltb 128 (suc p.depth) then none else some (record p { depth = suc p.depth }))
    else if is_close byte
    then some (record p { depth = p.depth - 1 })
    else some p

unfoldable pub check_byte : Place → ℕ → Option Place
check_byte p byte =
    if p.mode.string then some (record p { mode = in_string p.mode byte }) else check_outside p byte

unfoldable pub check : Place → Bytes → Option Place
check p [] = some p
check p (byte ∷ bytes) = elim (check_byte p byte) [ none ↦ none | some next ↦ check next bytes ]
