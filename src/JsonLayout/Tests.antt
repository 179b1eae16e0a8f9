-- ===== src/JsonLayout/Tests.antt =====
-- Layouts of small bodies.
use sippin_soda.Base.{◌≡◌, refl, true, false, some, none, List, [], ◌∷◌, ok, err}
use sippin_soda.Base.Assoc.{lookup, update}
use sippin_soda.Text.{text}
use sippin_soda.Bodies.{Bytes, Entry, Storage, reserve, with_entry}
use sippin_soda.Bodies.Store.{BodyStore, complete_entry}
use sippin_soda.JsonLayout.{at_start, layout, layout_byte, outside, in_string}
use sippin_soda.JsonLayout.Strings.{outer, without_space}
use sippin_soda.JsonLayout.Again.{layout-again}
use sippin_soda.JsonLayout.View.{
  Stage, writes, write_layout, write_stages, budget_write, json_view, view_entry, building_status,
}
use sippin_soda.JsonLayout.Budget.{Settled, write_layout-Settled}

abbrev body : Bytes
body = text "{\"a\\\" b\":[1, 2]}"

abbrev lines : Bytes
lines = text "{\n  \"a\\\" b\": [\n    1,\n    2\n  ]\n}"

laid_out : layout at_start body ≡ some lines
unfolding layout layout_byte outside in_string
laid_out = refl

-- A body that closes what it has not opened.
underflow_test : layout at_start (text "1]") ≡ none
unfolding layout layout_byte outside in_string
underflow_test = refl

layout-again_example :
    (without_space outer lines ≡ without_space outer body) × (layout at_start lines ≡ some lines)
layout-again_example = layout-again body lines laid_out

abbrev entry : Entry
entry = complete_entry body 40 (text "identity")

abbrev storage : Storage
storage = record { used = 14; heap = (3, entry) ∷ []; next_handle = 4 }

stored : lookup 3 storage.heap ≡ some entry
unfolding lookup
stored = refl

-- The second buffer is over the budget.
abbrev stages : List Stage
stages = writes 20 true ∷ writes 20 true ∷ []

over_budget_test :
    (write_layout storage 3 stages 0 true).1
    ≡ err "Session disk budget reached; original body remains available."
unfolding write_layout write_stages budget_write reserve lookup with_entry update
over_budget_test = refl

write_layout-Settled_example : Settled storage 3 entry (write_layout storage 3 stages 0 true)
write_layout-Settled_example = write_layout-Settled storage 3 entry stages 0 true stored refl

abbrev store : BodyStore
store = record { entries = (7, 3) ∷ [] }

build_test : (json_view storage store 7 true true false).1 ≡ ok building_status
unfolding json_view view_entry lookup
build_test = refl
