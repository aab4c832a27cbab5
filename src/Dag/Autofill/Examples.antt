-- ===== src/Dag/Autofill/Examples.antt =====
-- Ranges such as `10:50:20`.
use mathlib.Core.Logic.{◌↔◌}
use stolos.Prelude.{
  ℕ, ◌+◌, ◌*◌, ◌<◌, ◌≡◌, ◌⊎◌, refl, arith, true, some, List, [], ◌∷◌, map, Text, txt, split, none,
  mem_text, decimal,
}
use stolos.Jobs.Actions.{ok, raised, value_error}
use stolos.Dag.Metadata.{Entry, text, isdigit, int}
use stolos.Dag.Validation.Checks.{check_autofill}
use stolos.Dag.Validation.Samples.{values}
use stolos.Dag.Autofill.{parse_entry, range}
use stolos.Dag.Autofill.Ranges.{mem, range_text, parse_entry-range}
use stolos.Dag.Autofill.Validated.{check_autofill-parse_entry}

parse_entry-range_example :
    (parse_entry values decimal (text (range_text 10 50 20)) ≡ ok (map decimal (range 10 50 20)))
    × ((n : ℕ) → (mem n (range 10 50 20) ≡ true) ↔ ((i : ℕ) × (n ≡ 10 + i * 20) × (n < 50)))
parse_entry-range_example = parse_entry-range values decimal 10 50 20 (omega arith)

check_autofill-parse_entry_example :
    ((vs : List Text) × (parse_entry values decimal (text (txt "1:9:0")) ≡ ok vs))
    ⊎ ((t : Text) × (◌≡◌ {A = Entry Text} (text (txt "1:9:0")) (text t))
        × (parse_entry values decimal (text (txt "1:9:0")) ≡ raised value_error)
        × (((start : Text) × (stop : Text) × (step : Text) × (split (txt ":") 2 t
                ≡ start ∷ stop ∷ step ∷ [])
              × (int values step ≡ some 0))
            ⊎ ((part : Text) × (mem_text part (split (txt ":") 2 t) ≡ true)
                × (isdigit values part ≡ true)
                × (int values part ≡ none))))
unfolding check_autofill
check_autofill-parse_entry_example =
    check_autofill-parse_entry values decimal [] (text (txt "1:9:0")) refl
