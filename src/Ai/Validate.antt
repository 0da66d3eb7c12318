-- ===== src/Ai/Validate.antt =====
-- services/ai/app/generation/validate.py. An error is the data that its message shows. The numbers
-- of an input are ASCII digits.
use dsa_platform.Prelude.{
  is_empty, ℕ, suc, Bool, true, false, Option, none, some, List, [], ◌∷◌, ◌++◌, ◌==◌, ◌&&◌, not,
  length, leb, list_eq, map, if◌then◌else◌,
}
use dsa_platform.Prelude.Int.{ℤ, pos, lt_int}
use dsa_platform.Prelude.Decimal.{read_int}
use dsa_platform.Prelude.Table.{first, or_else}
use dsa_platform.Ai.Drafts.{
  Text, DifficultyBand, difficulty_bands, VarKind, InputVar, GeneratedExample,
  GeneratedQuestionDraft,
}
use dsa_platform.Ai.Texts.{strip, split_words, split_lines}

-- what a number of a message is about
pub data Measure : Type 0 where
  value element size : Measure

pub data InputError : Type 0 where
  line_count : ℕ → ℕ → InputError
  not_an_int : Measure → Text → Text → InputError
  below above : Measure → Text → ℤ → ℤ → InputError

pub data DraftError : Type 0 where
  difficulty_outside : ℕ → DifficultyBand → DraftError
  values_crossed lengths_crossed : Text → DraftError
  no_starter_code : Text → DraftError
  no_examples : DraftError
  in_example : ℕ → InputError → DraftError

-- `lo is not None and hi is not None and lo > hi`
abbrev pub crossed : Option ℤ → Option ℤ → Bool
crossed (some lo) (some hi) = lt_int hi lo
crossed _ _ = false

abbrev pub value_bounds_invalid : InputVar → Bool
value_bounds_invalid var = crossed var.min_value var.max_value

abbrev pub length_bounds_invalid : InputVar → Bool
length_bounds_invalid var = crossed var.length_min var.length_max

abbrev pub value_bounds_error : InputVar → Option DraftError
value_bounds_error var =
    if value_bounds_invalid var then some (DraftError.values_crossed var.name) else none

abbrev pub length_bounds_error : InputVar → Option DraftError
length_bounds_error var =
    if length_bounds_invalid var then some (DraftError.lengths_crossed var.name) else none

abbrev pub bounds_error : VarKind → InputVar → Option DraftError
bounds_error VarKind.int var = value_bounds_error var
bounds_error VarKind.int_array var = or_else (length_bounds_error var) (value_bounds_error var)
bounds_error VarKind.string var = length_bounds_error var

abbrev pub check_bounds : InputVar → Option DraftError
check_bounds var = bounds_error var.kind var

abbrev pub below_error : Measure → Text → ℤ → Option ℤ → Option InputError
below_error what name n none = none
below_error what name n (some lo) =
    if lt_int n lo then some (InputError.below what name n lo) else none

abbrev pub above_error : Measure → Text → ℤ → Option ℤ → Option InputError
above_error what name n none = none
above_error what name n (some hi) =
    if lt_int hi n then some (InputError.above what name n hi) else none

-- a number against its two bounds
abbrev pub range_error : Measure → Text → ℤ → Option ℤ → Option ℤ → Option InputError
range_error what name n lo hi = or_else (below_error what name n lo) (above_error what name n hi)

-- a text that was read, or was not
abbrev pub number_error : Measure → InputVar → Text → Option ℤ → Option InputError
number_error what var text none = some (InputError.not_an_int what var.name text)
number_error what var text (some n) = range_error what var.name n var.min_value var.max_value

abbrev pub size_error : InputVar → ℕ → Option InputError
size_error var n = range_error Measure.size var.name (pos n) var.length_min var.length_max

unfoldable pub elements_error : InputVar → List Text → Option InputError
elements_error var [] = none
elements_error var (token ∷ tokens) =
    or_else (number_error Measure.element var token (read_int token)) (elements_error var tokens)

abbrev pub line_error : VarKind → InputVar → Text → Option InputError
line_error VarKind.int var line = number_error Measure.value var line (read_int (strip line))
line_error VarKind.int_array var line =
    or_else (size_error var (length (split_words line))) (elements_error var (split_words line))
line_error VarKind.string var line = size_error var (length line)

-- `_check_value_against_var`
abbrev pub check_value_against_var : Text → InputVar → Option InputError
check_value_against_var line var = line_error var.kind var line

abbrev pub add_error : {E : Type 0} → Option E → List E → List E
add_error none errors = errors
add_error (some e) errors = e ∷ errors

-- a line and a variable at a time
unfoldable pub check_lines : List Text → List InputVar → List InputError
check_lines (line ∷ lines) (var ∷ spec) =
    add_error (check_value_against_var line var) (check_lines lines spec)
check_lines _ _ = []

abbrev pub validate_lines : List Text → List InputVar → List InputError
validate_lines lines spec =
    if not (length lines == length spec)
    then InputError.line_count (length spec) (length lines) ∷ []
    else check_lines lines spec

unfoldable pub validate_input : Text → List InputVar → List InputError
validate_input text spec = validate_lines (split_lines text) spec

abbrev pub bounds_errors : List InputVar → List DraftError
bounds_errors [] = []
bounds_errors (var ∷ spec) = add_error (check_bounds var) (bounds_errors spec)

abbrev pub has_code : Text → Text × Text → Bool
has_code language entry = list_eq (entry.0) language && not (is_empty (entry.1))

abbrev pub is_missing : Option (Text × Text) → Bool
is_missing none = true
is_missing (some entry) = false

abbrev pub starter_errors : List (Text × Text) → List Text → List DraftError
starter_errors code [] = []
starter_errors code (language ∷ languages) =
    let rest = starter_errors code languages in
    if is_missing (first (has_code language) code)
    then DraftError.no_starter_code language ∷ rest
    else rest

abbrev pub example_errors : ℕ → List InputVar → List GeneratedExample → List DraftError
example_errors index spec [] = []
example_errors index spec (shown ∷ examples) =
    map (DraftError.in_example index) (validate_input shown.input spec)
    ++ example_errors (suc index) spec examples

abbrev pub no_example_errors : List GeneratedExample → List DraftError
no_example_errors examples = if is_empty examples then DraftError.no_examples ∷ [] else []

abbrev pub difficulty_errors : ℕ → DifficultyBand → List DraftError
difficulty_errors difficulty band =
    if leb ((difficulty_bands band).0) difficulty && leb difficulty ((difficulty_bands band).1)
    then []
    else DraftError.difficulty_outside difficulty band ∷ []

unfoldable pub validate_draft :
    GeneratedQuestionDraft → DifficultyBand → List Text → List DraftError
validate_draft draft band languages =
    difficulty_errors draft.difficulty band
    ++ bounds_errors draft.input_spec
    ++ starter_errors draft.starter_code languages
    ++ no_example_errors draft.examples
    ++ example_errors 0 draft.input_spec draft.examples
