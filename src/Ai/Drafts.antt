-- ===== src/Ai/Drafts.antt =====
-- services/ai/app/generation/schemas.py. A text is the list of its code points.
use dsa_platform.Prelude.{ℕ, Option, List}
use dsa_platform.Prelude.Int.{ℤ}

abbrev pub Text : Type 0
Text = List ℕ

-- A request is checked against these names.
pub data DifficultyBand : Type 0 where
  easy medium hard : DifficultyBand

-- `DIFFICULTY_BANDS`
abbrev pub difficulty_bands : DifficultyBand → ℕ × ℕ
difficulty_bands DifficultyBand.easy = (1, 2)
difficulty_bands DifficultyBand.medium = (2, 3)
difficulty_bands DifficultyBand.hard = (4, 5)

pub data VarKind : Type 0 where
  int int_array string : VarKind

pub record InputVar : Type 0 where
  pub name : Text
  pub kind : VarKind
  pub min_value : Option ℤ
  pub max_value : Option ℤ
  pub length_min : Option ℤ
  pub length_max : Option ℤ
  pub charset : Text

pub record GeneratedExample : Type 0 where
  pub input : Text
  pub output : Text

pub record GeneratedQuestionDraft : Type 0 where
  pub title : Text
  pub statement_md : Text
  pub constraints_md : Text
  pub examples : List GeneratedExample
  pub starter_code : List (Text × Text)
  pub input_spec : List InputVar
  pub difficulty : ℕ

pub data CaseType : Type 0 where
  edge adversarial stress : CaseType

pub record GeneratedTestCase : Type 0 where
  pub input : Text
  pub description : Text
  pub case_type : CaseType
