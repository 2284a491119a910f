-- ===== src/Editor/Model.antt =====
-- The types of apps/web/src/modules/presentations/model/editor.ts. Revisions, orders and schema
-- versions are counters; the other numbers may be any, since a draft can hold NaN.
use pro_slides_go.Base.{ℕ, String, Bool, Option, List}
use pro_slides_go.Js.Number.{Number}

pub data QuestionType : Type 0 where
  single multiple : QuestionType

pub data EvaluationMode : Type 0 where
  none correctness : EvaluationMode

pub data ScoringMode : Type 0 where
  none points : ScoringMode

pub data EditorItemKind : Type 0 where
  content activity : EditorItemKind

pub record EditorOption : Type 0 where
  pub option_id : String
  pub text : String
  pub is_correct : Bool
  pub image_url : String
  pub order : ℕ

-- `aggregation` has one value, "word_frequency", and is left out.
pub record EditorTextActivity : Type 0 where
  pub title : String
  pub text : String
  pub image_url : String
  pub max_length : Number
  pub max_words : Number
  pub time_limit : Number

pub record EditorQuestion : Type 0 where
  pub question_id : String
  pub title : String
  pub text : String
  pub question_text : String
  pub question_type : QuestionType
  pub evaluation_mode : Option EvaluationMode
  pub scoring_mode : Option ScoringMode
  pub time_limit : Number
  pub question_time : Number
  pub min_point : Number
  pub max_point : Number
  pub image_url : String
  pub question_image : String
  pub faster_answers_more_points : Bool
  pub partial_scoring : Bool
  pub options : List EditorOption

pub record EditorSlide : Type 0 where
  pub slide_id : String
  pub revision : ℕ
  pub order : ℕ
  pub item_kind : EditorItemKind
  pub activity_kind : Option String
  pub schema_version : Option ℕ
  pub show_leaderboard_after : Bool
  pub question : Option EditorQuestion
  pub text_activity : Option EditorTextActivity
  pub title : Option String
  pub content_text : Option String
  pub content_image_url : Option String

pub record Background : Type 0 where
  pub color : String
  pub image : String
  pub text_color : String

pub record EditorPresentation : Type 0 where
  pub quiz_id : String
  pub revision : ℕ
  pub access_code : String
  pub title : String
  pub quiz_name : String
  pub background_color : String
  pub background_image_url : String
  pub text_color : String
  pub music_url : String
  pub background : Background
  pub slides : List EditorSlide
  pub created_at : String
  pub last_update : String

-- The parts of a question or an option may be missing where a question is validated, and a mode
-- may be a text that is none of its names.
pub data Tag (A : Type 0) : Type 0 where
  known : A → Tag A
  other : String → Tag A

pub record OptionLike : Type 0 where
  pub option_id : Option String
  pub text : Option String
  pub option_text : Option String
  pub is_correct : Option Bool
  pub image_url : Option String

pub record QuestionLike : Type 0 where
  pub title : Option String
  pub text : Option String
  pub question_text : Option String
  pub question_type : Option (Tag QuestionType)
  pub evaluation_mode : Option (Tag EvaluationMode)
  pub scoring_mode : Option (Tag ScoringMode)
  pub time_limit : Option Number
  pub question_time : Option Number
  pub min_point : Option Number
  pub max_point : Option Number
  pub image_url : Option String
  pub question_image : Option String
  pub faster_answers_more_points : Option Bool
  pub partial_scoring : Option Bool
  pub options : Option (List OptionLike)

pub record TextActivityLike : Type 0 where
  pub title : Option String
  pub text : Option String
  pub image_url : Option String
  pub max_length : Option Number
  pub max_words : Option Number
  pub time_limit : Option Number
  pub aggregation : Option String

pub record ContentLike : Type 0 where
  pub title : Option String
  pub content_text : Option String
  pub content_image_url : Option String
