-- ===== src/Live/Projection/Views.antt =====
-- What the live pages show, of apps/web/src/modules/live/model/serverData.ts: the fields that no
-- projection sets are left out.
use pro_slides_go.Base.{ℕ, String, Bool, Option, List}
use pro_slides_go.Js.Number.{Number}
use pro_slides_go.Js.Value.{Value}
use pro_slides_go.Live.Types.{ActivityKind, WordFrequencyTerm}

pub record LegacyLiveUser : Type 0 where
  pub user_id : String
  pub name : String
  pub character : String
  pub rank : Option Number
  pub total_points : Number
  pub new_points : Option Number

-- `picked` and `number_of_submits` are set by the pages.
pub record LegacyQuestionOption : Type 0 where
  pub option_id : ℕ
  pub option_index : Value
  pub option_text : String
  pub image_url : String
  pub order : ℕ
  pub answer : Option Bool

pub data LegacyQuestionType : Type 0 where
  single multiple text : LegacyQuestionType

-- `item_kind` is "activity"; the fields that no projection sets are left out.
pub record LegacyQuestionSlide : Type 0 where
  pub slide_id : String
  pub question_id : String
  pub run_id : Option Number
  pub activity_kind : ActivityKind
  pub question_text : String
  pub question_title : String
  pub question_time : Number
  pub remaining_seconds : Option Number
  pub max_point : Option Number
  pub min_point : Option Number
  pub question_type : LegacyQuestionType
  pub has_multiple : Bool
  pub is_scored : Bool
  pub has_correct_answer : Bool
  pub image_url : String
  pub show_leaderboard_after : Bool
  pub response_max_length : Option Number
  pub response_max_words : Option Number
  pub options : List LegacyQuestionOption

-- `item_kind` is "content"; `order` is a number, a text or null.
pub record LegacyContentSlide : Type 0 where
  pub slide_id : String
  pub order : Value
  pub title : String
  pub content_text : String
  pub content_image_url : String

pub data LegacyLiveSlide : Type 0 where
  question : LegacyQuestionSlide → LegacyLiveSlide
  content : LegacyContentSlide → LegacyLiveSlide

pub record OptionSubmits : Type 0 where
  pub option_id : Number
  pub number_of_submits : Number

pub record LegacyQuestionResult : Type 0 where
  pub question_id : String
  pub response_count : Number
  pub options_result : Option (List OptionSubmits)
  pub word_terms : Option (List WordFrequencyTerm)

pub record ProjectedServerData : Type 0 where
  pub users : List LegacyLiveUser
  pub current_question : Option LegacyQuestionSlide
  pub current_content : Option LegacyContentSlide
  pub leaderboard_results : Option (List LegacyLiveUser)
  pub participant_count : Number
  pub question_results : Option LegacyQuestionResult
