-- ===== src/Editor/Wording.antt =====
-- The Persian texts that apps/web/src/modules/presentations shows: the messages of
-- model/editor.ts, editor/model/designDraft.ts and audioDraft.ts, each named after its issue's
-- code, and the default texts of editor/model/slideMutations.ts. They are written by their code
-- points.
use pro_slides_go.Base.{String}

abbrev pub text_activity_required_text : String
text_activity_required_text =
    "\u{62a}\u{646}\u{638}\u{6cc}\u{645}\u{627}\u{62a} \u{627}\u{628}\u{631} \u{648}\u{627}\u{698}\u{647} \u{631}\u{627} \u{62a}\u{6a9}\u{645}\u{6cc}\u{644} \u{6a9}\u{646}\u{6cc}\u{62f}."

abbrev pub prompt_required_text : String
prompt_required_text =
    "\u{67e}\u{631}\u{633}\u{634} \u{627}\u{628}\u{631} \u{648}\u{627}\u{698}\u{647} \u{631}\u{627} \u{648}\u{627}\u{631}\u{62f} \u{6a9}\u{646}\u{6cc}\u{62f}."

abbrev pub prompt_too_long_text : String
prompt_too_long_text =
    "\u{645}\u{62a}\u{646} \u{67e}\u{631}\u{633}\u{634} \u{627}\u{628}\u{631} \u{648}\u{627}\u{698}\u{647} \u{628}\u{6cc}\u{634} \u{627}\u{632} \u{62d}\u{62f} \u{637}\u{648}\u{644}\u{627}\u{646}\u{6cc} \u{627}\u{633}\u{62a}."

abbrev pub title_too_long_text : String
title_too_long_text =
    "\u{639}\u{646}\u{648}\u{627}\u{646} \u{627}\u{628}\u{631} \u{648}\u{627}\u{698}\u{647} \u{628}\u{6cc}\u{634} \u{627}\u{632} \u{62d}\u{62f} \u{637}\u{648}\u{644}\u{627}\u{646}\u{6cc} \u{627}\u{633}\u{62a}."

abbrev pub image_too_long_text : String
image_too_long_text =
    "\u{622}\u{62f}\u{631}\u{633} \u{62a}\u{635}\u{648}\u{6cc}\u{631} \u{627}\u{628}\u{631} \u{648}\u{627}\u{698}\u{647} \u{628}\u{6cc}\u{634} \u{627}\u{632} \u{62d}\u{62f} \u{637}\u{648}\u{644}\u{627}\u{646}\u{6cc} \u{627}\u{633}\u{62a}."

abbrev pub max_length_invalid_text : String
max_length_invalid_text =
    "\u{62d}\u{62f}\u{627}\u{6a9}\u{62b}\u{631} \u{637}\u{648}\u{644} \u{67e}\u{627}\u{633}\u{62e} \u{628}\u{627}\u{6cc}\u{62f} \u{628}\u{6cc}\u{646} ۱ \u{62a}\u{627} ۵۰۰ \u{646}\u{648}\u{6cc}\u{633}\u{647} \u{628}\u{627}\u{634}\u{62f}."

abbrev pub max_words_invalid_text : String
max_words_invalid_text =
    "\u{62a}\u{639}\u{62f}\u{627}\u{62f} \u{648}\u{627}\u{698}\u{647}\u{200c}\u{647}\u{627}\u{6cc} \u{67e}\u{627}\u{633}\u{62e} \u{628}\u{627}\u{6cc}\u{62f} \u{628}\u{6cc}\u{646} ۱ \u{62a}\u{627} ۱۰ \u{628}\u{627}\u{634}\u{62f}."

abbrev pub duration_invalid_text : String
duration_invalid_text =
    "\u{632}\u{645}\u{627}\u{646} \u{67e}\u{627}\u{633}\u{62e}\u{200c}\u{6af}\u{648}\u{6cc}\u{6cc} \u{628}\u{627}\u{6cc}\u{62f} \u{628}\u{6cc}\u{646} ۱ \u{62b}\u{627}\u{646}\u{6cc}\u{647} \u{62a}\u{627} ۲۴ \u{633}\u{627}\u{639}\u{62a} \u{628}\u{627}\u{634}\u{62f}."

abbrev pub aggregation_invalid_text : String
aggregation_invalid_text =
    "\u{631}\u{648}\u{634} \u{62a}\u{62c}\u{645}\u{6cc}\u{639} \u{627}\u{628}\u{631} \u{648}\u{627}\u{698}\u{647} \u{645}\u{639}\u{62a}\u{628}\u{631} \u{646}\u{6cc}\u{633}\u{62a}."

abbrev pub question_required_text : String
question_required_text =
    "\u{67e}\u{6cc}\u{634} \u{627}\u{632} \u{627}\u{62c}\u{631}\u{627} \u{6cc}\u{6a9} \u{633}\u{624}\u{627}\u{644} \u{627}\u{636}\u{627}\u{641}\u{647} \u{6a9}\u{646}\u{6cc}\u{62f}."

abbrev pub question_text_required_text : String
question_text_required_text =
    "\u{645}\u{62a}\u{646} \u{633}\u{624}\u{627}\u{644} \u{631}\u{627} \u{648}\u{627}\u{631}\u{62f} \u{6a9}\u{646}\u{6cc}\u{62f}."

abbrev pub question_text_too_long_text : String
question_text_too_long_text =
    "\u{645}\u{62a}\u{646} \u{633}\u{624}\u{627}\u{644} \u{646}\u{645}\u{6cc}\u{200c}\u{62a}\u{648}\u{627}\u{646}\u{62f} \u{628}\u{6cc}\u{634}\u{62a}\u{631} \u{627}\u{632} ۱۰\u{66c}۰۰۰ \u{646}\u{648}\u{6cc}\u{633}\u{647} \u{628}\u{627}\u{634}\u{62f}."

abbrev pub question_title_too_long_text : String
question_title_too_long_text =
    "\u{639}\u{646}\u{648}\u{627}\u{646} \u{633}\u{624}\u{627}\u{644} \u{646}\u{645}\u{6cc}\u{200c}\u{62a}\u{648}\u{627}\u{646}\u{62f} \u{628}\u{6cc}\u{634}\u{62a}\u{631} \u{627}\u{632} ۵۰۰ \u{646}\u{648}\u{6cc}\u{633}\u{647} \u{628}\u{627}\u{634}\u{62f}."

abbrev pub question_image_too_long_text : String
question_image_too_long_text =
    "\u{622}\u{62f}\u{631}\u{633} \u{62a}\u{635}\u{648}\u{6cc}\u{631} \u{633}\u{624}\u{627}\u{644} \u{628}\u{6cc}\u{634} \u{627}\u{632} \u{62d}\u{62f} \u{637}\u{648}\u{644}\u{627}\u{646}\u{6cc} \u{627}\u{633}\u{62a}."

abbrev pub options_too_few_text : String
options_too_few_text =
    "\u{62d}\u{62f}\u{627}\u{642}\u{644} \u{62f}\u{648} \u{6af}\u{632}\u{6cc}\u{646}\u{647} \u{627}\u{636}\u{627}\u{641}\u{647} \u{6a9}\u{646}\u{6cc}\u{62f}."

abbrev pub options_too_many_text : String
options_too_many_text =
    "\u{647}\u{631} \u{633}\u{624}\u{627}\u{644} \u{62d}\u{62f}\u{627}\u{6a9}\u{62b}\u{631} ۱۰۰ \u{6af}\u{632}\u{6cc}\u{646}\u{647} \u{645}\u{6cc}\u{200c}\u{62a}\u{648}\u{627}\u{646}\u{62f} \u{62f}\u{627}\u{634}\u{62a}\u{647} \u{628}\u{627}\u{634}\u{62f}."

abbrev pub option_text_required_text : String
option_text_required_text =
    "\u{628}\u{631}\u{627}\u{6cc} \u{647}\u{631} \u{6af}\u{632}\u{6cc}\u{646}\u{647} \u{645}\u{62a}\u{646} \u{648}\u{627}\u{631}\u{62f} \u{6a9}\u{646}\u{6cc}\u{62f}."

abbrev pub option_text_too_long_text : String
option_text_too_long_text =
    "\u{645}\u{62a}\u{646} \u{647}\u{631} \u{6af}\u{632}\u{6cc}\u{646}\u{647} \u{62d}\u{62f}\u{627}\u{6a9}\u{62b}\u{631} ۲\u{66c}۰۰۰ \u{646}\u{648}\u{6cc}\u{633}\u{647} \u{645}\u{6cc}\u{200c}\u{62a}\u{648}\u{627}\u{646}\u{62f} \u{628}\u{627}\u{634}\u{62f}."

abbrev pub option_id_invalid_text : String
option_id_invalid_text =
    "\u{634}\u{646}\u{627}\u{633}\u{647} \u{6af}\u{632}\u{6cc}\u{646}\u{647} \u{645}\u{639}\u{62a}\u{628}\u{631} \u{646}\u{6cc}\u{633}\u{62a}."

abbrev pub option_image_too_long_text : String
option_image_too_long_text =
    "\u{622}\u{62f}\u{631}\u{633} \u{62a}\u{635}\u{648}\u{6cc}\u{631} \u{6af}\u{632}\u{6cc}\u{646}\u{647} \u{628}\u{6cc}\u{634} \u{627}\u{632} \u{62d}\u{62f} \u{637}\u{648}\u{644}\u{627}\u{646}\u{6cc} \u{627}\u{633}\u{62a}."

abbrev pub option_ids_duplicate_text : String
option_ids_duplicate_text =
    "\u{634}\u{646}\u{627}\u{633}\u{647} \u{6af}\u{632}\u{6cc}\u{646}\u{647}\u{200c}\u{647}\u{627} \u{628}\u{627}\u{6cc}\u{62f} \u{6cc}\u{6a9}\u{62a}\u{627} \u{628}\u{627}\u{634}\u{62f}."

abbrev pub question_type_invalid_text : String
question_type_invalid_text =
    "\u{646}\u{648}\u{639} \u{645}\u{639}\u{62a}\u{628}\u{631}\u{6cc} \u{628}\u{631}\u{627}\u{6cc} \u{633}\u{624}\u{627}\u{644} \u{627}\u{646}\u{62a}\u{62e}\u{627}\u{628} \u{6a9}\u{646}\u{6cc}\u{62f}."

abbrev pub evaluation_mode_invalid_text : String
evaluation_mode_invalid_text =
    "\u{62d}\u{627}\u{644}\u{62a} \u{627}\u{631}\u{632}\u{6cc}\u{627}\u{628}\u{6cc} \u{641}\u{639}\u{627}\u{644}\u{6cc}\u{62a} \u{645}\u{639}\u{62a}\u{628}\u{631} \u{646}\u{6cc}\u{633}\u{62a}."

abbrev pub correct_answer_not_allowed_text : String
correct_answer_not_allowed_text =
    "\u{641}\u{639}\u{627}\u{644}\u{6cc}\u{62a} \u{628}\u{62f}\u{648}\u{646} \u{627}\u{631}\u{632}\u{6cc}\u{627}\u{628}\u{6cc} \u{646}\u{628}\u{627}\u{6cc}\u{62f} \u{67e}\u{627}\u{633}\u{62e} \u{635}\u{62d}\u{6cc}\u{62d} \u{62f}\u{627}\u{634}\u{62a}\u{647} \u{628}\u{627}\u{634}\u{62f}."

abbrev pub correct_answer_required_text : String
correct_answer_required_text =
    "\u{62d}\u{62f}\u{627}\u{642}\u{644} \u{6cc}\u{6a9} \u{6af}\u{632}\u{6cc}\u{646}\u{647} \u{635}\u{62d}\u{6cc}\u{62d} \u{627}\u{646}\u{62a}\u{62e}\u{627}\u{628} \u{6a9}\u{646}\u{6cc}\u{62f}."

abbrev pub single_correct_answer_required_text : String
single_correct_answer_required_text =
    "\u{633}\u{624}\u{627}\u{644} \u{62a}\u{6a9}\u{200c}\u{6af}\u{632}\u{6cc}\u{646}\u{647}\u{200c}\u{627}\u{6cc} \u{62f}\u{642}\u{6cc}\u{642}\u{627}ً \u{6cc}\u{6a9} \u{6af}\u{632}\u{6cc}\u{646}\u{647} \u{635}\u{62d}\u{6cc}\u{62d} \u{646}\u{6cc}\u{627}\u{632} \u{62f}\u{627}\u{631}\u{62f}."

abbrev pub scoring_mode_invalid_text : String
scoring_mode_invalid_text =
    "\u{62d}\u{627}\u{644}\u{62a} \u{627}\u{645}\u{62a}\u{6cc}\u{627}\u{632}\u{62f}\u{647}\u{6cc} \u{641}\u{639}\u{627}\u{644}\u{6cc}\u{62a} \u{645}\u{639}\u{62a}\u{628}\u{631} \u{646}\u{6cc}\u{633}\u{62a}."

abbrev pub scoring_requires_correctness_text : String
scoring_requires_correctness_text =
    "\u{627}\u{645}\u{62a}\u{6cc}\u{627}\u{632}\u{62f}\u{647}\u{6cc} \u{646}\u{6cc}\u{627}\u{632}\u{645}\u{646}\u{62f} \u{627}\u{631}\u{632}\u{6cc}\u{627}\u{628}\u{6cc} \u{67e}\u{627}\u{633}\u{62e} \u{635}\u{62d}\u{6cc}\u{62d} \u{627}\u{633}\u{62a}."

abbrev pub partial_scoring_not_supported_text : String
partial_scoring_not_supported_text =
    "\u{627}\u{645}\u{62a}\u{6cc}\u{627}\u{632}\u{62f}\u{647}\u{6cc} \u{62c}\u{632}\u{626}\u{6cc} \u{641}\u{642}\u{637} \u{628}\u{631}\u{627}\u{6cc} \u{633}\u{624}\u{627}\u{644} \u{686}\u{646}\u{62f}\u{6af}\u{632}\u{6cc}\u{646}\u{647}\u{200c}\u{627}\u{6cc} \u{62f}\u{631} \u{62f}\u{633}\u{62a}\u{631}\u{633} \u{627}\u{633}\u{62a}."

abbrev pub question_time_invalid_text : String
question_time_invalid_text =
    "\u{632}\u{645}\u{627}\u{646} \u{633}\u{624}\u{627}\u{644} \u{628}\u{627}\u{6cc}\u{62f} \u{628}\u{6cc}\u{646} ۱ \u{62b}\u{627}\u{646}\u{6cc}\u{647} \u{62a}\u{627} ۲۴ \u{633}\u{627}\u{639}\u{62a} \u{628}\u{627}\u{634}\u{62f}."

abbrev pub unscored_policy_invalid_text : String
unscored_policy_invalid_text =
    "\u{641}\u{639}\u{627}\u{644}\u{6cc}\u{62a} \u{628}\u{62f}\u{648}\u{646} \u{627}\u{645}\u{62a}\u{6cc}\u{627}\u{632} \u{628}\u{627}\u{6cc}\u{62f} \u{647}\u{645}\u{647} \u{62a}\u{646}\u{638}\u{6cc}\u{645}\u{627}\u{62a} \u{627}\u{645}\u{62a}\u{6cc}\u{627}\u{632}\u{62f}\u{647}\u{6cc} \u{631}\u{627} \u{63a}\u{6cc}\u{631}\u{641}\u{639}\u{627}\u{644} \u{646}\u{6af}\u{647} \u{62f}\u{627}\u{631}\u{62f}."

abbrev pub points_invalid_text : String
points_invalid_text =
    "\u{627}\u{645}\u{62a}\u{6cc}\u{627}\u{632}\u{647}\u{627} \u{628}\u{627}\u{6cc}\u{62f} \u{639}\u{62f}\u{62f} \u{635}\u{62d}\u{6cc}\u{62d} \u{628}\u{627}\u{634}\u{646}\u{62f} \u{648} ۰ ≤ \u{62d}\u{62f}\u{627}\u{642}\u{644} ≤ \u{62d}\u{62f}\u{627}\u{6a9}\u{62b}\u{631}."

abbrev pub content_required_text : String
content_required_text =
    "\u{639}\u{646}\u{648}\u{627}\u{646}، \u{645}\u{62a}\u{646} \u{6cc}\u{627} \u{62a}\u{635}\u{648}\u{6cc}\u{631} \u{628}\u{647} \u{627}\u{633}\u{644}\u{627}\u{6cc}\u{62f} \u{645}\u{62d}\u{62a}\u{648}\u{627} \u{627}\u{636}\u{627}\u{641}\u{647} \u{6a9}\u{646}\u{6cc}\u{62f}."

abbrev pub content_title_too_long_text : String
content_title_too_long_text =
    "\u{639}\u{646}\u{648}\u{627}\u{646} \u{646}\u{645}\u{6cc}\u{200c}\u{62a}\u{648}\u{627}\u{646}\u{62f} \u{628}\u{6cc}\u{634}\u{62a}\u{631} \u{627}\u{632} ۵۰۰ \u{646}\u{648}\u{6cc}\u{633}\u{647} \u{628}\u{627}\u{634}\u{62f}."

abbrev pub content_text_too_long_text : String
content_text_too_long_text =
    "\u{645}\u{62a}\u{646} \u{646}\u{645}\u{6cc}\u{200c}\u{62a}\u{648}\u{627}\u{646}\u{62f} \u{628}\u{6cc}\u{634}\u{62a}\u{631} \u{627}\u{632} ۲۰\u{66c}۰۰۰ \u{646}\u{648}\u{6cc}\u{633}\u{647} \u{628}\u{627}\u{634}\u{62f}."

abbrev pub content_image_too_long_text : String
content_image_too_long_text =
    "\u{622}\u{62f}\u{631}\u{633} \u{62a}\u{635}\u{648}\u{6cc}\u{631} \u{628}\u{6cc}\u{634} \u{627}\u{632} \u{62d}\u{62f} \u{637}\u{648}\u{644}\u{627}\u{646}\u{6cc} \u{627}\u{633}\u{62a}."

abbrev pub new_poll_text : String
new_poll_text = "\u{646}\u{638}\u{631}\u{633}\u{646}\u{62c}\u{6cc} \u{62c}\u{62f}\u{6cc}\u{62f}"

abbrev pub new_question_text : String
new_question_text = "\u{633}\u{624}\u{627}\u{644} \u{62c}\u{62f}\u{6cc}\u{62f}"

abbrev pub first_option_text : String
first_option_text = "\u{6af}\u{632}\u{6cc}\u{646}\u{647} ۱"

abbrev pub second_option_text : String
second_option_text = "\u{6af}\u{632}\u{6cc}\u{646}\u{647} ۲"

abbrev pub option_prefix_text : String
option_prefix_text = "\u{6af}\u{632}\u{6cc}\u{646}\u{647} "

abbrev pub new_word_cloud_text : String
new_word_cloud_text =
    "\u{627}\u{6cc}\u{646} \u{645}\u{648}\u{636}\u{648}\u{639} \u{631}\u{627} \u{628}\u{627} \u{686}\u{647} \u{648}\u{627}\u{698}\u{647}\u{200c}\u{647}\u{627}\u{6cc}\u{6cc} \u{62a}\u{648}\u{635}\u{6cc}\u{641} \u{645}\u{6cc}\u{200c}\u{6a9}\u{646}\u{6cc}\u{62f}\u{61f}"

abbrev pub new_content_text : String
new_content_text =
    "\u{627}\u{633}\u{644}\u{627}\u{6cc}\u{62f} \u{645}\u{62d}\u{62a}\u{648}\u{627}\u{6cc}\u{6cc} \u{62c}\u{62f}\u{6cc}\u{62f}"

abbrev pub background_color_invalid_text : String
background_color_invalid_text =
    "\u{631}\u{646}\u{6af} \u{67e}\u{633}\u{200c}\u{632}\u{645}\u{6cc}\u{646}\u{647} \u{645}\u{639}\u{62a}\u{628}\u{631} \u{646}\u{6cc}\u{633}\u{62a}."

abbrev pub text_color_invalid_text : String
text_color_invalid_text =
    "\u{631}\u{646}\u{6af} \u{645}\u{62a}\u{646} \u{645}\u{639}\u{62a}\u{628}\u{631} \u{646}\u{6cc}\u{633}\u{62a}."

abbrev pub background_image_too_long_text : String
background_image_too_long_text =
    "\u{622}\u{62f}\u{631}\u{633} \u{62a}\u{635}\u{648}\u{6cc}\u{631} \u{67e}\u{633}\u{200c}\u{632}\u{645}\u{6cc}\u{646}\u{647} \u{628}\u{6cc}\u{634} \u{627}\u{632} \u{62d}\u{62f} \u{637}\u{648}\u{644}\u{627}\u{646}\u{6cc} \u{627}\u{633}\u{62a}."

abbrev pub background_image_invalid_text : String
background_image_invalid_text =
    "\u{622}\u{62f}\u{631}\u{633} \u{62a}\u{635}\u{648}\u{6cc}\u{631} \u{628}\u{627}\u{6cc}\u{62f} \u{628}\u{627} http:// \u{6cc}\u{627} https:// \u{634}\u{631}\u{648}\u{639} \u{634}\u{648}\u{62f}."

abbrev pub music_url_too_long_text : String
music_url_too_long_text =
    "\u{622}\u{62f}\u{631}\u{633} \u{641}\u{627}\u{6cc}\u{644} \u{635}\u{648}\u{62a}\u{6cc} \u{628}\u{6cc}\u{634} \u{627}\u{632} \u{62d}\u{62f} \u{637}\u{648}\u{644}\u{627}\u{646}\u{6cc} \u{627}\u{633}\u{62a}."

abbrev pub music_url_invalid_text : String
music_url_invalid_text =
    "\u{622}\u{62f}\u{631}\u{633} \u{641}\u{627}\u{6cc}\u{644} \u{635}\u{648}\u{62a}\u{6cc} \u{628}\u{627}\u{6cc}\u{62f} \u{628}\u{627} http:// \u{6cc}\u{627} https:// \u{634}\u{631}\u{648}\u{639} \u{634}\u{648}\u{62f} \u{648} \u{6cc}\u{6a9} \u{645}\u{6cc}\u{632}\u{628}\u{627}\u{646} \u{645}\u{639}\u{62a}\u{628}\u{631} \u{62f}\u{627}\u{634}\u{62a}\u{647} \u{628}\u{627}\u{634}\u{62f}."
