-- ===== src/Editor/Registry/Wording.antt =====
-- The Persian texts of apps/web/src/modules/presentations/model/itemRegistry.ts, written by their
-- code points.
use pro_slides_go.Base.{String}

abbrev pub content_name : String
content_name = "\u{645}\u{62d}\u{62a}\u{648}\u{627}"

abbrev pub untitled_content_text : String
untitled_content_text =
    "\u{627}\u{633}\u{644}\u{627}\u{6cc}\u{62f} \u{645}\u{62d}\u{62a}\u{648}\u{627}"

abbrev pub choice_name : String
choice_name = "choice"

abbrev pub untitled_choice_text : String
untitled_choice_text =
    "\u{641}\u{639}\u{627}\u{644}\u{6cc}\u{62a} \u{627}\u{646}\u{62a}\u{62e}\u{627}\u{628}\u{6cc}"

abbrev pub poll_name : String
poll_name = "\u{646}\u{638}\u{631}\u{633}\u{646}\u{62c}\u{6cc}"

abbrev pub multiple_name : String
multiple_name = "\u{686}\u{646}\u{62f}\u{6af}\u{632}\u{6cc}\u{646}\u{647}\u{200c}\u{627}\u{6cc}"

abbrev pub single_name : String
single_name = "\u{62a}\u{6a9}\u{200c}\u{6af}\u{632}\u{6cc}\u{646}\u{647}\u{200c}\u{627}\u{6cc}"

abbrev pub unknown_choice_text : String
unknown_choice_text =
    "\u{627}\u{646}\u{62a}\u{62e}\u{627}\u{628} \u{646}\u{648}\u{639} \u{641}\u{639}\u{627}\u{644}\u{6cc}\u{62a}"

abbrev pub leaderboard_without_points_text : String
leaderboard_without_points_text =
    "\u{631}\u{62a}\u{628}\u{647}\u{200c}\u{628}\u{646}\u{62f}\u{6cc} \u{6a9}\u{644}\u{6cc} \u{641}\u{642}\u{637} \u{67e}\u{633} \u{627}\u{632} \u{641}\u{639}\u{627}\u{644}\u{6cc}\u{62a} \u{627}\u{645}\u{62a}\u{6cc}\u{627}\u{632}\u{6cc} \u{642}\u{627}\u{628}\u{644} \u{646}\u{645}\u{627}\u{6cc}\u{634} \u{627}\u{633}\u{62a}."

abbrev pub result_behavior_text : String
result_behavior_text =
    "\u{646}\u{62a}\u{6cc}\u{62c}\u{647} \u{641}\u{639}\u{627}\u{644}\u{6cc}\u{62a}"

abbrev pub ranking_behavior_text : String
ranking_behavior_text =
    "\u{631}\u{62a}\u{628}\u{647}\u{200c}\u{628}\u{646}\u{62f}\u{6cc} \u{6a9}\u{644}\u{6cc}"

abbrev pub text_name : String
text_name = "\u{641}\u{639}\u{627}\u{644}\u{6cc}\u{62a} \u{645}\u{62a}\u{646}\u{6cc}"

abbrev pub word_cloud_name : String
word_cloud_name = "\u{627}\u{628}\u{631} \u{648}\u{627}\u{698}\u{647}"

abbrev pub leaderboard_after_cloud_text : String
leaderboard_after_cloud_text =
    "\u{627}\u{628}\u{631} \u{648}\u{627}\u{698}\u{647} \u{627}\u{645}\u{62a}\u{6cc}\u{627}\u{632}\u{6cc} \u{646}\u{6cc}\u{633}\u{62a} \u{648} \u{631}\u{62a}\u{628}\u{647}\u{200c}\u{628}\u{646}\u{62f}\u{6cc} \u{6a9}\u{644}\u{6cc} \u{67e}\u{633} \u{627}\u{632} \u{622}\u{646} \u{646}\u{645}\u{627}\u{6cc}\u{634} \u{62f}\u{627}\u{62f}\u{647} \u{646}\u{645}\u{6cc}\u{200c}\u{634}\u{648}\u{62f}."

abbrev pub cloud_behavior_text : String
cloud_behavior_text =
    "\u{627}\u{628}\u{631} \u{648}\u{627}\u{698}\u{647} \u{646}\u{62a}\u{6cc}\u{62c}\u{647}"

abbrev pub untitled_item_text : String
untitled_item_text =
    "\u{622}\u{6cc}\u{62a}\u{645} \u{628}\u{62f}\u{648}\u{646} \u{646}\u{648}\u{639}"

abbrev pub unknown_item_text : String
unknown_item_text = "\u{634}\u{646}\u{627}\u{62e}\u{62a}\u{647}\u{200c}\u{646}\u{634}\u{62f}\u{647}"

abbrev pub no_slides_text : String
no_slides_text =
    "\u{628}\u{631}\u{627}\u{6cc} \u{627}\u{62c}\u{631}\u{627} \u{62d}\u{62f}\u{627}\u{642}\u{644} \u{6cc}\u{6a9} \u{627}\u{633}\u{644}\u{627}\u{6cc}\u{62f} \u{627}\u{636}\u{627}\u{641}\u{647} \u{6a9}\u{646}\u{6cc}\u{62f}."

abbrev pub unknown_slide_text : String
unknown_slide_text =
    "\u{646}\u{648}\u{639} \u{6cc}\u{6a9}\u{6cc} \u{627}\u{632} \u{622}\u{6cc}\u{62a}\u{645}\u{200c}\u{647}\u{627}\u{6cc} \u{627}\u{631}\u{627}\u{626}\u{647} \u{634}\u{646}\u{627}\u{62e}\u{62a}\u{647}\u{200c}\u{634}\u{62f}\u{647} \u{646}\u{6cc}\u{633}\u{62a}."

abbrev pub poll_description : String
poll_description =
    "\u{627}\u{646}\u{62a}\u{62e}\u{627}\u{628} \u{628}\u{62f}\u{648}\u{646} \u{67e}\u{627}\u{633}\u{62e} \u{635}\u{62d}\u{6cc}\u{62d} \u{648} \u{627}\u{645}\u{62a}\u{6cc}\u{627}\u{632}\u{61b} \u{646}\u{62a}\u{6cc}\u{62c}\u{647} \u{628}\u{647}\u{200c}\u{635}\u{648}\u{631}\u{62a} \u{62a}\u{648}\u{632}\u{6cc}\u{639} \u{67e}\u{627}\u{633}\u{62e}\u{200c}\u{647}\u{627} \u{646}\u{645}\u{627}\u{6cc}\u{634} \u{62f}\u{627}\u{62f}\u{647} \u{645}\u{6cc}\u{200c}\u{634}\u{648}\u{62f}."

abbrev pub cloud_description : String
cloud_description =
    "\u{634}\u{631}\u{6a9}\u{62a}\u{200c}\u{6a9}\u{646}\u{646}\u{62f}\u{6af}\u{627}\u{646} \u{686}\u{646}\u{62f} \u{648}\u{627}\u{698}\u{647} \u{645}\u{6cc}\u{200c}\u{641}\u{631}\u{633}\u{62a}\u{646}\u{62f} \u{648} \u{646}\u{62a}\u{6cc}\u{62c}\u{647} \u{628}\u{631} \u{627}\u{633}\u{627}\u{633} \u{641}\u{631}\u{627}\u{648}\u{627}\u{646}\u{6cc} \u{648}\u{627}\u{698}\u{647}\u{200c}\u{647}\u{627} \u{634}\u{6a9}\u{644} \u{645}\u{6cc}\u{200c}\u{6af}\u{6cc}\u{631}\u{62f}."

abbrev pub single_description : String
single_description =
    "\u{6cc}\u{6a9} \u{67e}\u{627}\u{633}\u{62e} \u{635}\u{62d}\u{6cc}\u{62d}\u{61b} \u{646}\u{62a}\u{6cc}\u{62c}\u{647} \u{641}\u{639}\u{627}\u{644}\u{6cc}\u{62a} \u{67e}\u{633} \u{627}\u{632} \u{628}\u{633}\u{62a}\u{647}\u{200c}\u{634}\u{62f}\u{646} \u{646}\u{645}\u{627}\u{6cc}\u{634} \u{62f}\u{627}\u{62f}\u{647} \u{645}\u{6cc}\u{200c}\u{634}\u{648}\u{62f}."

abbrev pub multiple_description : String
multiple_description =
    "\u{686}\u{646}\u{62f} \u{67e}\u{627}\u{633}\u{62e} \u{635}\u{62d}\u{6cc}\u{62d}\u{61b} \u{646}\u{62a}\u{6cc}\u{62c}\u{647} \u{641}\u{639}\u{627}\u{644}\u{6cc}\u{62a} \u{67e}\u{633} \u{627}\u{632} \u{628}\u{633}\u{62a}\u{647}\u{200c}\u{634}\u{62f}\u{646} \u{646}\u{645}\u{627}\u{6cc}\u{634} \u{62f}\u{627}\u{62f}\u{647} \u{645}\u{6cc}\u{200c}\u{634}\u{648}\u{62f}."

abbrev pub content_slide_name : String
content_slide_name =
    "\u{627}\u{633}\u{644}\u{627}\u{6cc}\u{62f} \u{645}\u{62d}\u{62a}\u{648}\u{627}\u{6cc}\u{6cc}"

abbrev pub content_description : String
content_description =
    "\u{646}\u{645}\u{627}\u{6cc}\u{634} \u{645}\u{62a}\u{646} \u{648} \u{62a}\u{635}\u{648}\u{6cc}\u{631} \u{628}\u{62f}\u{648}\u{646} \u{62f}\u{631}\u{6cc}\u{627}\u{641}\u{62a} \u{67e}\u{627}\u{633}\u{62e}."
