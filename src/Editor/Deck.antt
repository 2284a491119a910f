-- ===== src/Editor/Deck.antt =====
-- The slides of a presentation as a list: `replacePresentationSlide`, `appendPresentationSlide`,
-- `removePresentationSlide` and `activeSlideIdAfterDeletion` of
-- apps/web/src/modules/presentations/editor/model/slideMutations.ts, and `reorderEditorSlides` and
-- `presentationAfterReorder` of slideListModel.ts there.
pub mod Laws
use pro_slides_go.Base.{
  if◌then◌else◌, ℕ, suc, ◌-◌, min, String, Bool, false, not, ◌&&◌, ◌||◌, Option, none, some, List,
  [], ◌∷◌, ◌++◌, map, length, find_index, map_from, keep, any, get_elem?, insert_at, remove_at, leb,
  ◌==◌, str_eq, ℤ, pos,
}
use pro_slides_go.Js.Text.{is_empty}
use pro_slides_go.Editor.Model.{EditorSlide, EditorPresentation}

abbrev pub same_id : String → EditorSlide → Bool
same_id id slide = str_eq slide.slide_id id

abbrev pub has_id : String → List EditorSlide → Bool
has_id id slides = any (same_id id) slides

abbrev renewed : EditorPresentation → List EditorSlide → EditorPresentation
renewed p slides = record p { revision = suc p.revision; slides = slides }

unfoldable pub replace_presentation_slide : EditorPresentation → EditorSlide → EditorPresentation
replace_presentation_slide p updated =
    renewed p (map (λ slide. if same_id updated.slide_id slide then updated else slide) p.slides)

unfoldable pub append_presentation_slide : EditorPresentation → EditorSlide → EditorPresentation
append_presentation_slide p created = renewed p (p.slides ++ created ∷ [])

abbrev pub without : String → List EditorSlide → List EditorSlide
without id slides = keep (λ slide. not (same_id id slide)) slides

unfoldable pub remove_presentation_slide : EditorPresentation → String → EditorPresentation
remove_presentation_slide p deleted = renewed p (without deleted p.slides)

abbrev slide_id_of : Option EditorSlide → Option String
slide_id_of none = none
slide_id_of (some slide) = some slide.slide_id

-- `activeSlideId && activeSlideId !== deletedSlideId`.
abbrev pub is_another : Option String → String → Bool
is_another none deleted = false
is_another (some id) deleted = not (is_empty id) && not (str_eq id deleted)

-- With no slide left, the index is -1 in the source and 0 here, and neither has a slide.
abbrev pub neighbour : List EditorSlide → Option ℕ → Option String → Option String
neighbour remaining none active = active
neighbour remaining (some i) active =
    slide_id_of (get_elem? remaining (min i (length remaining - 1)))

unfoldable pub active_slide_id_after_deletion :
    List EditorSlide → String → Option String → Option String
active_slide_id_after_deletion slides deleted active =
    if is_another active deleted
    then active
    else neighbour (without deleted slides) (find_index (same_id deleted) slides) active

abbrev pub at_order : ℕ → EditorSlide → EditorSlide
at_order order slide = record slide { order = order }

-- The indices of the source may be negative.
unfoldable pub reorder_editor_slides : List EditorSlide → ℤ → ℤ → List EditorSlide
reorder_editor_slides slides (pos source) (pos destination) =
    if leb (length slides) source || (leb (length slides) destination || source == destination)
    then slides
    else elim (get_elem? slides source) [
      | none ↦ slides
      | some moved ↦ map_from 0 at_order (insert_at destination moved (remove_at source slides))
    ]
reorder_editor_slides slides _ _ = slides

abbrev pub reordered : ℕ → EditorSlide → EditorSlide
reordered order slide = record slide { order = order; revision = suc slide.revision }

unfoldable pub presentation_after_reorder :
    EditorPresentation → List EditorSlide → EditorPresentation
presentation_after_reorder p slides = renewed p (map_from 0 reordered slides)
