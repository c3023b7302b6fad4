-- ===== src/Pager.antt =====
-- webui/js/a3.js, `drawJobsTable`: the navigation below the table of jobs. The service's `offset`,
-- `limit` and `total` are whole numbers, the offset a number of pages.
pub mod Range
pub mod Next
pub mod Rows
mod Tests
use alike.Base.{
  ℕ, zero, suc, ◌+◌, ◌-◌, ◌*◌, ◌/◌, String, List, [], ◌∷◌, ◌++◌, Bool, ◌&&◌, ltb, leb, ◌==◌,
  if◌then◌else◌, show, ◌<>◌,
}

-- a button that leads to a page, with its style, label and closing tag, and one that leads nowhere,
-- with the rest of its markup
pub data Button : Type 0 where
  link : String → ℕ → String → String → Button
  plain : String → Button

unfoldable pub button_text : Button → String
button_text (link style id label close) =
    "<button class='btn btn-"
    <> style
    <> " btn-sm go_jobs-search' data-id="
    <> show id
    <> ">"
    <> label
    <> close
button_text (plain rest) = "<button class='btn btn-outline-secondary btn-sm'" <> rest

abbrev page : String → ℕ → String → Button
page style id label = link style id label "</button>"

-- `Math.ceil(total / limit)`
unfoldable pub num_pages : ℕ → ℕ → ℕ
num_pages limit total = (total + limit - 1) / limit

unfoldable pub previous : ℕ → ℕ → ℕ → List Button
previous offset limit total =
    if ltb limit total && ltb 0 offset
    then page "outline-primary" (offset - 1) "Previous" ∷ []
    else if ltb limit total
    then plain ">Previous</button>" ∷ []
    else []

unfoldable pub first_page : ℕ → List Button
first_page offset =
    if ltb 1 offset then page "outline-primary" 0 "1" ∷ plain ">...</button>" ∷ [] else []

-- how many pages have a button
unfoldable pub box_limit : ℕ → ℕ
box_limit offset = if ltb 1 offset then 9 else 10

unfoldable pub start_pos : ℕ → ℕ → ℕ
unfolding box_limit
start_pos offset pages =
    if ltb pages (box_limit offset + offset) then pages - box_limit offset else offset

-- the loop from page `i` on, with `todo` rounds left
unfoldable pub page_buttons : ℕ → ℕ → ℕ → ℕ → List Button
page_buttons zero i offset pages = []
page_buttons (suc todo) i offset pages =
    let rest = page_buttons todo (i + 1) offset pages in
    if leb pages i
    then []
    else page (if i == offset then "primary" else "outline-primary") i (show (i + 1)) ∷ rest

unfoldable pub boxes : ℕ → ℕ → List Button
unfolding start_pos box_limit page_buttons
boxes offset pages =
    page_buttons (box_limit offset + offset - start_pos offset pages) (start_pos offset pages)
      offset pages

unfoldable pub last_page : ℕ → ℕ → List Button
unfolding box_limit
last_page offset pages =
    if ltb (box_limit offset) pages && ltb (box_limit offset + offset) pages
    then plain ">...</button>" ∷ link "outline-primary" (pages - 1) (show pages) "</a>" ∷ []
    else []

unfoldable pub next_target : ℕ → ℕ → ℕ
next_target offset pages = if leb pages (offset + 1) then offset else offset + 1

unfoldable pub next_button : ℕ → ℕ → Button
unfolding next_target
next_button offset pages =
    if ltb (next_target offset pages) (pages - 1)
    then link "outline-primary" (next_target offset pages) "Next" "</a>"
    else plain " >Next</a>"

unfoldable pub nav_buttons : ℕ → ℕ → ℕ → List Button
unfolding num_pages previous first_page boxes last_page next_button
nav_buttons offset limit total =
    let pages = num_pages limit total in
    previous offset limit total
    ++ first_page offset
    ++ (if ltb limit total
        then boxes offset pages ++ last_page offset pages ++ next_button offset pages ∷ []
        else [])

-- the last result that is shown
unfoldable pub end_result : ℕ → ℕ → ℕ → ℕ
end_result offset limit total =
    if ltb limit total
    then (if ltb total ((offset + 1) * limit) then total else (offset + 1) * limit)
    else total

unfoldable pub buttons_text : List Button → String
unfolding button_text
buttons_text [] = ""
buttons_text (b ∷ bs) = button_text b <> buttons_text bs

unfoldable pub search_nav : ℕ → ℕ → ℕ → String
unfolding nav_buttons end_result buttons_text
search_nav offset limit total =
    "<div style='text-align:center;'><div class='btn-group'>"
    <> buttons_text (nav_buttons offset limit total)
    <> "</div><br>Showing "
    <> show (offset * limit + 1)
    <> " -> "
    <> show (end_result offset limit total)
    <> " of "
    <> show total
    <> " results"
