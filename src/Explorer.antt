-- ===== src/Explorer.antt =====
-- webui/js/a3.js and webui/js/events.js: the page that browses the backups, `drawBackupExplorer` and
-- `browseFlr`, and the handlers of its folders and files. A path is its char codes.
pub mod Parts
pub mod Rows
pub mod Trail
mod Tests
use alike.Base.{
  ℕ, zero, suc, ◌+◌, ◌≤◌, String, List, [], ◌∷◌, ◌++◌, map, Bool, true, false, not, ◌&&◌, ◌||◌,
  Option, some, none, ◌==◌, leb, if◌then◌else◌, length, filter, codes,
}
use alike.Net.Split.{split}

abbrev pub slash : ℕ
slash = b'/'

abbrev pub is_nil : List ℕ → Bool
is_nil [] = true
is_nil (c ∷ s) = false

-- `relpath.endsWith('/')`
unfoldable pub ends_with_slash : List ℕ → Bool
ends_with_slash [] = false
ends_with_slash (c ∷ s) = let rest = ends_with_slash s in if is_nil s then c == slash else rest

unfoldable pub closed : List ℕ → List ℕ
unfolding ends_with_slash
closed path = if ends_with_slash path then path else path ++ slash ∷ []

-- The rows and the parts of the path put their texts as they are into attributes with single quotes:
-- what is read of one ends before the first of its quotes, and is then changed by jQuery and
-- the browser, which decodes its character references. What stands behind that quote is taken to add no attribute of a name that is read.
unfoldable pub up_to_quote : List ℕ → List ℕ
up_to_quote [] = []
up_to_quote (c ∷ s) = let rest = up_to_quote s in if c == 39 then [] else c ∷ rest

unfoldable pub attribute : (List ℕ → List ℕ) → List ℕ → List ℕ
unfolding up_to_quote
attribute decode t = decode (up_to_quote t)

unfoldable pub last_is : ℕ → List ℕ → Bool
last_is d [] = false
last_is d (c ∷ s) = let rest = last_is d s in if is_nil s then c == d else rest

-- `/^(?:\{[\w\W]*\}|\[[\w\W]*\])$/`
unfoldable pub is_braced : List ℕ → Bool
unfolding last_is
is_braced [] = false
is_braced (c ∷ s) = (c == b'{' && last_is b'}' s) || (c == b'[' && last_is b']' s)

-- jQuery's `data`, added to a text: it reads such a text as JSON, if it is, and `json` is the text of
-- the value; numbers, `true` and `null` are the same text again
unfoldable pub data_text : (List ℕ → Option (List ℕ)) → List ℕ → List ℕ
unfolding is_braced
data_text json t = if is_braced t then (elim (json t) [ none ↦ t | some u ↦ u ]) else t

-- `.flr_folder`: the path that is browsed, from the attributes
unfoldable pub flr_folder : List ℕ → List ℕ → List ℕ
unfolding closed
flr_folder path name = closed path ++ name

-- `.flr_file`: the path that is downloaded, from the attributes; a path is no number
unfoldable pub flr_file : (List ℕ → Option (List ℕ)) → List ℕ → List ℕ → List ℕ
unfolding data_text
flr_file json path name = data_text json path ++ data_text json name

-- `replace(/^\/|\/$/g, '')` at either end
unfoldable pub without_last : List ℕ → List ℕ
without_last [] = []
without_last (c ∷ s) =
    let rest = without_last s in if is_nil s && (c == slash) then [] else c ∷ rest

unfoldable pub without_ends : List ℕ → List ℕ
unfolding without_last
without_ends [] = []
without_ends (c ∷ s) = if c == slash then without_last s else without_last (c ∷ s)

-- `replace(/^\/+|\/+$/g, '')` at either end
unfoldable pub drop_first : List ℕ → List ℕ
drop_first [] = []
drop_first (c ∷ s) = let rest = drop_first s in if c == slash then rest else c ∷ s

unfoldable pub drop_last : List ℕ → List ℕ
drop_last [] = []
drop_last (c ∷ s) = let rest = drop_last s in if is_nil rest && (c == slash) then [] else c ∷ rest

abbrev is_digit : ℕ → Bool
is_digit c = leb b'0' c && leb c b'9'

-- `replace(/^[\d]+_/, '')`; the text itself if it does not begin so
unfoldable pub after_digits : List ℕ → Option (List ℕ)
after_digits [] = none
after_digits (c ∷ s) =
    let rest = after_digits s in if is_digit c then rest else if c == b'_' then some s else none

unfoldable pub without_id : List ℕ → List ℕ
unfolding after_digits
without_id [] = []
without_id (c ∷ s) =
    if is_digit c then elim (after_digits s) [ none ↦ c ∷ s | some rest ↦ rest ] else c ∷ s

-- a part of a path that can be browsed: `data-path`, `data-name` and the text that is shown
pub record Folder : Type 0 where
  pub path : List ℕ
  pub name : List ℕ
  pub label : List ℕ

-- the parts of the path above the list; `builder` holds the parts before, without separators
unfoldable pub crumbs_from : ℕ → List ℕ → List (List ℕ) → List Folder
unfolding drop_first drop_last without_id
crumbs_from i builder [] = []
crumbs_from i builder (val ∷ vals) =
    let skipped = crumbs_from (suc i) builder vals in
    let rest = crumbs_from (suc i) (builder ++ val) vals in
    if is_nil val
    then skipped
    else record {
      path = builder ++ slash ∷ [];
      name = drop_last (drop_first val) ++ slash ∷ [];
      label = (if i == 1 then without_id val else val) ++ slash ∷ [];
    }
      ∷ rest

unfoldable pub same_text : List ℕ → List ℕ → Bool
same_text [] [] = true
same_text [] (d ∷ t) = false
same_text (c ∷ s) [] = false
same_text (c ∷ s) (d ∷ t) = c == d && same_text s t

-- two slashes are what the first part of the path leads to
unfoldable pub shown_path : List ℕ → List ℕ
unfolding same_text
shown_path relpath = if same_text relpath (slash ∷ slash ∷ []) then slash ∷ [] else relpath

unfoldable pub crumbs : List ℕ → List Folder
unfolding crumbs_from shown_path
crumbs relpath = crumbs_from 0 [] (split slash (shown_path relpath))

pub data Entry : Type 0 where
  dir file : List ℕ → Entry

pub data Row : Type 0 where
  dir_row : Folder → Row
  -- `data-path` and `data-name`
  file_row : List ℕ → List ℕ → Row

abbrev is_root : List ℕ → Bool
is_root relpath = same_text relpath (slash ∷ []) || is_nil relpath

-- the rows of the list; a file appends a slash to `relpath`
unfoldable pub rows : List ℕ → List Entry → List Row
unfolding closed without_ends without_id same_text
rows relpath [] = []
rows relpath (dir name ∷ entries) =
    let cname = without_ends name in
    dir_row record {
      path = relpath;
      name = cname ++ slash ∷ [];
      label = if is_root relpath then without_id cname else cname;
    }
    ∷ rows relpath entries
rows relpath (file name ∷ entries) =
    file_row (closed relpath) (without_ends name) ∷ rows (closed relpath) entries

-- the row that leads up
unfoldable pub up_row : List ℕ → Option Folder
unfolding same_text
up_row relpath =
    if is_root relpath || same_text relpath (codes "..")
    then none
    else some record { path = relpath; name = codes ".."; label = codes "..." }
