-- ===== src/Pager/Next.antt =====
-- What the button for the next page leads to.
use alike.Base.{ℕ, ◌+◌, ◌<◌, ◌≡◌, arith, ltb, if◌then◌else◌}
use alike.Pager.{link, plain, next_target, next_button}

-- The button leads to the page after this one, but on the last page but one, and on the last, it
-- leads nowhere: the last page is not reached by it.
pub next_button_lem :
    (offset pages : ℕ)
    → offset < pages
    → next_button offset pages ≡ (
        if ltb (offset + 2) pages
        then link "outline-primary" (offset + 1) "Next" "</a>"
        else plain " >Next</a>")
unfolding next_button next_target
next_button_lem offset pages h = ground arith
