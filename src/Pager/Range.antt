-- ===== src/Pager/Range.antt =====
-- Where the buttons lead.
use alike.Base.{ℕ, ◌<◌, Bool, false, ◌==◌}
use alike.Pager.{Button, link, plain}

-- a button leads below `pages`, or nowhere
abbrev pub LeadsBelow : ℕ → Button → Type 0
LeadsBelow pages (link style id label close) = id < pages
LeadsBelow pages (plain label) = Unit

abbrev pub is_current : ℕ → Button → Bool
is_current offset (link style id label close) = id == offset
is_current offset (plain label) = false
