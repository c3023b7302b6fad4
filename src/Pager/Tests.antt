-- ===== src/Pager/Tests.antt =====
-- Tests of the navigation, and the theorems at pages of twenty-five jobs.
use alike.Base.{ℕ, ◌≡◌, refl}
use alike.Pager.{end_result, num_pages}
use alike.Pager.Rows.{badge_of, is_active}
use alike.Status.Value.{str}

abbrev jobs : ℕ
jobs = 312

num_pages_test : num_pages 25 jobs ≡ 13
unfolding num_pages
num_pages_test = refl

end_result_test : end_result 12 25 jobs ≡ 312
unfolding end_result
end_result_test = refl

-- the service sends a status as a text
running_badge_test : badge_of (str "3") ≡ "bg-active"
unfolding badge_of is_active alike.Jobs.status_is alike.Base.lookup alike.Status.Value.equals_number
    alike.Status.Value.to_number alike.Base.parse_decimal
running_badge_test = refl
