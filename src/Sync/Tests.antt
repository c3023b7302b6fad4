-- ===== src/Sync/Tests.antt =====
-- The theorems at the log of a job with one system, of which one row is out of date.
use alike.Base.{[], ◌∷◌, true, false, some, ◌≡◌, refl, All, pos, show}
use alike.Status.Value.{equals_number, to_number, num, str}
use alike.Sync.{Settings, JobData, Row, Page, find_row, sync_joblog, sync_entries}
use alike.Sync.Draw.{Answer, drawn_page}
use alike.Sync.Draw.Systems.{any_active, sync_entries-drawn_page}
use alike.Sync.Settled.{IsSettled}
use alike.Sync.Shown.{tasks, sync_joblog-IsSettled, sync_joblog-sync_joblog}
use alike.Sync.Unique.{are_unique, sync_joblog-are_unique}

abbrev plain_texts : Settings
plain_texts = record { get_date = show; get_text = λ t. t; show_trace = true }

abbrev old_row : Row
old_row = record {
  id = "71";
  cls = "active_task";
  is_hidden = false;
  ts = some 100;
  date = "100";
  state_class = "";
  state = "Active";
  message = "Exporting disk 0";
}

abbrev page : Page
page = record { tables = "joblog-systems" ∷ "vmd_v1" ∷ []; rows = ("vmd_v1", old_row) ∷ [] }

abbrev answer : JobData
answer = record {
  status = str "2";
  vms_in_job = ("v1", "web", pos 0) ∷ [];
  system_entries =
      record { id = "70"; timestamp = 90; status = num (pos 0); description = "Job has old_row" }
      ∷ [];
  vm_entries =
      record {
        id = "v1";
        entries =
            record {
              id = "71";
              timestamp = 130;
              status = num (pos 0);
              description = "Exported disk 0";
            }
            ∷ record {
              id = "72";
              timestamp = 140;
              status = num (pos 3);
              description = "Exporting disk 1";
            }
            ∷ [];
      }
      ∷ [];
}

sync_joblog-IsSettled_example :
    All (IsSettled plain_texts (sync_joblog plain_texts answer page).0) (tasks answer)
    × (find_row "5" (sync_joblog plain_texts answer page).0.rows ≡ find_row "5" page.rows)
sync_joblog-IsSettled_example = sync_joblog-IsSettled plain_texts answer page "5" refl refl

sync_joblog-sync_joblog_example :
    (sync_joblog plain_texts answer (sync_joblog plain_texts answer page).0).0
    ≡ (sync_joblog plain_texts answer page).0
sync_joblog-sync_joblog_example = sync_joblog-sync_joblog plain_texts answer page refl

unique_page : are_unique page.rows ≡ true
unfolding find_row
unique_page = refl

sync_joblog-are_unique_example : are_unique (sync_joblog plain_texts answer page).0.rows ≡ true
sync_joblog-are_unique_example = sync_joblog-are_unique plain_texts answer page unique_page

abbrev shown_answer : Answer
shown_answer = record {
  result = "success";
  message = "";
  job_id = "9";
  type = 0;
  has_timestamp = true;
  job = answer;
}

idle : any_active answer.system_entries ≡ false
unfolding equals_number to_number
idle = refl

sync_entries-drawn_page_example :
    sync_entries plain_texts false "joblog-systems" answer.system_entries
      (drawn_page plain_texts shown_answer)
    ≡ drawn_page plain_texts shown_answer
sync_entries-drawn_page_example =
    sync_entries-drawn_page plain_texts plain_texts shown_answer refl idle
