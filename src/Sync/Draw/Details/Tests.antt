-- ===== src/Sync/Draw/Details/Tests.antt =====
-- The log of a job that is over, visited again after another.
use alike.Base.{List, [], ◌∷◌, true, false, ◌≡◌, refl, All, show, none, pos}
use alike.Status.Value.{num, to_number}
use alike.Sync.{Settings}
use alike.Sync.Draw.{Answer, at_least}
use alike.Sync.Draw.Details.{key, Console, Visit, receive, visits}
use alike.Sync.Draw.Details.Kept.{IsOther, visits-once}

abbrev plain_texts : Settings
plain_texts = record { get_date = show; get_text = λ t. t; show_trace = true }

abbrev over : Answer
over = record {
  result = "success";
  message = "";
  job_id = "7";
  type = 10;
  has_timestamp = true;
  job = record { status = num (pos 6); vms_in_job = []; system_entries = []; vm_entries = [] };
}

abbrev looking : Console
looking = record {
  window = record {
    is_viewing = true;
    job_id = none;
    page = record { tables = []; rows = [] };
    progress = [];
  };
  kept = [];
  requests = [];
}

abbrev again : List Visit
again =
    record {
      site = "0";
      id = "8";
      is_click = true;
      reply = record over { job_id = "8" };
      is_viewing = false;
    }
    ∷ record { site = "0"; id = "7"; is_click = true; reply = over; is_viewing = true }
    ∷ []

is_over : at_least 4 over.job.status ≡ true
unfolding at_least to_number
is_over = refl

visits-once_example :
    All
      (IsOther (key "0" "7"))
      (visits plain_texts plain_texts again
        (receive plain_texts plain_texts "0" over looking)).requests
visits-once_example =
    visits-once plain_texts plain_texts "0" over looking again refl refl refl is_over
