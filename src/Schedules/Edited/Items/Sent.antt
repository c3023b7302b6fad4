-- ===== src/Schedules/Edited/Items/Sent.antt =====
-- What is sent again of the systems of a replication and a restore that were loaded.
use alike.Base.{Bool, ℕ, String, List, [], ◌∷◌, map, Option, some, none, ◌≡◌, refl, ap}
use alike.Schedules.{Source}
use alike.Schedules.Edited.Items.{
  StoredTarget, printed, sr_of, edited_item, edit_rep_item, edit_rest_item, sources_of,
}

-- what is stored of a system, with the timestamp that a restore has
abbrev pub stored_source : (StoredTarget → Option ℕ) → StoredTarget → Source
stored_source ts v = record {
  uuid = v.uuid;
  dest_uuid = v.dest_host.uuid;
  sr = sr_of v;
  timestamp = ts v;
  network = printed v.network;
}

rep_sources :
    (l : List StoredTarget) → sources_of (map edit_rep_item l) ≡ map (stored_source (λ v. none)) l
unfolding sources_of edit_rep_item edited_item
rep_sources [] = refl
rep_sources (v ∷ l) = ap (λ r. stored_source (λ w. none) v ∷ r) (rep_sources l)

rest_sources :
    (local_time : ℕ → ℕ × ℕ) (local_day : ℕ → ℕ × ℕ × ℕ) (twelve : Bool) (locale_date : ℕ → String)
    (l : List StoredTarget)
    → sources_of (map (edit_rest_item local_time local_day twelve locale_date) l)
      ≡ map (stored_source (λ v. some v.timestamp)) l
unfolding sources_of edit_rest_item edited_item
rest_sources lt ld tw loc [] = refl
rest_sources lt ld tw loc (v ∷ l) =
    ap (λ r. stored_source (λ w. some w.timestamp) v ∷ r) (rest_sources lt ld tw loc l)
