-- ===== src/Schedules/Options/Loaded.antt =====
-- What is saved again of the options that were loaded.
use alike.Base.{
  ℕ, String, List, [], ◌∷◌, Bool, true, false, not, ◌&&◌, some, none, ◌≡◌, refl, arith, ◌==◌, ltb,
  if◌then◌else◌, any,
}
use alike.Schedules.{Form, rep_args, flag}
use alike.Schedules.Options.{
  Box, Processor, cbt, enhanced, qhb, is_cbt, is_qhb, RepPanel, sched_processor_rep, new_rep_panel,
  RepOptions, stored_processor, check_if, is_none_or_zero, edit_rep_options, native_click,
  populate_gfs_opts, rep_form,
}

-- the form of a replication that is edited, once the profiles have arrived
abbrev pub edited : RepOptions → List ℕ → RepPanel
edited o ids =
    let r : RepPanel = edit_rep_options o new_rep_panel in
    record r { gfs_profile = populate_gfs_opts ids o.gfs_profile r.gfs_profile }

checked_if : (b : Bool) (x : Box) → x.checked ≡ false → (check_if b x).checked ≡ b
checked_if true x h = refl
checked_if false x h = h

abbrev chosen : Processor → RepPanel
chosen p = sched_processor_rep p new_rep_panel

chosen_fields :
    (p : Processor)
    → ((chosen p).snap_replica.checked ≡ false)
      × ((chosen p).preserve_mac.checked ≡ false)
      × ((chosen p).enable_cache.checked ≡ false)
      × ((chosen p).boot_target ≡ false)
      × ((chosen p).processor ≡ p)
      × ((chosen p).use_gfs ≡ record { checked = false; disabled = is_cbt p })
unfolding sched_processor_rep new_rep_panel
chosen_fields cbt = (refl, refl, refl, refl, refl, refl)
chosen_fields enhanced = (refl, refl, refl, refl, refl, refl)
chosen_fields qhb = (refl, refl, refl, refl, refl, refl)

-- the click on a box that was just checked
clicked :
    (b z : Bool)
    → (if z
        then record { checked = false; disabled = b }
        else native_click (record { checked = true; disabled = b })).checked
      ≡ (b && not z)
unfolding native_click
clicked true true = refl
clicked true false = refl
clicked false true = refl
clicked false false = refl

edited_fields :
    (o : RepOptions) (ids : List ℕ)
    → any (λ i. i == o.gfs_profile) ids ≡ true
    → ((edited o ids).snap_replica.checked ≡ o.snapshot_target)
      × ((edited o ids).preserve_mac.checked ≡ o.restore)
      × ((edited o ids).enable_cache.checked ≡ is_none_or_zero o.force)
      × ((edited o ids).boot_target ≡ o.boot)
      × ((edited o ids).processor ≡ stored_processor o)
      × ((edited o ids).use_gfs.checked ≡ (is_cbt (stored_processor o) && not (o.gfs_profile == 0)))
      × ((edited o ids).gfs_profile ≡ o.gfs_profile)
unfolding edit_rep_options populate_gfs_opts
edited_fields o [] h = ground arith
edited_fields o (i ∷ ids) h =
    let p = stored_processor o in
    let known = chosen_fields p in
    (
      checked_if o.snapshot_target (chosen p).snap_replica known.0,
      checked_if o.restore (chosen p).preserve_mac known.1,
      checked_if (is_none_or_zero o.force) (chosen p).enable_cache known.2,
      rw known.3 (ground arith),
      known.4,
      rw known.5 (clicked (is_cbt p) (o.gfs_profile == 0)),
      rw h refl,
    )

stored_fields :
    (o : RepOptions)
    → (is_cbt (stored_processor o) ≡ o.do_cbt)
      × (is_qhb (stored_processor o) ≡ (not o.do_cbt && o.qhb))
unfolding stored_processor
stored_fields o = (ground arith, ground arith)

-- A replication that is edited and saved unchanged, after the profiles have arrived with its own
-- among them, is sent with the options that are stored: CBT, else Q-Hybrid, the snapshot, the
-- address, the cache if `force` is 0, and the boot. Its retention profile is sent only with CBT,
-- and otherwise lost; the method is always "on".
pub rep_args-edited :
    (id : String) (o : RepOptions) (ids : List ℕ) (f : Form)
    → any (λ i. i == o.gfs_profile) ids ≡ true
    → ((rep_args id (rep_form (edited o ids) f)).boot_target ≡ flag o.boot)
      × ((rep_args id (rep_form (edited o ids) f)).replication
          ≡ some record {
            method = "on";
            delete_backup = 0;
            snap_replica = flag o.snapshot_target;
            preserve_mac = flag o.restore;
            enable_cache = flag (is_none_or_zero o.force);
            do_cbt = flag o.do_cbt;
            qhb = flag (not o.do_cbt && o.qhb);
            monthday = f.sched_monthday;
            gfs =
                if (o.do_cbt && not (o.gfs_profile == 0)) && ltb 0 o.gfs_profile
                then some o.gfs_profile
                else none;
          })
unfolding rep_args rep_form flag
rep_args-edited id o ids f h =
    let e = edited_fields o ids h in
    let s = stored_fields o in rw (e.0, e.1, e.2, e.3, e.4, e.5, e.6, s.0, s.1) (refl, refl)
