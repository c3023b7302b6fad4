-- ===== src/Gfs/Loaded.antt =====
-- The form of a profile that is loaded.
use alike.Base.{
  ℕ, String, List, [], ◌∷◌, Bool, false, ◌||◌, ◌≡◌, refl, ap, ◌∙◌, arith, ◌==◌, if◌then◌else◌, any,
  show, str_eq,
}
use alike.Gfs.{
  GfsForm, Instance, Profile, add_instance, add_instances, load_profile, populate_gfs_edit,
}

-- the versions of the last of the instances that count, as a text
abbrev pub versions_of : (ℕ → Bool) → String → List Instance → String
versions_of counts first [] = first
versions_of counts first (p ∷ ps) =
    versions_of counts (if counts p.policy then show p.versions else first) ps

or_assoc : (a b c : Bool) → ((a || b) || c) ≡ (a || (b || c))
or_assoc a b c = ground arith

module _ (select : String → String → String) where
  add_instance_lem :
      (p : Instance) (f : GfsForm)
      → ((add_instance select p f).dailies ≡ (if p.policy == 1 then show p.versions else f.dailies))
        × ((add_instance select p f).weeklies
            ≡ (if p.policy == 2 then show p.versions else f.weeklies))
        × ((add_instance select p f).monthlies
            ≡ (if p.policy == 3 || p.policy == 4 then show p.versions else f.monthlies))
        × ((add_instance select p f).yearlies
            ≡ (if p.policy == 5 then show p.versions else f.yearlies))
        × ((add_instance select p f).strict ≡ (f.strict || (p.policy == 4)))
        × ((add_instance select p f).gfsid ≡ f.gfsid)
        × ((add_instance select p f).name ≡ f.name)
  unfolding add_instance
  add_instance_lem p f = (
    ground arith,
    ground arith,
    ground arith,
    ground arith,
    ground arith,
    ground arith,
    ground arith,
  )

  add_instances_lem :
      (ps : List Instance) (f : GfsForm)
      → ((add_instances select ps f).dailies ≡ versions_of (λ n. n == 1) f.dailies ps)
        × ((add_instances select ps f).weeklies ≡ versions_of (λ n. n == 2) f.weeklies ps)
        × ((add_instances select ps f).monthlies
            ≡ versions_of (λ n. n == 3 || n == 4) f.monthlies ps)
        × ((add_instances select ps f).yearlies ≡ versions_of (λ n. n == 5) f.yearlies ps)
        × ((add_instances select ps f).strict ≡ (f.strict || any (λ p. p.policy == 4) ps))
        × ((add_instances select ps f).gfsid ≡ f.gfsid)
        × ((add_instances select ps f).name ≡ f.name)
  unfolding add_instances add_instance
  add_instances_lem [] f = (refl, refl, refl, refl, ground arith, refl, refl)
  add_instances_lem (p ∷ ps) f =
      let (d, w, m, y, s, i, n) = add_instances_lem ps (add_instance select p f) in
      let (d', w', m', y', s', i', n') = add_instance_lem p f in
      (
        d ∙ ap (λ x. versions_of (λ n. n == 1) x ps) d',
        w ∙ ap (λ x. versions_of (λ n. n == 2) x ps) w',
        m ∙ ap (λ x. versions_of (λ n. n == 3 || n == 4) x ps) m',
        y ∙ ap (λ x. versions_of (λ n. n == 5) x ps) y',
        s ∙ ap (λ x. x || any (λ p. p.policy == 4) ps) s' ∙ or_assoc f.strict (p.policy == 4) _,
        i ∙ i',
        n ∙ n',
      )

load_profile_lem :
    (select : String → String → String) (d : Profile) (f : GfsForm)
    → ((load_profile select d f).dailies ≡ versions_of (λ n. n == 1) "0" d.instances)
      × ((load_profile select d f).weeklies ≡ versions_of (λ n. n == 2) "0" d.instances)
      × ((load_profile select d f).monthlies ≡ versions_of (λ n. n == 3 || n == 4) "0" d.instances)
      × ((load_profile select d f).yearlies ≡ versions_of (λ n. n == 5) "0" d.instances)
      × ((load_profile select d f).strict ≡ any (λ p. p.policy == 4) d.instances)
      × ((load_profile select d f).gfsid ≡ show d.gfs_id)
      × ((load_profile select d f).name ≡ d.name)
unfolding load_profile
load_profile_lem select d f = add_instances_lem select d.instances _

-- An answer that is no error fills the form: the numbers of days, weeks, months and years are those
-- of the last instance of their policies, and 0 where there is none; months are those of policies
-- 3 and 4, and the profile is strict exactly if it has an instance of policy 4. Its id and name are
-- the profile's, whatever the form had.
pub populate_gfs_edit_lem :
    (select : String → String → String) (result message : String) (d : Profile) (f : GfsForm)
    → str_eq result "error" ≡ false
    → ((populate_gfs_edit select result message d f).0.dailies
        ≡ versions_of (λ n. n == 1) "0" d.instances)
      × ((populate_gfs_edit select result message d f).0.weeklies
          ≡ versions_of (λ n. n == 2) "0" d.instances)
      × ((populate_gfs_edit select result message d f).0.monthlies
          ≡ versions_of (λ n. n == 3 || n == 4) "0" d.instances)
      × ((populate_gfs_edit select result message d f).0.yearlies
          ≡ versions_of (λ n. n == 5) "0" d.instances)
      × ((populate_gfs_edit select result message d f).0.strict
          ≡ any (λ p. p.policy == 4) d.instances)
      × ((populate_gfs_edit select result message d f).0.gfsid ≡ show d.gfs_id)
      × ((populate_gfs_edit select result message d f).0.name ≡ d.name)
unfolding populate_gfs_edit
populate_gfs_edit_lem select result message d f fine =
    rw (fine, populate_gfs_edit) (load_profile_lem select d f)
