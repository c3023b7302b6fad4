-- ===== src/Schedules/Backup/Loaded/Again.antt =====
-- Saving a schedule that was loaded, and loading it again.
use alike.Base.{
  String, List, [], ◌∷◌, map, Bool, true, false, ◌&&◌, ◌||◌, ◌≡◌, refl, sym, ◌∙◌, ap, arith, ◌==◌,
  if◌then◌else◌, length, str_eq, eq_iff, any, All, All-mono, Bool-cases, inl, inr,
}
use alike.Schedules.Backup.{checked_ids, all_checked, volumes}
use alike.Schedules.Backup.Loaded.{includes, disk_item, loaded}

-- the check box of a disk
abbrev box : List String → String → Bool
box vs id = (disk_item vs id).1

box-nil : (id : String) → box [] id ≡ true
unfolding disk_item
box-nil id = refl

box-cons : (vs : List String) (id : String) → (length vs == 0) ≡ false → box vs id ≡ includes vs id
unfolding disk_item
box-cons vs id some_volumes = ground arith

checked_ids-disk_item :
    (vs : List String) (d : String) (ds : List String)
    → checked_ids (map (disk_item vs) (d ∷ ds)) ≡ (
        if box vs d
        then d ∷ checked_ids (map (disk_item vs) ds)
        else checked_ids (map (disk_item vs) ds))
unfolding checked_ids disk_item
checked_ids-disk_item vs d ds = refl

includes-cons :
    (d id : String) (l : List String) → includes (d ∷ l) id ≡ (str_eq d id || includes l id)
unfolding includes
includes-cons d id l = refl

no_disks :
    (vs : List String) (id : String)
    → includes (checked_ids (map (disk_item vs) [])) id ≡ (box vs id && includes [] id)
unfolding includes checked_ids
no_disks vs id = ground arith

same_box : (vs : List String) (d id : String) → str_eq d id ≡ true → box vs d ≡ box vs id
same_box vs d id e = ap (λ x. box vs x) ((eq_iff d id).0 e)

-- the ids that are saved are those of the disks that are checked
includes-checked_ids :
    (vs disks : List String) (id : String)
    → includes (checked_ids (map (disk_item vs) disks)) id ≡ (box vs id && includes disks id)
includes-checked_ids vs [] id = no_disks vs id
includes-checked_ids vs (d ∷ ds) id =
    let rest = checked_ids (map (disk_item vs) ds) in
    rw (checked_ids-disk_item vs d ds) (
      ground (
        arith,
        includes-checked_ids vs ds id,
        includes-cons d id rest,
        includes-cons d id ds,
        same_box vs d id,
      ))

includes-itself : (disks : List String) → All (λ d. includes disks d ≡ true) disks
includes-itself [] = tt
includes-itself (d ∷ ds) = (
  ground (arith, includes-cons d d ds, eq_iff d d),
  All-mono ds (λ id h. ground (arith, includes-cons d id ds)) (includes-itself ds),
)

same_item :
    (vs ws : List String) (d : String) → box ws d ≡ box vs d → disk_item ws d ≡ disk_item vs d
unfolding disk_item
same_item vs ws d h = ap (λ b. (d, b)) h

-- disks that are checked alike
same_items :
    (vs ws disks : List String)
    → All (λ d. box ws d ≡ box vs d) disks
    → map (disk_item ws) disks ≡ map (disk_item vs) disks
same_items vs ws [] h = refl
same_items vs ws (d ∷ ds) (hd, h) = rw (same_item vs ws d hd, same_items vs ws ds h) refl

every_box :
    (vs disks : List String)
    → all_checked (map (disk_item vs) disks) ≡ true
    → All (λ d. box vs d ≡ true) disks
every_box vs [] h = tt
every_box vs (d ∷ ds) h = (ground arith, every_box vs ds (ground arith))

some_ids :
    (vs disks : List String)
    → any (λ d. d.1) (map (disk_item vs) disks) ≡ true
    → (length (checked_ids (map (disk_item vs) disks)) == 0) ≡ false
unfolding checked_ids
some_ids vs [] h = absurd (ground arith)
some_ids vs (d ∷ ds) h = ground (arith, some_ids vs ds)

-- A system of which at least one disk is checked, saved and loaded again, has the same disks checked.
pub loaded-volumes :
    (uuid : String) (disks vs : List String)
    → any (λ d. d.1) (loaded uuid disks vs).disks ≡ true
    → loaded uuid disks (volumes (loaded uuid disks vs)) ≡ loaded uuid disks vs
unfolding loaded volumes
loaded-volumes uuid disks vs some_checked =
    ap (λ l. record { uuid = uuid; disks = l })
      (elim (Bool-cases (all_checked (map (disk_item vs) disks))) [
        | inl every ↦ rw every (
            same_items vs [] disks
              (All-mono disks (λ d h. box-nil d ∙ sym h) (every_box vs disks every)))
        | inr other ↦ rw other (
            same_items vs (checked_ids (map (disk_item vs) disks)) disks (
              All-mono disks
                (λ d h.
                  box-cons (checked_ids (map (disk_item vs) disks)) d
                    (some_ids vs disks some_checked)
                  ∙ includes-checked_ids vs disks d
                  ∙ ground arith)
                (includes-itself disks)))
      ])
