-- ===== src/Schedules/Picking/Listed/Ready.antt =====
-- What the answers to "sources" leave in the lists.
use mathlib.Core.List.{
  Mem, Nodup, Nodup-cons, Nodup-append, map-append, mem-cons, mem-cons_self, mem-cons_of_mem,
  not-mem-nil,
}
use mathlib.Core.Bool.{Bool-set}
use mathlib.Core.Logic.Or
use mathlib.Core.List.{Mem-prop}
use mathlib.Core.Path.{subst}
use alike.Base.{
  ℕ, suc, ◌<◌, String, List, [], ◌∷◌, pos, int_lt, map, true, false, ◌≡◌, refl, ap, sym, arith,
  Bool-cases, inl, inr, any, str_eq, All, eq_iff,
}
use alike.Schedules.Picking.{Host, Page}
use alike.Schedules.Picking.Moved.{IsSorted}
use alike.Schedules.Picking.Back.{IsStrict, IsStrict-IsSorted}
use alike.Schedules.Picking.Kept.{system_place, host_place, hosts_of}
use alike.Schedules.Picking.Listed.{
  ListedSystem, ListedHost, source_items, source_hosts, show_trash, populate_backup_src,
  populate_sched_hosts,
}

module _ (text : String → String) where
  source_items-after :
      (j i : ℕ) (l : List ListedSystem)
      → j < i
      → All (λ y. int_lt (pos j) (system_place y) ≡ true) (source_items text i l)
  unfolding source_items
  source_items-after j i [] h = tt
  source_items-after j i (vm ∷ l) h = (ground arith, source_items-after j (suc i) l (omega arith))

  source_items-IsStrict :
      (i : ℕ) (l : List ListedSystem) → IsStrict system_place (source_items text i l)
  unfolding source_items IsStrict
  source_items-IsStrict i [] = tt
  source_items-IsStrict i (vm ∷ l) =
      (source_items-after i (suc i) l (omega arith), source_items-IsStrict (suc i) l)

  source_hosts-after :
      (target : List Host) (j i : ℕ) (l : List ListedHost)
      → j < i
      → All (λ y. int_lt (pos j) (host_place y) ≡ true) (source_hosts text target i l)
  unfolding source_hosts
  source_hosts-after target j i [] h = tt
  source_hosts-after target j i (x ∷ l) h =
      let rest = source_hosts-after target j (suc i) l (omega arith) in
      elim (Bool-cases (any (λ t. str_eq t.uuid x.uuid) target)) [
        | inl e ↦ rw e rest
        | inr e ↦ rw e (ground arith, rest)
      ]

  source_hosts-IsStrict :
      (target : List Host) (i : ℕ) (l : List ListedHost)
      → IsStrict host_place (source_hosts text target i l)
  unfolding source_hosts IsStrict
  source_hosts-IsStrict target i [] = tt
  source_hosts-IsStrict target i (x ∷ l) =
      let rest = source_hosts-IsStrict target (suc i) l in
      elim (Bool-cases (any (λ t. str_eq t.uuid x.uuid) target)) [
        | inl e ↦ rw e rest
        | inr e ↦ rw e (source_hosts-after target i (suc i) l (omega arith), rest)
      ]

  -- the hosts listed were in the answer
  source_hosts-Mem :
      (target : List Host) (i : ℕ) (l : List ListedHost) (u : String)
      → Mem u (map (λ h. h.uuid) (source_hosts text target i l))
      → Mem u (map (λ h. h.uuid) l)
  unfolding source_hosts
  source_hosts-Mem target i [] u = λ m. m
  source_hosts-Mem target i (x ∷ l) u =
      let rest = source_hosts-Mem target (suc i) l u in
      elim (Bool-cases (any (λ t. str_eq t.uuid x.uuid) target)) [
        | inl e ↦ rw e (λ m. mem-cons_of_mem x.uuid (rest m))
        | inr e ↦ rw e λ m.
            Or.elim Mem-prop (mem-cons.0 m)
              (λ here. subst (λ v. Mem v (x.uuid ∷ map (λ h. h.uuid) l)) (sym here) mem-cons_self)
              (λ k. mem-cons_of_mem x.uuid (rest k))
      ]

  source_hosts-Nodup :
      (target : List Host) (i : ℕ) (l : List ListedHost)
      → Nodup (map (λ h. h.uuid) l)
      → Nodup (map (λ h. h.uuid) (source_hosts text target i l))
  unfolding source_hosts
  source_hosts-Nodup target i [] n = n
  source_hosts-Nodup target i (x ∷ l) n =
      let k = Nodup-cons.0 n in
      let rest = source_hosts-Nodup target (suc i) l k.1 in
      elim (Bool-cases (any (λ t. str_eq t.uuid x.uuid) target)) [
        | inl e ↦ rw e rest
        | inr e ↦ rw e (Nodup-cons.1 (λ m. k.0 (source_hosts-Mem target (suc i) l x.uuid m), rest))
      ]

  -- the hosts listed are not chosen
  source_hosts-others :
      (target : List Host) (i : ℕ) (l : List ListedHost) (u : String)
      → Mem u (map (λ h. h.uuid) (source_hosts text target i l))
      → any (λ t. str_eq t.uuid u) target ≡ false
  unfolding source_hosts
  source_hosts-others target i [] u = λ m. absurd (not-mem-nil m)
  source_hosts-others target i (x ∷ l) u =
      let rest = source_hosts-others target (suc i) l u in
      elim (Bool-cases (any (λ t. str_eq t.uuid x.uuid) target)) [
        | inl e ↦ rw e rest
        | inr e ↦ rw e λ m.
            Or.elim (Bool-set _ _) (mem-cons.0 m)
              (λ here. subst (λ v. any (λ t. str_eq t.uuid v) target ≡ false) (sym here) e) rest
      ]

any-Mem :
    (target : List Host) (u : String)
    → Mem u (map (λ h. h.uuid) target)
    → any (λ t. str_eq t.uuid u) target ≡ true
any-Mem [] u m = absurd (not-mem-nil m)
any-Mem (h ∷ target) u m =
    Or.elim (Bool-set _ _) (mem-cons.0 m) (λ here. ground (arith, (eq_iff h.uuid u).1 (sym here)))
      (λ k. ground (arith, any-Mem target u k))

map-show_trash :
    (target : List Host) → map (λ h. h.uuid) (map show_trash target) ≡ map (λ h. h.uuid) target
unfolding show_trash
map-show_trash [] = refl
map-show_trash (h ∷ target) = ap (λ r. h.uuid ∷ r) (map-show_trash target)

Disjoint-source_hosts :
    (text : String → String) (target : List Host) (l : List ListedHost) (u : String)
    → Mem u (map (λ h. h.uuid) (source_hosts text target 0 l))
    → Mem u (map (λ h. h.uuid) target)
    → ⊥
Disjoint-source_hosts text target l u m k =
    ground (arith, source_hosts-others text target 0 l u m, any-Mem target u k)

-- If the answer lists no host twice and no host is chosen twice, then the form has no host twice
-- once the answer is in, and the hosts of the list are in the order of their places. The hosts that
-- are chosen stay so.
pub populate_sched_hosts-Nodup :
    (text : String → String) (l : List ListedHost) (p : Page)
    → Nodup (map (λ h. h.uuid) l)
    → Nodup (map (λ h. h.uuid) p.chosen_hosts)
    → Nodup (hosts_of (populate_sched_hosts text l p))
      × IsSorted host_place (populate_sched_hosts text l p).hosts
      × (map (λ h. h.uuid) (populate_sched_hosts text l p).chosen_hosts
          ≡ map (λ h. h.uuid) p.chosen_hosts)
unfolding populate_sched_hosts
populate_sched_hosts-Nodup text l p n c =
    let listed : List Host = source_hosts text p.chosen_hosts 0 l in
    (
      rw
          (
            map-append (λ (h : Host). h.uuid) listed (map show_trash p.chosen_hosts),
            map-show_trash p.chosen_hosts,
          )
          (Nodup-append.1 (
            source_hosts-Nodup text p.chosen_hosts 0 l n,
            c,
            λ u m k. Disjoint-source_hosts text p.chosen_hosts l u m k,
          )),
      IsStrict-IsSorted host_place listed (source_hosts-IsStrict text p.chosen_hosts 0 l),
      map-show_trash p.chosen_hosts,
    )

-- However many systems the answer lists, the list of systems is in the strict order of the places.
pub populate_backup_src-IsStrict :
    (text : String → String) (l : List ListedSystem) (p : Page)
    → IsStrict system_place (populate_backup_src text l p).systems
unfolding populate_backup_src
populate_backup_src-IsStrict text l p = source_items-IsStrict text 0 l
