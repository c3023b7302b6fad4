-- ===== src/Schedules/Picking/Tabs/Guarded.antt =====
-- Each step keeps the tabs of the other choices disabled.
use mathlib.Core.Path.{subst}
use alike.Base.{
  ℕ, zero, suc, String, List, [], ◌∷◌, map, Bool, true, false, Option, some, none, ◌≡◌, refl, ap,
  arith, length, ◌==◌, Bool-cases, Option-cases, inl, inr,
}
use alike.Schedules.Picking.{
  System, Host, Tab, manual, wholehost, keyword, Page, in_source, in_target, take_out,
  choose_system, close_other_tabs, sched_src_item, open_without_systems, return_system, sched_trash,
  choose_host, sched_src_host, open_without_hosts, return_host, sched_host_trash,
}
use alike.Schedules.Picking.Listed.{
  ListedHost, populate_backup_src, populate_sched_hosts, show_trash, sched_tabber, sched_keyword,
}
use alike.Schedules.Picking.Tabs.{
  is_tab, is_off, Step, system, system_trash, host, host_trash, tab, press, systems_listed,
  hosts_listed, Reach, done, step, IsGuarded,
}

sched_tabber-IsGuarded :
    (p : Page) (t : Tab) → is_off t p ≡ false → IsGuarded p → IsGuarded (sched_tabber t p)
unfolding sched_tabber
sched_tabber-IsGuarded p manual o g = ground arith
sched_tabber-IsGuarded p wholehost o g = ground arith
sched_tabber-IsGuarded p keyword o g = ground arith

module _ {A : Type 0} where
  IsShorter : List A → Option (A × List A) → Type 0
  IsShorter l none = Unit
  IsShorter l (some (x, rest)) = length l ≡ suc (length rest)

  take_out-IsShorter : (l : List A) (i : ℕ) → IsShorter l (take_out l i)
  unfolding take_out IsShorter
  take_out-IsShorter [] i = tt
  take_out-IsShorter (y ∷ l) zero = refl
  take_out-IsShorter (y ∷ l) (suc i) = elim (Option-cases (take_out l i)) [
    | inl e ↦ rw e tt
    | inr (p, e) ↦ rw e (ap (λ n. suc n) (subst (IsShorter l) e (take_out-IsShorter l i)))
  ]

  pub taken-length :
      (l : List A) (i : ℕ) {x : A} {rest : List A}
      → take_out l i ≡ some (x, rest)
      → length l ≡ suc (length rest)
  unfolding IsShorter
  taken-length l i e = subst (IsShorter l) e (take_out-IsShorter l i)

tab-manual : (t : Tab) → t ≡ manual → (is_tab t manual ≡ true) × (is_tab t wholehost ≡ false)
tab-manual t e = rw e (refl, refl)

tab-wholehost : (t : Tab) → t ≡ wholehost → (is_tab t wholehost ≡ true) × (is_tab t manual ≡ false)
tab-wholehost t e = rw e (refl, refl)

tab-keyword : (t : Tab) → t ≡ keyword → (is_tab t wholehost ≡ false) × (is_tab t manual ≡ false)
tab-keyword t e = rw e (refl, refl)

either-IsGuarded :
    {A : Type 0} (p : Page) (f : A → Page) (o : Option A)
    → IsGuarded p
    → ((a : A) → o ≡ some a → IsGuarded (f a))
    → IsGuarded (elim o [ none ↦ p | some a ↦ f a ])
either-IsGuarded p f none g k = g
either-IsGuarded p f (some a) g k = k a refl

choose_system-IsGuarded :
    (p : Page) (t : Option (System × List System))
    → p.tab ≡ manual
    → IsGuarded p
    → IsGuarded (choose_system p t)
unfolding choose_system close_other_tabs
choose_system-IsGuarded p none h g = g
choose_system-IsGuarded p (some (x, rest)) h g =
    ground (arith, (tab-manual p.tab h).0, (tab-manual p.tab h).1)

close_other_tabs-IsGuarded :
    (p : Page) → p.tab ≡ manual → IsGuarded p → IsGuarded (close_other_tabs p)
unfolding close_other_tabs
close_other_tabs-IsGuarded p h g = ground (arith, (tab-manual p.tab h).0, (tab-manual p.tab h).1)

return_system-IsGuarded :
    (p : Page) (j : ℕ) (t : Option (System × List System))
    → take_out p.chosen j ≡ t
    → p.tab ≡ manual
    → IsGuarded p
    → IsGuarded (return_system p t)
unfolding return_system open_without_systems
return_system-IsGuarded p j none e h g = g
return_system-IsGuarded p j (some (x, rest)) e h g =
    let shorter = taken-length p.chosen j e in
    elim (Bool-cases (length rest == 0)) [
      | inl z ↦ rw z (ground (arith, shorter, (tab-manual p.tab h).0, (tab-manual p.tab h).1))
      | inr z ↦ rw z (ground (arith, shorter, (tab-manual p.tab h).0, (tab-manual p.tab h).1))
    ]

choose_host-IsGuarded :
    (p : Page) (t : Option (Host × List Host))
    → p.tab ≡ wholehost
    → IsGuarded p
    → IsGuarded (choose_host p t)
unfolding choose_host
choose_host-IsGuarded p none h g = g
choose_host-IsGuarded p (some (x, rest)) h g =
    ground (arith, (tab-wholehost p.tab h).0, (tab-wholehost p.tab h).1)

return_host-IsGuarded :
    (p : Page) (x : Host) (rest : List Host)
    → take_out p.chosen_hosts 0 ≡ some (x, rest)
    → length p.chosen_hosts ≡ 1
    → (length p.chosen == 0) ≡ true
    → IsGuarded (return_host (open_without_systems p) (some (x, rest)))
unfolding return_host open_without_systems open_without_hosts
return_host-IsGuarded p x rest e n z =
    let empty : (length rest == 0) ≡ true = ground (arith, taken-length p.chosen_hosts 0 e) in
    rw (z, empty) (ground (arith, z))

sched_keyword-IsGuarded :
    (is_space : ℕ → Bool) (val : String) (p : Page)
    → p.tab ≡ keyword
    → IsGuarded p
    → IsGuarded (sched_keyword is_space val p)
unfolding sched_keyword
sched_keyword-IsGuarded is_space val p h g =
    ground (arith, (tab-keyword p.tab h).0, (tab-keyword p.tab h).1)

length-map : {A B : Type 0} (f : A → B) (l : List A) → length (map f l) ≡ length l
length-map f [] = refl
length-map f (x ∷ xs) = ap (λ n. suc n) (length-map f xs)

populate_sched_hosts-IsGuarded :
    (text : String → String) (l : List ListedHost) (p : Page)
    → IsGuarded p
    → IsGuarded (populate_sched_hosts text l p)
unfolding populate_sched_hosts
populate_sched_hosts-IsGuarded text l p g = rw (length-map show_trash p.chosen_hosts) g

module _ {is_space : ℕ → Bool} {text : String → String} where
  Step-IsGuarded : {p q : Page} → Step is_space text p q → IsGuarded p → IsGuarded q
  unfolding sched_src_item sched_src_host sched_trash sched_host_trash populate_backup_src
      close_other_tabs
  Step-IsGuarded (system {p} (in_source i) h) g =
      choose_system-IsGuarded p (take_out p.systems i) h g
  Step-IsGuarded (system {p} (in_target j) h) g =
      either-IsGuarded p (λ t. close_other_tabs p) (take_out p.chosen j) g
        (λ t e. close_other_tabs-IsGuarded p h g)
  Step-IsGuarded (system_trash {p} j h) g =
      return_system-IsGuarded p j (take_out p.chosen j) refl h g
  Step-IsGuarded (host {p} (in_source i) h) g = choose_host-IsGuarded p (take_out p.hosts i) h g
  Step-IsGuarded (host {p} (in_target j) h) g =
      either-IsGuarded p _ (take_out p.chosen_hosts j) g
        (λ t e. ground (arith, (tab-wholehost p.tab h).0, (tab-wholehost p.tab h).1))
  Step-IsGuarded (host_trash {p} h n) g =
      either-IsGuarded p (λ t. return_host (open_without_systems p) (some t))
        (take_out p.chosen_hosts 0) g (λ t e. return_host-IsGuarded p t.0 t.1 e n (ground arith))
  Step-IsGuarded (tab {p} t o) g = sched_tabber-IsGuarded p t o g
  Step-IsGuarded (press {p} val h) g = sched_keyword-IsGuarded is_space val p h g
  Step-IsGuarded (systems_listed {p} l) g = g
  Step-IsGuarded (hosts_listed {p} l) g = populate_sched_hosts-IsGuarded text l p g

  pub Reach-IsGuarded : {p q : Page} → Reach is_space text p q → IsGuarded p → IsGuarded q
  Reach-IsGuarded done g = g
  Reach-IsGuarded (step s r) g = Reach-IsGuarded r (Step-IsGuarded s g)
