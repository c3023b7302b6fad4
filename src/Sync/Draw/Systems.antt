-- ===== src/Sync/Draw/Systems.antt =====
-- A page that was just drawn shows what the same answer would sync.
use mathlib.Core.Path.{subst}
use alike.Base.{
  String, List, [], ◌∷◌, ◌++◌, map, append-nil, pos, Bool, true, false, not, ◌&&◌, some, ◌≡◌, refl,
  ap, ◌∙◌, arith, ==_iff, str_eq, eq_iff, any, All, Bool-cases, inl, inr,
}
use alike.Status.Value.{equals_number}
use alike.Sync.{Settings, Entry, Row, Page, find_row, needs_update, sync_entries}
use alike.Sync.Settled.{settled}
use alike.Sync.Draw.{Answer, system_row, has_systems, drawn_page, all_vm_rows}

abbrev pub has_id : String → List Entry → Bool
has_id id es = any (λ e. str_eq id e.id) es

abbrev pub are_apart : List Entry → Bool
are_apart [] = true
are_apart (e ∷ es) = not (has_id e.id es) && are_apart es

abbrev pub any_active : List Entry → Bool
any_active es = any (λ e. equals_number e.status (pos 3)) es

-- the entry's row is the one that was drawn for it
abbrev IsDrawn : Settings → List (String × Row) → Entry → Type 0
IsDrawn set rows e = find_row e.id rows ≡ some (system_row set e).1

IsDrawn-cons :
    (set : Settings) (es : List Entry) (rows : List (String × Row)) (e : Entry)
    → has_id e.id es ≡ false
    → All (IsDrawn set rows) es
    → All (IsDrawn set (system_row set e ∷ rows)) es
unfolding find_row system_row
IsDrawn-cons set [] rows e apart h = tt
IsDrawn-cons set (f ∷ fs) rows e apart (hf, h) =
    (ground (arith, hf), IsDrawn-cons set fs rows e (ground arith) h)

system_row-IsDrawn :
    (set : Settings) (es : List Entry) (rest : List (String × Row))
    → are_apart es ≡ true
    → All (IsDrawn set (map (system_row set) es ++ rest)) es
unfolding find_row system_row
system_row-IsDrawn set [] rest d = tt
system_row-IsDrawn set (e ∷ es) rest d = (
  ground (arith, eq_iff e.id e.id),
  IsDrawn-cons set es (map (system_row set) es ++ rest) e (ground arith)
      (system_row-IsDrawn set es rest (ground arith)),
)

up_to_date :
    (set : Settings) (e : Entry)
    → equals_number e.status (pos 3) ≡ false
    → needs_update (system_row set e).1 e ≡ false
unfolding needs_update system_row
up_to_date set e idle = ground (arith, ==_iff e.timestamp e.timestamp)

stays :
    (fresh current : Settings) (es : List Entry) (p : Page)
    → any_active es ≡ false
    → All (IsDrawn fresh p.rows) es
    → sync_entries current false "joblog-systems" es p ≡ p
unfolding sync_entries
stays fresh current [] p idle h = refl
stays fresh current (e ∷ es) p idle (he, h) =
    ap (λ q. sync_entries current false "joblog-systems" es q)
      (settled current record { is_vm = false; table = "joblog-systems"; entry = e } p
        (inr ((system_row fresh e).1, he, inl (up_to_date fresh e (ground arith)))))
    ∙ stays fresh current es p (ground arith) h

drawn_page-IsDrawn :
    (set : Settings) (a : Answer)
    → are_apart a.job.system_entries ≡ true
    → All (IsDrawn set (drawn_page set a).rows) a.job.system_entries
unfolding drawn_page
drawn_page-IsDrawn set a d = elim (Bool-cases (has_systems a.type)) [
  | inl e ↦
      rw (e, drawn_page)
        (system_row-IsDrawn set a.job.system_entries
          (all_vm_rows set a.job.vms_in_job a.job.vm_entries) d)
  | inr e ↦
      rw (e, drawn_page)
        (subst (λ rows. All (IsDrawn set rows) a.job.system_entries)
          (append-nil (map (system_row set) a.job.system_entries))
          (system_row-IsDrawn set a.job.system_entries [] d))
]

-- The entries of the system, if their ids differ and none is active, change nothing on the page that
-- was drawn from the same answer, also if its traces have been hidden or shown since.
pub sync_entries-drawn_page :
    (fresh current : Settings) (a : Answer)
    → are_apart a.job.system_entries ≡ true
    → any_active a.job.system_entries ≡ false
    → sync_entries current false "joblog-systems" a.job.system_entries (drawn_page fresh a)
      ≡ drawn_page fresh a
sync_entries-drawn_page fresh current a d idle =
    stays fresh current a.job.system_entries (drawn_page fresh a) idle
      (drawn_page-IsDrawn fresh a d)
