-- ===== src/Abd/Undone.antt =====
-- What a failed change leaves, and what deletes an address that was just added.
use alike.Base.{
  String, List, [], ◌∷◌, ◌++◌, Bool, not, some, ◌≡◌, refl, ap, arith, get_elem?, length,
}
use alike.Abd.{fulfilled, thrown, NetRow, Panel, without_row, abd_use_dhcp, abd_del_ip}

get_elem?-last : (l : List NetRow) (r : NetRow) → get_elem? (l ++ r ∷ []) (length l) ≡ some r
get_elem?-last [] r = refl
get_elem?-last (x ∷ xs) r = get_elem?-last xs r

without_row-last : (l : List NetRow) (r : NetRow) → without_row (length l) (l ++ r ∷ []) ≡ l
unfolding without_row
without_row-last [] r = refl
without_row-last (x ∷ xs) r = ap (λ rows. x ∷ rows) (without_row-last xs r)

-- Deleting the last address sends the id of its row and leaves the others; a deletion that fails
-- leaves the panel as it was.
pub abd_del_ip_lem :
    (p : Panel) (rows : List NetRow) (r : NetRow) (message : String)
    → p.ips ≡ rows ++ r ∷ []
    → ((abd_del_ip p (length rows) fulfilled).0 ≡ some r.id)
      × ((abd_del_ip p (length rows) fulfilled).1.ips ≡ rows)
      × ((abd_del_ip p (length rows) (thrown message)).1 ≡ p)
unfolding abd_del_ip
abd_del_ip_lem p rows r message e =
    let found : get_elem? p.ips (length rows) ≡ some r = rw e (get_elem?-last rows r) in
    let left : without_row (length rows) p.ips ≡ rows = rw e (without_row-last rows r) in
    (ground arith, ground arith, ground arith)

-- the click on the check box, before the handler
abbrev pub clicked : Panel → Panel
clicked p = record p { dhcp_checked = not p.dhcp_checked }

not-not : (b : Bool) → not (not b) ≡ b
not-not b = ground arith

-- A click whose change the service refuses leaves the panel as it was before the click, and asks for
-- what the click had chosen.
pub abd_use_dhcp-clicked :
    (p : Panel) (message : String)
    → ((abd_use_dhcp (clicked p) (thrown message)).1 ≡ p)
      × ((abd_use_dhcp (clicked p) (thrown message)).0.use_dhcp ≡ not p.dhcp_checked)
unfolding abd_use_dhcp
abd_use_dhcp-clicked p message = (rw (not-not p.manual_ip_shown, not-not p.dhcp_checked) refl, refl)
