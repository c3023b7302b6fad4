-- ===== src/Abd/Drawn/Handled.antt =====
-- What the handlers keep of a panel that was drawn.
use alike.Base.{
  ℕ, String, List, [], ◌∷◌, ◌++◌, map, Bool, true, false, not, ◌||◌, str_eq, ◌≡◌, refl, ap, arith,
  All, All-append, All-mono, any, Option, none, some, ◌∙◌, get_elem?, zero, suc, eq_refl,
  Bool-cases, Option-cases, inl, inr,
}
use alike.Net.{check_ip, cidr_to_mask}
use alike.Abd.{
  Awaited, fulfilled, thrown, NetRow, Panel, make_abd_net_row, abd_use_dhcp, abd_add_ip, abd_del_ip,
  without_row,
}
use alike.Abd.Drawn.{AbdNet, XenPool, assigned, abd_row, drawn_panel}

-- what happens at a panel, one after another: texts are typed, the box is clicked, an address is
-- added, and the one at a position is deleted
pub data Event : Type 0 where
  typed : List ℕ → List ℕ → ℕ → Event
  clicks_dhcp : Awaited → Event
  adds : String → Awaited → Event
  deletes : ℕ → Awaited → Event

unfoldable pub handle : Event → Panel → Panel
handle (typed ip gw mask) p = record p { ip = ip; gw = gw; mask = mask }
handle (clicks_dhcp w) p = (abd_use_dhcp (record p { dhcp_checked = not p.dhcp_checked }) w).1
handle (adds mac w) p = (abd_add_ip p mac w).panel
handle (deletes i w) p = (abd_del_ip p i w).1

abbrev pub handles : List Event → Panel → Panel
handles [] p = p
handles (e ∷ es) p = handles es (handle e p)

-- the id of one of the addresses that were listed, or the 0 of one that was added
abbrev pub is_listed : List AbdNet → String → Bool
is_listed nets id = str_eq id "0" || any (λ (n : AbdNet). str_eq id n.id) nets

abbrev pub IsListed : List AbdNet → NetRow → Type 0
IsListed nets r = is_listed nets r.id ≡ true

-- the inputs are there exactly if the box is not checked, and the rows are for listed addresses
abbrev pub IsTold : List AbdNet → Panel → Type 0
IsTold nets p = (p.manual_ip_shown ≡ not p.dhcp_checked) × All (IsListed nets) p.ips

without-All :
    (P : NetRow → Type 0) (i : ℕ) (rows : List NetRow) → All P rows → All P (without_row i rows)
unfolding without_row
without-All P i [] h = tt
without-All P zero (r ∷ rows) h = h.1
without-All P (suc i) (r ∷ rows) h = (h.0, without-All P i rows h.1)

dhcp-IsTold :
    (nets : List AbdNet) (w : Awaited) (p : Panel)
    → IsTold nets p
    → IsTold nets (handle (clicks_dhcp w) p)
unfolding handle abd_use_dhcp
dhcp-IsTold nets fulfilled p (shown, rows) = (ap not shown, rows)
dhcp-IsTold nets (thrown m) p (shown, rows) = (ground arith, rows)

zero-IsListed : (nets : List AbdNet) → is_listed nets "0" ≡ true
zero-IsListed nets = rw (eq_refl "0") refl

-- an address is added only if all of it is valid and the request succeeds
adds-ips :
    (mac : String) (w : Awaited) (p : Panel)
    → (P : Panel → Type 0) → ((invalid : Bool) → P (record p { ip_invalid = invalid }))
    → ((mask : List ℕ)
        → P (record p {
          ip_invalid = false;
          ips = p.ips ++ make_abd_net_row p.ip mask p.gw "0" ∷ [];
        }))
    → P (handle (adds mac w) p)
unfolding handle abd_add_ip
adds-ips mac w p P same more = elim (Bool-cases (check_ip p.ip)) [
  | inr e ↦ rw (handle, abd_add_ip, e) (same true)
  | inl e ↦ elim (Bool-cases (check_ip p.gw)) [
    | inr k ↦ rw (handle, abd_add_ip, e, k) (same true)
    | inl k ↦ elim (Option-cases (cidr_to_mask p.mask)) [
      | inl m ↦ rw (handle, abd_add_ip, e, k, m) (same false)
      | inr (mask, m) ↦ elim w as (λ x. P (handle (adds mac x) p)) [
        | fulfilled ↦ rw (handle, abd_add_ip, e, k, m) (more mask)
        | thrown message ↦ rw (handle, abd_add_ip, e, k, m) (same false)
      ]
    ]
  ]
]

adds-IsTold :
    (nets : List AbdNet) (mac : String) (w : Awaited) (p : Panel)
    → IsTold nets p
    → IsTold nets (handle (adds mac w) p)
unfolding make_abd_net_row
adds-IsTold nets mac w p (shown, rows) =
    adds-ips mac w p (IsTold nets) (λ invalid. (shown, rows))
      (λ mask. (
        shown,
        All-append (IsListed nets) p.ips (make_abd_net_row p.ip mask p.gw "0" ∷ []) rows
            (zero-IsListed nets, tt),
      ))

deletes-IsTold :
    (nets : List AbdNet) (i : ℕ) (w : Awaited) (p : Panel)
    → IsTold nets p
    → IsTold nets (handle (deletes i w) p)
unfolding handle abd_del_ip
deletes-IsTold nets i w p (shown, rows) = elim (Option-cases (get_elem? p.ips i)) [
  | inl e ↦ rw (handle, abd_del_ip, e) (shown, rows)
  | inr (r, e) ↦ elim w as (λ x. IsTold nets (handle (deletes i x) p)) [
    | fulfilled ↦ rw (handle, abd_del_ip, e) (shown, without-All (IsListed nets) i p.ips rows)
    | thrown message ↦ rw (handle, abd_del_ip, e) (shown, rows)
  ]
]

handle-IsTold :
    (nets : List AbdNet) (e : Event) (p : Panel) → IsTold nets p → IsTold nets (handle e p)
unfolding handle
handle-IsTold nets (typed ip gw mask) p h = h
handle-IsTold nets (clicks_dhcp w) p h = dhcp-IsTold nets w p h
handle-IsTold nets (adds mac w) p h = adds-IsTold nets mac w p h
handle-IsTold nets (deletes i w) p h = deletes-IsTold nets i w p h

handles-IsTold :
    (nets : List AbdNet) (es : List Event) (p : Panel) → IsTold nets p → IsTold nets (handles es p)
handles-IsTold nets [] p h = h
handles-IsTold nets (e ∷ es) p h = handles-IsTold nets es (handle e p) (handle-IsTold nets e p h)

longer :
    (n : AbdNet) (nets : List AbdNet) (id : String)
    → is_listed nets id ≡ true
    → is_listed (n ∷ nets) id ≡ true
longer n nets id h = ground arith

rows-IsListed : (nets : List AbdNet) → All (IsListed nets) (map abd_row (assigned nets))
unfolding abd_row assigned make_abd_net_row
rows-IsListed [] = tt
rows-IsListed (n ∷ nets) =
    let later =
      All-mono {P = IsListed nets} {Q = IsListed (n ∷ nets)} (map abd_row (assigned nets))
        (λ r. longer n nets r.id) (rows-IsListed nets) in
    elim (Bool-cases (not (str_eq n.ip "0.0.0.0"))) [
      | inl e ↦ rw e (rw (eq_refl n.id) (ground arith), later)
      | inr e ↦ rw e later
    ]

drawn-IsTold : (p : XenPool) → IsTold p.abd_nets (drawn_panel p)
unfolding drawn_panel
drawn-IsTold p = (ground arith, rows-IsListed p.abd_nets)

abbrev then_id : Option String → List String → List String
then_id none ids = ids
then_id (some id) ids = id ∷ ids

abbrev id_at : ℕ → List NetRow → Option String
id_at i rows = elim (get_elem? rows i) [ none ↦ none | some r ↦ some r.id ]

-- the ids that the deletions send
abbrev pub sent_ids : List Event → Panel → List String
sent_ids [] p = []
sent_ids (deletes i w ∷ es) p = then_id (abd_del_ip p i w).0 (sent_ids es (handle (deletes i w) p))
sent_ids (typed ip gw mask ∷ es) p = sent_ids es (handle (typed ip gw mask) p)
sent_ids (clicks_dhcp w ∷ es) p = sent_ids es (handle (clicks_dhcp w) p)
sent_ids (adds mac w ∷ es) p = sent_ids es (handle (adds mac w) p)

-- the ids of the rows whose icon is clicked
abbrev pub clicked_ids : List Event → Panel → List String
clicked_ids [] p = []
clicked_ids (deletes i w ∷ es) p = then_id (id_at i p.ips) (clicked_ids es (handle (deletes i w) p))
clicked_ids (typed ip gw mask ∷ es) p = clicked_ids es (handle (typed ip gw mask) p)
clicked_ids (clicks_dhcp w ∷ es) p = clicked_ids es (handle (clicks_dhcp w) p)
clicked_ids (adds mac w ∷ es) p = clicked_ids es (handle (adds mac w) p)

del-id : (p : Panel) (i : ℕ) (w : Awaited) → (abd_del_ip p i w).0 ≡ id_at i p.ips
unfolding abd_del_ip
del-id p i fulfilled = ground arith
del-id p i (thrown message) = ground arith

sent-clicked : (es : List Event) (p : Panel) → sent_ids es p ≡ clicked_ids es p
sent-clicked [] p = refl
sent-clicked (deletes i w ∷ es) p =
    ap (λ o. then_id o (sent_ids es (handle (deletes i w) p))) (del-id p i w)
    ∙ ap (then_id (id_at i p.ips)) (sent-clicked es (handle (deletes i w) p))
sent-clicked (typed ip gw mask ∷ es) p = sent-clicked es (handle (typed ip gw mask) p)
sent-clicked (clicks_dhcp w ∷ es) p = sent-clicked es (handle (clicks_dhcp w) p)
sent-clicked (adds mac w ∷ es) p = sent-clicked es (handle (adds mac w) p)

id_at-listed :
    (nets : List AbdNet) (rows : List NetRow) (i : ℕ) (ids : List String)
    → All (IsListed nets) rows
    → All (λ id. is_listed nets id ≡ true) ids
    → All (λ id. is_listed nets id ≡ true) (then_id (id_at i rows) ids)
id_at-listed nets [] i ids h l = l
id_at-listed nets (r ∷ rows) zero ids h l = (h.0, l)
id_at-listed nets (r ∷ rows) (suc i) ids h l = id_at-listed nets rows i ids h.1 l

clicked-listed :
    (nets : List AbdNet) (es : List Event) (p : Panel)
    → IsTold nets p
    → All (λ id. is_listed nets id ≡ true) (clicked_ids es p)
clicked-listed nets [] p h = tt
clicked-listed nets (deletes i w ∷ es) p h =
    id_at-listed nets p.ips i (clicked_ids es (handle (deletes i w) p)) h.1
      (clicked-listed nets es (handle (deletes i w) p) (deletes-IsTold nets i w p h))
clicked-listed nets (typed ip gw mask ∷ es) p h =
    clicked-listed nets es (handle (typed ip gw mask) p) (handle-IsTold nets (typed ip gw mask) p h)
clicked-listed nets (clicks_dhcp w ∷ es) p h =
    clicked-listed nets es (handle (clicks_dhcp w) p) (dhcp-IsTold nets w p h)
clicked-listed nets (adds mac w ∷ es) p h =
    clicked-listed nets es (handle (adds mac w) p) (adds-IsTold nets mac w p h)

-- Whatever is typed, clicked, added and deleted at a panel that was drawn, and whatever the service
-- replies, the inputs of an address are shown exactly if the box for DHCP is not checked. The
-- deletions send, one after another, the ids of the rows whose icons are clicked, and each is that of
-- an address that the answer listed for the pool, or the id 0 of one that was added.
pub handles-drawn :
    (p : XenPool) (es : List Event)
    → ((handles es (drawn_panel p)).manual_ip_shown ≡ not (handles es (drawn_panel p)).dhcp_checked)
      × (sent_ids es (drawn_panel p) ≡ clicked_ids es (drawn_panel p))
      × All (λ id. is_listed p.abd_nets id ≡ true) (sent_ids es (drawn_panel p))
handles-drawn p es = (
  (handles-IsTold p.abd_nets es (drawn_panel p) (drawn-IsTold p)).0,
  sent-clicked es (drawn_panel p),
  rw (sent-clicked es (drawn_panel p))
      (clicked-listed p.abd_nets es (drawn_panel p) (drawn-IsTold p)),
)
