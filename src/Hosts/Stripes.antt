-- ===== src/Hosts/Stripes.antt =====
-- Which hosts have the same background.
use alike.Base.{
  some, length, arith, String, List, [], ◌∷◌, Bool, true, false, ◌≡◌, refl, ap, ◌∙◌, ◌==◌, All,
  str_eq, eq_iff, Bool-cases, inl, inr,
}
use alike.Storage.{A3, Storage}
use alike.Hosts.{
  known_a3s, has_a3s, checked, hosts_page, table, Host, Stripe, plain, first, second, other,
  next_stripe, Row, host_row, host_rows, draw_hosts_table,
}

abbrev pub same_stripe : Stripe → Stripe → Bool
same_stripe plain plain = true
same_stripe first first = true
same_stripe second second = true
same_stripe _ _ = false

-- for each two items that follow each other, what a test says of them
abbrev pub neighbours : {A : Type 0} → (A → A → Bool) → List A → List Bool
neighbours f [] = []
neighbours f (x ∷ []) = []
neighbours f (x ∷ y ∷ l) = f x y ∷ neighbours f (y ∷ l)

abbrev pub same_pool : Host → Host → Bool
same_pool a b = str_eq a.poolid b.poolid

abbrev pub same_background : Row → Row → Bool
same_background a b = same_stripe a.stripe b.stripe

abbrev pub IsXen : Host → Type 0
IsXen h = (h.type == 2) ≡ true

same_itself : (s : Stripe) → same_stripe s s ≡ true
same_itself plain = refl
same_itself first = refl
same_itself second = refl

other_differs : (s : Stripe) → same_stripe s (other s) ≡ false
unfolding other
other_differs plain = refl
other_differs first = refl
other_differs second = refl

-- a Xen host leaves its own pool
pool_after : (h : Host) (p : String) (s : Stripe) → IsXen h → (next_stripe h (p, s)).0 ≡ h.poolid
unfolding next_stripe
pool_after h p s x = elim (Bool-cases (str_eq p h.poolid)) [
  | inl e ↦ rw (x, e) ((eq_iff p h.poolid).0 e)
  | inr e ↦ rw (x, e) refl
]

stripe_after :
    (h : Host) (p : String) (s : Stripe)
    → IsXen h
    → same_stripe s (next_stripe h (p, s)).1 ≡ str_eq p h.poolid
unfolding next_stripe
stripe_after h p s x = elim (Bool-cases (str_eq p h.poolid)) [
  | inl e ↦ rw (x, e) (same_itself s)
  | inr e ↦ rw (x, e) (other_differs s)
]

module _ (text : String → String) (is_manager : Bool) where
  rows-neighbours :
      (l : List A3) (state : String × Stripe) (hosts : List Host)
      → All IsXen hosts
      → neighbours same_background (host_rows text is_manager l state hosts)
        ≡ neighbours same_pool hosts
  unfolding host_rows host_row
  rows-neighbours l state [] x = refl
  rows-neighbours l state (a ∷ []) x = refl
  rows-neighbours l state (a ∷ b ∷ hosts) (xa, (xb, x)) =
      let after : String × Stripe = next_stripe a state in
      rw (rows-neighbours l after (b ∷ hosts) (xb, x)) (
        ap (λ r. r ∷ neighbours same_pool (b ∷ hosts))
          (stripe_after b after.0 after.1 xb
            ∙ ap (λ p. str_eq p b.poolid) (pool_after a state.0 state.1 xa)))

  -- If an A3 is known and there is a host, the hosts are drawn as a table. If they are Xen hosts, then
  -- two of them that follow each other have the same background exactly if they are in the same
  -- pool.
  pub draw_hosts_table-neighbours :
      (s : Storage) (a : A3) (l : List A3) (h : Host) (hs : List Host)
      → known_a3s s ≡ some (a ∷ l)
      → All IsXen (h ∷ hs)
      → (rows : List Row) × (draw_hosts_table text is_manager s (h ∷ hs) ≡ table rows)
        × (neighbours same_background rows ≡ neighbours same_pool (h ∷ hs))
  unfolding draw_hosts_table hosts_page checked has_a3s
  draw_hosts_table-neighbours s a l h hs known x =
      let some_a3s : (length (a ∷ l) == 0) ≡ false = ground arith in
      (
        host_rows text is_manager (a ∷ l) ("", plain) (h ∷ hs),
        rw (known, some_a3s) refl,
        rows-neighbours (a ∷ l) ("", plain) (h ∷ hs) x,
      )
