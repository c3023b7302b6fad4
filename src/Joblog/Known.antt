-- ===== src/Joblog/Known.antt =====
-- Which messages are known, and a branch that no message reaches.
use alike.Base.{
  ℕ, String, List, [], ◌∷◌, ◌++◌, Bool, true, false, ◌&&◌, ◌≡◌, arith, any, codes, contains,
  starts_with,
}
use alike.Joblog.{has, double_tip, check_for_known_message}

starts-contains : (q s : List ℕ) → starts_with q s ≡ true → contains q s ≡ true
starts-contains q [] h = h
starts-contains q (c ∷ s) h = ground arith

starts-append : (p q s : List ℕ) → starts_with (p ++ q) s ≡ true → contains q s ≡ true
starts-append [] q s h = starts-contains q s h
starts-append (x ∷ p) q [] h = ground arith
starts-append (x ∷ p) q (c ∷ s) h = ground (arith, starts-append p q s)

-- A text that holds two texts joined holds the second.
pub contains-append : (p q s : List ℕ) → contains (p ++ q) s ≡ true → contains q s ≡ true
contains-append p q [] h = starts-append p q [] h
contains-append p q (c ∷ s) h = ground (arith, starts-append p q (c ∷ s), contains-append p q s)

hybrid_has_shorter :
    (d : List ℕ)
    → has d "Q-Hybrid Backup unavailable: Failed to connect due to network or firewall error" ≡ true
    → has d "Failed to connect due to network or firewall error" ≡ true
unfolding has
hybrid_has_shorter d h =
    contains-append (codes "Q-Hybrid Backup unavailable: ")
      (codes "Failed to connect due to network or firewall error") d h

-- The message on the hybrid backup that cannot connect gets the tip of the first branch, which
-- its own branch would give it too: the first branch's words are a part of it.
pub check_for_known_message-hybrid :
    (text : String → String) (build d : List ℕ)
    → has d "Q-Hybrid Backup unavailable: Failed to connect due to network or firewall error" ≡ true
    → check_for_known_message text build d ≡ (double_tip text "qhbKB", d)
unfolding check_for_known_message
check_for_known_message-hybrid text build d h = ground (arith, hybrid_has_shorter d h)

-- the words of every message that is known: a message needs all the words of one row
abbrev pub rows : List (List String)
rows =
    ("Failed to connect due to network or firewall error" ∷ [])
    ∷ ("VSS snapshot is no longer available" ∷ [])
    ∷ ("VSS snapshot was deleted" ∷ [])
    ∷ ("Replicating" ∷ "(ID " ∷ [])
    ∷ ("Restoring: " ∷ "(ID " ∷ [])
    ∷ ("Vaulting: " ∷ "(ID " ∷ [])
    ∷ ("Processing: " ∷ "(ID " ∷ [])
    ∷ ("Alike " ∷ "build " ∷ [])
    ∷ ("Restore failed, Timed out waiting for version to commit" ∷ [])
    ∷ ("No ABD Template found for this XenPool" ∷ [])
    ∷ ("ABD Template could no longer be found for this pool" ∷ [])
    ∷ ("IP addresses have been assigned to this pool" ∷ [])
    ∷ ("No IP Addresses available for ABD" ∷ [])
    ∷ ("Waited, but all ABD IP addresses are currently in use" ∷ [])
    ∷ ("ABD Failed to mount DataStore. mount: Network is unreachable" ∷ [])
    ∷ ("Q-Hybrid Backup unavailable: Failed to connect due to network or firewall error" ∷ [])
    ∷ ("Unable to find VM" ∷ [])
    ∷ ("is running on an unlicensed host" ∷ [])
    ∷ ("The specified storage repository has insufficient space" ∷ [])
    ∷ ("Globally deduplicating and committing" ∷ [])
    ∷ ("has too many snapshots" ∷ [])
    ∷ ("IRPStackSize is too small" ∷ [])
    ∷ ("No Credential Profiles" ∷ [])
    ∷ []

abbrev pub has_all : List ℕ → List String → Bool
has_all d [] = true
has_all d (w ∷ ws) = has d w && has_all d ws

-- A message that has all the words of no row gets no tip and keeps its words.
pub check_for_known_message-unknown :
    (text : String → String) (build d : List ℕ)
    → any (has_all d) rows ≡ false
    → check_for_known_message text build d ≡ ("", d)
unfolding check_for_known_message
check_for_known_message-unknown text build d h = ground arith
