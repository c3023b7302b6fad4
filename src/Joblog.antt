-- ===== src/Joblog.antt =====
-- webui/js/joblogHelper.js: the tips and links that an entry of a job's log gets from its words,
-- and the progress that an entry tells. A description is a list of char codes. `text` is
-- `getText`, `build` is `window.alikeBuild`.
pub mod Known
pub mod Progress
mod Tests
use alike.Base.{
  ℕ, zero, suc, ◌+◌, ◌-◌, ◌≤◌, String, List, [], ◌∷◌, ◌++◌, Bool, true, false, not, ◌&&◌, ◌||◌,
  Option, some, none, leb, if◌then◌else◌, take, drop, length, codes, contains, starts_with, ◌<>◌,
}

-- `d.indexOf(phrase) != -1`
pub has : List ℕ → String → Bool
has d phrase = contains (codes phrase) d

-- `indexOf`, where -1 is `none`
pub index_of : List ℕ → List ℕ → Option ℕ
index_of [] d = some 0
index_of (p ∷ ps) [] = none
index_of (p ∷ ps) (c ∷ d) =
    let rest = index_of (p ∷ ps) d in
    if starts_with (p ∷ ps) (c ∷ d)
    then some 0
    else elim rest [ none ↦ none | some i ↦ some (i + 1) ]

pub last_index_of : List ℕ → List ℕ → Option ℕ
last_index_of p [] = elim p [ [] ↦ some 0 | c ∷ cs ↦ none ]
last_index_of p (c ∷ d) = elim (last_index_of p d) [
  | some i ↦ some (i + 1)
  | none ↦ if starts_with p (c ∷ d) then some 0 else none
]

-- an index as a bound of `substring`, which takes -1 as 0
pub bound : Option ℕ → ℕ
bound none = 0
bound (some i) = i

-- `i + k`, for a `k` above 0
pub plus : Option ℕ → ℕ → ℕ
plus none k = k - 1
plus (some i) k = i + k

-- `d.substring(a, b)`: the smaller bound comes first
pub substring : List ℕ → ℕ → ℕ → List ℕ
substring d a b = if leb a b then take (b - a) (drop a d) else take (a - b) (drop b d)

-- the link to a system; `verb` stands before the colon
pub system_link : List ℕ → List ℕ → List ℕ
unfolding index_of last_index_of bound plus substring
system_link verb d =
    let pos = index_of (codes "(ID") d in
    let end = last_index_of (codes ")") d in
    let id = substring d (plus pos 4) (bound end) in
    let vm = index_of (codes ":") d in
    let newmsg = substring d (plus vm 2) (bound pos) in
    let newmsg2 = drop (plus end 1) d in
    verb
    ++ codes ": <a href=\"javascript:viewVmDetails("
    ++ id
    ++ codes
        ", true);\"><img title='View System Details' style='height:12px; width:12px' src='/images/vm-details.png'></a> <a title='Jump To System' class='clickable' href=\"javascript:jumpToAnchor('vid_"
    ++ id
    ++ codes "','detailModal');\">"
    ++ newmsg
    ++ codes "</a> "
    ++ newmsg2

replicating_verb : List ℕ → List ℕ
unfolding index_of bound substring
replicating_verb d =
    substring d (bound (index_of (codes "Replicating ") d)) (bound (index_of (codes ":") d))

-- a link around what starts with `phrase`
pub linked : String → String → String → List ℕ → List ℕ
unfolding index_of bound
linked start stop phrase d =
    let pos = bound (index_of (codes phrase) d) in
    take pos d ++ codes start ++ drop pos d ++ codes stop

pub abd_linked : String → List ℕ → List ℕ
abd_linked = linked "<a href=\"javascript:listABDs();\"><b>" "</b></a>"

-- the text that comes before the link is also the text from the phrase on
pub irp_linked : String → List ℕ → List ℕ
unfolding index_of bound
irp_linked url d =
    let pos = bound (index_of (codes "IRP") d) in
    drop pos d ++ codes ("<a href=\"" <> url <> "b>") ++ drop pos d ++ codes "</b></a> "

module _ (text : String → String) where
  pub tip : String → String → String → String
  tip start key rest = start <> text key <> rest <> text "relatedKB" <> "' border=0></a> &nbsp;"

  abbrev double_target : String
  double_target = "' target=\"_new\"><img src=\"/images/kb_tip.png\" title='"

  abbrev single_target : String
  single_target = "' target='_new'><img src='/images/kb_tip.png' title='"

  abbrev mixed_target : String
  mixed_target = "' target=\"_new\"><img src='/images/kb_tip.png' title='"

  pub double_tip : String → String
  double_tip key = tip "<a href='" key double_target

  pub single_tip : String → String
  single_tip key = tip "<a href='" key single_target

  pub mixed_tip : String → String
  mixed_tip key = tip "<a href='" key mixed_target

module _ (build : List ℕ) where
  -- `Alike … build …`: bold if it is another build
  pub marked_build : List ℕ → List ℕ
  unfolding index_of bound
  marked_build d =
      if same (drop (bound (index_of (codes "Alike") d)) d) build
      then d
      else codes "<b>" ++ d ++ codes "</b>"
    where
      same : List ℕ → List ℕ → Bool
      same [] [] = true
      same [] (y ∷ ys) = false
      same (x ∷ xs) [] = false
      same (x ∷ xs) (y ∷ ys) = leb x y && leb y x && same xs ys

module _ (text : String → String) (build : List ℕ) where
  -- the tip, and the description that the entry is left with
  pub check_for_known_message : List ℕ → String × List ℕ
  check_for_known_message d =
      if has d "Failed to connect due to network or firewall error"
      then (double_tip text "qhbKB", d)
      else if has d "VSS snapshot is no longer available"
      then (single_tip text "vssMissingKB", d)
      else if has d "VSS snapshot was deleted"
      then (single_tip text "vssMissingKB", d)
      else if has d "Replicating" && has d "(ID "
      then ("", system_link (replicating_verb d) d)
      else if has d "Restoring: " && has d "(ID "
      then ("", system_link (codes "Restoring") d)
      else if has d "Vaulting: " && has d "(ID "
      then ("", system_link (codes "Vaulting") d)
      else if has d "Processing: " && has d "(ID "
      then ("", system_link (codes "Processing") d)
      else if has d "Alike " && has d "build "
      then ("", marked_build build d)
      else if has d "Restore failed, Timed out waiting for version to commit"
      then (
        tip text "<a href=\"" "dedupKB"
            "\" target=\"_new\"><img src=\"/images/kb_tip.png\" title='",
        d,
      )
      else if has d "No ABD Template found for this XenPool"
      then (single_tip text "abdTsKB", abd_linked "No ABD" d)
      else if has d "ABD Template could no longer be found for this pool"
      then (single_tip text "abdTsKB", abd_linked "Please" d)
      else if has d "IP addresses have been assigned to this pool"
      then (single_tip text "abdTsKB", abd_linked "No IP" d)
      else if has d "No IP Addresses available for ABD"
      then (single_tip text "abdTsKB", abd_linked "Please" d)
      else if has d "Waited, but all ABD IP addresses are currently in use"
      then (single_tip text "abdTsKB", abd_linked "Waited" d)
      else if has d "ABD Failed to mount DataStore. mount: Network is unreachable"
      then (
        tip text "<a href='" "abdTsKB" " target=\"_new\"><img src=\"/images/kb_tip.png\" title='",
        d,
      )
      else if has d
          "Q-Hybrid Backup unavailable: Failed to connect due to network or firewall error"
      then (double_tip text "qhbKB", d)
      else if has d "Unable to find VM"
      then (double_tip text "noVMKB", d)
      else if has d "is running on an unlicensed host"
      then (double_tip text "noVMKB", d)
      else if has d "The specified storage repository has insufficient space"
      then (mixed_tip text "noSRSpaceKB", d)
      else if has d "Globally deduplicating and committing"
      then (mixed_tip text "globaldedupKB", d)
      else if has d "has too many snapshots"
      then (mixed_tip text "longChainKB", d)
      else if has d "has too many snapshots"
      then (mixed_tip text "longChainKB", d)
      else if has d "IRPStackSize is too small"
      then (single_tip text "irpKbUrl", irp_linked (text "irpKbUrl") d)
      else if has d "No Credential Profiles"
      then (
        single_tip text "apKbUrl",
        linked "<a href=\"#\" class=\"openAP closeDetailModal\"><b>" "</b></a>" "Please" d,
      )
      else ("", d)

-- 0 done, 1 failed, 2 in progress, 3 not started, 4 unknown
pub check_vm_progress : List ℕ → ℕ
check_vm_progress d =
    if has d "Backup complete"
    then 0
    else if has d "of VM" && has d "is complete"
    then 0
    else if has d "Replicated VM:"
    then 0
    else if has d "Replication completed for VM:"
    then 0
    else if has d "of VM" && has d "was not completed"
    then 1
    else if has d "Restore failed"
    then 1
    else if has d "Backup failed"
    then 1
    else if has d "Error processing VM"
    then 1
    else if has d "Beginning work on"
    then 2
    else if has d "for cachemap"
    then 3
    else if has d "Detected initial backup of system"
    then 3
    else 4
