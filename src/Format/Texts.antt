-- ===== src/Format/Texts.antt =====
-- webui/js/utils.js: small functions on texts, numbers and lists: `snipString`, `padInt`, `clamp`,
-- `inArr`, `vmInList`, `getOsVersion`. A text that is cut is a list of char codes.
use alike.Base.{
  ℕ, ◌+◌, ◌-◌, String, List, [], ◌++◌, Bool, some, none, any, ltb, leb, ◌==◌, if◌then◌else◌, length,
  take, drop, codes, show, str_eq, ◌<>◌,
}
use alike.Joblog.{index_of}

-- a size below 3 cuts at 0, as `substring` does
pub snip_string : List ℕ → ℕ → List ℕ
snip_string input size =
    if ltb size (length input) then take (size - 3) input ++ codes "..." else input

pub pad_int : ℕ → String
pad_int n = if ltb n 10 then "0" <> show n else show n

pub clamp : ℕ → ℕ → ℕ → ℕ
clamp n min max = if leb n min then min else if leb max n then max else n

unfoldable pub in_arr : ℕ → List ℕ → Bool
in_arr it arr = any (λ x. x == it) arr

-- the list's machines by their identifiers
pub vm_in_list : String → List String → Bool
vm_in_list uuid vms = any (λ v. str_eq uuid v) vms

-- the version behind "XenServer ", up to a parenthesis
pub get_os_version : List ℕ → List ℕ
get_os_version s = elim (index_of (codes "XenServer") s) [
  | none ↦ []
  | some pos ↦ elim (index_of (codes "(") (drop (pos + 10) s)) [
    | some end ↦ codes "(" ++ take end (drop (pos + 10) s) ++ codes ")"
    | none ↦ codes "(" ++ drop (pos + 10) s ++ codes ")"
  ]
]
