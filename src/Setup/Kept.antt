-- ===== src/Setup/Kept.antt =====
-- Whether the service has what an input shows.
use alike.Base.{
  String, List, [], ◌∷◌, ◌++◌, Bool, true, false, some, ◌≡◌, refl, sym, ◌∙◌, str_eq, eq_iff,
  if◌then◌else◌, Bool-cases, inl, inr,
}
use alike.Setup.{Input, Call, update_setting, a3_set, focus, change}

-- the text that the service has after the calls
abbrev pub served : String → List Call → String
served s [] = s
served s (update_setting id t site ∷ cs) = served t cs
served s (a3_set id t ∷ cs) = served s cs

-- one visit of an input: the user focuses it, types a text and leaves it
abbrev pub visit : (String → String) → Input → String → Input × List Call
visit trim i t = change trim (record (focus trim i) { text = t })

name_served : (b : Bool) (t site : String) → t ≡ served t (if b then a3_set site t ∷ [] else [])
name_served true t site = refl
name_served false t site = refl

calls_served :
    (b : Bool) (s id t site : String)
    → served s ((update_setting id t site ∷ (if b then a3_set site t ∷ [] else [])) ++ []) ≡ t
calls_served true s id t site = refl
calls_served false s id t site = refl

module _ (trim : String → String) (trim_twice : (t : String) → trim (trim t) ≡ trim t) where
  -- After a visit of an input that shows what the service has, it shows so again: a text that is
  -- not blank is sent, unless it is the one before, and in place of a blank one stands the text
  -- before.
  pub visit-served :
      (i : Input) (id t s : String)
      → i.id ≡ some id
      → trim i.text ≡ s
      → trim (visit trim i t).0.text ≡ served s (visit trim i t).1
  unfolding focus change
  visit-served i id t s e h = elim (Bool-cases (str_eq (trim i.text) (trim t))) [
    | inl same ↦ rw (e, same) (sym ((eq_iff (trim i.text) (trim t)).0 same) ∙ h)
    | inr other ↦ elim (Bool-cases (str_eq (trim t) "")) [
      | inl blank ↦ rw (e, other, blank) (trim_twice i.text ∙ h)
      | inr kept ↦ rw (e, other, kept) (name_served i.is_a3name (trim t) i.site)
    ]
  ]

-- An input that is changed a second time without being focused again, back to the text that it had
-- when it was focused, shows that text, while the service keeps the other text, which was sent.
pub visit-change :
    (trim : String → String) (i : Input) (id t s : String)
    → i.id ≡ some id
    → str_eq (trim i.text) (trim t) ≡ false
    → str_eq (trim t) "" ≡ false
    → ((change trim (record (visit trim i t).0 { text = i.text })).0.text ≡ i.text)
      × (served s
            ((visit trim i t).1 ++ (change trim (record (visit trim i t).0 { text = i.text })).1)
          ≡ trim t)
unfolding focus change
visit-change trim i id t s e other kept =
    let same : str_eq (trim i.text) (trim i.text) ≡ true =
      (eq_iff (trim i.text) (trim i.text)).1 refl in
    rw (e, other, kept, same) (refl, calls_served i.is_a3name s id (trim t) i.site)
