-- ===== src/Explorer/Rows.antt =====
-- Where the rows of the list lead to.
use alike.Base.{
  ℕ, List, [], ◌∷◌, ◌++◌, map, ◌≡◌, refl, All, Bool, true, false, not, ◌||◌, ◌==◌, any, Option,
  arith, ap, ◌∙◌, Bool-cases, inl, inr,
}
use alike.Explorer.{
  slash, closed, flr_folder, flr_file, without_ends, Entry, dir, file, Row, dir_row, file_row, rows,
  up_to_quote, attribute, is_braced, data_text, ends_with_slash,
}
use alike.Explorer.Parts.{parts, Plain, parts-closed, parts-closed_nil, parts-Plain, parts-slash}

abbrev pub entry_name : Entry → List ℕ
entry_name (dir name) = without_ends name
entry_name (file name) = without_ends name

-- an ampersand, a greater-than sign, a carriage return or a null: the browser or jQuery may change
-- an attribute that has one
abbrev pub is_special : ℕ → Bool
is_special c = c == 38 || c == 62 || c == 13 || c == 0

-- no single quote and nothing special
abbrev pub is_clean : List ℕ → Bool
is_clean t = not (any (λ c. c == 39 || is_special c) t)

-- the empty path, or one that begins with a slash
abbrev pub is_rooted : List ℕ → Bool
is_rooted [] = true
is_rooted (c ∷ s) = c == slash

-- a name that is one part, clean, and not in braces or brackets
abbrev pub IsPlain : Entry → Type 0
IsPlain d =
    Plain (entry_name d) × (is_clean (entry_name d) ≡ true) × (is_braced (entry_name d) ≡ false)

up_to_quote-clean : (t : List ℕ) → is_clean t ≡ true → up_to_quote t ≡ t
unfolding up_to_quote
up_to_quote-clean [] h = refl
up_to_quote-clean (c ∷ t) h = ground (arith, up_to_quote-clean t)

clean-slash : (t : List ℕ) → is_clean t ≡ true → is_clean (t ++ slash ∷ []) ≡ true
clean-slash [] h = refl
clean-slash (c ∷ t) h = ground (arith, clean-slash t)

clean-closed : (p : List ℕ) → is_clean p ≡ true → is_clean (closed p) ≡ true
unfolding closed
clean-closed p h = elim (Bool-cases (ends_with_slash p)) [
  | inl e ↦ rw (e, closed) h
  | inr e ↦ rw (e, closed) (clean-slash p h)
]

rooted-closed : (p : List ℕ) → is_rooted p ≡ true → is_rooted (closed p) ≡ true
unfolding closed
rooted-closed [] h = refl
rooted-closed (c ∷ s) h = elim (Bool-cases (ends_with_slash (c ∷ s))) [
  | inl e ↦ rw (e, closed) h
  | inr e ↦ rw (e, closed) h
]

rooted-braced : (p : List ℕ) → is_rooted p ≡ true → is_braced p ≡ false
unfolding is_braced
rooted-braced [] h = refl
rooted-braced (c ∷ s) h = ground arith

module _ (decode : List ℕ → List ℕ) (json : List ℕ → Option (List ℕ))
    (decode_plain : (t : List ℕ) → any is_special t ≡ false → decode t ≡ t) where
  -- the path that a click on a row browses or downloads
  abbrev pub target : Row → List ℕ
  target (dir_row f) = flr_folder (attribute decode f.path) (attribute decode f.name)
  target (file_row path name) = flr_file json (attribute decode path) (attribute decode name)

  attribute-clean : (t : List ℕ) → is_clean t ≡ true → attribute decode t ≡ t
  unfolding attribute
  attribute-clean t h = rw (attribute, up_to_quote-clean t h) (decode_plain t (no_special t h))
    where
      no_special : (u : List ℕ) → is_clean u ≡ true → any is_special u ≡ false
      no_special [] k = refl
      no_special (c ∷ u) k = ground (arith, no_special u)

  data_text-plain : (t : List ℕ) → is_braced t ≡ false → data_text json t ≡ t
  unfolding data_text
  data_text-plain t h = rw (data_text, h) refl

  file-target :
      (p n : List ℕ)
      → is_clean p ≡ true
      → is_clean n ≡ true
      → is_braced p ≡ false
      → is_braced n ≡ false
      → flr_file json (attribute decode p) (attribute decode n) ≡ p ++ n
  unfolding flr_file
  file-target p n cp cn bp bn =
      ap (λ x. flr_file json x (attribute decode n)) (attribute-clean p cp)
      ∙ ap (λ x. flr_file json p x) (attribute-clean n cn)
      ∙ ap (λ x. x ++ data_text json n) (data_text-plain p bp)
      ∙ ap (λ x. p ++ x) (data_text-plain n bn)

  -- Take a path that is empty or begins with a slash, and entries whose names, without a slash at either
  -- end, have no slash, are not empty and are not in braces or brackets, all without single quotes,
  -- ampersands, greater-than signs, carriage returns and nulls. A click on the row of each leads to the path of the list with that name as one
  -- part more.
  pub rows-parts :
      (relpath : List ℕ) (entries : List Entry)
      → is_rooted relpath ≡ true
      → is_clean relpath ≡ true
      → All IsPlain entries
      → map (λ r. parts (target r)) (rows relpath entries)
        ≡ map (λ d. parts relpath ++ entry_name d ∷ []) entries
  unfolding rows flr_folder
  rows-parts relpath [] r c h = refl
  rows-parts relpath (dir name ∷ entries) r c ((p, k, b), h) =
      rw
        (
          attribute-clean relpath c,
          attribute-clean (without_ends name ++ slash ∷ []) (clean-slash (without_ends name) k),
          parts-closed relpath (without_ends name ++ slash ∷ []),
          parts-slash (without_ends name) p,
          rows-parts relpath entries r c h,
        )
        refl
  rows-parts relpath (file name ∷ entries) r c ((p, k, b), h) =
      rw
        (
          file-target (closed relpath) (without_ends name) (clean-closed relpath c) k
              (rooted-braced (closed relpath) (rooted-closed relpath r)) b,
          parts-closed relpath (without_ends name),
          parts-Plain (without_ends name) p,
          rows-parts (closed relpath) entries (rooted-closed relpath r) (clean-closed relpath c) h,
          parts-closed_nil relpath,
        )
        refl
