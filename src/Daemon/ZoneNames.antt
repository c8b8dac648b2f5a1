-- ===== src/Daemon/ZoneNames.antt =====
-- cmd/infinid/main.go, parseZoneNames. A Go string is the list of its bytes; a rune that is not
-- ASCII is refused as its bytes are. `none` is `log.Fatal`, which ends the program.
use infinid.Prelude.{
  ℕ, ◌≡◌, refl, sym, ap, ◌∙◌, Bool, true, false, not, ◌&&◌, ◌||◌, Option, none, some, List, [], ◌∷◌,
  ◌++◌, leb, ◌==◌, if◌then◌else◌, append_assoc, append-nil, length, arith,
}

-- `strings.Split(s, ",")`, after the bytes of the part so far.
unfoldable pub split : List ℕ → List ℕ → List (List ℕ)
split part [] = part ∷ []
split part (c ∷ s) =
    let next = split [] s in
    let more = split (part ++ c ∷ []) s in if c == b',' then part ∷ next else more

abbrev pub is_slug_byte : ℕ → Bool
is_slug_byte c = (leb b'a' c && leb c b'z') || ((leb b'0' c && leb c b'9') || c == b'_')

abbrev pub all_slug : List ℕ → Bool
all_slug [] = true
all_slug (c ∷ p) = is_slug_byte c && all_slug p

abbrev pub is_slug : List ℕ → Bool
is_slug p = all_slug p && not (length p == 0)

-- The loop over the parts.
abbrev pub all_slugs : List (List ℕ) → Bool
all_slugs [] = true
all_slugs (p ∷ ps) = is_slug p && all_slugs ps

unfoldable pub parse_zone_names : List ℕ → Option (List (List ℕ))
unfolding split
parse_zone_names s =
    if length s == 0
    then some []
    else let parts = split [] s in if all_slugs parts then some parts else none

-- The flag's text for some names.
abbrev pub join : List (List ℕ) → List ℕ
join [] = []
join (p ∷ []) = p
join (p ∷ q ∷ ps) = p ++ (b',' ∷ join (q ∷ ps))

is_slug_byte-comma : (c : ℕ) → is_slug_byte c ≡ true → (c == b',') ≡ false
is_slug_byte-comma c h = ground arith

split-cons :
    (part : List ℕ) (c : ℕ) (s : List ℕ)
    → split part (c ∷ s) ≡ (if c == b',' then part ∷ split [] s else split (part ++ c ∷ []) s)
unfolding split
split-cons part c s = refl

-- A part without commas goes into the part so far.
split-append : (p part s : List ℕ) → all_slug p ≡ true → split part (p ++ s) ≡ split (part ++ p) s
split-append [] part s h = ap (λ q. split q s) (sym (append-nil part))
split-append (c ∷ p) part s h =
    split-cons part c (p ++ s)
    ∙ ap (λ b. if b then part ∷ split [] (p ++ s) else split (part ++ c ∷ []) (p ++ s))
        (is_slug_byte-comma c (ground arith))
    ∙ split-append p (part ++ c ∷ []) s (ground arith)
    ∙ ap (λ q. split q s) (append_assoc part (c ∷ []) p)

split-join :
    (p : List ℕ) (ps : List (List ℕ))
    → all_slugs (p ∷ ps) ≡ true
    → split [] (join (p ∷ ps)) ≡ p ∷ ps
unfolding split
split-join p [] h = ap (split []) (sym (append-nil p)) ∙ split-append p [] [] (ground arith)
split-join p (q ∷ ps) h =
    split-append p [] (b',' ∷ join (q ∷ ps)) (ground arith)
    ∙ split-cons p b',' (join (q ∷ ps))
    ∙ ap (λ rest. p ∷ rest) (split-join q ps (ground arith))

join-filled :
    (p : List ℕ) (ps : List (List ℕ)) → is_slug p ≡ true → (length (join (p ∷ ps)) == 0) ≡ false
join-filled [] ps h = cc
join-filled (c ∷ p) [] h = ground arith
join-filled (c ∷ p) (q ∷ ps) h = ground arith

-- The text of one or more names, each of lower-case letters, digits and underscores and not empty,
-- with commas between them, is read as these names.
pub parse_zone_names-join :
    (p : List ℕ) (ps : List (List ℕ))
    → all_slugs (p ∷ ps) ≡ true
    → parse_zone_names (join (p ∷ ps)) ≡ some (p ∷ ps)
unfolding parse_zone_names
parse_zone_names-join p ps h =
    let s = join (p ∷ ps) in
    ap (λ b. if b then some [] else if all_slugs (split [] s) then some (split [] s) else none)
      (join-filled p ps (ground arith))
    ∙ ap (λ parts. if all_slugs parts then some parts else none) (split-join p ps h)
    ∙ ap (λ b. if b then some (p ∷ ps) else none) h
