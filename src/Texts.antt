-- ===== src/Texts.antt =====
-- Texts as lists of UTF-16 code units, with what the value objects of src/modules/*/domain use of
-- JavaScript's strings: `===`, `trim` and `split`, and the character classes of their patterns.
use nest_kit.Base.{
  ℕ, ◌≡◌, refl, sym, ap, ◌≢◌, ◌↔◌, inl, inr, Bool, true, false, ◌&&◌, ◌||◌, List, [], ◌∷◌, ◌++◌,
  arith, leb, ◌==◌, if◌then◌else◌, ==_iff, Bool-cases, All,
}

abbrev pub Text : Type 0
Text = List ℕ

-- `a === b`
unfoldable pub same : Text → Text → Bool
same [] [] = true
same [] (d ∷ ds) = false
same (c ∷ cs) [] = false
same (c ∷ cs) (d ∷ ds) = (c == d) && same cs ds

pub same_refl : (a : Text) → same a a ≡ true
unfolding same
same_refl [] = refl
same_refl (c ∷ cs) = ground (arith, same_refl cs)

pub same→eq : (a b : Text) → same a b ≡ true → a ≡ b
unfolding same
same→eq [] [] h = refl
same→eq [] (d ∷ ds) h = cc
same→eq (c ∷ cs) [] h = cc
same→eq (c ∷ cs) (d ∷ ds) h = ground (arith, same→eq cs ds)

pub same_iff : (a b : Text) → (same a b ≡ true) ↔ (a ≡ b)
same_iff a b = (same→eq a b, λ e. rw e (same_refl b))

-- The white space and line terminators of ECMAScript
unfoldable pub is_space : ℕ → Bool
is_space c =
    (leb 9 c && leb c 13)
    || (c == 32)
    || (c == 160)
    || (c == 5760)
    || (leb 8192 c && leb c 8202)
    || (c == 8232)
    || (c == 8233)
    || (c == 8239)
    || (c == 8287)
    || (c == 12288)
    || (c == 65279)

unfoldable pub trim_start : Text → Text
trim_start [] = []
trim_start (c ∷ cs) = let rest = trim_start cs in if is_space c then rest else c ∷ cs

abbrev pub is_empty {ℓ} : {A : Type ℓ} → List A → Bool
is_empty [] = true
is_empty (x ∷ xs) = false

unfoldable pub trim_end : Text → Text
trim_end [] = []
trim_end (c ∷ cs) = let rest = trim_end cs in if is_space c && is_empty rest then [] else c ∷ rest

unfoldable pub trim : Text → Text
trim cs = trim_end (trim_start cs)

trim_start_id : (c : ℕ) (cs : Text) → is_space c ≡ false → trim_start (c ∷ cs) ≡ c ∷ cs
unfolding trim_start
trim_start_id c cs h = rw h

trim_end_id : (cs : Text) → All (λ c. is_space c ≡ false) cs → trim_end cs ≡ cs
unfolding trim_end
trim_end_id [] h = refl
trim_end_id (c ∷ cs) (p, h) = rw (p, trim_end_id cs h)

-- A text without white space is what it is trimmed to.
pub trim_id : (cs : Text) → All (λ c. is_space c ≡ false) cs → trim cs ≡ cs
unfolding trim
trim_id [] h = unfold trim_start trim_end in refl
trim_id (c ∷ cs) (p, h) = rw (trim_start_id c cs p) (trim_end_id (c ∷ cs) (p, h))

-- One more character in the first part
abbrev onto_first : ℕ → List Text → List Text
onto_first c [] = (c ∷ []) ∷ []
onto_first c (p ∷ ps) = (c ∷ p) ∷ ps

-- `split(separator)` for a separator of one character
unfoldable pub split : ℕ → Text → List Text
split sep [] = [] ∷ []
split sep (c ∷ cs) = let rest = split sep cs in if c == sep then [] ∷ rest else onto_first c rest

-- `join(separator)`
unfoldable pub join : ℕ → List Text → Text
join sep [] = []
join sep (p ∷ []) = p
join sep (p ∷ q ∷ ps) = p ++ sep ∷ join sep (q ∷ ps)

join-onto_first : (sep c : ℕ) (ps : List Text) → join sep (onto_first c ps) ≡ c ∷ join sep ps
unfolding join
join-onto_first sep c [] = refl
join-onto_first sep c (p ∷ []) = refl
join-onto_first sep c (p ∷ q ∷ ps) = refl

onto_first_ne : (c : ℕ) (ps : List Text) → onto_first c ps ≢ []
onto_first_ne c [] e = cc
onto_first_ne c (p ∷ ps) e = cc

split-ne : (sep : ℕ) (cs : Text) → split sep cs ≢ []
unfolding split
split-ne sep [] e = cc
split-ne sep (c ∷ cs) e = elim (Bool-cases (c == sep)) [
  | inl h ↦ cc (rw h at e)
  | inr h ↦ onto_first_ne c (split sep cs) (rw h at e)
]

join_cons :
    (sep : ℕ) (p : Text) (ps : List Text) → ps ≢ [] → join sep (p ∷ ps) ≡ p ++ sep ∷ join sep ps
unfolding join
join_cons sep p [] h = absurd (h refl)
join_cons sep p (q ∷ ps) h = refl

-- Splitting loses nothing.
pub join-split : (sep : ℕ) (cs : Text) → join sep (split sep cs) ≡ cs
unfolding split
join-split sep [] = unfold join in refl
join-split sep (c ∷ cs) = elim (Bool-cases (c == sep)) [
  | inl h ↦
      rw (h, join_cons sep [] (split sep cs) (split-ne sep cs), join-split sep cs)
        (ap (λ x. x ∷ cs) (sym ((==_iff c sep).0 h)))
  | inr h ↦ rw (h, join-onto_first sep c (split sep cs), join-split sep cs)
]

abbrev pub IsFreeOf : ℕ → Text → Type 0
IsFreeOf sep cs = All (λ c. (c == sep) ≡ false) cs

split_free : (sep : ℕ) (cs : Text) → IsFreeOf sep cs → split sep cs ≡ cs ∷ []
unfolding split
split_free sep [] h = refl
split_free sep (c ∷ cs) (p, h) = rw (p, split_free sep cs h)

-- Two texts without the separator, joined by it, are split into these two.
pub split_pair :
    (sep : ℕ) (a b : Text) → IsFreeOf sep a → IsFreeOf sep b → split sep (a ++ sep ∷ b) ≡ a ∷ b ∷ []
unfolding split
split_pair sep [] b ha hb = rw ((==_iff sep sep).1 refl, split_free sep b hb)
split_pair sep (c ∷ a) b (p, ha) hb = rw (p, split_pair sep a b ha hb)

-- `[a-z]`
unfoldable pub is_lower : ℕ → Bool
is_lower c = leb 97 c && leb c 122

-- `[a-z0-9-]`
unfoldable pub is_name_char : ℕ → Bool
is_name_char c = is_lower c || (leb 48 c && leb c 57) || (c == 45)
