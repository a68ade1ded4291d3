-- ===== src/Helpers/Origin.antt =====
-- bhwi-ffi/src/helpers.rs: the origin path of `build_singlesig_descriptor`.
use bhwi_ffi.Prelude.{
  ℕ, Bool, true, false, [], ◌∷◌, ◌++◌, eqb, ◌≡◌, ◌⊎◌, ◌∙◌, refl, ap, Bool-cases, inl, inr,
}
use bhwi_ffi.Text.{Text, chars, is_whitespace, trim, trim_start_by, trim_end_by}
use bhwi_ffi.Helpers.{slash, normalize_origin}

-- whether a text starts with a `char` that satisfies a predicate
abbrev pub starts_by : (ℕ → Bool) → Text → Bool
starts_by p [] = false
starts_by p (c ∷ s) = p c

abbrev pub ends_by : (ℕ → Bool) → Text → Bool
ends_by p [] = false
ends_by p (c ∷ []) = p c
ends_by p (c ∷ d ∷ s) = ends_by p (d ∷ s)

pub trim_start_by-stays : (p : ℕ → Bool) (s : Text) → starts_by p s ≡ false → trim_start_by p s ≡ s
unfolding trim_start_by
trim_start_by-stays p [] h = refl
trim_start_by-stays p (c ∷ s) h = rw h refl

pub starts_by-trim_start_by : (p : ℕ → Bool) (s : Text) → starts_by p (trim_start_by p s) ≡ false
unfolding trim_start_by
starts_by-trim_start_by p [] = refl
starts_by-trim_start_by p (c ∷ s) = elim (Bool-cases (p c)) [
  | inl e ↦ rw e (starts_by-trim_start_by p s)
  | inr e ↦ rw e e
]

-- the two ways in which the end of a text is trimmed
abbrev pub Trimmed : (ℕ → Bool) → ℕ → Text → Type 0
Trimmed p c s =
    ((p c ≡ true) × (trim_end_by p s ≡ []) × (trim_end_by p (c ∷ s) ≡ []))
    ⊎ (((p c ≡ false) × (trim_end_by p s ≡ []) × (trim_end_by p (c ∷ s) ≡ c ∷ []))
        ⊎ ((d : ℕ) × (t : Text) × (trim_end_by p s ≡ d ∷ t) × (trim_end_by p (c ∷ s) ≡ c ∷ d ∷ t)))

pub trim_end_by-cases : (p : ℕ → Bool) (c : ℕ) (s : Text) → Trimmed p c s
unfolding trim_end_by
trim_end_by-cases p c s = go (trim_end_by p s) refl
  where
    go : (r : Text) → trim_end_by p s ≡ r → Trimmed p c s
    go [] e = rw e (elim (Bool-cases (p c)) [
      | inl t ↦ rw t (inl (refl, refl, refl))
      | inr f ↦ rw f (inr (inl (refl, refl, refl)))
    ])
    go (d ∷ t) e = rw e (inr (inr (d, t, refl, refl)))

pub starts_by-trim_end_by :
    (p q : ℕ → Bool) (s : Text) → starts_by q s ≡ false → starts_by q (trim_end_by p s) ≡ false
unfolding trim_end_by
starts_by-trim_end_by p q [] h = refl
starts_by-trim_end_by p q (c ∷ s) h = elim (trim_end_by-cases p c s) [
  | inl (_, _, e) ↦ rw e refl
  | inr (inl (_, _, e)) ↦ rw e h
  | inr (inr (d, t, _, e)) ↦ rw e h
]

ends_by-trim_end_by : (p : ℕ → Bool) (s : Text) → ends_by p (trim_end_by p s) ≡ false
unfolding trim_end_by
ends_by-trim_end_by p [] = refl
ends_by-trim_end_by p (c ∷ s) = elim (trim_end_by-cases p c s) [
  | inl (_, _, e) ↦ rw e refl
  | inr (inl (f, _, e)) ↦ rw e f
  | inr (inr (d, t, e', e)) ↦ rw e (rw e' at (ends_by-trim_end_by p s))
]

abbrev pub is_m : ℕ → Bool
is_m c = eqb c b'm'

abbrev pub is_slash : ℕ → Bool
is_slash c = eqb c b'/'

-- The origin path of the descriptor neither starts nor ends with a slash.
pub normalize_origin-bare :
    (origin_path : Text)
    → (starts_by is_slash (normalize_origin origin_path) ≡ false)
      × (ends_by is_slash (normalize_origin origin_path) ≡ false)
unfolding normalize_origin
normalize_origin-bare origin_path = (
  starts_by-trim_end_by is_slash is_slash _ (starts_by-trim_start_by is_slash _),
  ends_by-trim_end_by is_slash _,
)

trim_end_by-keeps :
    (p : ℕ → Bool) (c : ℕ) (s : Text) → p c ≡ false → trim_end_by p (c ∷ s) ≡ c ∷ trim_end_by p s
trim_end_by-keeps p c s h = elim (trim_end_by-cases p c s) [
  | inl (t, _, _) ↦ cc (h, t)
  | inr (inl (_, e, e')) ↦ rw (e, e') refl
  | inr (inr (d, t, e, e')) ↦ rw (e, e') refl
]

pub normalize_origin-prefix :
    (path : Text)
    → starts_by is_whitespace path ≡ false
    → starts_by is_m path ≡ false
    → normalize_origin (chars "m/" ++ path) ≡ normalize_origin path
unfolding normalize_origin trim trim_start_by is_whitespace
normalize_origin-prefix path visible plain =
    let ends = trim_end_by is_whitespace path in
    let whole : trim (chars "m/" ++ path) ≡ b'm' ∷ slash ∷ ends =
      trim_end_by-keeps is_whitespace b'm' (slash ∷ path) refl
      ∙ ap (λ t. b'm' ∷ t) (trim_end_by-keeps is_whitespace slash path refl) in
    let bare : trim_start_by is_m ends ≡ ends =
      trim_start_by-stays is_m ends (starts_by-trim_end_by is_whitespace is_m path plain) in
    let same : trim path ≡ ends =
      ap (trim_end_by is_whitespace) (trim_start_by-stays is_whitespace path visible) in
    rw (whole, same, bare) refl
