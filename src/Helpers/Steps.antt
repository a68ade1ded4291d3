-- ===== src/Helpers/Steps.antt =====
-- The origin path of `build_singlesig_descriptor` in bhwi-ffi/src/helpers.rs: which part of it is kept,
-- written out on its own.
use bhwi_ffi.Prelude.{
  ◌↔◌, subst, ℕ, zero, suc, false, [], ◌∷◌, ◌++◌, eqb, replicate, ◌≡◌, ◌∙◌, arith, refl, ap,
  Bool-cases, inl, inr,
}
use bhwi_ffi.Text.{Text, trim, trim_start_by, trim_end_by}
use bhwi_ffi.Helpers.{normalize_origin}
use bhwi_ffi.Helpers.Origin.{
  starts_by, ends_by, is_m, is_slash, normalize_origin-bare, starts_by-trim_start_by,
  trim_start_by-stays, starts_by-trim_end_by, trim_end_by-cases,
}

-- The steps of a path, without the `m` before them and the slashes around them. More than one of
-- each may be there, and white space around all of it.
pub record IsOrigin (path steps : Text) : Type 0 where
  pub ms : ℕ
  pub before : ℕ
  pub behind : ℕ
  pub parts :
      trim path ≡ replicate ms b'm' ++ (replicate before b'/' ++ (steps ++ replicate behind b'/'))
  pub no_slash_first : starts_by is_slash steps ≡ false
  pub no_slash_last : ends_by is_slash steps ≡ false
  pub no_m_first : before ≡ 0 → starts_by is_m steps ≡ false

trim_start_by-replicate :
    (c : ℕ) (s : Text) → (n : ℕ) × (s ≡ replicate n c ++ trim_start_by (λ d. eqb d c) s)
unfolding trim_start_by
trim_start_by-replicate c [] = (0, refl)
trim_start_by-replicate c (d ∷ s) = elim (Bool-cases (eqb d c)) [
  | inl t ↦
      let (n, e) = trim_start_by-replicate c s in
      let same : d ≡ c = ground arith in (suc n, rw (t, same) (ap (λ x. c ∷ x) e))
  | inr f ↦ (0, rw f refl)
]

trim_end_by-replicate :
    (c : ℕ) (s : Text) → (n : ℕ) × (s ≡ trim_end_by (λ d. eqb d c) s ++ replicate n c)
unfolding trim_end_by
trim_end_by-replicate c [] = (0, refl)
trim_end_by-replicate c (d ∷ s) =
    let (n, e) = trim_end_by-replicate c s in
    elim (trim_end_by-cases (λ d. eqb d c) d s) [
      | inl (t, gone, left) ↦
          let same : d ≡ c = ground arith in
          (suc n, rw (left, same) (ap (λ x. c ∷ x) (rw gone at e)))
      | inr (inl (f, gone, left)) ↦ (n, rw left (ap (λ x. d ∷ x) (rw gone at e)))
      | inr (inr (f, t, rest, left)) ↦ (n, rw left (ap (λ x. d ∷ x) (rw rest at e)))
    ]

normalize_origin-IsOrigin : (path : Text) → IsOrigin path (normalize_origin path)
unfolding normalize_origin
normalize_origin-IsOrigin path =
    let t = trim path in
    let s = trim_start_by is_m t in
    let r = trim_start_by is_slash s in
    let (ms, me) = trim_start_by-replicate b'm' t in
    let (before, be) = trim_start_by-replicate b'/' s in
    let (behind, ee) = trim_end_by-replicate b'/' r in
    record {
      ms = ms;
      before = before;
      behind = behind;
      parts = me ∙ ap (λ x. replicate ms b'm' ++ x) (be ∙ ap (λ x. replicate before b'/' ++ x) ee);
      no_slash_first = (normalize_origin-bare path).0;
      no_slash_last = (normalize_origin-bare path).1;
      no_m_first = λ none.
          let same : s ≡ r = rw none at be in
          starts_by-trim_end_by is_slash is_m r (rw same at (starts_by-trim_start_by is_m t));
    }

trim_start_by-all :
    (c : ℕ) (n : ℕ) (s : Text)
    → starts_by (λ d. eqb d c) s ≡ false
    → trim_start_by (λ d. eqb d c) (replicate n c ++ s) ≡ s
unfolding trim_start_by
trim_start_by-all c zero s h = trim_start_by-stays (λ d. eqb d c) s h
trim_start_by-all c (suc n) s h = ground (arith, trim_start_by-all c n s h)

trim_start_by-replicate_nil :
    (c : ℕ) (n m : ℕ) → trim_start_by (λ d. eqb d c) (replicate n c ++ replicate m c) ≡ []
unfolding trim_start_by
trim_start_by-replicate_nil c zero zero = refl
trim_start_by-replicate_nil c zero (suc m) = ground (arith, trim_start_by-replicate_nil c zero m)
trim_start_by-replicate_nil c (suc n) m = ground (arith, trim_start_by-replicate_nil c n m)

trim_end_by-all :
    (c : ℕ) (n : ℕ) (s : Text)
    → ends_by (λ d. eqb d c) s ≡ false
    → trim_end_by (λ d. eqb d c) (s ++ replicate n c) ≡ s
unfolding trim_end_by
trim_end_by-all c zero [] h = refl
trim_end_by-all c (suc n) [] h = ground (arith, trim_end_by-all c n [] h)
trim_end_by-all c n (d ∷ []) h = ground (arith, trim_end_by-all c n [] refl)
trim_end_by-all c n (d ∷ e ∷ s) h = ground (arith, trim_end_by-all c n (e ∷ s) h)

starts_by-before :
    (before behind : ℕ) (steps : Text)
    → (before ≡ 0 → starts_by is_m steps ≡ false)
    → starts_by is_m (replicate before b'/' ++ (steps ++ replicate behind b'/')) ≡ false
starts_by-before (suc n) behind steps h = refl
starts_by-before zero behind (c ∷ s) h = h refl
starts_by-before zero zero [] h = refl
starts_by-before zero (suc n) [] h = refl

trimmed_slashes :
    (before behind : ℕ) (steps : Text)
    → starts_by is_slash steps ≡ false
    → ends_by is_slash steps ≡ false
    → trim_end_by is_slash
        (trim_start_by is_slash (replicate before b'/' ++ (steps ++ replicate behind b'/')))
      ≡ steps
trimmed_slashes before behind [] h k =
    ap (trim_end_by is_slash) (trim_start_by-replicate_nil b'/' before behind)
    ∙ trim_end_by-all b'/' 0 [] refl
trimmed_slashes before behind (c ∷ s) h k =
    ap (trim_end_by is_slash) (trim_start_by-all b'/' before _ h)
    ∙ trim_end_by-all b'/' behind (c ∷ s) k

IsOrigin-normalize_origin :
    (path steps : Text) → IsOrigin path steps → normalize_origin path ≡ steps
unfolding normalize_origin
IsOrigin-normalize_origin path steps o =
    let rest = replicate o.before b'/' ++ (steps ++ replicate o.behind b'/') in
    let plain = starts_by-before o.before o.behind steps o.no_m_first in
    ap (λ t. trim_end_by is_slash (trim_start_by is_slash (trim_start_by is_m t))) o.parts
    ∙ (ap (λ t. trim_end_by is_slash (trim_start_by is_slash t))
          (trim_start_by-all b'm' o.ms rest plain)
        ∙ trimmed_slashes o.before o.behind steps o.no_slash_first o.no_slash_last)

pub normalize_origin_iff :
    (path steps : Text) → IsOrigin path steps ↔ (normalize_origin path ≡ steps)
normalize_origin_iff path steps = (
  IsOrigin-normalize_origin path steps,
  λ e. subst (λ t. IsOrigin path t) e (normalize_origin-IsOrigin path),
)
