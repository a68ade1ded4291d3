-- ===== src/Interp/Fidelity/Lookups.antt =====
-- The Boolean tests that the PSBT checks are made of, as statements.
use bhwi_ffi.Prelude.{
  ℕ, Bool, true, false, not, ◌&&◌, ◌||◌, Option, none, some, List, [], ◌∷◌, Eq, ◌==◌, all, All,
  All-map, Any, filter_by, eqb, nat_eq, list_eq, option_eq, ◌≡◌, ◌≢◌, ◌↔◌, ◌⊎◌, inl, inr, refl,
  arith, list_beq_iff, all-filter_by_iff,
}
use bhwi_ffi.Text.{Bytes}
use bhwi_ffi.Error.{HwiError, Outcome, ok, reject_if, ◌>>◌}
use bhwi_ffi.Interp.Fidelity.{pushes, none_or, map_or}

pub pushes_iff :
    (script : List (Option (Option Bytes))) (sig : Bytes) (found : Bool)
    → (pushes script sig found ≡ true)
      ↔ (All (λ i. i ≢ none) script × ((found ≡ true) ⊎ Any (λ i. i ≡ some (some sig)) script))
unfolding pushes
pushes_iff [] sig found = (λ h. (tt, inl h), λ (_, c). elim c [ inl h ↦ h | inr b ↦ absurd b ])
pushes_iff (none ∷ rest) sig found = (λ h. cc h, λ (a, _). absurd (a.0 refl))
pushes_iff (some none ∷ rest) sig found = ground (arith, pushes_iff rest sig found)
pushes_iff (some (some push) ∷ rest) sig found =
    ground (arith, pushes_iff rest sig (found || (push == sig)), list_beq_iff push sig)

pub or_iff : (a b : Bool) → ((a || b) ≡ true) ↔ ((a ≡ true) ⊎ (b ≡ true))
or_iff a b = ground arith

and_iff : (a b : Bool) → ((a && b) ≡ true) ↔ ((a ≡ true) × (b ≡ true))
and_iff a b = ground arith

-- `map_or_else(|| otherwise, |r| r == sig)`
pub kept_iff {ℓ} :
    {V : Type ℓ} (e : Eq V) (otherwise : Bool) (sig : V) (o : Option V)
    → (map_or otherwise (λ r. ◌==◌ ⦃e = e⦄ r sig) o ≡ true)
      ↔ ((o ≡ some sig) ⊎ ((o ≡ none) × (otherwise ≡ true)))
kept_iff e otherwise sig none = ground arith
kept_iff e otherwise sig (some r) = ground (arith, e.beq_iff r sig)

pub same_iff {ℓ} :
    {V : Type ℓ} (e : Eq V) (a : V) (o : Option V)
    → (map_or false (λ r. ◌==◌ ⦃e = e⦄ r a) o ≡ true) ↔ (o ≡ some a)
same_iff e a none = ground arith
same_iff e a (some r) = ground (arith, e.beq_iff r a)

none_or_iff {ℓ} :
    {A : Type ℓ} (p : A → Bool) (o : Option A)
    → (none_or p o ≡ true) ↔ ((a : A) → o ≡ some a → p a ≡ true)
none_or_iff p none = (λ h a e. cc e, λ f. refl)
none_or_iff p (some a) = (λ h b e. ground arith, λ f. f a refl)

pub none_or_map {ℓ} :
    {A : Type ℓ} (p : A → Bool) (Q : A → Type 0) (o : Option A)
    → ((a : A) → (p a ≡ true) ↔ Q a)
    → (none_or p o ≡ true) ↔ ((a : A) → o ≡ some a → Q a)
none_or_map p Q o f = (
  λ h a e. (f a).0 ((none_or_iff p o).0 h a e),
  λ g. (none_or_iff p o).1 (λ a e. (f a).1 (g a e)),
)

pub filtered_iff {ℓ} :
    {A : Type ℓ} (p q : A → Bool) (Q : A → Type 0)
    → ((a : A) → (q a ≡ true → p a ≡ true) ↔ Q a)
    → (xs : List A) → (all p (filter_by q xs) ≡ true) ↔ All Q xs
filtered_iff p q Q f xs = (
  λ h. All-map (λ a. (f a).0) xs ((all-filter_by_iff p q xs).0 h),
  λ h. (all-filter_by_iff p q xs).1 (All-map (λ a. (f a).1) xs h),
)

pub new_key_iff {ℓ} :
    {V : Type ℓ} {b : Bool} {Q : Type 0} (o : Option V)
    → (b ≡ true) ↔ Q
    → ((map_or false (λ v. true) o || b) ≡ true) ↔ (o ≡ none → Q)
new_key_iff none q = (λ h _. q.0 h, λ f. q.1 (f refl))
new_key_iff (some v) q = (λ h e. cc e, λ f. refl)

pub tx_guard_iff :
    (a : Bool) (m n : ℕ) (e : HwiError) (rest : Outcome (Unit {0}))
    → ((reject_if (not a || not (eqb m n)) e >> rest) ≡ ok tt)
      ↔ ((a ≡ true) × (m ≡ n) × (rest ≡ ok tt))
tx_guard_iff a m n e rest = ground arith
