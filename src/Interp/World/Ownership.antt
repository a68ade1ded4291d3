-- ===== src/Interp/World/Ownership.antt =====
-- Who holds which lease, as a map from interpreters to leases beside the flags of the handles.
use bhwi_ffi.Prelude.{
  ℕ, Bool, true, false, Option, none, some, ◌≡◌, ◌↔◌, Eq, eqb, if◌then◌else◌, arith, inl, inr,
  Bool-cases,
}
use bhwi_ffi.Interp.Session.Leases.{coldcard}
use bhwi_ffi.Interp.Session.{StateLease, unleased, noise}

abbrev pub lease_beq : StateLease → StateLease → Bool
lease_beq unleased unleased = true
lease_beq (noise h) (noise k) = eqb h k
lease_beq (coldcard h) (coldcard k) = eqb h k
lease_beq _ _ = false

pub lease_beq_iff : (a b : StateLease) → (lease_beq a b ≡ true) ↔ (a ≡ b)
lease_beq_iff a b = ground arith

instance abbrev pub lease_eq : Eq StateLease
lease_eq = record { beq = lease_beq; beq_iff = lease_beq_iff }

-- the lease of a handle, and not the absence of one
abbrev pub is_real : StateLease → Bool
is_real unleased = false
is_real _ = true

-- Each lease that is out has one holder, and a lease with a holder is out.
pub record IsExclusive (holds : ℕ → Option StateLease) (out : StateLease → Bool) : Type 0 where
  pub held : (i : ℕ) (l : StateLease) → holds i ≡ some l → is_real l ≡ true → out l ≡ true
  pub exclusive :
      (i j : ℕ) (l : StateLease) → holds i ≡ some l → holds j ≡ some l → is_real l ≡ true → i ≡ j
  pub owned : (l : StateLease) → out l ≡ true → (i : ℕ) × (holds i ≡ some l)
  pub real : (l : StateLease) → out l ≡ true → is_real l ≡ true

module _ {g : ℕ → Option StateLease} {out : StateLease → Bool} (ex : IsExclusive g out)
    {g' : ℕ → Option StateLease} {out' : StateLease → Bool} where
  pub IsExclusive-same :
      ((j : ℕ) → g' j ≡ g j) → ((k : StateLease) → out' k ≡ out k) → IsExclusive g' out'
  IsExclusive-same hg ho = record {
    held = λ i l h r. ground (arith, hg i, ho l, ex.held i l);
    exclusive = λ i j l h k r. ground (arith, hg i, hg j, ex.exclusive i j l);
    owned = λ l o. let (i, h) = ex.owned l (ground (arith, ho l)) in (i, ground (arith, hg i));
    real = λ l o. ground (arith, ho l, ex.real l);
  }

  -- The holder `i` of `l` gives it up.
  pub IsExclusive-drop :
      (i : ℕ) (l : StateLease)
      → g i ≡ some l
      → ((j : ℕ) → g' j ≡ (if eqb i j then none else g j))
      → ((k : StateLease) → out' k ≡ (if lease_beq k l then false else out k))
      → IsExclusive g' out'
  IsExclusive-drop i l e hg ho = record {
    held =
        λ j k h r. ground (arith, hg j, ho k, ex.held j k, ex.exclusive i j k, lease_beq_iff k l);
    exclusive = λ j k m h1 h2 r. ground (arith, hg j, hg k, ex.exclusive j k m);
    owned = λ k o.
        let (j, h) = ex.owned k (ground (arith, ho k)) in
        (j, ground (arith, hg j, ho k, lease_beq_iff k l));
    real = λ k o. ground (arith, ho k, ex.real k);
  }

  -- A new interpreter `n` takes `l`, which was not out.
  pub IsExclusive-take :
      (n : ℕ) (l : StateLease)
      → g n ≡ none
      → out l ≡ false
      → ((j : ℕ) → g' j ≡ (if eqb n j then some l else g j))
      → ((k : StateLease) → out' k ≡ (if lease_beq k l then is_real l else out k))
      → IsExclusive g' out'
  IsExclusive-take n l e f hg ho = record {
    held = λ j k h r. ground (arith, hg j, ho k, ex.held j k, lease_beq_iff k l);
    exclusive =
        λ j k m h1 h2 r. ground (arith, hg j, hg k, ex.exclusive j k m, ex.held j m, ex.held k m);
    owned = λ k o. elim (Bool-cases (lease_beq k l)) [
      | inl same ↦ (n, ground (arith, hg n, lease_beq_iff k l))
      | inr other ↦ let (i, h) = ex.owned k (ground (arith, ho k)) in (i, ground (arith, hg i))
    ];
    real = λ k o. ground (arith, ho k, ex.real k, lease_beq_iff k l);
  }
