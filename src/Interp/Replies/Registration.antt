-- ===== src/Interp/Replies/Registration.antt =====
-- bhwi-ffi/src/interp.rs: the reply that completes a Ledger registration.
use bhwi_ffi.Prelude.{
  ℕ, ◌+◌, ◌-◌, ◌*◌, ◌^◌, ◌≤◌, ◌<◌, ◌≡◌, ◌≢◌, ◌↔◌, refl, Bool, true, false, not, some, [], ◌∷◌, ◌++◌,
  ltb, eqb, length, slice, take, drop, if◌then◌else◌, ◌==◌, list_eq, nat_eq, arith, ap, sym, ◌∙◌,
  length-append, drop-append, take-length, take-append, take-append-drop, length-drop,
  split_last_two, list_beq_iff,
}
use native.Mathlib.Decide.{dec_lt, ℕ_discrete}
use bhwi_ffi.Text.{Bytes}
use bhwi_ffi.Error.{Outcome, ok, panicked, ◌>>=◌}
use bhwi_ffi.Interp.Replies.{bad_registration, unwrap}

slice_eq :
    (xs : Bytes) (i j : ℕ) → i ≤ j → j ≤ length xs → slice xs i j ≡ some (take (j - i) (drop i xs))
slice_eq xs i j p q = ground arith

-- the last two bytes
status_field :
    (body : Bytes) (a b n : ℕ)
    → n ≡ length (body ++ a ∷ b ∷ [])
    → slice (body ++ a ∷ b ∷ []) (n - 2) n ≡ some (a ∷ b ∷ [])
status_field body a b n e =
    let long = length-append body (a ∷ b ∷ []) in
    let start : n - 2 ≡ length body = omega arith in
    let width : n - length body ≡ 2 = omega arith in
    slice_eq _ (n - 2) n (omega arith) (omega arith)
    ∙ rw (start, width, drop-append body (a ∷ b ∷ [])) refl

-- the first 32 bytes of 66
identity_field :
    (body : Bytes) (a b : ℕ)
    → length body ≡ 64
    → slice (body ++ a ∷ b ∷ []) 0 32 ≡ some (take 32 body)
identity_field body a b h =
    slice_eq _ 0 32 (omega arith) (omega (arith, length-append body (a ∷ b ∷ [])))
    ∙ ap some (take-append 32 body (a ∷ b ∷ []) (omega arith))

module _ (status_ok : ℕ → Bool) (id : Bytes) where
  abbrev Rest : Bytes → Bool → Outcome Bool
  Rest reply final =
      if not final
      then ok false
      else (if not (eqb (length reply) 66)
          then ok true
          else do field ← unwrap (slice reply 0 32); ok (not (field == id)))

  bad_registration_at :
      (body : Bytes) (a b : ℕ)
      → bad_registration status_ok id (body ++ a ∷ b ∷ [])
        ≡ Rest (body ++ a ∷ b ∷ []) (status_ok (a * 2 ^ 8 + b))
  unfolding bad_registration
  bad_registration_at body a b =
      let long : ltb (length (body ++ a ∷ b ∷ [])) 2 ≡ false =
        ground (arith, length-append body (a ∷ b ∷ [])) in
      rw (long, status_field body a b _ refl) refl

  bad_registration_short :
      (reply : Bytes) → length reply < 2 → bad_registration status_ok id reply ≡ ok false
  unfolding bad_registration
  bad_registration_short reply h = ground arith

  -- 64 bytes of data that begin with the policy's identity
  abbrev pub IsBound : Bytes → Type 0
  IsBound body = (hmac : Bytes) × (body ≡ id ++ hmac) × (length hmac ≡ 32)

  Rest_wrong :
      (body : Bytes) (a b : ℕ) → length body ≢ 64 → Rest (body ++ a ∷ b ∷ []) true ≡ ok true
  Rest_wrong body a b h =
      let long : eqb (length (body ++ a ∷ b ∷ [])) 66 ≡ false =
        ground (arith, length-append body (a ∷ b ∷ [])) in
      rw long refl

  Rest_right :
      (body : Bytes) (a b : ℕ)
      → length body ≡ 64
      → Rest (body ++ a ∷ b ∷ []) true ≡ ok (not (take 32 body == id))
  Rest_right body a b h =
      let long : eqb (length (body ++ a ∷ b ∷ [])) 66 ≡ true =
        ground (arith, length-append body (a ∷ b ∷ [])) in
      rw (long, identity_field body a b h) refl

  IsBound-iff :
      (body : Bytes)
      → length id ≡ 32
      → length body ≡ 64
      → (ok (not (take 32 body == id)) ≡ ok false) ↔ IsBound body
  IsBound-iff body sized h = (
    λ e.
        let same : take 32 body ≡ id = (list_beq_iff (take 32 body) id).0 (ground arith) in
        (
          drop 32 body,
          sym (take-append-drop 32 body) ∙ ap (λ r. r ++ drop 32 body) same,
          omega (arith, length-drop 32 body),
        ),
    λ (hmac, e, _).
        let same : take 32 body ≡ id =
          ap (take 32) e
          ∙ take-append 32 id hmac (omega arith)
          ∙ (ap (λ n. take n id) (sym sized) ∙ take-length id) in
        ground (arith, list_beq_iff (take 32 body) id),
  )

  Rest_iff :
      (body : Bytes) (a b : ℕ) (final : Bool)
      → length id ≡ 32
      → (Rest (body ++ a ∷ b ∷ []) final ≡ ok false) ↔ (final ≡ true → IsBound body)
  Rest_iff body a b false sized = (λ _ e. cc e, λ _. refl)
  Rest_iff body a b true sized = elim (ℕ_discrete (length body) 64) [
    | yes h ↦
        let (there, back) = IsBound-iff body sized h in
        (λ e _. there (sym (Rest_right body a b h) ∙ e), λ f. Rest_right body a b h ∙ back (f refl))
    | no h ↦ (
      λ e _. cc (e, Rest_wrong body a b h),
      λ f.
          let (hmac, e, n) = f refl in
          absurd (h (omega (arith, ap (length {0}) e, length-append id hmac))),
    )
  ]

  Rest-total : (body : Bytes) (a b : ℕ) (final : Bool) → Rest (body ++ a ∷ b ∷ []) final ≢ panicked
  Rest-total body a b false h = cc h
  Rest-total body a b true h = elim (ℕ_discrete (length body) 64) [
    | yes e ↦ cc (h, Rest_right body a b e)
    | no n ↦ cc (h, Rest_wrong body a b n)
  ]

  pub bad_registration-total : (reply : Bytes) → bad_registration status_ok id reply ≢ panicked
  bad_registration-total reply h = elim (dec_lt (length reply) 2) [
    | yes short ↦ cc (h, bad_registration_short reply short)
    | no long ↦
        let (body, a, b, e) = split_last_two reply (omega arith) in
        Rest-total body a b _
          (sym (bad_registration_at body a b) ∙ ap (bad_registration status_ok id) (sym e) ∙ h)
  ]

  -- While a registration is under way, a reply that ends in a status word is let through to the
  -- Ledger interpreter exactly when, if that word is the final success, the data before it is the
  -- 32 bytes of the identity of the policy that was sent followed by 32 bytes, the HMAC.
  pub bad_registration_iff :
      (body : Bytes) (a b : ℕ)
      → length id ≡ 32
      → (bad_registration status_ok id (body ++ a ∷ b ∷ []) ≡ ok false)
        ↔ (status_ok (a * 2 ^ 8 + b) ≡ true → IsBound body)
  bad_registration_iff body a b sized =
      rw (bad_registration_at body a b) (Rest_iff body a b _ sized)
