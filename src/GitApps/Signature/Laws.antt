-- ===== src/GitApps/Signature/Laws.antt =====
-- service/git_webhook_signature.go: which deliveries are signed.
use casa_os_app_management.Prelude.{
  ℕ, String, ◌≡◌, inl, inr, refl, sym, ap, ◌∙◌, Bool, true, false, not, ◌&&◌, ◌||◌, none, some,
  List, [], ◌∷◌, arith, ◌=ℕ◌, if◌then◌else◌, Bool-cases, length, any,
}
use casa_os_app_management.GitApps.Signature.{
  ForgeHeaders, Header, git_webhook_forges, git_webhook_signature_valid, signed_by_values,
  unless_returned, signed_by, git_webhook_signed,
}

abbrev pub has_value : List (List ℕ) → Bool
has_value [] = false
has_value (v ∷ vs) = true

or_false : (b : Bool) → b ≡ (b || false)
or_false b = ground arith

or_true : (b : Bool) → (b || true) ≡ true
or_true b = ground arith

module _ (header : Header) (want secret : List ℕ) where
  -- a signature header with a value
  abbrev pub is_sent : ForgeHeaders → Bool
  is_sent f = has_value (header f.signature)

  -- a signature header with a value that is not valid
  abbrev pub is_contradicted : ForgeHeaders → Bool
  is_contradicted f =
      any (λ v. not (git_webhook_signature_valid f.signature v want secret)) (header f.signature)

  values_read :
      (name : String) (signed : Bool) (values : List (List ℕ))
      → signed_by_values name want secret signed values ≡ (
          if any (λ v. not (git_webhook_signature_valid name v want secret)) values
          then none
          else some (signed || has_value values))
  unfolding signed_by_values
  values_read name signed [] = ap some (or_false signed)
  values_read name signed (v ∷ vs) =
      elim (Bool-cases (git_webhook_signature_valid name v want secret)) [
        | inl e ↦ rw e (
            values_read name true vs
            ∙ ap
                (λ b.
                  if any (λ v'. not (git_webhook_signature_valid name v' want secret)) vs
                  then none
                  else some b)
                (sym (or_true signed)))
        | inr e ↦ rw e refl
      ]

  signed_by-read :
      (signed : Bool) (fs : List ForgeHeaders)
      → signed_by header want secret signed fs
        ≡ ((signed || any is_sent fs) && not (any is_contradicted fs))
  unfolding signed_by
  signed_by-read signed [] = ground arith
  signed_by-read signed (f ∷ fs) =
      ap (λ o. unless_returned o (λ s. signed_by header want secret s fs))
        (values_read f.signature signed (header f.signature))
      ∙ elim (Bool-cases (is_contradicted f)) [
        | inl e ↦ rw e (ground (arith, e))
        | inr e ↦ rw e (signed_by-read (signed || is_sent f) fs ∙ ground (arith, e))
      ]

-- A delivery counts as signed exactly if the app has a secret, at least one signature header has a value,
-- and no value of any of them, whichever forge it is of, is not valid.
pub git_webhook_signed_lem :
    (hmac : List ℕ → List ℕ → List ℕ) (header : Header) (body secret : List ℕ)
    → git_webhook_signed hmac header body secret ≡ (
        not (length secret =ℕ 0)
        && (any (is_sent header (hmac secret body) secret) git_webhook_forges
            && not (any (is_contradicted header (hmac secret body) secret) git_webhook_forges)))
unfolding git_webhook_signed
git_webhook_signed_lem hmac header body secret = elim (Bool-cases (length secret =ℕ 0)) [
  | inl e ↦ rw e refl
  | inr e ↦ rw e (signed_by-read header (hmac secret body) secret false git_webhook_forges)
]
