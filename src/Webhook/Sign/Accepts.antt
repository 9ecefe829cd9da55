-- ===== src/Webhook/Sign/Accepts.antt =====
-- Which headers are accepted, and the age of a timestamp far ahead.
use selatpay.Prelude.{
  ℕ, ◌+◌, ◌-◌, ◌*◌, ◌^◌, ◌≤◌, ◌<◌, ◌≡◌, refl, sym, ap, ◌∙◌, false, [], ◌∷◌, ◌↔◌, arith, inl, inr,
  Bool-cases, length,
}
use selatpay.Prelude.Text.{Text, text_eq, text_eq_refl, text_eq_sound}
use selatpay.Prelude.Int.{ℤ, pos, negsuc, max_int64, ◌+ℤ◌, ◌-ℤ◌, wrap64, wrap64_pos, *ℤ_pos, -ℤ_pos}
use selatpay.Db.Tx.{Result, ok, err}
use selatpay.Webhook.Hex.{AreBytes}
use selatpay.Webhook.Header.{parse_signature_header}
use selatpay.Webhook.Sign.{
  signed_bytes, epoch_offset, nanoseconds, unix_time, sub_time, absolute, signature_age, too_old,
  sign, checked, verify,
}
use selatpay.Webhook.Sign.RoundTrip.{verify-sign}

pub verify-checked :
    (hmac_sha256 : Text → Text → Text) (duration_string : ℤ → Text) (secret body header : Text)
    (now tolerance : ℤ)
    → 0 < length secret
    → verify hmac_sha256 duration_string secret body header now tolerance
      ≡ checked hmac_sha256 duration_string secret body now tolerance
          (parse_signature_header header)
unfolding verify
verify-checked hmac_sha256 duration_string [] body header now tolerance given = elim given [ ]
verify-checked hmac_sha256 duration_string (k ∷ key) body header now tolerance given = refl

module _ (hmac_sha256 : Text → Text → Text) (duration_string : ℤ → Text) (secret body : Text)
    (now tolerance : ℤ) where
  -- A header that reads as a timestamp within the tolerance and the MAC of this body at it.
  abbrev pub Acceptable : Result (ℤ × Text) → Type 0
  Acceptable parsed =
      (ts : ℤ) × (parsed ≡ ok (ts, hmac_sha256 secret (signed_bytes ts body)))
      × (too_old now ts tolerance ≡ false)

  pub checked-Acceptable :
      (parsed : Result (ℤ × Text))
      → checked hmac_sha256 duration_string secret body now tolerance parsed ≡ ok tt
      → Acceptable parsed
  checked-Acceptable (err e) h = absurd (cc)
  checked-Acceptable (ok (ts, mac)) h = elim (Bool-cases (too_old now ts tolerance)) [
    | inl old ↦ let refused = rw old at h in absurd (cc)
    | inr fresh ↦
        let own = hmac_sha256 secret (signed_bytes ts body) in
        elim (Bool-cases (text_eq mac own)) [
          | inl same ↦ (ts, ap (λ m. ok (ts, m)) (text_eq_sound mac own same), fresh)
          | inr other ↦ let refused = rw (fresh, other) at h in absurd (cc)
        ]
  ]

  Acceptable-checked :
      (parsed : Result (ℤ × Text))
      → Acceptable parsed
      → checked hmac_sha256 duration_string secret body now tolerance parsed ≡ ok tt
  Acceptable-checked parsed (ts, e, fresh) =
      rw (e, fresh, text_eq_refl (hmac_sha256 secret (signed_bytes ts body)))

  -- Under a secret that is not empty, Verify accepts exactly the headers that read as a timestamp
  -- which is not outside the tolerance and the MAC of this body at that timestamp.
  pub verify_iff :
      (header : Text)
      → 0 < length secret
      → (verify hmac_sha256 duration_string secret body header now tolerance ≡ ok tt)
        ↔ Acceptable (parse_signature_header header)
  verify_iff header given =
      let parsed = parse_signature_header header in
      let e = verify-checked hmac_sha256 duration_string secret body header now tolerance given in
      (λ h. checked-Acceptable parsed (sym e ∙ h), λ a. e ∙ Acceptable-checked parsed a)

unix_time_pos : (t : ℕ) → t ≤ 2 ^ 62 → unix_time (pos t) ≡ pos (t * nanoseconds)
unfolding unix_time
unix_time_pos t h =
    let added : pos t +ℤ pos epoch_offset ≡ pos (t + epoch_offset) = unfold ◌+ℤ◌ in ground arith in
    rw
      (
        added,
        wrap64_pos (t + epoch_offset) (omega arith),
        -ℤ_pos (t + epoch_offset) epoch_offset (omega arith),
      )
      (*ℤ_pos (t + epoch_offset - epoch_offset) nanoseconds ∙ ap pos (omega arith))

sub_time_far : (n u : ℕ) → n + 2 ^ 63 ≤ u → sub_time (pos n) (pos u) ≡ negsuc max_int64
unfolding sub_time ◌-ℤ◌
sub_time_far n u h = ground arith

absolute_least : absolute (negsuc max_int64) ≡ negsuc max_int64
unfolding absolute wrap64 ◌-ℤ◌
absolute_least = refl

far_age :
    (t n : ℕ)
    → t ≤ 2 ^ 62
    → n + 2 ^ 63 ≤ t * nanoseconds
    → signature_age (pos n) (pos t) ≡ negsuc max_int64
unfolding signature_age
far_age t n small far =
    ap (λ u. absolute (sub_time (pos n) u)) (unix_time_pos t small)
    ∙ ap absolute (sub_time_far n (t * nanoseconds) far)
    ∙ absolute_least

never_old :
    (t n tolerance : ℕ)
    → t ≤ 2 ^ 62
    → n + 2 ^ 63 ≤ t * nanoseconds
    → too_old (pos n) (pos t) (pos tolerance) ≡ false
never_old t n tolerance small far = rw (far_age t n small far) (ground arith)

-- The age of a timestamp 2^63 ns or more ahead is negative, so no tolerance refuses it: Verify
-- accepts what Sign makes for it, for a timestamp up to 2^62 and every tolerance, given that a MAC is
-- a text of bytes that is not empty.
pub verify-sign_far_ahead :
    (hmac_sha256 : Text → Text → Text) (duration_string : ℤ → Text)
    → ((key text : Text) → 0 < length (hmac_sha256 key text))
    → ((key text : Text) → AreBytes (hmac_sha256 key text))
    → (secret body header : Text) (t n tolerance : ℕ)
    → sign hmac_sha256 secret body (pos t) ≡ ok header
    → t ≤ 2 ^ 62
    → n + 2 ^ 63 ≤ t * nanoseconds
    → verify hmac_sha256 duration_string secret body header (pos n) (pos tolerance) ≡ ok tt
verify-sign_far_ahead hmac_sha256 duration_string given bytes secret body header t n tolerance
      signed small far =
    verify-sign hmac_sha256 duration_string given bytes secret body header (pos t) (pos n)
      (pos tolerance) signed (omega arith) (never_old t n tolerance small far)
