-- ===== src/Deeplink/Signatures.antt =====
-- Signing and verifying deep links: internal/deeplink/app/signer.go.
use nestova.Base.{
  ℕ, ◌+◌, ◌<◌, ◌≡◌, ◌∙◌, sym, refl, ap, subst, true, false, not, List, some, ok, err, or_fail,
  guard-ok, bind-ok, ok_inj, leb, ltb, ◌↔◌, if◌then◌else◌, Bool-cases, inl, inr, arith,
}
use nestova.Clock.{Time}
use nestova.Text.{same_bytes, same_bytes_refl, eq_of_bytes}
use nestova.Deeplink.{
  link_expired, link_invalid_signature, Signer, link_ttl, unix, signature_of, sign, decode, verify,
}

-- What is decoded is the one text of its bytes.
decode-canonical :
    (s : Signer) (text bytes : List ℕ) → decode s text ≡ ok bytes → s.encode bytes ≡ text
unfolding decode
decode-canonical s text bytes h =
    let (got, found, rest) = bind-ok (or_fail (s.decode_string text) link_invalid_signature) _ h in
    let (same, last) =
      guard-ok (not (same_bytes (s.encode got) text)) link_invalid_signature _ rest in
    let e : got ≡ bytes = ok_inj last in
    subst (λ b. s.encode b ≡ text) e (eq_of_bytes (s.encode got) text (ground (arith, same)))

decode-encode :
    (s : Signer) (bytes : List ℕ)
    → s.decode_string (s.encode bytes) ≡ some bytes
    → decode s (s.encode bytes) ≡ ok bytes
unfolding decode
decode-encode s bytes h = rw (h, same_bytes_refl (s.encode bytes)) refl

pub verify_sound :
    (s : Signer) (path : List ℕ) (expiry : ℕ) (signature : List ℕ) (now : Time) (bytes : List ℕ)
    → verify s path expiry signature now ≡ ok bytes
    → (signature ≡ s.encode (signature_of s path expiry))
      × (unix now < expiry)
      × (bytes ≡ signature_of s path expiry)
unfolding verify
verify_sound s path expiry signature now bytes h =
    let (got, read, rest) = bind-ok (decode s signature) _ h in
    let (same, more) =
      guard-ok (not (same_bytes got (signature_of s path expiry))) link_invalid_signature _ rest in
    let (live, last) = guard-ok (leb expiry (unix now)) link_expired _ more in
    let e : got ≡ signature_of s path expiry =
      eq_of_bytes got (signature_of s path expiry) (ground (arith, same)) in
    (
      sym (decode-canonical s signature got read) ∙ ap (λ b. s.encode b) e,
      ground (arith, live),
      sym (ok_inj last) ∙ e,
    )

module _ (s : Signer)
    (decodes : (bytes : List ℕ) → s.decode_string (s.encode bytes) ≡ some bytes) where
  verify_signed :
      (path : List ℕ) (expiry : ℕ) (now : Time)
      → verify s path expiry (s.encode (signature_of s path expiry)) now
        ≡ (if leb expiry (unix now) then err link_expired else ok (signature_of s path expiry))
  unfolding verify
  verify_signed path expiry now =
      let read =
        decode-encode s (signature_of s path expiry) (decodes (signature_of s path expiry)) in
      rw (read, same_bytes_refl (signature_of s path expiry))
        (elim (Bool-cases (leb expiry (unix now))) [
          | inl late ↦ rw late refl
          | inr live ↦ rw live refl
        ])

  -- A signature is accepted for a path and an expiry exactly when it is the encoding of their MAC
  -- and the expiry is later than now, and then the MAC is the result, where the decoding reads back every encoding.
  pub verify_lem :
      (path : List ℕ) (expiry : ℕ) (signature : List ℕ) (now : Time) (bytes : List ℕ)
      → (verify s path expiry signature now ≡ ok bytes) ↔ (
          (signature ≡ s.encode (signature_of s path expiry))
          × (unix now < expiry)
          × (bytes ≡ signature_of s path expiry))
  verify_lem path expiry signature now bytes =
      (verify_sound s path expiry signature now bytes, back)
    where
      back :
          (signature ≡ s.encode (signature_of s path expiry))
            × (unix now < expiry)
            × (bytes ≡ signature_of s path expiry)
          → verify s path expiry signature now ≡ ok bytes
      back (mine, live, e) =
          let early : leb expiry (unix now) ≡ false = ground (arith, live) in
          rw (mine, e, verify_signed path expiry now, early) refl

  -- A link that is signed at one time is accepted in exactly the seconds before its expiry.
  verify-sign :
      (path : List ℕ) (signed now : Time)
      → verify s path (sign s path signed).0 (sign s path signed).1 now ≡ (
          if ltb (unix now) (unix (signed + link_ttl))
          then ok (signature_of s path (unix (signed + link_ttl)))
          else err link_expired)
  unfolding sign
  verify-sign path signed now =
      rw (verify_signed path (unix (signed + link_ttl)) now)
        (elim (Bool-cases (ltb (unix now) (unix (signed + link_ttl)))) [
          | inl live ↦
              let early : leb (unix (signed + link_ttl)) (unix now) ≡ false =
                ground (arith, live) in
              rw (early, live) refl
          | inr late ↦
              let past : leb (unix (signed + link_ttl)) (unix now) ≡ true = ground (arith, late) in
              rw (past, late) refl
        ])
