-- ===== src/Deeplink/Payloads.antt =====
-- The bytes that deep links sign: internal/deeplink/app/signer.go.
use nestova.Base.{
  ℕ, ◌+◌, ◌<◌, ◌≡◌, ◌∙◌, sym, refl, ap, true, false, List, [], ◌∷◌, ◌++◌, some, ok, arith,
}
use nestova.Clock.{Time}
use nestova.Money.Decimals.{all_digits, value, digits, plain}
use nestova.Money.Decimals.RoundTrip.{value-digits, all-digits}
use nestova.Deeplink.{
  Action, Signer, link_ttl, unix, mac_payload, signature_of, sign, verify, action_path,
}
use nestova.Deeplink.Paths.{action_path_inj}
use nestova.Deeplink.Signatures.{verify_sound}

no_bar : (text rest : List ℕ) → all_digits (text ++ (124 ∷ rest)) ≡ false
no_bar [] rest = refl
no_bar (c ∷ text) rest = ground (arith, no_bar text rest)

split_inj :
    (p q ds es : List ℕ)
    → all_digits ds ≡ true
    → all_digits es ≡ true
    → p ++ (124 ∷ ds) ≡ q ++ (124 ∷ es)
    → (p ≡ q) × (ds ≡ es)
split_inj [] [] ds es h k e = (refl, cc)
split_inj [] (y ∷ q) ds es h k e =
    let tail : ds ≡ q ++ (124 ∷ es) = cc in absurd (cc (h, tail, no_bar q es))
split_inj (x ∷ p) [] ds es h k e =
    let tail : p ++ (124 ∷ ds) ≡ es = cc in absurd (cc (k, tail, no_bar p ds))
split_inj (x ∷ p) (y ∷ q) ds es h k e =
    let head : x ≡ y = cc in
    let tail : p ++ (124 ∷ ds) ≡ q ++ (124 ∷ es) = cc in
    let (path, digits) = split_inj p q ds es h k tail in (cc (head, path), digits)

value-plain : (n : ℕ) → n < 9223372036854775808 → value 0 (plain n) ≡ n
value-plain n h = value-digits 19 n [] (omega (arith, h)) ∙ unfold value in refl

mac_payload_inj :
    (path other : List ℕ) (m n : ℕ)
    → m < 9223372036854775808
    → n < 9223372036854775808
    → mac_payload path m ≡ mac_payload other n
    → (path ≡ other) × (m ≡ n)
mac_payload_inj path other m n small small' e =
    let (same, digits) =
      split_inj path other (plain m) (plain n) (all-digits 20 m [] refl) (all-digits 20 n [] refl)
        e in
    (same, sym (value-plain m small) ∙ ap (value 0) digits ∙ value-plain n small')

module _ (s : Signer) (decodes : (bytes : List ℕ) → s.decode_string (s.encode bytes) ≡ some bytes)
    (collision_free : (x y : List ℕ) → s.mac x ≡ s.mac y → x ≡ y) where
  encode_inj : (x y : List ℕ) → s.encode x ≡ s.encode y → x ≡ y
  encode_inj x y e =
      let same : some x ≡ some y = sym (decodes x) ∙ ap s.decode_string e ∙ decodes y in cc

  -- The signature of a link to an action is accepted for an action, an identifier and an expiry only
  -- where all three are those it was signed for, with expiries that an int64 holds, where the
  -- decoding reads back every encoding and no two payloads have one MAC.
  pub verify_another :
      (a b : Action) (id other path another : List ℕ) (signed now : Time) (expiry : ℕ)
      {bytes : List ℕ}
      → action_path a id ≡ ok path
      → action_path b other ≡ ok another
      → unix (signed + link_ttl) < 9223372036854775808
      → expiry < 9223372036854775808
      → verify s another expiry (sign s path signed).1 now ≡ ok bytes
      → (a ≡ b) × (id ≡ other) × (expiry ≡ (sign s path signed).0)
  unfolding sign
  verify_another a b id other path another signed now expiry {bytes} h k small small' v =
      let (mine, live, got) = verify_sound s another expiry _ now bytes v in
      let macs : signature_of s path (unix (signed + link_ttl)) ≡ signature_of s another expiry =
        encode_inj _ _ mine in
      let (paths, expiries) =
        mac_payload_inj path another (unix (signed + link_ttl)) expiry small small'
          (collision_free _ _ macs) in
      let (actions, ids) = action_path_inj a b id other path h (k ∙ ap ok (sym paths)) in
      (actions, ids, sym expiries)
