-- ===== src/Deeplink/Confirmations.antt =====
-- The confirmations of internal/deeplink/adapter/http.go that succeed, and the redemptions that
-- they and the in-app calls add.
use nestova.Base.{
  ℕ, ◌≡◌, refl, Bool, false, not, ◌&&◌, List, ◌∷◌, Result, ok, err, ◌==◌, find, any, subst, ap,
  arith, Bool-cases, inl, inr, or_fail, guard-ok, bind-ok, ok_inj, OnSuccess, OnSuccess-or_fail,
}
use nestova.Clock.{Time}
use nestova.Text.{is_empty}
use nestova.Tasks.Schema.{Store, PointEntry, Error, RewardRedemption}
use nestova.Tasks.Rewards.{is_reward, redeem_with_debit, same_signature}
use nestova.Deeplink.{
  Action, DeepLinkError, too_many_attempts, invalid_reward_id, action_path, WebHandlers,
  signature_of, verify_signature, link_invalid_signature, Confirmation, redemption_of,
  redeem_via_deep_link, lift_task, confirm_redeem,
}
use nestova.Deeplink.Signatures.{verify_sound}

abbrev pub is_taken : RewardRedemption → RewardRedemption → Bool
is_taken r o =
    o.household == r.household
    && same_signature r.deep_link_signature_hash o.deep_link_signature_hash

-- A redemption that is made is added to those it is no repetition of.
pub record IsAdded (r : RewardRedemption) (db db' : Store) : Type 0 where
  pub fresh : any (is_taken r) db.redemptions ≡ false
  pub made : db'.redemptions ≡ r ∷ db.redemptions

pub redeem-IsAdded :
    (now : Time) (entry_id : ℕ) (r : RewardRedemption) (db : Store)
    → OnSuccess (λ made. IsAdded r db made.0) (redeem_with_debit now entry_id r db)
unfolding redeem_with_debit
redeem-IsAdded now entry_id r db =
    OnSuccess-or_fail _ (find (is_reward r.household r.reward) db.rewards) _ _ λ reward found.
      elim (Bool-cases (any (is_taken r) db.redemptions)) [
        | inl taken ↦ rw taken (ground arith)
        | inr fresh ↦
            let added : (ledger : List PointEntry)
                → IsAdded r db (record db { redemptions = r ∷ db.redemptions; ledger = ledger }) =
              λ ledger. record { fresh = fresh; made = refl } in
            rw fresh (ground (arith, added))
      ]

-- A confirmation that succeeds adds a redemption with the hash of its link's MAC.
pub record IsConfirmed (h : WebHandlers) (c : Confirmation) (db db' : Store) : Type 0 where
  pub path : List ℕ
  pub built : action_path Action.redeem_reward c.reward_id ≡ ok path
  pub reward : ℕ
  pub added : IsAdded (redemption_of h c reward (signature_of h.signer path c.expiry)) db db'

lift_task-ok {ℓ} : {A : Type ℓ} (m : Result Error A) {a : A} → lift_task m ≡ ok a → m ≡ ok a
lift_task-ok (ok b) k = ap ok (ok_inj k)
lift_task-ok (err e) k = cc

via-IsAdded :
    (now : Time) (entry_id : ℕ) (r : RewardRedemption) (db : Store)
    → OnSuccess (λ made. IsAdded r db made.0) (redeem_via_deep_link now entry_id r db)
unfolding redeem_via_deep_link
via-IsAdded now entry_id r db =
    OnSuccess-or_fail _ (find (is_reward r.household r.reward) db.rewards) _ _
      λ reward found. ground (arith, redeem-IsAdded now entry_id r db)

pub confirm-IsConfirmed :
    (h : WebHandlers) (c : Confirmation) (db : Store) {made : Store × ℕ}
    → confirm_redeem h c db ≡ ok made
    → IsConfirmed h c db made.0
unfolding confirm_redeem verify_signature
confirm-IsConfirmed h c db {made} k =
    let (path, built, a) = bind-ok (action_path Action.redeem_reward c.reward_id) _ k in
    let (bytes, checked, b) =
      bind-ok (verify_signature h.signer path c.expiry c.signature c.now) _ a in
    let (given, verified) = guard-ok (is_empty c.signature) link_invalid_signature _ checked in
    let (admitted, d) = guard-ok (not c.admitted) too_many_attempts _ b in
    let (reward, parsed, e) =
      bind-ok (or_fail (h.parse_reward_id c.reward_id) invalid_reward_id) _ d in
    let (mine, live, got) = verify_sound h.signer path c.expiry c.signature c.now bytes verified in
    let added : IsAdded (redemption_of h c reward bytes) db made.0 =
      subst (OnSuccess (λ m. IsAdded (redemption_of h c reward bytes) db m.0)) (lift_task-ok _ e)
        (via-IsAdded c.now c.entry_id (redemption_of h c reward bytes) db) in
    record {
      path = path;
      built = built;
      reward = reward;
      added = subst (λ x. IsAdded (redemption_of h c reward x) db made.0) got added;
    }

pub confirm-Adds :
    (h : WebHandlers) (c : Confirmation) (db : Store)
    → OnSuccess (λ made. (r : RewardRedemption) × IsAdded r db made.0) (confirm_redeem h c db)
confirm-Adds h c db = result (confirm_redeem h c db) refl
  where
    result :
        (m : Result DeepLinkError (Store × ℕ))
        → confirm_redeem h c db ≡ m
        → OnSuccess (λ made. (r : RewardRedemption) × IsAdded r db made.0) m
    result (err e) p = tt
    result (ok made) p = let done = confirm-IsConfirmed h c db p in (_, done.added)
