-- ===== src/Deeplink/Once.antt =====
-- How often one redemption link is redeemed: internal/deeplink/adapter/http.go over the redemptions
-- of internal/tasks/adapter/gamification_postgres.go.
use nestova.Base.{
  ℕ, ◌+◌, ◌≤◌, ◌≡◌, refl, Bool, true, false, ◌&&◌, List, [], ◌∷◌, Result, ok, err, ◌==◌,
  if◌then◌else◌, any, subst, sym, ◌∙◌, arith, Bool-cases, inl, inr, ok_inj,
}
use nestova.Text.{same_bytes, eq_of_bytes}
use nestova.Tasks.Schema.{Store}
use nestova.Deeplink.{
  Action, DeepLinkError, action_path, WebHandlers, signature_of, Confirmation, confirm_redeem,
}
use nestova.Deeplink.Confirmations.{confirm-IsConfirmed}
use nestova.Deeplink.Redemptions.{RewardCall, step_reward, is_ok, debited_or, is_used, step-IsUsed}

module _ (h : WebHandlers) where
  -- Whether a call redeems the link of a household to a reward with an expiry.
  unfoldable pub redeems_link : ℕ → List ℕ → ℕ → RewardCall → Store → Bool
  redeems_link household reward_id expiry (RewardCall.confirming c) db =
      c.household == household
      && same_bytes c.reward_id reward_id
      && c.expiry == expiry
      && is_ok (confirm_redeem h c db)
  redeems_link household reward_id expiry call db = false

  unfoldable pub link_redemptions : ℕ → List ℕ → ℕ → List RewardCall → Store → ℕ
  link_redemptions household reward_id expiry [] db = 0
  link_redemptions household reward_id expiry (call ∷ calls) db =
      let later = link_redemptions household reward_id expiry calls (step_reward h call db) in
      if redeems_link household reward_id expiry call db then later + 1 else later

-- A redemption by the link is in the table.
record IsSpent (h : WebHandlers) (household : ℕ) (reward_id : List ℕ) (expiry : ℕ) (db : Store)
    : Type 0 where
  path : List ℕ
  built : action_path Action.redeem_reward reward_id ≡ ok path
  used : is_used household (h.signer.hash_signature (signature_of h.signer path expiry)) db ≡ true

module _ (h : WebHandlers) (household : ℕ) (reward_id : List ℕ) (expiry : ℕ) where
  -- What a confirmation of the link finds, and what it leaves.
  redeemed-IsSpent :
      (c : Confirmation) (db : Store) {made : Store × ℕ}
      → c.household ≡ household
      → c.reward_id ≡ reward_id
      → c.expiry ≡ expiry
      → confirm_redeem h c db ≡ ok made
      → (path : List ℕ) × (action_path Action.redeem_reward reward_id ≡ ok path)
        × (is_used household (h.signer.hash_signature (signature_of h.signer path expiry)) db
            ≡ false)
        × (is_used household (h.signer.hash_signature (signature_of h.signer path expiry)) made.0
            ≡ true)
  unfolding any
  redeemed-IsSpent c db {made} at_home same_id same_expiry k =
      let done = confirm-IsConfirmed h c db k in
      let hash = λ (e : ℕ). h.signer.hash_signature (signature_of h.signer done.path e) in
      let fresh : is_used c.household (hash c.expiry) db ≡ false = done.added.fresh in
      let after : is_used c.household (hash c.expiry) made.0 ≡ true =
        rw done.added.made (ground arith) in
      (
        done.path,
        subst (λ i. action_path Action.redeem_reward i ≡ ok done.path) same_id done.built,
        subst (λ hh. is_used hh (hash expiry) db ≡ false) at_home
            (subst (λ e. is_used c.household (hash e) db ≡ false) same_expiry fresh),
        subst (λ hh. is_used hh (hash expiry) made.0 ≡ true) at_home
            (subst (λ e. is_used c.household (hash e) made.0 ≡ true) same_expiry after),
      )

  spent_fails :
      (call : RewardCall) (db : Store)
      → IsSpent h household reward_id expiry db
      → redeems_link h household reward_id expiry call db ≡ false
  unfolding redeems_link
  spent_fails (RewardCall.redeeming now entry_id r) db spent = refl
  spent_fails (RewardCall.fulfilling now home id) db spent = refl
  spent_fails (RewardCall.denying now entry_id home id reason) db spent = refl
  spent_fails (RewardCall.cancelling now entry_id home id member) db spent = refl
  spent_fails (RewardCall.confirming c) db spent = result (confirm_redeem h c db) refl
    where
      result :
          (r : Result DeepLinkError (Store × ℕ))
          → confirm_redeem h c db ≡ r
          → (c.household == household
              && same_bytes c.reward_id reward_id
              && c.expiry == expiry
              && is_ok r)
            ≡ false
      result (err e) p = ground arith
      result (ok made) p =
          elim (Bool-cases (
            c.household == household
            && same_bytes c.reward_id reward_id
            && c.expiry == expiry
            && true)) [
              | inr other ↦ other
              | inl same ↦
                  let (path, built, fresh, after) =
                    redeemed-IsSpent c db (ground (arith, same))
                      (eq_of_bytes c.reward_id reward_id (ground (arith, same)))
                      (ground (arith, same)) p in
                  let e : spent.path ≡ path = ok_inj (sym spent.built ∙ built) in
                  absurd (cc (spent.used, fresh, e))
            ]

  spends :
      (call : RewardCall) (db : Store)
      → redeems_link h household reward_id expiry call db ≡ true
      → IsSpent h household reward_id expiry (step_reward h call db)
  unfolding redeems_link step_reward
  spends (RewardCall.redeeming now entry_id r) db t = absurd (cc)
  spends (RewardCall.fulfilling now home id) db t = absurd (cc)
  spends (RewardCall.denying now entry_id home id reason) db t = absurd (cc)
  spends (RewardCall.cancelling now entry_id home id member) db t = absurd (cc)
  spends (RewardCall.confirming c) db t = result (confirm_redeem h c db) refl t
    where
      result :
          (r : Result DeepLinkError (Store × ℕ))
          → confirm_redeem h c db ≡ r
          → (c.household == household
              && same_bytes c.reward_id reward_id
              && c.expiry == expiry
              && is_ok r)
            ≡ true
          → IsSpent h household reward_id expiry (debited_or db r)
      result (err e) p t = absurd (ground (arith, t))
      result (ok made) p t =
          let (path, built, fresh, after) =
            redeemed-IsSpent c db (ground (arith, t))
              (eq_of_bytes c.reward_id reward_id (ground (arith, t))) (ground (arith, t)) p in
          record { path = path; built = built; used = after }

  spent_none :
      (calls : List RewardCall) (db : Store)
      → IsSpent h household reward_id expiry db
      → link_redemptions h household reward_id expiry calls db ≡ 0
  unfolding link_redemptions
  spent_none [] db spent = refl
  spent_none (call ∷ calls) db spent = rw (spent_fails call db spent) (
      spent_none calls (step_reward h call db) (record {
        path = spent.path;
        built = spent.built;
        used = step-IsUsed household _ h call db spent.used;
      }))

  -- In any sequence of confirmations of links, redemptions, fulfilments, denials and cancellations,
  -- from any tables, the link of a household to a reward with an expiry is redeemed at most once.
  pub link_redemptions_once :
      (calls : List RewardCall) (db : Store)
      → link_redemptions h household reward_id expiry calls db ≤ 1
  unfolding link_redemptions
  link_redemptions_once [] db = omega arith
  link_redemptions_once (call ∷ calls) db =
      elim (Bool-cases (redeems_link h household reward_id expiry call db)) [
        | inl t ↦ rw t (omega (arith, spent_none calls (step_reward h call db) (spends call db t)))
        | inr t ↦ rw t (link_redemptions_once calls (step_reward h call db))
      ]
