-- ===== src/Deeplink/Paths.antt =====
-- The paths of deep links: internal/deeplink/domain/action.go.
use nestova.Base.{
  ℕ, ◌≡◌, refl, ap, get_elem?, some, ◌==◌, sym, ◌∙◌, false, List, [], ◌∷◌, ◌++◌, ok, guard-ok,
  ok_inj, if◌then◌else◌, arith,
}
use nestova.Text.{is_empty}
use nestova.Deeplink.{
  Action, missing_id, action_text, is_unknown, requires_id, go_prefix, action_path,
}

-- Texts that differ somewhere.
apart {ℓ} :
    {A : Type ℓ} (i : ℕ) {s t : List ℕ} {x y : ℕ}
    → s ≡ t
    → get_elem? s i ≡ some x
    → get_elem? t i ≡ some y
    → (x == y) ≡ false
    → A
apart i {s} {t} {x} {y} e h k differ =
    let same : some x ≡ some y = sym h ∙ ap (λ text. get_elem? text i) e ∙ k in
    absurd (ground (arith, same, differ))

-- The text of a path that is built.
abbrev path_text : Action → List ℕ → List ℕ
path_text a id = go_prefix ++ (action_text a ++ (if requires_id a then 47 ∷ id else id))

action_path-ok :
    (a : Action) (id text : List ℕ)
    → action_path a id ≡ ok text
    → (is_unknown a ≡ false) × (text ≡ path_text a id)
unfolding action_path
action_path-ok Action.unknown_action id text h = absurd (cc)
action_path-ok Action.claim_task id text h =
    let (given, made) = guard-ok (is_empty id) missing_id _ h in (refl, sym (ok_inj made))
action_path-ok Action.complete_task id text h =
    let (given, made) = guard-ok (is_empty id) missing_id _ h in (refl, sym (ok_inj made))
action_path-ok Action.redeem_reward id text h =
    let (given, made) = guard-ok (is_empty id) missing_id _ h in (refl, sym (ok_inj made))
action_path-ok Action.add_chore [] text h = (refl, sym (ok_inj h))
action_path-ok Action.add_chore (c ∷ id) text h = absurd (cc)

path_text_inj :
    (a b : Action) (id other : List ℕ)
    → is_unknown a ≡ false
    → is_unknown b ≡ false
    → path_text a id ≡ path_text b other
    → (a ≡ b) × (id ≡ other)
path_text_inj Action.claim_task Action.claim_task id other k l h = (refl, cc)
path_text_inj Action.complete_task Action.complete_task id other k l h = (refl, cc)
path_text_inj Action.add_chore Action.add_chore id other k l h = (refl, cc)
path_text_inj Action.redeem_reward Action.redeem_reward id other k l h = (refl, cc)
path_text_inj Action.claim_task Action.complete_task id other k l h = apart 5 h refl refl refl
path_text_inj Action.claim_task Action.add_chore id other k l h = apart 5 h refl refl refl
path_text_inj Action.claim_task Action.redeem_reward id other k l h = apart 5 h refl refl refl
path_text_inj Action.complete_task Action.claim_task id other k l h = apart 5 h refl refl refl
path_text_inj Action.complete_task Action.add_chore id other k l h = apart 5 h refl refl refl
path_text_inj Action.complete_task Action.redeem_reward id other k l h = apart 5 h refl refl refl
path_text_inj Action.add_chore Action.claim_task id other k l h = apart 5 h refl refl refl
path_text_inj Action.add_chore Action.complete_task id other k l h = apart 5 h refl refl refl
path_text_inj Action.add_chore Action.redeem_reward id other k l h = apart 5 h refl refl refl
path_text_inj Action.redeem_reward Action.claim_task id other k l h = apart 5 h refl refl refl
path_text_inj Action.redeem_reward Action.complete_task id other k l h = apart 5 h refl refl refl
path_text_inj Action.redeem_reward Action.add_chore id other k l h = apart 5 h refl refl refl
path_text_inj Action.unknown_action b id other k l h = cc
path_text_inj a Action.unknown_action id other k l h = cc

-- A path that two actions with their identifiers both have is of one action and one identifier.
pub action_path_inj :
    (a b : Action) (id other text : List ℕ)
    → action_path a id ≡ ok text
    → action_path b other ≡ ok text
    → (a ≡ b) × (id ≡ other)
action_path_inj a b id other text h k =
    let (known, first) = action_path-ok a id text h in
    let (known', second) = action_path-ok b other text k in
    path_text_inj a b id other known known' (sym first ∙ second)
