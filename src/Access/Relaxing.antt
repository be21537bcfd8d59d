-- ===== src/Access/Relaxing.antt =====
-- Whether a bootstrap answer widens access (`bootstrapRelaxes` of
-- src/main/services/accessOrdering.ts).
use pos_desktop.Prelude.{
  ◌≡◌, refl, ◌↔◌, Bool, true, false, not, ◌&&◌, ◌||◌, Option, none, some, List, [], ◌∷◌, any, All,
  Any, arith,
}
use pos_desktop.Prelude.Text.{Text, text_eq, text_eq_iff}

pub record StoredBootstrapAccess : Type 0 where
  pub can_sell : Bool
  pub can_sync : Bool
  pub enabled_features : List Text
  pub permissions : List Text

-- The features are the entries of the answer's record.
pub record BootstrapAccessParts : Type 0 where
  pub can_sell : Bool
  pub can_sync : Bool
  pub features : List (Text × Bool)
  pub permissions : List Text

-- `Set.has`
unfoldable pub has : List Text → Text → Bool
has set text = any (λ x. text_eq x text) set

unfoldable pub widens_features : List Text → List (Text × Bool) → Bool
widens_features set features = any (λ (code, enabled). enabled && not (has set code)) features

unfoldable pub widens_permissions : List Text → List Text → Bool
widens_permissions set permissions = any (λ permission. not (has set permission)) permissions

unfoldable pub bootstrap_relaxes : BootstrapAccessParts → Option StoredBootstrapAccess → Bool
bootstrap_relaxes answer none = true
bootstrap_relaxes answer (some stored) =
    (answer.can_sell && not stored.can_sell)
    || (answer.can_sync && not stored.can_sync)
    || widens_features stored.enabled_features answer.features
    || widens_permissions stored.permissions answer.permissions

abbrev Has : List Text → Text → Type 0
Has set text = Any (λ x. x ≡ text) set

-- Everything that the answer grants is granted now.
abbrev pub NoWider : BootstrapAccessParts → StoredBootstrapAccess → Type 0
NoWider answer stored =
    (answer.can_sell ≡ true → stored.can_sell ≡ true)
    × (answer.can_sync ≡ true → stored.can_sync ≡ true)
    × All (λ feature. feature.1 ≡ true → Has stored.enabled_features feature.0) answer.features
    × All (λ permission. Has stored.permissions permission) answer.permissions

has_iff : (set : List Text) (text : Text) → (has set text ≡ true) ↔ Has set text
unfolding has
has_iff [] text = (λ h. cc, λ h. absurd h)
has_iff (x ∷ set) text = ground (arith, text_eq_iff x text, has_iff set text)

widens_features_iff :
    (set : List Text) (features : List (Text × Bool))
    → (widens_features set features ≡ false)
      ↔ All (λ feature. feature.1 ≡ true → Has set feature.0) features
unfolding widens_features
widens_features_iff set [] = (λ h. tt, λ h. refl)
widens_features_iff set ((code, enabled) ∷ features) =
    ground (arith, has_iff set code, widens_features_iff set features)

widens_permissions_iff :
    (set permissions : List Text)
    → (widens_permissions set permissions ≡ false)
      ↔ All (λ permission. Has set permission) permissions
unfolding widens_permissions
widens_permissions_iff set [] = (λ h. tt, λ h. refl)
widens_permissions_iff set (permission ∷ permissions) =
    ground (arith, has_iff set permission, widens_permissions_iff set permissions)

-- Against a stored access, an answer does not relax it exactly when every right it grants, to sell or
-- sync, a feature or a permission, is held now.
pub bootstrap_relaxes-NoWider :
    (answer : BootstrapAccessParts) (stored : StoredBootstrapAccess)
    → (bootstrap_relaxes answer (some stored) ≡ false) ↔ NoWider answer stored
unfolding bootstrap_relaxes
bootstrap_relaxes-NoWider answer stored = ground (
  arith,
  widens_features_iff stored.enabled_features answer.features,
  widens_permissions_iff stored.permissions answer.permissions,
)
