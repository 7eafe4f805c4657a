-- ===== src/ServiceAccounts.antt =====
-- server/services/serviceAccounts.ts: service accounts with their secrets, over the tables of
-- server/services/integrationSchema.ts. A time is the number of milliseconds of its ISO text; the JSON
-- of scopes is the list of texts that it stands for.
pub mod Token
pub mod Manage
pub mod Authenticate
pub mod Lookup
pub mod Authentic
pub mod Steps
pub mod Revoked
pub mod Issued
mod Examples
use opencoi.Base.{
  ℕ, Bool, true, false, not, ◌&&◌, ◌||◌, Option, none, some, List, [], ◌∷◌, ◌==◌, if◌then◌else◌,
  Text, text_eq, codes, any, length,
}
use opencoi.Base.Sort.{sorted_set}

abbrev pub service_account_scopes : List Text
service_account_scopes =
    codes "vendors:read"
    ∷ codes "vendors:write"
    ∷ codes "certificates:read"
    ∷ codes "certificates:write"
    ∷ codes "requests:read"
    ∷ codes "requests:write"
    ∷ codes "evidence:read"
    ∷ codes "requirements:read"
    ∷ codes "compliance:read"
    ∷ codes "events:read"
    ∷ []

pub data AccountStatus : Type 0 where
  active disabled : AccountStatus

pub record ServiceAccountRow : Type 0 where
  pub id : Text
  pub organization_id : Text
  pub name : Text
  pub description : Option Text
  pub scopes : List Text
  pub status : AccountStatus
  pub created_by_user_id : Option Text
  pub last_used_at : Option ℕ
  pub created_at : ℕ
  pub updated_at : ℕ

pub record ServiceAccountSecretRow : Type 0 where
  pub id : Text
  pub organization_id : Text
  pub service_account_id : Text
  pub token_hash : Text
  pub token_prefix : Text
  pub expires_at : Option ℕ
  pub last_used_at : Option ℕ
  pub revoked_at : Option ℕ
  pub created_by_user_id : Option Text
  pub created_at : ℕ

pub record Accounts : Type 0 where
  pub service_accounts : List ServiceAccountRow
  pub service_account_secrets : List ServiceAccountSecretRow

abbrev pub is_enabled : AccountStatus → Bool
is_enabled active = true
is_enabled disabled = false

abbrev pub is_account : Text → Text → ServiceAccountRow → Bool
is_account organization_id id a = text_eq a.organization_id organization_id && text_eq a.id id

unfoldable pub is_allowed_scope : Text → Bool
is_allowed_scope scope = any (λ s. text_eq s scope) service_account_scopes

unfoldable pub normalized_scopes : List Text → Option (List Text)
normalized_scopes scopes =
    let unique = sorted_set scopes in
    if length unique == 0 || any (λ s. not (is_allowed_scope s)) unique then none else some unique

-- What a column that does not hold allowed scopes gives is no scope.
unfoldable pub scopes_for : List Text → List Text
scopes_for scopes = elim (normalized_scopes scopes) [ none ↦ [] | some s ↦ s ]
