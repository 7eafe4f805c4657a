-- ===== src/ServiceAccounts/Authenticate.antt =====
-- server/services/serviceAccounts.ts: `authenticateServiceAccount`.
use opencoi.Base.{
  ℕ, Bool, true, not, ◌&&◌, ◌||◌, Option, none, some, List, ltb, if◌then◌else◌, ◌>>=◌, Text,
  text_eq, codes, find, truthy, is_some, update_where,
}
use opencoi.Security.{Digest, hash_opaque_token, verify_opaque_token}
use opencoi.ServiceAccounts.{
  ServiceAccountRow, ServiceAccountSecretRow, Accounts, is_enabled, is_account, scopes_for,
}
use opencoi.ServiceAccounts.Token.{secret_id_from_token}

pub record AuthenticatedServiceAccount : Type 0 where
  pub id : Text
  pub organization_id : Text
  pub secret_id : Text
  pub name : Text
  pub description : Option Text
  pub scopes : List Text

-- `expires_at IS NULL OR expires_at > ?`
abbrev pub expires_after : Option ℕ → ℕ → Bool
expires_after none at = true
expires_after (some t) at = ltb at t

-- `WHERE` of the row.
unfoldable pub is_usable : Text → ℕ → ServiceAccountSecretRow → Bool
is_usable secret_id at s =
    text_eq s.id secret_id && not (is_some s.revoked_at) && expires_after s.expires_at at

-- The secret of an id with its account.
unfoldable pub authentication_row :
    Text → ℕ → Accounts → Option (ServiceAccountSecretRow × ServiceAccountRow)
authentication_row secret_id at db =
    find (is_usable secret_id at) db.service_account_secrets >>= λ s.
    find (is_account s.organization_id s.service_account_id) db.service_accounts >>= λ a.
    some (s, a)

abbrev pub used_secret : ℕ → ServiceAccountSecretRow → ServiceAccountSecretRow
used_secret at s = record s { last_used_at = some at }

abbrev pub used_account : ℕ → ServiceAccountRow → ServiceAccountRow
used_account at a = record a { last_used_at = some at }

abbrev pub is_secret : Text → Text → ServiceAccountSecretRow → Bool
is_secret organization_id id s = text_eq s.organization_id organization_id && text_eq s.id id

-- The two updates of the time of use.
unfoldable pub record_use : ServiceAccountSecretRow → ℕ → Accounts → Accounts
record_use s at db = record {
  service_accounts =
      (update_where (is_account s.organization_id s.service_account_id) (used_account at)
        db.service_accounts).0;
  service_account_secrets =
      (update_where (is_secret s.organization_id s.id) (used_secret at)
        db.service_account_secrets).0;
}

unfoldable pub authenticated :
    ServiceAccountSecretRow → ServiceAccountRow → AuthenticatedServiceAccount
authenticated s a = record {
  id = s.service_account_id;
  organization_id = s.organization_id;
  secret_id = s.id;
  name = a.name;
  description = a.description;
  scopes = scopes_for a.scopes;
}

-- A row that was found, with the hash of the candidate.
unfoldable pub check_row :
    Digest
    → Text
    → Option Text
    → ℕ
    → Text
    → ServiceAccountSecretRow
    → ServiceAccountRow
    → Accounts
    → Option (Accounts × Option AuthenticatedServiceAccount)
check_row digest token pepper at candidate_hash s a db =
    if not (is_enabled a.status)
    then some (db, none)
    else verify_opaque_token digest token s.token_hash pepper >>= λ verified.
        if not verified || not (text_eq candidate_hash s.token_hash)
        then some (db, none)
        else some (record_use s at db, some (authenticated s a))

abbrev pub token_or_invalid : Text → Text
token_or_invalid token = if truthy token then token else codes "invalid-service-account-token"

unfoldable pub authenticate_service_account :
    Digest
    → Text
    → Option Text
    → ℕ
    → Accounts
    → Option (Accounts × Option AuthenticatedServiceAccount)
authenticate_service_account digest token pepper at db =
    hash_opaque_token digest (token_or_invalid token) pepper >>= λ candidate_hash.
    elim (secret_id_from_token token) [
      | none ↦ some (db, none)
      | some secret_id ↦ elim (authentication_row secret_id at db) [
        | none ↦ some (db, none)
        | some found ↦ check_row digest token pepper at candidate_hash found.0 found.1 db
      ]
    ]
