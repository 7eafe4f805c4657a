-- ===== src/ServiceAccounts/Steps.antt =====
-- server/services/serviceAccounts.ts: the changes that the service makes to accounts and secrets, in any
-- order.
use opencoi.Base.{ℕ, ◌≡◌, Option, some, Text}
use opencoi.Security.{Digest}
use opencoi.ServiceAccounts.{Accounts, AccountStatus}
use opencoi.ServiceAccounts.Manage.{
  IssueInput, CreateInput, IssuedServiceAccountSecret, create_service_account,
  rotate_service_account_secret, revoke_service_account_secret, set_service_account_status,
}
use opencoi.ServiceAccounts.{ServiceAccountRow}
use opencoi.ServiceAccounts.Authenticate.{AuthenticatedServiceAccount, authenticate_service_account}

pub data Step (digest : Digest) : Accounts → Accounts → Type 0 where
  creates :
      (input : CreateInput) (before after : Accounts) (account : ServiceAccountRow)
      (issued : IssuedServiceAccountSecret)
      → create_service_account digest input before ≡ some (after, account, issued)
      → Step digest before after
  rotates :
      (input : IssueInput) (before after : Accounts) (issued : IssuedServiceAccountSecret)
      → rotate_service_account_secret digest input before ≡ some (after, issued)
      → Step digest before after
  revokes :
      (organization_id service_account_id secret_id : Text) (at : ℕ) (before : Accounts)
      → Step digest before
          (revoke_service_account_secret organization_id service_account_id secret_id at before).0
  sets_status :
      (organization_id service_account_id : Text) (status : AccountStatus) (at : ℕ)
      (before : Accounts)
      → Step digest before
          (set_service_account_status organization_id service_account_id status at before).0
  authenticates :
      (token : Text) (pepper : Option Text) (at : ℕ) (before after : Accounts)
      (result : Option AuthenticatedServiceAccount)
      → authenticate_service_account digest token pepper at before ≡ some (after, result)
      → Step digest before after

pub data Steps (digest : Digest) : Accounts → Accounts → Type 0 where
  done : {db : Accounts} → Steps digest db db
  after_step : {a b c : Accounts} → Step digest a b → Steps digest b c → Steps digest a c
