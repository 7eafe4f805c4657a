-- ===== src/ServiceAccounts/Issued.antt =====
-- server/services/serviceAccounts.ts: a secret that was issued authenticates its account.
use opencoi.Base.{
  ℕ, ◌≡◌, refl, sym, ap, ◌∙◌, Bool, true, false, ◌||◌, Option, some, List, [], ◌∷◌, ◌++◌, arith,
  Text, codes, text_eq, text_eq_sound, All, Bool-cases, inl, inr, Option-cases, All-of_any, All-imp,
  map,
}
use mathlib.Core.List.{Memᴰ}
use opencoi.Security.{Digest, pepper_or_none, is_hash}
use opencoi.ServiceAccounts.{
  ServiceAccountRow, ServiceAccountSecretRow, Accounts, active, is_account, scopes_for,
}
use opencoi.ServiceAccounts.Token.{
  secret_id_from_token, match_classes, uuid_classes, repeated, is_url_safe, same_letter,
  secret_prefix,
}
use opencoi.ServiceAccounts.Manage.{
  IssueInput, IssuedServiceAccountSecret, issue_secret, issue_secret-IsIssued, token_of, new_secret,
  insert_secret, refuses_secret,
}
use opencoi.ServiceAccounts.Authenticate.{
  AuthenticatedServiceAccount, authenticate_service_account, expires_after, record_use,
  authenticated,
}
use opencoi.ServiceAccounts.Lookup.{IsKeyed}
use opencoi.ServiceAccounts.Authentic.{authenticate_complete}

-- Classes that match a whole text match it before another.
match_classes-append :
    (ps : List (ℕ → Bool)) (s t : Text)
    → match_classes ps s ≡ some (s, [])
    → match_classes ps (s ++ t) ≡ some (s, t)
unfolding match_classes
match_classes-append [] [] t h = refl
match_classes-append [] (c ∷ s) t h = ground arith
match_classes-append (p ∷ ps) [] t h = ground arith
match_classes-append (p ∷ ps) (c ∷ s) t h = elim (Bool-cases (p c)) [
  | inl e ↦ elim (Option-cases (match_classes ps s)) [
    | inl q ↦ ground (arith, e, q)
    | inr ((u, v), q) ↦
        let whole : match_classes ps s ≡ some (s, []) = ground (arith, e, q) in
        rw (e, match_classes-append ps s t whole) refl
  ]
  | inr e ↦ ground (arith, e)
]

match_first :
    (p : ℕ → Bool) (ps : List (ℕ → Bool)) (c : ℕ) (s : Text)
    → p c ≡ true
    → match_classes ps s ≡ some (s, [])
    → match_classes (p ∷ ps) (c ∷ s) ≡ some (c ∷ s, [])
unfolding match_classes
match_first p ps c s e h = rw (e, h) refl

-- The forms of what randomUUID and randomToken give.
pub record IsRandom (input : IssueInput) : Type 0 where
  pub id : match_classes uuid_classes input.new_id ≡ some (input.new_id, [])
  pub token :
      match_classes (repeated 43 is_url_safe) input.random_token ≡ some (input.random_token, [])

match_prefix :
    (s : Text)
    → match_classes (map same_letter secret_prefix) (secret_prefix ++ s) ≡ some (secret_prefix, s)
unfolding match_classes
match_prefix s = refl

-- The id of the secret is read from its token.
pub secret_id_from_token-token_of :
    (input : IssueInput)
    → IsRandom input
    → secret_id_from_token (token_of input) ≡ some input.new_id
unfolding secret_id_from_token token_of
secret_id_from_token-token_of input h =
    rw
      (
        match_prefix (input.new_id ++ (codes "." ++ input.random_token)),
        match_classes-append uuid_classes input.new_id (codes "." ++ input.random_token) h.id,
        dot_first,
      )
      refl
  where
    dot_first :
        match_classes (same_letter 46 ∷ repeated 43 is_url_safe) (codes "." ++ input.random_token)
        ≡ some (46 ∷ input.random_token, [])
    dot_first = match_first (same_letter 46) (repeated 43 is_url_safe) 46 _ refl h.token

-- The table of secrets after an insert.
inserted-secrets :
    (new : ServiceAccountSecretRow) (a b : Accounts)
    → insert_secret new a ≡ some b
    → (refuses_secret new a.service_account_secrets ≡ false)
      × (b.service_account_secrets ≡ new ∷ a.service_account_secrets)
      × (b.service_accounts ≡ a.service_accounts)
unfolding insert_secret
inserted-secrets new a b e = ground arith

others_apart :
    (id : Text) (new : ServiceAccountSecretRow) (rows : List ServiceAccountSecretRow)
    → refuses_secret new rows ≡ false
    → text_eq new.id id ≡ true
    → All (λ (s : ServiceAccountSecretRow). text_eq s.id id ≡ false) rows
unfolding refuses_secret
others_apart id new rows e q =
    let same = text_eq_sound new.id id q in
    All-imp
      (λ (s : ServiceAccountSecretRow).
        (text_eq s.id new.id || text_eq s.token_hash new.token_hash) ≡ false)
      (λ s. text_eq s.id id ≡ false) (λ s k. rw (← same) (ground arith)) rows
      (All-of_any _ rows (ground arith))

inserted-IsKeyed :
    (new : ServiceAccountSecretRow) (a b : Accounts)
    → insert_secret new a ≡ some b
    → IsKeyed a
    → IsKeyed b
inserted-IsKeyed new a b e k =
    let (free, secrets, accounts) = inserted-secrets new a b e in
    record {
      secrets = λ id.
          rw secrets ((λ q. others_apart id new a.service_account_secrets free q), k.secrets id);
      accounts = λ o id. rw accounts (k.accounts o id);
    }

-- A secret that was issued authenticates its account, with the allowed scopes of it, at each time before
-- it expires, where the account is active, the keys of the tables hold, the random id and token have the
-- form of a UUID and of 32 bytes in base64url, and a digest is a hexadecimal one of 256 bits.
pub issue_secret-authenticates :
    (digest : Digest) (input : IssueInput) (a b : Accounts) (issued : IssuedServiceAccountSecret)
    (account : ServiceAccountRow) (at : ℕ)
    → ((pepper : Option Text) (token : Text) → is_hash (digest pepper token) ≡ true)
    → IsRandom input
    → IsKeyed a
    → Memᴰ account a.service_accounts
    → is_account input.organization_id input.service_account_id account ≡ true
    → account.status ≡ active
    → issue_secret digest input a ≡ some (b, issued)
    → expires_after issued.expires_at at ≡ true
    → (db : Accounts) × (r : AuthenticatedServiceAccount) × (authenticate_service_account digest
          issued.token input.token_pepper at b
        ≡ some (db, some r))
      × (r.id ≡ input.service_account_id)
      × (r.secret_id ≡ issued.id)
      × (r.scopes ≡ scopes_for account.scopes)
unfolding new_secret authenticated
issue_secret-authenticates digest input a b issued account at hex random k m is_it s e t =
    let i = issue_secret-IsIssued digest input a b issued e in
    let secret =
      new_secret input issued.expires_at
        (digest (pepper_or_none input.token_pepper) (token_of input)) in
    let (_, secrets, accounts) = inserted-secrets secret a b i.inserted in
    (
      record_use secret at b,
      authenticated secret account,
      ap (λ token. authenticate_service_account digest token input.token_pepper at b) i.token
          ∙ authenticate_complete digest (token_of input) input.token_pepper at b secret account
              (inserted-IsKeyed secret a b i.inserted k)
              (record {
                secret_there = rw secrets (Memᴰ.head refl);
                account_there = rw accounts m;
                secret_id = secret_id_from_token-token_of input random;
                account_is = is_it;
                unrevoked = refl;
                unexpired = t;
                enabled = s;
                hash = refl;
                hash_form = hex _ _;
              }),
      refl,
      sym i.id,
      refl,
    )
