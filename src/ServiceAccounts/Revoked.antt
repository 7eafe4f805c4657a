-- ===== src/ServiceAccounts/Revoked.antt =====
-- server/services/serviceAccounts.ts: what the changes of the service keep of a secret that was
-- revoked.
use opencoi.Base.{
  ℕ, ◌≡◌, ◌≢◌, refl, sym, subst, ◌∙◌, Bool, true, false, ◌||◌, Option, none, some, List, [], ◌∷◌,
  arith, Text, text_eq, text_eq_sound, text_eq_refl, All, All-update_where, Bool-cases, inl, inr,
  some-inj, is_some, any, All-of_any, any_of_Memᴰ, any-Memᴰ, AtMostOne-only, All-imp, All-Memᴰ,
  update_where,
}
use mathlib.Core.List.{Memᴰ}
use opencoi.Security.{Digest}
use opencoi.ServiceAccounts.{ServiceAccountSecretRow, Accounts}
use opencoi.ServiceAccounts.Token.{secret_id_from_token}
use opencoi.ServiceAccounts.Manage.{
  IssueInput, CreateInput, IssuedServiceAccountSecret, issue_secret, insert_secret,
  issue_secret-IsIssued, create_service_account-IsCreated, refuses_secret, create_service_account,
  insert_account, rotate_service_account_secret, revoke_service_account_secret, revoked_row,
  set_service_account_status,
}
use opencoi.ServiceAccounts.{ServiceAccountRow}
use opencoi.ServiceAccounts.Authenticate.{
  AuthenticatedServiceAccount, authenticate_service_account, record_use, used_secret,
}
use opencoi.ServiceAccounts.Authentic.{authenticate_sound}
use opencoi.ServiceAccounts.Lookup.{IsKeyed, authenticate-refused}
use opencoi.ServiceAccounts.Steps.{
  Step, creates, rotates, revokes, sets_status, authenticates, Steps, done, after_step,
}

-- A secret of an id is revoked.
abbrev IsRevoked : Text → ServiceAccountSecretRow → Type 0
IsRevoked id s = text_eq s.id id ≡ true → is_some s.revoked_at ≡ true

-- A secret of an id is there, and each of that id is revoked.
pub record StaysRevoked (id : Text) (db : Accounts) : Type 0 where
  pub there :
      any (λ (s : ServiceAccountSecretRow). text_eq s.id id) db.service_account_secrets ≡ true
  pub revoked : All (IsRevoked id) db.service_account_secrets

-- An update that keeps the ids keeps which ids are there.
any-update_where :
    (id : Text) (test : ServiceAccountSecretRow → Bool)
    (change : ServiceAccountSecretRow → ServiceAccountSecretRow)
    → ((s : ServiceAccountSecretRow) → (change s).id ≡ s.id)
    → (rows : List ServiceAccountSecretRow)
    → any (λ (s : ServiceAccountSecretRow). text_eq s.id id) (update_where test change rows).0
      ≡ any (λ (s : ServiceAccountSecretRow). text_eq s.id id) rows
unfolding any update_where
any-update_where id test change k [] = refl
any-update_where id test change k (s ∷ rows) = elim (Bool-cases (test s)) [
  | inl e ↦ rw (e, k s, any-update_where id test change k rows) refl
  | inr e ↦ rw (e, any-update_where id test change k rows) refl
]

at_first :
    (a : Accounts) (s : ServiceAccountSecretRow)
    → IsKeyed a
    → Memᴰ s a.service_account_secrets
    → is_some s.revoked_at ≡ true
    → StaysRevoked s.id a
at_first a s k m v = record {
  there = any_of_Memᴰ _ a.service_account_secrets m (text_eq_refl s.id);
  revoked =
      All-imp (λ x. text_eq x.id s.id ≡ true → x ≡ s) (IsRevoked s.id)
        (λ x e q. subst (λ y. is_some y.revoked_at ≡ true) (sym (e q)) v) _
        (AtMostOne-only _ a.service_account_secrets s (k.secrets s.id) m (text_eq_refl s.id));
}

-- A secret that is inserted has an id that no other has.
fresh_id :
    (id : Text) (new : ServiceAccountSecretRow) (rows : List ServiceAccountSecretRow)
    → refuses_secret new rows ≡ false
    → any (λ (s : ServiceAccountSecretRow). text_eq s.id id) rows ≡ true
    → text_eq new.id id ≡ false
unfolding refuses_secret
fresh_id id new rows e h =
    let (s, m, q) = any-Memᴰ (λ (s : ServiceAccountSecretRow). text_eq s.id id) rows h in
    let free =
      All-Memᴰ
        (λ (s : ServiceAccountSecretRow).
          (text_eq s.id new.id || text_eq s.token_hash new.token_hash) ≡ false)
        rows (All-of_any _ rows (ground arith)) m in
    elim (Bool-cases (text_eq new.id id)) [
      | inl k ↦
          let same : s.id ≡ new.id = text_eq_sound s.id id q ∙ sym (text_eq_sound new.id id k) in
          ground (arith, text_eq_refl new.id, rw same at free)
      | inr k ↦ k
    ]

insert_secret-StaysRevoked :
    (id : Text) (new : ServiceAccountSecretRow) (a b : Accounts)
    → insert_secret new a ≡ some b
    → StaysRevoked id a
    → StaysRevoked id b
unfolding insert_secret any
insert_secret-StaysRevoked id new a b e h =
    elim (Bool-cases (refuses_secret new a.service_account_secrets)) [
      | inl k ↦ ground (arith, k)
      | inr k ↦
          let free = fresh_id id new a.service_account_secrets k h.there in
          subst (StaysRevoked id) (some-inj (rw k at e))
            (record { there = ground (arith, h.there); revoked = ((λ q. ground arith), h.revoked) })
    ]

issue_secret-StaysRevoked :
    (id : Text) (digest : Digest) (input : IssueInput) (a b : Accounts)
    (issued : IssuedServiceAccountSecret)
    → issue_secret digest input a ≡ some (b, issued)
    → StaysRevoked id a
    → StaysRevoked id b
issue_secret-StaysRevoked id digest input a b issued e =
    insert_secret-StaysRevoked id _ a b (issue_secret-IsIssued digest input a b issued e).inserted

insert_account-keeps_secrets :
    (new : ServiceAccountRow) (a b : Accounts)
    → insert_account new a ≡ some b
    → b.service_account_secrets ≡ a.service_account_secrets
unfolding insert_account
insert_account-keeps_secrets new a b e = ground arith

StaysRevoked-secrets :
    (id : Text) (a b : Accounts)
    → b.service_account_secrets ≡ a.service_account_secrets
    → StaysRevoked id a
    → StaysRevoked id b
StaysRevoked-secrets id a b e h = record { there = rw e h.there; revoked = rw e h.revoked }

create-StaysRevoked :
    (id : Text) (digest : Digest) (input : CreateInput) (a b : Accounts)
    (account : ServiceAccountRow) (issued : IssuedServiceAccountSecret)
    → create_service_account digest input a ≡ some (b, account, issued)
    → StaysRevoked id a
    → StaysRevoked id b
create-StaysRevoked id digest input a b account issued e h =
    let c = create_service_account-IsCreated digest input a b account issued e in
    issue_secret-StaysRevoked id digest input.secret c.between b issued c.issues (
      StaysRevoked-secrets id a c.between
        (insert_account-keeps_secrets account a c.between c.inserted) h)

-- An update that keeps the ids and takes no revocation back.
update-StaysRevoked :
    (id : Text) (test : ServiceAccountSecretRow → Bool)
    (change : ServiceAccountSecretRow → ServiceAccountSecretRow)
    → ((s : ServiceAccountSecretRow) → (change s).id ≡ s.id)
    → ((s : ServiceAccountSecretRow)
        → is_some s.revoked_at ≡ true
        → is_some (change s).revoked_at ≡ true)
    → (a b : Accounts)
    → b.service_account_secrets ≡ (update_where test change a.service_account_secrets).0
    → StaysRevoked id a
    → StaysRevoked id b
update-StaysRevoked id test change k l a b e h = record {
  there = rw (e, any-update_where id test change k a.service_account_secrets) h.there;
  revoked = rw e (
      All-update_where (IsRevoked id) test change (λ s _ r q. l s (r (rw (← k s) q)))
        a.service_account_secrets h.revoked);
}

record_use-StaysRevoked :
    (id : Text) (s : ServiceAccountSecretRow) (at : ℕ) (a : Accounts)
    → StaysRevoked id a
    → StaysRevoked id (record_use s at a)
unfolding record_use
record_use-StaysRevoked id s at a =
    update-StaysRevoked id _ (used_secret at) (λ s. refl) (λ s r. r) a _ refl

Step-StaysRevoked :
    (id : Text) {digest : Digest} {a b : Accounts}
    → Step digest a b
    → StaysRevoked id a
    → StaysRevoked id b
unfolding rotate_service_account_secret revoke_service_account_secret set_service_account_status
Step-StaysRevoked id {digest} (creates input a b account issued e) h =
    create-StaysRevoked id digest input a b account issued e h
Step-StaysRevoked id {digest} (rotates input a b issued e) h =
    issue_secret-StaysRevoked id digest input a b issued (ground arith) h
Step-StaysRevoked id (revokes o account secret at a) h =
    update-StaysRevoked id _ (revoked_row at) (λ s. refl) (λ s r. refl) a _ refl h
Step-StaysRevoked id (sets_status o account status at a) h = StaysRevoked-secrets id a _ refl h
Step-StaysRevoked id {digest} (authenticates token pepper at a b none e) h =
    subst (StaysRevoked id) (sym (authenticate-refused digest token pepper at a b e)) h
Step-StaysRevoked id {digest} (authenticates token pepper at a b (some r) e) h =
    let (s, _, _, q, _) = authenticate_sound digest token pepper at a b r e in
    subst (StaysRevoked id) (sym q) (record_use-StaysRevoked id s at a h)

Steps-StaysRevoked :
    (id : Text) (digest : Digest) (a b : Accounts)
    → Steps digest a b
    → StaysRevoked id a
    → StaysRevoked id b
Steps-StaysRevoked id digest a b done h = h
Steps-StaysRevoked id digest a c (after_step {b} s p) h =
    Steps-StaysRevoked id digest b c p (Step-StaysRevoked id s h)

-- A secret that is revoked never authenticates again: whatever the service does after that, in any
-- order, rotations, new accounts and changes of status included, no token that names it authenticates
-- an account, at any time and with any pepper.
pub Steps-stays_revoked :
    (digest : Digest) (a b : Accounts) (s : ServiceAccountSecretRow) (token : Text)
    (pepper : Option Text) (at : ℕ) (db' : Accounts) (r : AuthenticatedServiceAccount)
    → IsKeyed a
    → Memᴰ s a.service_account_secrets
    → is_some s.revoked_at ≡ true
    → Steps digest a b
    → secret_id_from_token token ≡ some s.id
    → authenticate_service_account digest token pepper at b ≢ some (db', some r)
Steps-stays_revoked digest a b s token pepper at db' r k m v p t e =
    let (u, _, c, _, _) = authenticate_sound digest token pepper at b db' r e in
    let id_is : u.id ≡ s.id = some-inj (sym c.secret_id ∙ t) in
    let h = Steps-StaysRevoked s.id digest a b p (at_first a s k m v) in
    let revoked =
      All-Memᴰ (IsRevoked s.id) b.service_account_secrets h.revoked c.secret_there
        (rw id_is (text_eq_refl s.id)) in
    ground (arith, revoked, c.unrevoked)
