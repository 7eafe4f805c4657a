-- ===== src/Audit/Verify/Chain.antt =====
-- server/audit.ts: what a valid chain is, and that an append keeps it.
use opencoi.Base.{
  ℕ, ◌+◌, ◌<◌, ◌≡◌, ◌≢◌, ◌↔◌, refl, sym, subst, ap, ◌∙◌, true, false, not, Option, none, some, List,
  [], ◌∷◌, arith, if◌then◌else◌, Text, text_eq, text_eq_sound, text_eq_refl, truthy, length,
  Option-cases, Bool-cases, inl, inr, filter, compare, Ordering,
}
use opencoi.Base.Sort.{sort, insert_sorted}
use opencoi.Audit.{AuditEventRow, Platform, genesis_hash, by_sequence, events_of}
use opencoi.Audit.Json.{hash_event, event_text}
use opencoi.Audit.Append.{
  AppendAuditEventInput, last_link, unhashed_event, new_event, append_audit_event,
}
use opencoi.Audit.Verify.{
  AuditChainError, valid, invalid, row_error, hash_error, verify_rows, verify_audit_chain,
}

text_eq_of : (s t : Text) → s ≡ t → text_eq s t ≡ true
text_eq_of s t h = subst (λ u. text_eq s u ≡ true) h (text_eq_refl s)

module _ (p : Platform) (o : Text) where
  -- A row follows a link: its number is the next, its previous hash the link's, and its hash that of
  -- its contents.
  pub record Follows (link : ℕ × Text) (r : AuditEventRow) : Type 0 where
    pub next : r.sequence_number ≡ link.0 + 1
    pub previous : r.previous_hash ≡ link.1
    pub hashed :
        (m : Text) × (p.recanonicalize r.metadata_json ≡ some m)
        × (r.event_hash ≡ hash_event p o r m link.1)

  abbrev pub IsChain : ℕ × Text → List AuditEventRow → Type 0
  IsChain link [] = Unit
  IsChain link (r ∷ rs) = Follows link r × IsChain (r.sequence_number, r.event_hash) rs

  hash_error-none :
      (prev : Text) (r : AuditEventRow) (x : Option Text)
      → hash_error p o prev r x ≡ none
      → (m : Text) × (x ≡ some m) × (r.event_hash ≡ hash_event p o r m prev)
  unfolding hash_error
  hash_error-none prev r none h = ground arith
  hash_error-none prev r (some m) h =
      (m, refl, text_eq_sound r.event_hash (hash_event p o r m prev) (ground arith))

  hash_error_passes :
      (prev : Text) (r : AuditEventRow) (x : Option Text) (m : Text)
      → x ≡ some m
      → r.event_hash ≡ hash_event p o r m prev
      → hash_error p o prev r x ≡ none
  unfolding hash_error
  hash_error_passes prev r x m e h =
      rw (e, hash_error, text_eq_of r.event_hash (hash_event p o r m prev) h)

  row_error-Follows :
      (k : ℕ) (prev : Text) (r : AuditEventRow)
      → (row_error p o prev (k + 1) r ≡ none) ↔ Follows (k, prev) r
  unfolding row_error
  row_error-Follows k prev r = (
    (λ h. record {
      next = ground arith;
      previous = text_eq_sound r.previous_hash prev (ground arith);
      hashed = hash_error-none prev r (p.recanonicalize r.metadata_json) (ground arith);
    }),
    (λ f. ground (
      arith,
      f.next,
      f.previous,
      text_eq_refl prev,
      hash_error_passes prev r (p.recanonicalize r.metadata_json) f.hashed.0 f.hashed.1 f.hashed.2,
    )),
  )

  verify_rows-IsChain :
      (prev : Text) (k n : ℕ) (rows : List AuditEventRow)
      → verify_rows p o prev k rows ≡ valid n
      → IsChain (k, prev) rows × (n ≡ k + length rows)
  unfolding verify_rows
  verify_rows-IsChain prev k n [] h = (tt, ground arith)
  verify_rows-IsChain prev k n (r ∷ rows) h = elim (Option-cases (row_error p o prev (k + 1) r)) [
    | inl e ↦
        let f = (row_error-Follows k prev r).0 e in
        let (c, q) = verify_rows-IsChain r.event_hash (k + 1) n rows (rw (e, verify_rows) at h) in
        ((f, subst (λ i. IsChain (i, r.event_hash) rows) (sym f.next) c), omega arith)
    | inr (x, e) ↦ absurd (not_valid (rw (e, verify_rows) at h))
  ]
    where
      not_valid : {a b c : ℕ} {x : AuditChainError} → invalid a x b ≡ valid c → ⊥
      not_valid q = ground arith

  IsChain-valid :
      (prev : Text) (k : ℕ) (rows : List AuditEventRow)
      → IsChain (k, prev) rows
      → verify_rows p o prev k rows ≡ valid (k + length rows)
  unfolding verify_rows
  IsChain-valid prev k [] h = ap valid (omega arith)
  IsChain-valid prev k (r ∷ rows) (f, c) =
      rw ((row_error-Follows k prev r).1 f, verify_rows)
        (IsChain-valid r.event_hash (k + 1) rows
            (subst (λ i. IsChain (i, r.event_hash) rows) f.next c)
          ∙ ap valid (omega arith))

  -- The number of a chain's last event is the number of its events.
  last_number :
      (prev : Text) (k : ℕ) (rows : List AuditEventRow)
      → IsChain (k, prev) rows
      → (last_link (k, prev) rows).0 ≡ k + length rows
  unfolding last_link
  last_number prev k [] h = omega arith
  last_number prev k (r ∷ rows) (f, c) =
      last_number r.event_hash r.sequence_number rows c ∙ (rw f.next (omega arith))

  -- An event that follows the last one is sorted to the end.
  insert-IsChain :
      (prev : Text) (k : ℕ) (rows : List AuditEventRow) (e : AuditEventRow)
      → IsChain (k, prev) rows
      → Follows (last_link (k, prev) rows) e
      → IsChain (k, prev) (insert_sorted by_sequence e rows)
        × (length (insert_sorted by_sequence e rows) ≡ length rows + 1)
  unfolding last_link insert_sorted
  insert-IsChain prev k [] e h f = ((f, tt), refl)
  insert-IsChain prev k (r ∷ rows) e (g, c) f =
      let (c', l) = insert-IsChain r.event_hash r.sequence_number rows e c f in
      let later = last_number r.event_hash r.sequence_number rows c in
      rw (after r.sequence_number e.sequence_number (omega (arith, later, f.next)), insert_sorted)
        ((g, c'), omega (arith, l))
    where
      after : (a b : ℕ) → a < b → compare b a ≡ Ordering.gt
      after a b h = ground arith

  new_event-Follows :
      (input : AppendAuditEventInput) (link : ℕ × Text)
      → p.recanonicalize input.metadata ≡ some input.metadata
      → Follows link (new_event p o input link)
  unfolding new_event unhashed_event hash_event event_text
  new_event-Follows input link law = record {
    next = refl;
    previous = refl;
    hashed = (input.metadata, law, refl);
  }

  events_of-new :
      (e : AuditEventRow) (rows : List AuditEventRow)
      → e.organization_id ≡ o
      → events_of o (e ∷ rows) ≡ insert_sorted by_sequence e (events_of o rows)
  unfolding events_of filter sort
  events_of-new e rows q = rw (text_eq_of e.organization_id o q) refl

  append_passes :
      (input : AppendAuditEventInput) (rows after : List AuditEventRow)
      → append_audit_event p o input rows ≡ some after
      → (truthy o ≡ true)
        × (after ≡ new_event p o input (last_link (0, genesis_hash) (events_of o rows)) ∷ rows)
  unfolding append_audit_event
  append_passes input rows after h = ground arith

-- `verifyAuditChain` finds the chain of an organization valid, with n events checked, exactly when
-- the organization has n events and each follows the one before, the first the genesis hash: its
-- number is the next, it names the hash before it, and its hash is that of its contents.
pub verify_audit_chain-valid_iff :
    (p : Platform) (o : Text) (rows : List AuditEventRow) (n : ℕ)
    → (verify_audit_chain p o rows ≡ some (valid n)) ↔ (
        (truthy o ≡ true)
        × IsChain p o (0, genesis_hash) (events_of o rows)
        × (n ≡ length (events_of o rows)))
unfolding verify_audit_chain
verify_audit_chain-valid_iff p o rows n = (
  (λ h.
      let (c, q) = verify_rows-IsChain p o genesis_hash 0 n (events_of o rows) (ground arith) in
      (ground arith, c, omega (arith, q))),
  (λ (t, c, q). rw t (
      ap some
        (IsChain-valid p o genesis_hash 0 (events_of o rows) c ∙ ap valid (omega (arith, q))))),
)

-- Where the chain of an organization is valid, it is valid with one event more after
-- `appendAuditEvent` returns, if `JSON.parse` reads the canonical text of the metadata as a value with that
-- text.
pub append_audit_event-valid :
    (p : Platform) (o : Text) (input : AppendAuditEventInput) (rows after : List AuditEventRow)
    (n : ℕ)
    → p.recanonicalize input.metadata ≡ some input.metadata
    → verify_audit_chain p o rows ≡ some (valid n)
    → append_audit_event p o input rows ≡ some after
    → verify_audit_chain p o after ≡ some (valid (n + 1))
append_audit_event-valid p o input rows after n law v a =
    let (t, c, q) = (verify_audit_chain-valid_iff p o rows n).0 v in
    let (t', w) = append_passes p o input rows after a in
    let link = last_link (0, genesis_hash) (events_of o rows) in
    let (c', l) =
      insert-IsChain p o genesis_hash 0 (events_of o rows) (new_event p o input link) c
        (new_event-Follows p o input link law) in
    let same =
      ap (events_of o) w
      ∙ events_of-new p o (new_event p o input link) rows
          (unfold new_event unhashed_event in refl) in
    (verify_audit_chain-valid_iff p o after (n + 1)).1 (
      t,
      subst (IsChain p o (0, genesis_hash)) (sym same) c',
      ap (λ x. x + 1) q ∙ sym l ∙ ap length (sym same),
    )

text_ne : (s t : Text) → s ≢ t → text_eq s t ≡ false
text_ne s t d = elim (Bool-cases (text_eq s t)) [
  | inl e ↦ absurd (d (text_eq_sound s t e))
  | inr e ↦ e
]

events_of-other :
    (o : Text) (e : AuditEventRow) (rows : List AuditEventRow)
    → text_eq e.organization_id o ≡ false
    → events_of o (e ∷ rows) ≡ events_of o rows
unfolding events_of filter
events_of-other o e rows q = rw q refl

-- An append for one organization leaves the verification of every other as it is.
pub append_audit_event-other :
    (p : Platform) (o o' : Text) (input : AppendAuditEventInput) (rows after : List AuditEventRow)
    → o ≢ o'
    → append_audit_event p o input rows ≡ some after
    → verify_audit_chain p o' after ≡ verify_audit_chain p o' rows
unfolding verify_audit_chain
append_audit_event-other p o o' input rows after d a =
    let e = new_event p o input (last_link (0, genesis_hash) (events_of o rows)) in
    ap (λ es. if not (truthy o') then none else some (verify_rows p o' genesis_hash 0 es))
      (ap (events_of o') (append_passes p o input rows after a).1
        ∙ events_of-other o' e rows (unfold new_event unhashed_event in (text_ne o o' d)))
