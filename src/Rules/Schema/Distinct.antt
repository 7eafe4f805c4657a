-- ===== src/Rules/Schema/Distinct.antt =====
-- shared/rules.ts: what the check of duplicates finds.
use mathlib.Core.List.{Memᴰ}
use opencoi.Base.{
  ℕ, ◌+◌, ◌≡◌, ◌↔◌, refl, sym, subst, false, List, [], ◌∷◌, any, any_of_Memᴰ, any-false, text_eq,
  text_eq_sound, text_eq_refl, Text, Bool-cases, inl, inr, All-of_forall,
}
use opencoi.Rules.Schema.{add_duplicate_issues, duplicate_issues_from}

-- No text stands twice.
abbrev pub IsDistinct : List Text → Type 0
IsDistinct [] = Unit
IsDistinct (x ∷ xs) = (¬ Memᴰ x xs) × IsDistinct xs

abbrev Avoids : List Text → List Text → Type 0
Avoids seen values = (v : Text) → Memᴰ v values → ¬ Memᴰ v seen

not_seen : (v : Text) (seen : List Text) → any (text_eq v) seen ≡ false → ¬ Memᴰ v seen
not_seen v seen h m = cc (h, any_of_Memᴰ (text_eq v) seen m (text_eq_refl v))

unseen : (v : Text) (seen : List Text) → ¬ Memᴰ v seen → any (text_eq v) seen ≡ false
unseen v seen h = any-false (text_eq v) seen (
    All-of_forall (λ w. text_eq v w ≡ false) seen
      (λ w m. elim (Bool-cases (text_eq v w)) [
        | inl e ↦ absurd (h (subst (λ x. Memᴰ x seen) (sym (text_eq_sound v w e)) m))
        | inr e ↦ e
      ]))

no_issue_here :
    (seen : List Text) (i : ℕ) (v : Text) (rest : List Text)
    → duplicate_issues_from seen i (v ∷ rest) ≡ []
    → (any (text_eq v) seen ≡ false) × (duplicate_issues_from (v ∷ seen) (i + 1) rest ≡ [])
unfolding duplicate_issues_from
no_issue_here seen i v rest h = elim (Bool-cases (any (text_eq v) seen)) [
  | inl e ↦ absurd (cons_ne_nil (rw (e, duplicate_issues_from) at h))
  | inr e ↦ (e, rw (e, duplicate_issues_from) at h)
]
  where
    cons_ne_nil : {x : ℕ} {xs : List ℕ} → x ∷ xs ≡ [] → ⊥
    cons_ne_nil q = cc

Avoids-cons :
    (v : Text) (seen rest : List Text)
    → ¬ Memᴰ v seen
    → Avoids (v ∷ seen) rest
    → Avoids seen (v ∷ rest)
Avoids-cons v seen rest h k w (Memᴰ.head e) m = h (subst (λ x. Memᴰ x seen) e m)
Avoids-cons v seen rest h k w (Memᴰ.tail n) m = k w n (Memᴰ.tail m)

no_issues-IsDistinct :
    (seen : List Text) (i : ℕ) (values : List Text)
    → duplicate_issues_from seen i values ≡ []
    → Avoids seen values × IsDistinct values
no_issues-IsDistinct seen i [] h = ((λ v m. elim m [ ]), tt)
no_issues-IsDistinct seen i (v ∷ rest) h =
    let (fresh, later) = no_issue_here seen i v rest h in
    let (avoids, distinct) = no_issues-IsDistinct (v ∷ seen) (i + 1) rest later in
    (
      Avoids-cons v seen rest (not_seen v seen fresh) avoids,
      ((λ m. avoids v m (Memᴰ.head refl)), distinct),
    )

Avoids-tail :
    (v : Text) (seen rest : List Text)
    → Avoids seen (v ∷ rest)
    → ¬ Memᴰ v rest
    → Avoids (v ∷ seen) rest
Avoids-tail v seen rest h d w m (Memᴰ.head e) = d (subst (λ x. Memᴰ x rest) e m)
Avoids-tail v seen rest h d w m (Memᴰ.tail n) = h w (Memᴰ.tail m) n

no_issues_of_IsDistinct :
    (seen : List Text) (i : ℕ) (values : List Text)
    → Avoids seen values
    → IsDistinct values
    → duplicate_issues_from seen i values ≡ []
unfolding duplicate_issues_from
no_issues_of_IsDistinct seen i [] h d = refl
no_issues_of_IsDistinct seen i (v ∷ rest) h d =
    rw (unseen v seen (h v (Memᴰ.head refl)))
      (no_issues_of_IsDistinct (v ∷ seen) (i + 1) rest (Avoids-tail v seen rest h d.0) d.1)

-- `addDuplicateIssues` adds no issue exactly when the values differ from one another.
pub add_duplicate_issues-nil_iff :
    (values : List Text) → (add_duplicate_issues values ≡ []) ↔ IsDistinct values
unfolding add_duplicate_issues
add_duplicate_issues-nil_iff values = (
  (λ h. (no_issues-IsDistinct [] 0 values h).1),
  no_issues_of_IsDistinct [] 0 values (λ v m n. elim n [ ]),
)
