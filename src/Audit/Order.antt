-- ===== src/Audit/Order.antt =====
-- The sort of a chain's events (services/audit_ledger/verify.py) does not depend on the order in
-- which they come.
use mathlib.Core.List.Permᴰ
use mathlib.Core.List.{Permᴰ}
use pactra.Base.{
  ℕ, suc, ◌≤◌, ◌<◌, ◌≡◌, ◌≢◌, refl, ◌∙◌, Bool, Option, some, inl, inr, List, [], ◌∷◌, arith, ◌==◌,
  count, Bool-cases,
}
use pactra.Audit.Rows.{AuditEventRow, EventHash}
use pactra.Audit.Verify.{precedes, insert, ordered}
use pactra.Audit.Chain.{Linked}

insert_comm :
    (a b : AuditEventRow) (es : List AuditEventRow)
    → a.sequence ≢ b.sequence
    → insert a (insert b es) ≡ insert b (insert a es)
insert_comm a b [] apart = ground (arith, apart)
insert_comm a b (x ∷ xs) apart = ground (arith, apart, insert_comm a b xs apart)

abbrev pub at : ℕ → AuditEventRow → Bool
at k e = e.sequence == k

-- No sequence stands twice.
abbrev pub Distinct : List AuditEventRow → Type 0
Distinct es = (k : ℕ) → count (at k) es ≤ 1

count-Perm : (k : ℕ) {xs ys : List AuditEventRow} → Permᴰ xs ys → count (at k) xs ≡ count (at k) ys
count-Perm k Permᴰ.nil = refl
count-Perm k (Permᴰ.cons e p) = rw e (omega (arith, count-Perm k p))
count-Perm k (Permᴰ.swap e f) = rw (e, f) (omega arith)
count-Perm k (Permᴰ.trans p q) = count-Perm k p ∙ count-Perm k q

pub ordered-Perm-eq :
    {xs ys : List AuditEventRow} → Permᴰ xs ys → Distinct xs → ordered xs ≡ ordered ys
unfolding ordered
ordered-Perm-eq Permᴰ.nil d = refl
ordered-Perm-eq (Permᴰ.cons {a} e p) d = rw (e, ordered-Perm-eq p (λ k. omega (arith, d k))) refl
ordered-Perm-eq (Permᴰ.swap {a} {b} {a'} {b'} {l} e f) d =
    rw (e, f)
      (insert_comm b' a' (ordered l)
        (λ same. let two = d a.sequence in ground (arith, two, e, f, same)))
ordered-Perm-eq (Permᴰ.trans p q) d =
    ordered-Perm-eq p d
    ∙ ordered-Perm-eq q
        (λ k. let same = count-Perm k p in let once = d k in omega (arith, same, once))

insert-Perm : (e : AuditEventRow) (es : List AuditEventRow) → Permᴰ (insert e es) (e ∷ es)
insert-Perm e [] = Permᴰ.cons refl Permᴰ.nil
insert-Perm e (x ∷ xs) = elim (Bool-cases (precedes e x)) [
  | inl before ↦ rw before (Permᴰ.refl (e ∷ x ∷ xs))
  | inr after ↦ rw after (Permᴰ.trans (Permᴰ.cons refl (insert-Perm e xs)) (Permᴰ.swap refl refl))
]

pub ordered-Perm : (es : List AuditEventRow) → Permᴰ (ordered es) es
unfolding ordered
ordered-Perm [] = Permᴰ.nil
ordered-Perm (e ∷ es) = Permᴰ.trans (insert-Perm e (ordered es)) (Permᴰ.cons refl (ordered-Perm es))

-- The sequences of a chain from a position on are not before it.
later :
    (hash : EventHash) (i : ℕ) (p : Option AuditEventRow) (es : List AuditEventRow) (k : ℕ)
    → Linked hash i p es
    → k < i
    → count (at k) es ≡ 0
later hash i p [] k c l = refl
later hash i p (e ∷ es) k (_, q, _, _, c) l =
    let rest = later hash (suc i) (some e) es k c (omega (arith, l)) in ground (arith, q, l, rest)

pub Linked-Distinct :
    (hash : EventHash) (i : ℕ) (p : Option AuditEventRow) (es : List AuditEventRow)
    → Linked hash i p es
    → Distinct es
Linked-Distinct hash i p [] c k = omega arith
Linked-Distinct hash i p (e ∷ es) (_, q, _, _, c) k =
    let rest = Linked-Distinct hash (suc i) (some e) es c k in
    let none_here = later hash (suc i) (some e) es i c (omega arith) in
    ground (arith, q, rest, none_here)
