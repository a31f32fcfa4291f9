-- ===== src/Kernel/Digest.antt =====
-- The digest of a transaction determines it (packages/schemas/transaction.py), if SHA-256 does not
-- collide.
use Prim.Native.String.{◌++◌}
use text.Mathlib.TextLemmas.{append_cancel_left}
use pactra.Base.{String, ◌≡◌, List, [], ◌∷◌}
use pactra.Kernel.Transaction.{
  Crypto, BoundTransaction, canonical_fields, canonical_message, digest, binding_domain,
  CanonicalValue, i, s, t, members,
}
use pactra.Kernel.Canonical.{Readable, read_number, read_text, read_instant, next}

-- The text that the digest of a transaction hashes.
abbrev pub message : Crypto → BoundTransaction → String
message c tx = canonical_message c binding_domain (canonical_fields tx)

-- SHA-256 does not collide on two texts.
abbrev pub Distinguishes : Crypto → String → String → Type 0
Distinguishes c m m' = c.sha256 m ≡ c.sha256 m' → m ≡ m'

-- The fields in the order of their names, from each on.
abbrev from_quantity : BoundTransaction → List (String × CanonicalValue)
from_quantity tx = ("quantity", i tx.quantity) ∷ []

abbrev from_product_id : BoundTransaction → List (String × CanonicalValue)
from_product_id tx = ("product_id", s tx.product_id) ∷ from_quantity tx

abbrev from_policy_version : BoundTransaction → List (String × CanonicalValue)
from_policy_version tx = ("policy_version", s tx.policy_version) ∷ from_product_id tx

abbrev from_offer_version : BoundTransaction → List (String × CanonicalValue)
from_offer_version tx = ("offer_version", s tx.offer_version) ∷ from_policy_version tx

abbrev from_nonce : BoundTransaction → List (String × CanonicalValue)
from_nonce tx = ("nonce", s tx.nonce) ∷ from_offer_version tx

abbrev from_merchant_id : BoundTransaction → List (String × CanonicalValue)
from_merchant_id tx = ("merchant_id", s tx.merchant_id) ∷ from_nonce tx

abbrev from_expires_at : BoundTransaction → List (String × CanonicalValue)
from_expires_at tx = ("expires_at", t tx.expires_at) ∷ from_merchant_id tx

abbrev from_currency : BoundTransaction → List (String × CanonicalValue)
from_currency tx = ("currency", s tx.currency) ∷ from_expires_at tx

abbrev from_amount_inr : BoundTransaction → List (String × CanonicalValue)
from_amount_inr tx = ("amount_inr", i tx.amount_inr) ∷ from_currency tx

message-injective :
    (c : Crypto) → Readable c → (a b : BoundTransaction) → message c a ≡ message c b → a ≡ b
unfolding canonical_message canonical_fields
message-injective c readable a b h =
    let r0 : members c (from_amount_inr a) ++ "}" ≡ members c (from_amount_inr b) ++ "}" =
      append_cancel_left _ _ _ (append_cancel_left _ _ _ (append_cancel_left _ _ _ h)) in
    let (e0, r1) =
      read_number c readable "amount_inr" a.amount_inr b.amount_inr (from_currency a)
        (from_currency b) "}" "}" r0 in
    let (e1, r2) =
      read_text c readable "currency" a.currency b.currency (from_expires_at a) (from_expires_at b)
        "}" "}" (next c readable _ _ _ _ _ _ r1) in
    let (e2, r3) =
      read_instant c readable "expires_at" a.expires_at b.expires_at (from_merchant_id a)
        (from_merchant_id b) "}" "}" (next c readable _ _ _ _ _ _ r2) in
    let (e3, r4) =
      read_text c readable "merchant_id" a.merchant_id b.merchant_id (from_nonce a) (from_nonce b)
        "}" "}" (next c readable _ _ _ _ _ _ r3) in
    let (e4, r5) =
      read_text c readable "nonce" a.nonce b.nonce (from_offer_version a) (from_offer_version b) "}"
        "}" (next c readable _ _ _ _ _ _ r4) in
    let (e5, r6) =
      read_text c readable "offer_version" a.offer_version b.offer_version (from_policy_version a)
        (from_policy_version b) "}" "}" (next c readable _ _ _ _ _ _ r5) in
    let (e6, r7) =
      read_text c readable "policy_version" a.policy_version b.policy_version (from_product_id a)
        (from_product_id b) "}" "}" (next c readable _ _ _ _ _ _ r6) in
    let (e7, r8) =
      read_text c readable "product_id" a.product_id b.product_id (from_quantity a)
        (from_quantity b) "}" "}" (next c readable _ _ _ _ _ _ r7) in
    let (e8, r9) =
      read_number c readable "quantity" a.quantity b.quantity [] [] "}" "}"
        (next c readable _ _ _ _ _ _ r8) in
    cc (e0, e1, e2, e3, e4, e5, e6, e7, e8)

pub digest-binds :
    (c : Crypto) (a b : BoundTransaction)
    → Readable c
    → Distinguishes c (message c a) (message c b)
    → digest c a ≡ digest c b
    → a ≡ b
unfolding digest
digest-binds c a b readable apart h = message-injective c readable a b (apart h)
