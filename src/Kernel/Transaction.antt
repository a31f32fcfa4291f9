-- ===== src/Kernel/Transaction.antt =====
-- The bound transaction and its canonical form (packages/schemas/transaction.py and
-- packages/schemas/canonical.py). SHA-256, Ed25519, the writing of one JSON scalar or of one instant
-- as a text, and the settings are not code of the repository: they are the fields of `Crypto`.
use Prim.Native.Nat.{Ordering}
use Prim.Native.String.{◌++◌, compare}
use pactra.Base.{ℕ, Text, Moment, Bool, true, false, Option, List, [], ◌∷◌, String, if◌then◌else◌}

-- A value that a canonical message covers, with its type tag.
pub data CanonicalValue : Type 0 where
  b : Bool → CanonicalValue
  i : ℕ → CanonicalValue
  s : Text → CanonicalValue
  t : Moment → CanonicalValue
  n : CanonicalValue

-- What `json.dumps` writes as one scalar.
pub data Scalar : Type 0 where
  flag : Bool → Scalar
  int : ℕ → Scalar
  str : Text → Scalar
  null : Scalar

-- A text whose characters the code reads: its code points.
abbrev pub Characters : Type 0
Characters = List ℕ

pub record Crypto : Type 0 where
  -- `hashlib.sha256(message).hexdigest()`
  pub sha256 : String → Text
  -- `json.dumps` of a scalar, and `strftime` with the format of the module
  pub dumps : Scalar → String
  pub strftime : Moment → Text
  -- `Ed25519PublicKey.from_public_bytes(bytes.fromhex(encoded))`, or `ValueError`
  pub load_public_key : Characters → Option Text
  -- `public_key.verify(signature, message)` returns
  pub verifies : Text → Characters → String → Bool
  -- `text[:16]`: the texts of the model are numbers, which have no characters.
  pub prefix16 : Text → Text
  -- `get_settings().demo_approver_signing_key_id` and `…_public_key_hex`
  pub approver_key_id : Text
  pub approver_public_key : Option Characters

-- `[type_tag, payload]`
unfoldable pub encode_value : Crypto → CanonicalValue → String × Scalar
encode_value c (b x) = ("b", flag x)
encode_value c (i k) = ("i", int k)
encode_value c (s x) = ("s", str x)
encode_value c (t m) = ("t", str (c.strftime m))
encode_value c n = ("n", null)

-- One member of the object. The names of fields are ASCII identifiers, which JSON writes as they are.
abbrev pub member : Crypto → String × CanonicalValue → String
member c (name, value) =
    let (tag, payload) = encode_value c value in
    "\"" ++ name ++ "\":[\"" ++ tag ++ "\"," ++ c.dumps payload ++ "]"

abbrev pub members : Crypto → List (String × CanonicalValue) → String
members c [] = ""
members c (f ∷ []) = member c f
members c (f ∷ g ∷ fs) = member c f ++ "," ++ members c (g ∷ fs)

-- `sort_keys=True`
abbrev pub is_before : String → String → Bool
is_before x y = elim (compare x y) [ Ordering.gt ↦ false | _ ↦ true ]

abbrev pub insert_key :
    String × CanonicalValue → List (String × CanonicalValue) → List (String × CanonicalValue)
insert_key f [] = f ∷ []
insert_key f (g ∷ gs) =
    let rest = insert_key f gs in if is_before f.0 g.0 then f ∷ g ∷ gs else g ∷ rest

abbrev pub sort_keys : List (String × CanonicalValue) → List (String × CanonicalValue)
sort_keys [] = []
sort_keys (f ∷ fs) = insert_key f (sort_keys fs)

unfoldable pub canonical_bytes : Crypto → List (String × CanonicalValue) → String
unfolding encode_value
canonical_bytes c fields = "{" ++ members c (sort_keys fields) ++ "}"

-- The domains of the callers are constants, none of them empty.
unfoldable pub canonical_message : Crypto → String → List (String × CanonicalValue) → String
unfolding canonical_bytes
canonical_message c domain fields = domain ++ "\u{1f}" ++ canonical_bytes c fields

unfoldable pub canonical_digest : Crypto → String → List (String × CanonicalValue) → Text
unfolding canonical_message
canonical_digest c domain fields = c.sha256 (canonical_message c domain fields)

-- `BINDING_VERSION`, as a column and as the domain of the digest, and `APPROVAL_DOMAIN`.
abbrev pub binding_version : Text
binding_version = 1

abbrev pub binding_domain : String
binding_domain = "pactra-txn-bind-v1"

abbrev pub approval_domain : String
approval_domain = "pactra-user-approval-v1"

pub record BoundTransaction : Type 0 where
  pub merchant_id : Text
  pub product_id : Text
  pub quantity : ℕ
  pub amount_inr : ℕ
  pub currency : Text
  pub policy_version : Text
  pub offer_version : Text
  pub expires_at : Moment
  pub nonce : Text

unfoldable pub canonical_fields : BoundTransaction → List (String × CanonicalValue)
canonical_fields tx =
    ("merchant_id", s tx.merchant_id)
    ∷ ("product_id", s tx.product_id)
    ∷ ("quantity", i tx.quantity)
    ∷ ("amount_inr", i tx.amount_inr)
    ∷ ("currency", s tx.currency)
    ∷ ("policy_version", s tx.policy_version)
    ∷ ("offer_version", s tx.offer_version)
    ∷ ("expires_at", t tx.expires_at)
    ∷ ("nonce", s tx.nonce)
    ∷ []

unfoldable pub digest : Crypto → BoundTransaction → Text
unfolding canonical_fields canonical_digest
digest c tx = canonical_digest c binding_domain (canonical_fields tx)
