-- ===== src/Kernel/Canonical.antt =====
-- The canonical text of fields determines them (packages/schemas/canonical.py).
use Prim.Native.String.{◌++◌}
use text.Mathlib.TextLemmas.{append_assoc, append_cancel_left}
use pactra.Base.{ℕ, String, Text, Moment, ◌≡◌, refl, sym, ◌∙◌, List, [], ◌∷◌}
use pactra.Kernel.Transaction.{
  CanonicalValue, i, s, t, Crypto, int, str, encode_value, member, members,
}

-- What JSON and the format of instants promise: a number or a string is read back up to the bracket
-- that follows it, and different instants are written differently.
pub record Readable (c : Crypto) : Type 0 where
  pub numbers :
      (k l : ℕ) (r r' : String)
      → c.dumps (int k) ++ ("]" ++ r) ≡ c.dumps (int l) ++ ("]" ++ r')
      → (k ≡ l) × (r ≡ r')
  pub texts :
      (x y : Text) (r r' : String)
      → c.dumps (str x) ++ ("]" ++ r) ≡ c.dumps (str y) ++ ("]" ++ r')
      → (x ≡ y) × (r ≡ r')
  pub instants : (m m' : Moment) → c.strftime m ≡ c.strftime m' → m ≡ m'

module _ (c : Crypto) (readable : Readable c) where
  opening : String → String → String → String
  opening name tag rest = "\"" ++ (name ++ ("\":[\"" ++ (tag ++ ("\"," ++ rest))))

  -- A member, up to the payload.
  member_open :
      (name : String) (v : CanonicalValue) (r : String)
      → member c (name, v) ++ r
        ≡ opening name (encode_value c v).0 (c.dumps (encode_value c v).1 ++ ("]" ++ r))
  unfolding opening
  member_open name v r = simp append_assoc

  cancel_opening :
      (name tag : String) (r r' : String) → opening name tag r ≡ opening name tag r' → r ≡ r'
  unfolding opening
  cancel_opening name tag r r' h = append_cancel_left _ _ _ (
      append_cancel_left _ _ _
        (append_cancel_left _ _ _ (append_cancel_left _ _ _ (append_cancel_left _ _ _ h))))

  payloads :
      (name : String) (v w : CanonicalValue) (r r' : String)
      → (encode_value c v).0 ≡ (encode_value c w).0
      → member c (name, v) ++ r ≡ member c (name, w) ++ r'
      → c.dumps (encode_value c v).1 ++ ("]" ++ r) ≡ c.dumps (encode_value c w).1 ++ ("]" ++ r')
  payloads name v w r r' tags h =
      cancel_opening name (encode_value c w).0 _ _
        (rw tags at (sym (member_open name v r) ∙ h ∙ member_open name w r'))

  same_number :
      (name : String) (k l : ℕ) (r r' : String)
      → member c (name, i k) ++ r ≡ member c (name, i l) ++ r'
      → (k ≡ l) × (r ≡ r')
  unfolding encode_value
  same_number name k l r r' h = readable.numbers k l r r' (payloads name (i k) (i l) r r' refl h)

  same_text :
      (name : String) (x y : Text) (r r' : String)
      → member c (name, s x) ++ r ≡ member c (name, s y) ++ r'
      → (x ≡ y) × (r ≡ r')
  unfolding encode_value
  same_text name x y r r' h = readable.texts x y r r' (payloads name (s x) (s y) r r' refl h)

  same_instant :
      (name : String) (m m' : Moment) (r r' : String)
      → member c (name, t m) ++ r ≡ member c (name, t m') ++ r'
      → (m ≡ m') × (r ≡ r')
  unfolding encode_value
  same_instant name m m' r r' h =
      let (texts, rest) =
        readable.texts (c.strftime m) (c.strftime m') r r'
          (payloads name (t m) (t m') r r' refl h) in
      (readable.instants m m' texts, rest)

  unfoldable pub rest_of : List (String × CanonicalValue) → String → String
  rest_of [] r = r
  rest_of (g ∷ gs) r = "," ++ (members c (g ∷ gs) ++ r)

  members_split :
      (f : String × CanonicalValue) (fs : List (String × CanonicalValue)) (r : String)
      → members c (f ∷ fs) ++ r ≡ member c f ++ rest_of fs r
  unfolding rest_of
  members_split f [] r = refl
  members_split f (g ∷ gs) r = simp append_assoc

  pub read_number :
      (name : String) (k l : ℕ) (fs gs : List (String × CanonicalValue)) (r r' : String)
      → members c ((name, i k) ∷ fs) ++ r ≡ members c ((name, i l) ∷ gs) ++ r'
      → (k ≡ l) × (rest_of fs r ≡ rest_of gs r')
  read_number name k l fs gs r r' h =
      same_number name k l (rest_of fs r) (rest_of gs r')
        (sym (members_split (name, i k) fs r) ∙ h ∙ members_split (name, i l) gs r')

  pub read_text :
      (name : String) (x y : Text) (fs gs : List (String × CanonicalValue)) (r r' : String)
      → members c ((name, s x) ∷ fs) ++ r ≡ members c ((name, s y) ∷ gs) ++ r'
      → (x ≡ y) × (rest_of fs r ≡ rest_of gs r')
  read_text name x y fs gs r r' h =
      same_text name x y (rest_of fs r) (rest_of gs r')
        (sym (members_split (name, s x) fs r) ∙ h ∙ members_split (name, s y) gs r')

  -- The first field of two lists is read off.
  pub read_instant :
      (name : String) (m m' : Moment) (fs gs : List (String × CanonicalValue)) (r r' : String)
      → members c ((name, t m) ∷ fs) ++ r ≡ members c ((name, t m') ∷ gs) ++ r'
      → (m ≡ m') × (rest_of fs r ≡ rest_of gs r')
  read_instant name m m' fs gs r r' h =
      same_instant name m m' (rest_of fs r) (rest_of gs r')
        (sym (members_split (name, t m) fs r) ∙ h ∙ members_split (name, t m') gs r')

  pub next :
      (f g : String × CanonicalValue) (fs gs : List (String × CanonicalValue)) (r r' : String)
      → rest_of (f ∷ fs) r ≡ rest_of (g ∷ gs) r'
      → members c (f ∷ fs) ++ r ≡ members c (g ∷ gs) ++ r'
  unfolding rest_of
  next f g fs gs r r' h = append_cancel_left _ _ _ h
